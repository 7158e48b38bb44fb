-- ===== src/Tests/Ranges.antt =====
-- `Range` headers at a blob of a hundred bytes.
use iroh_content_discovery.Prelude.{ℕ, ◌≡◌, refl, some, List, [], ◌∷◌, ◌++◌, arith}
use iroh_content_discovery.Prelude.Sort.{sort}
use iroh_content_discovery.Prelude.Bytes.{split_once, split, trim, strip_prefix}
use iroh_content_discovery.Gateway.Ranges.{
  full, partial, unsatisfiable, merge_into, merge, suffix_range, start_range, end_of, number,
  single_parts, single, add_part, collect, chosen, bytes_unit, select_parts, select,
}
use iroh_content_discovery.Gateway.Ranges.Bounds.{Chosen, select-Chosen}
use iroh_content_discovery.Gateway.Ranges.Header.{
  from_to, last_n, requested, header_specs, all_specs,
}

program : Unit {0}
unfolding sort merge_into merge suffix_range start_range end_of number split_once single_parts
    single split trim add_part collect chosen strip_prefix select_parts select
program = tt

-- `3-9, 0-4,-2`
abbrev three_parts : List ℕ
three_parts = 51 ∷ 45 ∷ 57 ∷ 44 ∷ 32 ∷ 48 ∷ 45 ∷ 52 ∷ 44 ∷ 45 ∷ 50 ∷ []

three_parts-select :
    select (some (bytes_unit ++ three_parts)) 100
    ≡ partial (record { start = 0; end = 10 } ∷ record { start = 98; end = 100 } ∷ [])
unfolding program
three_parts-select = refl

-- `100-` and `7`
past_the_end : select (some (bytes_unit ++ (49 ∷ 48 ∷ 48 ∷ 45 ∷ []))) 100 ≡ unsatisfiable
unfolding program
past_the_end = refl

no_dash : select (some (bytes_unit ++ (55 ∷ []))) 100 ≡ full
unfolding program
no_dash = refl

select-Chosen_example :
    Chosen 100
      (requested (some (bytes_unit ++ three_parts)))
      (select (some (bytes_unit ++ three_parts)) 100)
select-Chosen_example = select-Chosen (some (bytes_unit ++ three_parts)) 100 (omega arith)

three_parts-requested :
    requested (some (bytes_unit ++ three_parts)) ≡ some (from_to 3 9 ∷ from_to 0 4 ∷ last_n 2 ∷ [])
unfolding program header_specs all_specs
three_parts-requested = refl
