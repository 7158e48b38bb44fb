-- ===== src/Gateway/Ranges/Header.antt =====
-- What a `Range` header asks for, read by its grammar: the description that `select` is compared to.
use iroh_content_discovery.Prelude.{
  ℕ, ◌+◌, Bool, false, ◌&&◌, ◌||◌, Option, none, some, List, [], ◌∷◌, ltb, leb, length,
  if◌then◌else◌,
}
use iroh_content_discovery.Prelude.Bytes.{split, split_once, trim, strip_prefix}
use iroh_content_discovery.Gateway.Ranges.{number, bytes_unit}

-- `start-last`, `start-` and `-length`.
pub data RangeSpec : Type 0 where
  from_to : (start last : ℕ) → RangeSpec
  from_on : (start : ℕ) → RangeSpec
  last_n : (count : ℕ) → RangeSpec

-- Whether a byte of a blob of some size is asked for.
abbrev pub asks : ℕ → RangeSpec → ℕ → Bool
asks size (from_to start last) b = ltb b size && (leb start b && leb b last)
asks size (from_on start) b = ltb b size && leb start b
asks size (last_n count) b = ltb b size && leb size (b + count)

abbrev pub asked_by : ℕ → List RangeSpec → ℕ → Bool
asked_by size [] b = false
asked_by size (spec ∷ specs) b = asks size spec b || asked_by size specs b

abbrev pub suffix_spec : Option ℕ → Option RangeSpec
suffix_spec none = none
suffix_spec (some count) = some (last_n count)

abbrev pub closed_spec : ℕ → Option ℕ → Option RangeSpec
closed_spec start none = none
closed_spec start (some last) = if ltb last start then none else some (from_to start last)

abbrev pub start_spec : Option ℕ → List ℕ → Option RangeSpec
start_spec none last = none
start_spec (some start) [] = some (from_on start)
start_spec (some start) (b ∷ bs) = closed_spec start (number (b ∷ bs))

-- The parts around the first dash; `none` is a malformed range.
abbrev pub spec_of_parts : Option (List ℕ × List ℕ) → Option RangeSpec
spec_of_parts none = none
spec_of_parts (some ([], last)) = suffix_spec (number last)
spec_of_parts (some (b ∷ bs, last)) = start_spec (number (b ∷ bs)) last

abbrev pub and_spec : Option RangeSpec → Option (List RangeSpec) → Option (List RangeSpec)
and_spec none specs = none
and_spec (some spec) none = none
and_spec (some spec) (some specs) = some (spec ∷ specs)

unfoldable pub all_specs : List (List ℕ) → Option (List RangeSpec)
unfolding number split_once trim
all_specs [] = some []
all_specs (part ∷ parts) = and_spec (spec_of_parts (split_once 45 (trim part))) (all_specs parts)

-- At most 16 parts, all of them well-formed.
unfoldable pub header_specs : List (List ℕ) → Option (List RangeSpec)
unfolding all_specs
header_specs parts = if ltb 16 (length parts) then none else all_specs parts

abbrev pub value_specs : Option (List ℕ) → Option (List RangeSpec)
value_specs none = none
value_specs (some value) = header_specs (split 44 value)

-- What a header asks for, or `none` where it is to be ignored.
abbrev pub requested : Option (List ℕ) → Option (List RangeSpec)
requested none = none
requested (some header) = value_specs (strip_prefix bytes_unit header)
