-- ===== src/Gateway/Collection/Lookup.antt =====
-- What a path is found as: a name, a directory with the names below it, or nothing.
use iroh_content_discovery.Prelude.{
  ◌≡◌, refl, ap, sym, subst, ◌∙◌, ◌⊎◌, ◌↔◌, Option-cases, inl, inr, Bool, true, false, ◌&&◌, ◌||◌,
  not, Option, none, some, List, [], ◌∷◌, ◌++◌, arith, ℕ, if◌then◌else◌, Bool-cases,
}
use iroh_content_discovery.Prelude.Bytes.{
  codes, split_once, strip_prefix, starts_with, starts_with_strip, ends_with,
}
use iroh_content_discovery.Prelude.Bytes.Suffix.{strip_suffix-append}
use iroh_content_discovery.Gateway.Collection.{
  Files, Entries, insert_name, add_split, add_rest, collect_entries, is_empty, new_entries,
  any_starts_with, find_name, Found, found_file, found_directory, missing, directory_of,
  found_entries, found_or, find_path,
}

insert_name_some :
    (name : List ℕ) (names : List (List ℕ)) → is_empty (insert_name name names) ≡ false
unfolding insert_name is_empty
insert_name_some name [] = refl
insert_name_some name (other ∷ names) = ground arith

abbrev no_entries : Entries → Bool
no_entries e = is_empty e.dirs && is_empty e.files

add_split_some :
    (o : Option (List ℕ × List ℕ)) (rest hash : List ℕ) (e : Entries)
    → no_entries (add_split o rest hash e) ≡ false
unfolding add_split is_empty
add_split_some (some (sub, below)) rest hash e = ground (arith, insert_name_some sub e.dirs)
add_split_some none rest hash e = ground arith

add_rest_nothing :
    (o : Option (List ℕ)) (hash : List ℕ) (e : Entries)
    → no_entries (add_rest o hash e) ≡ true
    → (o ≡ none) × (no_entries e ≡ true)
unfolding add_rest
add_rest_nothing none hash e h = (refl, h)
add_rest_nothing (some rest) hash e h =
    let some_entry = add_split_some (split_once b'/' rest) rest hash e in absurd cc

-- A directory without entries starts no name.
collect_entries_none :
    (dir : List ℕ) (c : Files)
    → no_entries (collect_entries dir c) ≡ true
    → any_starts_with dir c ≡ false
unfolding collect_entries any_starts_with
collect_entries_none dir [] h = refl
collect_entries_none dir ((name, hash) ∷ c) h =
    let (e, more) = add_rest_nothing (strip_prefix dir name) hash (collect_entries dir c) h in
    rw (starts_with_strip dir name, e) (collect_entries_none dir c more)

starts_with_less :
    (p q name : List ℕ) → starts_with (p ++ q) name ≡ true → starts_with p name ≡ true
unfolding starts_with
starts_with_less [] q name h = refl
starts_with_less (c ∷ p) q [] h = h
starts_with_less (c ∷ p) q (b ∷ name) h = ground (arith, starts_with_less p q name)

-- A name below a longer prefix is below the shorter one.
any_starts_with_less :
    (p q : List ℕ) (c : Files) → any_starts_with (p ++ q) c ≡ true → any_starts_with p c ≡ true
unfolding any_starts_with
any_starts_with_less p q [] h = cc
any_starts_with_less p q ((name, hash) ∷ c) h =
    ground (arith, starts_with_less p q name, any_starts_with_less p q c)

either_true : (a b : Bool) (x y : List ℕ) → b ≡ true → (if a || b then x else y) ≡ x
either_true true b x y h = refl
either_true false b x y h = rw h refl

ends_slash : (path : List ℕ) → ends_with (codes "/") (path ++ codes "/") ≡ true
ends_slash path =
    ap (λ o. elim o as (λ _. Bool) [ none ↦ false | some _ ↦ true ]) (strip_suffix-append b'/' path)

directory_of_slash : (path : List ℕ) → directory_of (path ++ codes "/") ≡ path ++ codes "/"
unfolding directory_of
directory_of_slash path =
    either_true (is_empty (path ++ codes "/")) (ends_with (codes "/") (path ++ codes "/"))
      (path ++ codes "/") (path ++ codes "/" ++ codes "/") (ends_slash path)

and_false : (b : Bool) → (b && false) ≡ false
and_false true = refl
and_false false = refl

new_entries_below :
    (dir : List ℕ) (c : Files) → any_starts_with dir c ≡ true → ¬ (new_entries dir c ≡ none)
unfolding new_entries
new_entries_below dir c h =
    let full = collect_entries_none dir c in
    elim (Bool-cases (no_entries (collect_entries dir c))) [
      | inl e ↦ absurd (let f = full e in cc)
      | inr e ↦ rw (e, and_false (not (is_empty dir))) (λ p. cc)
    ]

-- A directory with the entries that the collection has below it.
abbrev pub IsDirectory : List ℕ → Files → Found → Type 0
IsDirectory dir c found =
    (e : Entries) × (found ≡ found_directory dir e) × (new_entries dir c ≡ some e)

found_entries-IsDirectory :
    (dir : List ℕ) (c : Files)
    → any_starts_with dir c ≡ true
    → IsDirectory dir c (found_entries dir (new_entries dir c))
unfolding found_entries
found_entries-IsDirectory dir c h = elim (Option-cases (new_entries dir c)) [
  | inl e ↦ absurd (new_entries_below dir c h e)
  | inr (entries, e) ↦ (entries, rw e refl, e)
]

directory_of_less :
    (path : List ℕ) (c : Files)
    → any_starts_with (path ++ codes "/") c ≡ true
    → any_starts_with (directory_of path) c ≡ true
unfolding directory_of
directory_of_less path c h = elim (Bool-cases (is_empty path || ends_with (codes "/") path)) [
  | inl e ↦ rw e (any_starts_with_less path (codes "/") c h)
  | inr e ↦ rw e h
]

-- What a path is found as, by whether names stand below it and whether it is a name.
pub find_path_below :
    (path : List ℕ) (c : Files)
    → any_starts_with (path ++ codes "/") c ≡ true
    → IsDirectory (directory_of path) c (find_path path c)
unfolding find_path found_or
find_path_below path c h =
    rw h (found_entries-IsDirectory (directory_of path) c (directory_of_less path c h))

pub find_path_file :
    (path hash : List ℕ) (c : Files)
    → any_starts_with (path ++ codes "/") c ≡ false
    → find_name path c ≡ some hash
    → find_path path c ≡ found_file path hash
unfolding find_path found_or
find_path_file path hash c h e = rw (h, e) refl

find_path_neither :
    (path : List ℕ) (c : Files)
    → any_starts_with (path ++ codes "/") c ≡ false
    → find_name path c ≡ none
    → find_path path c ≡ found_entries (directory_of path) (new_entries (directory_of path) c)
unfolding find_path found_or
find_path_neither path c h e = rw (h, e) refl

-- The path of a directory with a slash: the directory, but for a file whose own name ends so.
pub find_path-IsDirectory :
    (path : List ℕ) (c : Files)
    → any_starts_with (path ++ codes "/") c ≡ true
    → IsDirectory (path ++ codes "/") c (find_path (path ++ codes "/") c)
      ⊎ ((hash : List ℕ) × (find_path (path ++ codes "/") c ≡ found_file (path ++ codes "/") hash)
          × (find_name (path ++ codes "/") c ≡ some hash))
find_path-IsDirectory path c h =
    let dir = path ++ codes "/" in
    let same = directory_of_slash path in
    elim (Bool-cases (any_starts_with (dir ++ codes "/") c)) [
      | inl e ↦ inl (subst (λ d. IsDirectory d c (find_path dir c)) same (find_path_below dir c e))
      | inr e ↦ elim (Option-cases (find_name dir c)) [
        | inr (hash, f) ↦ inr (hash, find_path_file dir hash c e f, f)
        | inl f ↦ inl (
            subst (IsDirectory dir c)
              (sym (find_path_neither dir c e f ∙ ap (λ d. found_entries d (new_entries d c)) same))
              (found_entries-IsDirectory dir c h))
      ]
    ]

starts_with-none : (dir name : List ℕ) → starts_with dir name ≡ false → strip_prefix dir name ≡ none
starts_with-none dir name h = elim (Option-cases (strip_prefix dir name)) [
  | inl e ↦ e
  | inr (rest, e) ↦ absurd (
      let stripped = starts_with_strip dir name in
      let found : starts_with dir name ≡ true = stripped ∙ rw e refl in cc)
]

-- A directory with entries starts a name.
collect_entries_some :
    (dir : List ℕ) (c : Files)
    → any_starts_with dir c ≡ false
    → no_entries (collect_entries dir c) ≡ true
unfolding collect_entries any_starts_with is_empty
collect_entries_some dir [] h = refl
collect_entries_some dir ((name, hash) ∷ c) h =
    let strip : strip_prefix dir name ≡ none = starts_with-none dir name (ground arith) in
    rw (strip, add_rest) (collect_entries_some dir c (ground arith))

new_entries-none :
    (dir : List ℕ) (c : Files)
    → is_empty dir ≡ false
    → any_starts_with dir c ≡ false
    → new_entries dir c ≡ none
unfolding new_entries
new_entries-none dir c full h = rw (full, collect_entries_some dir c h) refl

directory_of_some : (path : List ℕ) → is_empty path ≡ false → is_empty (directory_of path) ≡ false
unfolding directory_of is_empty
directory_of_some [] h = h
directory_of_some (b ∷ path) h = ground arith

-- A path is missing exactly if it is no name and no name stands in its directory.
pub find_path_missing :
    (path : List ℕ) (c : Files)
    → is_empty path ≡ false
    → (find_path path c ≡ missing)
      ↔ ((any_starts_with (directory_of path) c ≡ false) × (find_name path c ≡ none))
unfolding found_entries
find_path_missing path c full = elim (Bool-cases (any_starts_with (path ++ codes "/") c)) [
  | inl below ↦
      let (e, found, _) = find_path_below path c below in
      let starts = directory_of_less path c below in (λ h. absurd cc, λ (h, _). absurd cc)
  | inr none_below ↦ elim (Option-cases (find_name path c)) [
    | inr (hash, f) ↦
        let found = find_path_file path hash c none_below f in (λ h. absurd cc, λ (_, h). absurd cc)
    | inl f ↦
        let same = find_path_neither path c none_below f in
        (
          λ h. elim (Bool-cases (any_starts_with (directory_of path) c)) [
            | inr e ↦ (e, f)
            | inl e ↦
                let (e, found, _) = found_entries-IsDirectory (directory_of path) c e in absurd cc
          ],
          λ (h, _).
              same
              ∙ ap (found_entries (directory_of path))
                  (new_entries-none (directory_of path) c (directory_of_some path full) h),
        )
  ]
]
