-- ===== src/Gateway/Collection/Reachable.antt =====
-- Every entry of a directory has a path that opens as it.
use iroh_content_discovery.Prelude.{◌≡◌, ◌⊎◌, false, true, Option, some, List, ◌++◌, All, ℕ}
use iroh_content_discovery.Prelude.Bytes.{codes}
use iroh_content_discovery.Gateway.Collection.{
  Files, Entries, any_starts_with, find_name, Found, found_file, directory_of,
}
use iroh_content_discovery.Gateway.Collection.Lookup.{IsDirectory}

-- What the entries of a directory stand for in the collection.
abbrev IsBelow : List ℕ → Files → List ℕ → Type 0
IsBelow dir c sub = any_starts_with (dir ++ sub ++ codes "/") c ≡ true

abbrev IsFile : List ℕ → Files → List ℕ × List ℕ → Type 0
IsFile dir c file = (hash : List ℕ) × (find_name (dir ++ file.0) c ≡ some hash)

-- The entries of a directory, all of them in the collection.
abbrev AllIn : List ℕ → Files → Entries → Type 0
AllIn dir c entries = All (IsBelow dir c) entries.dirs × All (IsFile dir c) entries.files

-- The answer for a sub-directory: its entries, or a file whose own name ends with a slash.
abbrev pub OpensDirectory : Files → List ℕ → Found → Type 0
OpensDirectory c path found =
    IsDirectory path c found
    ⊎ ((hash : List ℕ) × (found ≡ found_file path hash) × (find_name path c ≡ some hash))

-- The answer for a file: the first hash of its name, or a directory if names stand below its name.
abbrev pub OpensFile : Files → List ℕ → Found → Type 0
OpensFile c path found =
    ((any_starts_with (path ++ codes "/") c ≡ false)
      × (hash : List ℕ) × (found ≡ found_file path hash)
      × (find_name path c ≡ some hash))
    ⊎ ((any_starts_with (path ++ codes "/") c ≡ true) × IsDirectory (directory_of path) c found)
