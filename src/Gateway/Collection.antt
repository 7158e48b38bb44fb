-- ===== src/Gateway/Collection.antt =====
-- iroh-link-gateway/src/lib.rs: collections as directories. `collection_entry` looks a path up as a file
-- or a directory with its entries. A hash is its list of bytes.

pub mod Lookup
pub mod Reachable
pub mod Pages
use iroh_content_discovery.Prelude.{
  ℕ, ◌+◌, ◌*◌, ◌%◌, ◌^◌, Bool, true, false, ◌&&◌, ◌||◌, not, Option, none, some, List, [], ◌∷◌,
  ◌++◌, Result, ok, err, ltb, leb, ◌==◌, if◌then◌else◌,
}
use iroh_content_discovery.Prelude.Bytes.{
  codes, bytes_eq, bytes_ltb, split_once, strip_prefix, starts_with, strip_suffix, ends_with,
  rsplit_once,
}
use iroh_content_discovery.Gateway.Ranges.{Range}
use iroh_content_discovery.Gateway.Http.{
  Crates, Method, HeaderName, content_type, cache_control, content_type_options, location,
  HttpResponse, empty_body, whole_body, HttpError, not_found, bad_gateway,
}
use iroh_content_discovery.Gateway.Urls.{
  has_flag, with_charset, Caching, caching_header, redirect_status, Root, link,
}
use iroh_content_discovery.Gateway.Blobs.{Source, Fetched, Headers, serve_blob}

abbrev pub Files : Type 0
Files = List (List ℕ × List ℕ)

-- The names of the sub-directories, in order, and the files with their hashes.
pub record Entries : Type 0 where
  pub dirs : List (List ℕ)
  pub files : Files

-- `BTreeSet::insert`.
insert_name : List ℕ → List (List ℕ) → List (List ℕ)
unfolding bytes_eq
insert_name name [] = name ∷ []
insert_name name (other ∷ names) =
    let rest = insert_name name names in
    if bytes_eq name other
    then other ∷ names
    else (if bytes_ltb name other then name ∷ other ∷ names else other ∷ rest)

-- What the rest of a name below the directory adds: a directory before a slash, or a file.
add_split : Option (List ℕ × List ℕ) → List ℕ → List ℕ → Entries → Entries
unfolding insert_name
add_split (some (sub, below)) rest hash entries = record entries {
  dirs = insert_name sub entries.dirs;
}
add_split none rest hash entries = record entries { files = (rest, hash) ∷ entries.files }

add_rest : Option (List ℕ) → List ℕ → Entries → Entries
unfolding add_split
add_rest none hash entries = entries
add_rest (some rest) hash entries = add_split (split_once b'/' rest) rest hash entries

unfoldable pub collect_entries : List ℕ → Files → Entries
unfolding add_rest
collect_entries dir [] = record { dirs = []; files = [] }
collect_entries dir ((name, hash) ∷ collection) =
    add_rest (strip_prefix dir name) hash (collect_entries dir collection)

unfoldable pub is_empty {ℓ} : {A : Type ℓ} → List A → Bool
is_empty [] = true
is_empty (x ∷ xs) = false

-- `Entries::new`.
unfoldable pub new_entries : List ℕ → Files → Option Entries
unfolding is_empty
new_entries dir collection =
    let entries = collect_entries dir collection in
    if not (is_empty dir) && (is_empty entries.dirs && is_empty entries.files)
    then none
    else some entries

-- Whether a name of the collection starts with a prefix.
unfoldable pub any_starts_with : List ℕ → Files → Bool
any_starts_with prefix [] = false
any_starts_with prefix ((name, hash) ∷ collection) =
    starts_with prefix name || any_starts_with prefix collection

-- The first hash of a name.
unfoldable pub find_name : List ℕ → Files → Option (List ℕ)
find_name path [] = none
find_name path ((name, hash) ∷ collection) =
    let rest = find_name path collection in if bytes_eq name path then some hash else rest

-- What a path names: a file, a directory with its entries, or nothing.
pub data Found : Type 0 where
  found_file : (path hash : List ℕ) → Found
  found_directory : (dir : List ℕ) → Entries → Found
  missing : Found

without_slash : List ℕ → Option (List ℕ) → List ℕ
without_slash path none = path
without_slash path (some rest) = rest

-- The text after its first slash, if it begins with one.
unfoldable pub after_slash : List ℕ → List ℕ
unfolding without_slash
after_slash path = without_slash path (strip_prefix (codes "/") path)

unfoldable pub directory_of : List ℕ → List ℕ
unfolding is_empty
directory_of path = if is_empty path || ends_with (codes "/") path then path else path ++ codes "/"

found_entries : List ℕ → Option Entries → Found
found_entries dir none = missing
found_entries dir (some entries) = found_directory dir entries

-- The file, if nothing is below its name, or else the directory.
found_or : List ℕ → Option (List ℕ) → Files → Found
unfolding found_entries
found_or path (some hash) collection = found_file path hash
found_or path none collection =
    found_entries (directory_of path) (new_entries (directory_of path) collection)

unfoldable pub find_path : List ℕ → Files → Found
unfolding found_or
find_path path collection =
    found_or path
      (if any_starts_with (path ++ codes "/") collection then none else find_name path collection)
      collection

unfoldable pub find_entry : List ℕ → Files → Found
find_entry url_path collection = find_path (after_slash url_path) collection
