-- ===== src/Tests/Collection.antt =====
-- A collection with a directory.
use iroh_content_discovery.Prelude.{[], ◌∷◌}
use iroh_content_discovery.Prelude.Bytes.{codes}
use iroh_content_discovery.Gateway.Collection.{Files, Entries}

-- `a/b.txt` and `a/c/d`
abbrev files : Files
files = (codes "a/b.txt", 1 ∷ []) ∷ (codes "a/c/d", 2 ∷ []) ∷ []

abbrev a_entries : Entries
a_entries = record { dirs = codes "c" ∷ []; files = (codes "b.txt", 1 ∷ []) ∷ [] }
