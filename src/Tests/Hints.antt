-- ===== src/Tests/Hints.antt =====
-- Two providers that a link names for a hash, which has one already.
use iroh_content_discovery.Prelude.{ℕ, ℕ_discrete, ◌≡◌, ◌≤◌, List, [], ◌∷◌, arith, length, take}
use iroh_content_discovery.Gateway.Hints.{Hint, add_hints, get_hints}
use iroh_content_discovery.Gateway.Hints.Live.{get_hints-add_hints}
use iroh_content_discovery.Tests.Slots.{slots_of}

abbrev hinted : List (ℕ × List (Hint ℕ_discrete))
hinted = (5, (30, 100) ∷ []) ∷ []

get_hints-add_hints_example :
    let found =
      (get_hints ℕ_discrete
        (slots_of ℕ_discrete)
        (add_hints ℕ_discrete (slots_of ℕ_discrete) hinted 5 (10 ∷ 20 ∷ []) 1000)
        5
        2000).1 in
    (take 2 found ≡ 10 ∷ 20 ∷ []) × (length found ≤ 8)
get_hints-add_hints_example =
    get_hints-add_hints ℕ_discrete (slots_of ℕ_discrete) hinted 5 (10 ∷ 20 ∷ []) 1000 2000
      (omega arith) (omega arith)
