-- ===== src/Prelude/Decimal.antt =====
-- Numbers written in decimal, as formatting writes them.
use Prim.Native.Nat.{ℕ, zero, suc, ◌+◌, ◌/◌, ◌%◌}
use mathlib.Core.List.{List, [], ◌∷◌}
use iroh_content_discovery.Prelude.Tests.{ltb, if◌then◌else◌}

-- The digits of a number before those that are there; a number has less digits than the fuel.
unfoldable pub show_onto : ℕ → ℕ → List ℕ → List ℕ
show_onto zero n digits = digits
show_onto (suc fuel) n digits =
    let more = show_onto fuel (n / 10) ((48 + n % 10) ∷ digits) in
    if ltb n 10 then (48 + n) ∷ digits else more

unfoldable pub show : ℕ → List ℕ
unfolding show_onto
show n = show_onto (suc n) n []
