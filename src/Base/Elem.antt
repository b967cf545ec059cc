-- ===== src/Base/Elem.antt =====
-- Membership of a number in a list, as a test.
use Prim.Native.Nat.{ℕ}
use mathlib.Core.Path.{◌≡◌, refl}
use mathlib.Core.Bool.{Bool, false, ◌||◌}
use mathlib.Core.List.{List, [], ◌∷◌, ◌++◌}
use native.Mathlib.Omega.{arith}
use ignition.Base.Tests.{◌==◌}

abbrev pub elem : ℕ → List ℕ → Bool
elem q [] = false
elem q (x ∷ xs) = q == x || elem q xs

pub elem-append : (q : ℕ) (xs ys : List ℕ) → elem q (xs ++ ys) ≡ (elem q xs || elem q ys)
elem-append q [] ys = refl
elem-append q (x ∷ xs) ys = ground (arith, elem-append q xs ys)
