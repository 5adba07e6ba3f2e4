-- ===== src/Base/Lists.antt =====
-- Tests on lists.
use Prim.Native.Nat.{ℕ, suc, compare, Ordering}
use mathlib.Core.Bool.{Bool, true, false}
use mathlib.Core.List.{List, [], ◌∷◌}

-- Membership in a list of numbers, as a test.
abbrev pub elem : ℕ → List ℕ → Bool
elem n [] = false
elem n (m ∷ ms) = elim (compare n m) [ Ordering.eq ↦ true | _ ↦ elem n ms ]

abbrev pub length {ℓ} : {A : Type ℓ} → List A → ℕ
length [] = 0
length (x ∷ xs) = suc (length xs)
