-- ===== src/Base/Int.antt =====
-- C's signed integers: `pos n` is n, `negsuc n` is -(n + 1). The code compares them and stores
-- them, and never adds.
use Prim.Native.Nat.{ℕ, ◌-◌, ◌%◌, ◌^◌, compare, Ordering}
use mathlib.Core.Path.{◌≡◌}
use mathlib.Core.Logic.{◌↔◌, ◌≢◌}
use mathlib.Core.Bool.{Bool, true, false, not}
use native.Mathlib.Omega.{arith}

pub data ℤ : Type 0 where
  pos : ℕ → ℤ
  negsuc : ℕ → ℤ

abbrev pub minus_one : ℤ
minus_one = negsuc 0

-- `x < 0`.
abbrev pub is_neg : ℤ → Bool
is_neg (pos n) = false
is_neg (negsuc n) = true

-- `0 < x`.
abbrev pub is_positive : ℤ → Bool
is_positive (pos n) = elim (compare 0 n) [ Ordering.lt ↦ true | _ ↦ false ]
is_positive (negsuc n) = false

-- `(size_t) x`.
unfoldable pub to_size : ℤ → ℕ
to_size (pos n) = n % 2 ^ 64
to_size (negsuc n) = 2 ^ 64 - 1 - n % 2 ^ 64

infix 50 ◌==ℤ◌
abbrev pub ◌==ℤ◌ : ℤ → ℤ → Bool
pos a ==ℤ pos b = elim (compare a b) [ Ordering.eq ↦ true | _ ↦ false ]
pos a ==ℤ negsuc b = false
negsuc a ==ℤ pos b = false
negsuc a ==ℤ negsuc b = elim (compare a b) [ Ordering.eq ↦ true | _ ↦ false ]

pub ==ℤ_iff : (a b : ℤ) → ((a ==ℤ b) ≡ true) ↔ (a ≡ b)
==ℤ_iff (pos a) (pos b) = ground arith
==ℤ_iff (pos a) (negsuc b) = ground arith
==ℤ_iff (negsuc a) (pos b) = ground arith
==ℤ_iff (negsuc a) (negsuc b) = ground arith

pub ==ℤ_refl : (a : ℤ) → (a ==ℤ a) ≡ true
==ℤ_refl (pos a) = ground arith
==ℤ_refl (negsuc a) = ground arith

pub ==ℤ_false : (a b : ℤ) → a ≢ b → (a ==ℤ b) ≡ false
==ℤ_false a b ne = ground (arith, ==ℤ_iff a b)

pub is_positive_lem : (a : ℤ) → is_neg a ≡ false → is_positive a ≡ not (a ==ℤ pos 0)
is_positive_lem (pos a) e = ground arith
is_positive_lem (negsuc a) e = ground arith
