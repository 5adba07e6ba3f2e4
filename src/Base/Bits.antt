-- ===== src/Base/Bits.antt =====
-- `&` with a byte mask and `|` of disjoint fields, as arithmetic.
use Prim.Native.Nat.{
  ℕ, zero, suc, ◌+◌, ◌*◌, ◌/◌, ◌%◌, ◌^◌, ◌<◌, ◌≤◌, min, max, bit_and, bit_or, digits,
  bit_and-bitwise, bit_or-bitwise,
}
use mathlib.Core.Path.{◌≡◌, refl}
use native.Mathlib.Nat.{pow-succ', div-div-eq-div-mul}
use native.Mathlib.Omega.{arith}

-- The native operations recurse on the digits with the first number as fuel; more changes nothing.
module _ (past : ℕ → ℕ) (digit : ℕ → ℕ → ℕ) where
  digits-fuel : (m n a b : ℕ) → a ≤ m → a ≤ n → digits past digit m a b ≡ digits past digit n a b
  digits-fuel zero zero a b hm hn = refl
  digits-fuel zero (suc n) zero b hm hn = refl
  digits-fuel (suc m) zero zero b hm hn = refl
  digits-fuel (suc m) (suc n) zero b hm hn = refl
  digits-fuel zero n (suc a) b hm hn = absurd (omega arith)
  digits-fuel (suc m) zero (suc a) b hm hn = absurd (omega arith)
  digits-fuel (suc m) (suc n) (suc a) b hm hn =
      let half = suc a / 2 in rw (digits-fuel m n half (b / 2) (omega arith) (omega arith)) refl

and_digit : (a b : ℕ) → bit_and a b ≡ bit_and (a / 2) (b / 2) * 2 + min (a % 2) (b % 2)
and_digit zero b = simp bit_and-bitwise (omega arith)
and_digit (suc a) b =
    let enough =
      digits-fuel (λ _. 0) min a (suc a / 2) (suc a / 2) (b / 2) (omega arith) (omega arith) in
    simp bit_and-bitwise (omega (arith, enough))

or_digit : (a b : ℕ) → bit_or a b ≡ bit_or (a / 2) (b / 2) * 2 + max (a % 2) (b % 2)
or_digit zero b = simp bit_or-bitwise (omega arith)
or_digit (suc a) b =
    let enough =
      digits-fuel (λ y. y) max a (suc a / 2) (suc a / 2) (b / 2) (omega arith) (omega arith) in
    simp bit_or-bitwise (omega (arith, enough))

and_zero : (n a : ℕ) → a ≤ n → bit_and a 0 ≡ 0
and_zero zero zero h = refl
and_zero zero (suc a) h = absurd (omega arith)
and_zero (suc n) a h = omega (arith, and_digit a 0, and_zero n (a / 2) (omega arith))

or_zero : (n a : ℕ) → a ≤ n → bit_or a 0 ≡ a
or_zero zero zero h = refl
or_zero zero (suc a) h = absurd (omega arith)
or_zero (suc n) a h = omega (arith, or_digit a 0, or_zero n (a / 2) (omega arith))

and_even : (a m : ℕ) → bit_and a (m * 2) ≡ bit_and (a / 2) m * 2
and_even a m =
    let halved : m * 2 / 2 ≡ m = omega arith in rw (and_digit a (m * 2), halved) (omega arith)

and_odd : (a m : ℕ) → bit_and a (m * 2 + 1) ≡ bit_and (a / 2) m * 2 + a % 2
and_odd a m =
    let halved : (m * 2 + 1) / 2 ≡ m = omega arith in
    rw (and_digit a (m * 2 + 1), halved) (omega arith)

or_even : (q r : ℕ) → bit_or (q * 2) r ≡ bit_or q (r / 2) * 2 + r % 2
or_even q r =
    let halved : q * 2 / 2 ≡ q = omega arith in rw (or_digit (q * 2) r, halved) (omega arith)

-- The mask of the low byte.
pub and_byte : (a : ℕ) → bit_and a 255 ≡ a % 256
and_byte a =
    let a1 = a / 2 in
    let a2 = a1 / 2 in
    let a3 = a2 / 2 in
    let a4 = a3 / 2 in
    let a5 = a4 / 2 in
    let a6 = a5 / 2 in
    let a7 = a6 / 2 in
    let a8 = a7 / 2 in
    omega (
      arith,
      and_odd a 127,
      and_odd a1 63,
      and_odd a2 31,
      and_odd a3 15,
      and_odd a4 7,
      and_odd a5 3,
      and_odd a6 1,
      and_odd a7 0,
      and_zero a8 a8 (omega arith),
    )

-- A mask that ends in zeros.
pub and_shift : (n a m : ℕ) → bit_and a (m * 2 ^ n) ≡ bit_and (a / 2 ^ n) m * 2 ^ n
and_shift zero a m = ground arith
and_shift (suc n) a m =
    let split : m * (2 * 2 ^ n) ≡ m * 2 ^ n * 2 = ground arith in
    let split' : bit_and (a / (2 * 2 ^ n)) m * (2 * 2 ^ n)
        ≡ bit_and (a / (2 * 2 ^ n)) m * 2 ^ n * 2 =
      ground arith in
    rw
      (
        pow-succ' 2 n,
        split,
        split',
        and_even a (m * 2 ^ n),
        and_shift n (a / 2) m,
        div-div-eq-div-mul a 2 (2 ^ n),
      )
      refl

-- Disjoint fields: the left one ends in zeros where the right one stands.
pub or_fields : (k q r : ℕ) → r < 2 ^ k → bit_or (q * 2 ^ k) r ≡ q * 2 ^ k + r
or_fields zero q r h = ground (arith, or_zero q q (omega arith))
or_fields (suc k) q r h =
    let split : q * (2 * 2 ^ k) ≡ q * 2 ^ k * 2 = ground arith in
    let fits : r < 2 * 2 ^ k = rw (pow-succ' 2 k) at h in
    rw (pow-succ' 2 k, split, or_even (q * 2 ^ k) r, or_fields k q (r / 2) (omega arith))
      (omega arith)

pub or_sum : (k q x r : ℕ) → x ≡ q * 2 ^ k → r < 2 ^ k → bit_or x r ≡ x + r
or_sum k q x r multiple fits = rw multiple (or_fields k q r fits)
