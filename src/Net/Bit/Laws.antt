-- ===== src/Net/Bit/Laws.antt =====
-- What the byte swaps compute, and that network byte order is read back.
use metasys.Base.{
  ℕ, ◌+◌, ◌*◌, ◌/◌, ◌%◌, ◌^◌, ◌<◌, bit_and, bit_or, ◌≡◌, refl, ◌∙◌, Bool, true, false, arith,
  and_byte, and_shift, or_fields, or_sum,
}
use metasys.Net.Bit.{bswap16, bswap32, bswap64, hton16, hton32, hton64, ntoh16, ntoh32, ntoh64}

-- A mask on one byte, shifted down.
byte : (a : ℕ) (n : ℕ) → bit_and a (255 * 2 ^ n) ≡ a / 2 ^ n % 256 * 2 ^ n
byte a n = rw (and_shift n a 255, and_byte (a / 2 ^ n)) refl

-- `bswap16` exchanges the two bytes of a 16-bit word.
pub bswap16_lem : (v : ℕ) → v < 2 ^ 16 → bswap16 v ≡ v % 2 ^ 8 * 2 ^ 8 + v / 2 ^ 8
unfolding bswap16
bswap16_lem v h =
    let low = v % 256 in
    let high : bit_and v 0xff00 / 2 ^ 8 ≡ v / 256 = omega (arith, byte v 8) in
    let moved : low * 2 ^ 8 % 2 ^ 16 ≡ low * 2 ^ 8 = omega arith in
    rw (and_byte v, high, moved) (or_fields 8 low (v / 256) (omega arith))

-- `bswap32` reverses the four bytes of a 32-bit word.
pub bswap32_lem :
    (v : ℕ)
    → v < 2 ^ 32
    → bswap32 v
      ≡ v % 2 ^ 8 * 2 ^ 24 + v / 2 ^ 8 % 2 ^ 8 * 2 ^ 16 + v / 2 ^ 16 % 2 ^ 8 * 2 ^ 8 + v / 2 ^ 24
unfolding bswap32
bswap32_lem v h =
    let b0 = v % 256 in
    let b1 = v / 2 ^ 8 % 256 in
    let b2 = v / 2 ^ 16 % 256 in
    let b3 = v / 2 ^ 24 in
    let e0 : bit_and v 0x000000ff * 2 ^ 24 % 2 ^ 32 ≡ b0 * 2 ^ 24 = omega (arith, and_byte v) in
    let e1 : bit_and v 0x0000ff00 * 2 ^ 8 % 2 ^ 32 ≡ b1 * 2 ^ 16 = omega (arith, byte v 8) in
    let e2 : bit_and v 0x00ff0000 / 2 ^ 8 ≡ b2 * 2 ^ 8 = omega (arith, byte v 16) in
    let e3 : bit_and v 0xff000000 / 2 ^ 24 ≡ b3 = omega (arith, byte v 24) in
    let s1 = b0 * 2 ^ 24 + b1 * 2 ^ 16 in
    let s2 = s1 + b2 * 2 ^ 8 in
    let o1 : bit_or (b0 * 2 ^ 24) (b1 * 2 ^ 16) ≡ s1 =
      or_fields 24 b0 (b1 * 2 ^ 16) (omega arith) in
    let o2 : bit_or s1 (b2 * 2 ^ 8) ≡ s2 =
      or_sum 16 (b0 * 2 ^ 8 + b1) s1 (b2 * 2 ^ 8) (omega arith) (omega arith) in
    let o3 : bit_or s2 b3 ≡ s2 + b3 =
      or_sum 8 (b0 * 2 ^ 16 + b1 * 2 ^ 8 + b2) s2 b3 (omega arith) (omega arith) in
    rw (e0, e1, e2, e3, o1, o2, o3) refl

-- `bswap64` reverses the eight bytes of a 64-bit word.
bswap64_lem :
    (v : ℕ)
    → v < 2 ^ 64
    → bswap64 v
      ≡ v % 2 ^ 8 * 2 ^ 56
        + v / 2 ^ 8 % 2 ^ 8 * 2 ^ 48
        + v / 2 ^ 16 % 2 ^ 8 * 2 ^ 40
        + v / 2 ^ 24 % 2 ^ 8 * 2 ^ 32
        + v / 2 ^ 32 % 2 ^ 8 * 2 ^ 24
        + v / 2 ^ 40 % 2 ^ 8 * 2 ^ 16
        + v / 2 ^ 48 % 2 ^ 8 * 2 ^ 8
        + v / 2 ^ 56
unfolding bswap64
bswap64_lem v h =
    let b0 = v % 256 in
    let b1 = v / 2 ^ 8 % 256 in
    let b2 = v / 2 ^ 16 % 256 in
    let b3 = v / 2 ^ 24 % 256 in
    let b4 = v / 2 ^ 32 % 256 in
    let b5 = v / 2 ^ 40 % 256 in
    let b6 = v / 2 ^ 48 % 256 in
    let b7 = v / 2 ^ 56 in
    let e0 : bit_and v 0x00000000000000ff * 2 ^ 56 % 2 ^ 64 ≡ b0 * 2 ^ 56 =
      omega (arith, and_byte v) in
    let e1 : bit_and v 0x000000000000ff00 * 2 ^ 40 % 2 ^ 64 ≡ b1 * 2 ^ 48 =
      omega (arith, byte v 8) in
    let e2 : bit_and v 0x0000000000ff0000 * 2 ^ 24 % 2 ^ 64 ≡ b2 * 2 ^ 40 =
      omega (arith, byte v 16) in
    let e3 : bit_and v 0x00000000ff000000 * 2 ^ 8 % 2 ^ 64 ≡ b3 * 2 ^ 32 =
      omega (arith, byte v 24) in
    let e4 : bit_and v 0x000000ff00000000 / 2 ^ 8 ≡ b4 * 2 ^ 24 = omega (arith, byte v 32) in
    let e5 : bit_and v 0x0000ff0000000000 / 2 ^ 24 ≡ b5 * 2 ^ 16 = omega (arith, byte v 40) in
    let e6 : bit_and v 0x00ff000000000000 / 2 ^ 40 ≡ b6 * 2 ^ 8 = omega (arith, byte v 48) in
    let e7 : bit_and v 0xff00000000000000 / 2 ^ 56 ≡ b7 = omega (arith, byte v 56) in
    let s1 = b0 * 2 ^ 56 + b1 * 2 ^ 48 in
    let o1 : bit_or (b0 * 2 ^ 56) (b1 * 2 ^ 48) ≡ s1 =
      or_sum 56 (b0) (b0 * 2 ^ 56) (b1 * 2 ^ 48) (omega arith) (omega arith) in
    let s2 = s1 + b2 * 2 ^ 40 in
    let o2 : bit_or (s1) (b2 * 2 ^ 40) ≡ s2 =
      or_sum 48 (b0 * 2 ^ 8 + b1) (s1) (b2 * 2 ^ 40) (omega arith) (omega arith) in
    let s3 = s2 + b3 * 2 ^ 32 in
    let o3 : bit_or (s2) (b3 * 2 ^ 32) ≡ s3 =
      or_sum 40 (b0 * 2 ^ 16 + b1 * 2 ^ 8 + b2) (s2) (b3 * 2 ^ 32) (omega arith) (omega arith) in
    let s4 = s3 + b4 * 2 ^ 24 in
    let o4 : bit_or (s3) (b4 * 2 ^ 24) ≡ s4 =
      or_sum 32 (b0 * 2 ^ 24 + b1 * 2 ^ 16 + b2 * 2 ^ 8 + b3) (s3) (b4 * 2 ^ 24) (omega arith)
        (omega arith) in
    let s5 = s4 + b5 * 2 ^ 16 in
    let o5 : bit_or (s4) (b5 * 2 ^ 16) ≡ s5 =
      or_sum 24 (b0 * 2 ^ 32 + b1 * 2 ^ 24 + b2 * 2 ^ 16 + b3 * 2 ^ 8 + b4) (s4) (b5 * 2 ^ 16)
        (omega arith) (omega arith) in
    let s6 = s5 + b6 * 2 ^ 8 in
    let o6 : bit_or (s5) (b6 * 2 ^ 8) ≡ s6 =
      or_sum 16 (b0 * 2 ^ 40 + b1 * 2 ^ 32 + b2 * 2 ^ 24 + b3 * 2 ^ 16 + b4 * 2 ^ 8 + b5) (s5)
        (b6 * 2 ^ 8) (omega arith) (omega arith) in
    let s7 = s6 + b7 in
    let o7 : bit_or (s6) (b7) ≡ s7 =
      or_sum 8
        (b0 * 2 ^ 48 + b1 * 2 ^ 40 + b2 * 2 ^ 32 + b3 * 2 ^ 24 + b4 * 2 ^ 16 + b5 * 2 ^ 8 + b6) (s6)
        (b7) (omega arith) (omega arith) in
    rw (e0, e1, e2, e3, e4, e5, e6, e7, o1, o2, o3, o4, o5, o6, o7) refl

bswap16-bswap : (v : ℕ) → v < 2 ^ 16 → (bswap16 v < 2 ^ 16) × (bswap16 (bswap16 v) ≡ v)
bswap16-bswap v h =
    let e = bswap16_lem v h in
    let small : bswap16 v < 2 ^ 16 = omega (arith, e) in
    (small, bswap16_lem (bswap16 v) small ∙ rw e (omega arith))

bswap32-bswap : (v : ℕ) → v < 2 ^ 32 → (bswap32 v < 2 ^ 32) × (bswap32 (bswap32 v) ≡ v)
bswap32-bswap v h =
    let e = bswap32_lem v h in
    let small : bswap32 v < 2 ^ 32 = omega (arith, e) in
    (small, bswap32_lem (bswap32 v) small ∙ rw e (omega arith))

bswap64-bswap : (v : ℕ) → v < 2 ^ 64 → (bswap64 v < 2 ^ 64) × (bswap64 (bswap64 v) ≡ v)
bswap64-bswap v h =
    let e = bswap64_lem v h in
    let small : bswap64 v < 2 ^ 64 = omega (arith, e) in
    (small, bswap64_lem (bswap64 v) small ∙ rw e (omega arith))

-- A number that fits the width and is put into network byte order is read back as it was, at 16, 32
-- and 64 bits and on machines of either order.
pub ntoh-hton :
    (little : Bool) (v : ℕ)
    → (v < 2 ^ 16 → ntoh16 little (hton16 little v) ≡ v)
      × (v < 2 ^ 32 → ntoh32 little (hton32 little v) ≡ v)
      × (v < 2 ^ 64 → ntoh64 little (hton64 little v) ≡ v)
unfolding hton16 hton32 hton64 ntoh16 ntoh32 ntoh64
ntoh-hton true v =
    (λ h. (bswap16-bswap v h).1, λ h. (bswap32-bswap v h).1, λ h. (bswap64-bswap v h).1)
ntoh-hton false v = (λ h. refl, λ h. refl, λ h. refl)
