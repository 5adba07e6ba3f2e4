-- ===== src/Net/Bit.antt =====
-- include/metasys/net/bit.hxx: byte swaps on 16, 32 and 64 bits, and network byte order.
pub mod Laws
use metasys.Base.{ℕ, ◌*◌, ◌/◌, ◌%◌, ◌^◌, bit_and, bit_or, Bool, if◌then◌else◌}

-- `x << n` on `w` bits, and `x >> n`.
abbrev pub shl : ℕ → ℕ → ℕ → ℕ
shl w x n = x * 2 ^ n % 2 ^ w

abbrev pub shr : ℕ → ℕ → ℕ
shr x n = x / 2 ^ n

unfoldable pub bswap16 : ℕ → ℕ
bswap16 value = bit_or (shl 16 (bit_and value 0x00ff) 8) (shr (bit_and value 0xff00) 8)

unfoldable pub bswap32 : ℕ → ℕ
bswap32 value =
    bit_or
      (bit_or (bit_or (shl 32 (bit_and value 0x000000ff) 24) (shl 32 (bit_and value 0x0000ff00) 8))
        (shr (bit_and value 0x00ff0000) 8))
      (shr (bit_and value 0xff000000) 24)

unfoldable pub bswap64 : ℕ → ℕ
bswap64 value =
    bit_or
      (bit_or
        (bit_or
          (bit_or
            (bit_or
              (bit_or
                (bit_or (shl 64 (bit_and value 0x00000000000000ff) 56)
                  (shl 64 (bit_and value 0x000000000000ff00) 40))
                (shl 64 (bit_and value 0x0000000000ff0000) 24))
              (shl 64 (bit_and value 0x00000000ff000000) 8))
            (shr (bit_and value 0x000000ff00000000) 8))
          (shr (bit_and value 0x0000ff0000000000) 24))
        (shr (bit_and value 0x00ff000000000000) 40))
      (shr (bit_and value 0xff00000000000000) 56)

-- `little` says that `std::endian::native` is `std::endian::little`.
module _ (little : Bool) where
  unfoldable pub hton8 : ℕ → ℕ
  hton8 value = value

  unfoldable pub hton16 : ℕ → ℕ
  hton16 value = if little then bswap16 value else value

  unfoldable pub hton32 : ℕ → ℕ
  hton32 value = if little then bswap32 value else value

  unfoldable pub hton64 : ℕ → ℕ
  hton64 value = if little then bswap64 value else value

  unfoldable pub ntoh8 : ℕ → ℕ
  ntoh8 value = value

  unfoldable pub ntoh16 : ℕ → ℕ
  ntoh16 value = if little then bswap16 value else value

  unfoldable pub ntoh32 : ℕ → ℕ
  ntoh32 value = if little then bswap32 value else value

  unfoldable pub ntoh64 : ℕ → ℕ
  ntoh64 value = if little then bswap64 value else value
