-- ===== src/Net/InetAddress.antt =====
-- include/metasys/net/InetAddress.hxx: an IPv4 address and port in network byte order. `port` and
-- `addr` are the native integers in the fields of `struct sockaddr_in`; `ip()` looks at the bytes of
-- `addr` in memory.
pub mod Laws
pub mod Bounds
use metasys.Base.{ℕ, zero, suc, ◌+◌, ◌-◌, ◌*◌, ◌/◌, ◌%◌, ◌^◌, bit_or, Bool, if◌then◌else◌}
use Prim.Native.Nat.{compare, Ordering}
use metasys.Net.Bit.{shl, hton16, ntoh16, hton32}

pub record InetAddress : Type 0 where
  pub family : ℕ
  pub sin_port : ℕ
  pub s_addr : ℕ

-- AF_INET, INADDR_ANY and INADDR_LOOPBACK of <netinet/in.h>.
abbrev pub af_inet : ℕ
af_inet = 2

abbrev pub inaddr_any : ℕ
inaddr_any = 0

abbrev pub inaddr_loopback : ℕ
inaddr_loopback = 0x7f000001

-- `sizeof (struct sockaddr_in)`
abbrev pub size : ℕ
size = 16

-- `InetAddress()`: the other fields are zero by `_sin {}`.
unfoldable pub empty : InetAddress
empty = record { family = af_inet; sin_port = 0; s_addr = 0 }

-- `InetAddress(const struct sockaddr_in *sin)`
unfoldable pub from_sockaddr : InetAddress → InetAddress
from_sockaddr sin = sin

module _ (little : Bool) where
  -- `InetAddress(uint16_t port)`
  unfoldable pub any_host : ℕ → InetAddress
  unfolding hton16 hton32
  any_host port = record {
    family = af_inet;
    sin_port = hton16 little port;
    s_addr = hton32 little inaddr_any;
  }

  unfoldable pub localhost : ℕ → InetAddress
  unfolding hton16 hton32
  localhost port = record {
    family = af_inet;
    sin_port = hton16 little port;
    s_addr = hton32 little inaddr_loopback;
  }

  -- `InetAddress(uint8_t ip0, uint8_t ip1, uint8_t ip2, uint8_t ip3, uint16_t port)`
  unfoldable pub from_octets : (ip0 ip1 ip2 ip3 port : ℕ) → InetAddress
  unfolding hton16 hton32
  from_octets ip0 ip1 ip2 ip3 port = record {
    family = af_inet;
    sin_port = hton16 little port;
    s_addr =
        hton32 little (bit_or (bit_or (bit_or (shl 32 ip0 24) (shl 32 ip1 16)) (shl 32 ip2 8)) ip3);
  }

  -- `*(reinterpret_cast<const uint32_t *> (ip))` for four bytes in memory.
  abbrev load32 : (b0 b1 b2 b3 : ℕ) → ℕ
  load32 b0 b1 b2 b3 =
      if little
      then b0 + b1 * 2 ^ 8 + b2 * 2 ^ 16 + b3 * 2 ^ 24
      else b3 + b2 * 2 ^ 8 + b1 * 2 ^ 16 + b0 * 2 ^ 24

  -- `InetAddress(const uint8_t ip[4], uint16_t port)`
  unfoldable pub from_bytes : (ip0 ip1 ip2 ip3 port : ℕ) → InetAddress
  unfolding hton16
  from_bytes ip0 ip1 ip2 ip3 port = record {
    family = af_inet;
    sin_port = hton16 little port;
    s_addr = load32 ip0 ip1 ip2 ip3;
  }

  -- `port()`
  unfoldable pub port : InetAddress → ℕ
  unfolding ntoh16
  port a = ntoh16 little a.sin_port

  -- `port(uint16_t val)`: it calls htons(3) of the C library, not `hton`.
  unfoldable pub set_port : (htons : ℕ → ℕ) → ℕ → InetAddress → InetAddress
  set_port htons val a = record a { sin_port = htons val }

  -- `ip()[i]`: byte `i` of `s_addr` in memory.
  unfoldable pub ip : ℕ → InetAddress → ℕ
  ip i a = if little then a.s_addr / 2 ^ (8 * i) % 2 ^ 8 else a.s_addr / 2 ^ (8 * (3 - i)) % 2 ^ 8

  -- The loop of `operator<=>` with `rounds` bytes left, at index `i`.
  unfoldable pub compare_loop : (rounds i : ℕ) → (a b : InetAddress) → Ordering
  unfolding ip port
  compare_loop zero i a b = compare (port a) (port b)
  compare_loop (suc rounds) i a b = elim (compare (ip i a) (ip i b)) [
    | Ordering.lt ↦ Ordering.lt
    | Ordering.eq ↦ compare_loop rounds (i + 1) a b
    | Ordering.gt ↦ Ordering.gt
  ]

  -- `operator<=>`
  unfoldable pub three_way : InetAddress → InetAddress → Ordering
  unfolding compare_loop
  three_way a b = compare_loop 4 0 a b
