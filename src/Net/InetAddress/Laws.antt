-- ===== src/Net/InetAddress/Laws.antt =====
-- Octets and port are read back, and the order of addresses is that of numbers.
use metasys.Base.{
  ℕ, suc, ◌+◌, ◌*◌, ◌%◌, ◌^◌, ◌≤◌, ◌<◌, bit_or, ◌≡◌, refl, sym, ap, ◌∙◌, Bool, true, false, arith,
  or_sum,
}
use metasys.Net.Bit.{bswap16, bswap32, hton16, hton32}
use metasys.Net.Bit.Laws.{bswap32_lem, ntoh-hton}
use metasys.Net.InetAddress.{
  empty, any_host, localhost, InetAddress, from_octets, from_bytes, port, ip, compare_loop,
  three_way,
}
use Prim.Native.Nat.{compare, Ordering}
use native.Mathlib.Nat.{mul-le-mul_right}

-- The four octets in one number, the first one highest.
octets :
    (a b c d : ℕ)
    → a < 256
    → b < 256
    → c < 256
    → d < 256
    → bit_or (bit_or (bit_or (a * 2 ^ 24 % 2 ^ 32) (b * 2 ^ 16 % 2 ^ 32)) (c * 2 ^ 8 % 2 ^ 32)) d
      ≡ a * 2 ^ 24 + b * 2 ^ 16 + c * 2 ^ 8 + d
octets a b c d ha hb hc hd =
    let ea : a * 2 ^ 24 % 2 ^ 32 ≡ a * 2 ^ 24 = omega arith in
    let eb : b * 2 ^ 16 % 2 ^ 32 ≡ b * 2 ^ 16 = omega arith in
    let ec : c * 2 ^ 8 % 2 ^ 32 ≡ c * 2 ^ 8 = omega arith in
    let s1 = a * 2 ^ 24 + b * 2 ^ 16 in
    let s2 = s1 + c * 2 ^ 8 in
    let o1 : bit_or (a * 2 ^ 24) (b * 2 ^ 16) ≡ s1 =
      or_sum 24 a (a * 2 ^ 24) (b * 2 ^ 16) refl (omega arith) in
    let o2 : bit_or s1 (c * 2 ^ 8) ≡ s2 =
      or_sum 16 (a * 2 ^ 8 + b) s1 (c * 2 ^ 8) (omega arith) (omega arith) in
    let o3 : bit_or s2 d ≡ s2 + d =
      or_sum 8 (a * 2 ^ 16 + b * 2 ^ 8 + c) s2 d (omega arith) (omega arith) in
    rw (ea, eb, ec, o1, o2, o3) refl

-- The constructor from four octets and the one from an array of the same octets, each below 256,
-- make the same address, on machines of either byte order.
pub from_octets-from_bytes :
    (little : Bool) (a b c d p : ℕ)
    → a < 256
    → b < 256
    → c < 256
    → d < 256
    → from_octets little a b c d p ≡ from_bytes little a b c d p
unfolding from_octets from_bytes hton32
from_octets-from_bytes true a b c d p ha hb hc hd =
    let sum = a * 2 ^ 24 + b * 2 ^ 16 + c * 2 ^ 8 + d in
    let swapped : bswap32 sum ≡ a + b * 2 ^ 8 + c * 2 ^ 16 + d * 2 ^ 24 =
      omega (arith, bswap32_lem sum (omega arith)) in
    rw (octets a b c d ha hb hc hd, swapped) refl
from_octets-from_bytes false a b c d p ha hb hc hd =
    let sum : a * 2 ^ 24 + b * 2 ^ 16 + c * 2 ^ 8 + d ≡ d + c * 2 ^ 8 + b * 2 ^ 16 + a * 2 ^ 24 =
      omega arith in
    rw (octets a b c d ha hb hc hd, sum) refl

-- The octets of `x` and its port.
abbrev pub Reads : (little : Bool) (a b c d p : ℕ) → InetAddress → Type 0
Reads little a b c d p x =
    (ip little 0 x ≡ a)
    × (ip little 1 x ≡ b)
    × (ip little 2 x ≡ c)
    × (ip little 3 x ≡ d)
    × (port little x ≡ p)

port_lem :
    (little : Bool) (p : ℕ) (x : InetAddress)
    → p < 2 ^ 16
    → x.sin_port ≡ hton16 little p
    → port little x ≡ p
unfolding port
port_lem little p x h e = rw e ((ntoh-hton little p).0 h)

from_bytes-Reads :
    (little : Bool) (a b c d p : ℕ)
    → a < 256
    → b < 256
    → c < 256
    → d < 256
    → p < 2 ^ 16
    → Reads little a b c d p (from_bytes little a b c d p)
unfolding from_bytes ip
from_bytes-Reads true a b c d p ha hb hc hd hp = (
  omega arith,
  omega arith,
  omega arith,
  omega arith,
  port_lem true p (from_bytes true a b c d p) hp refl,
)
from_bytes-Reads false a b c d p ha hb hc hd hp = (
  omega arith,
  omega arith,
  omega arith,
  omega arith,
  port_lem false p (from_bytes false a b c d p) hp refl,
)

-- The constructor from four octets, each below 256, and a 16-bit port makes an address from which
-- `ip()` and `port()` read back the same octets, in the same order, and the same port, on machines
-- of either byte order.
pub from_octets-Reads :
    (little : Bool) (a b c d p : ℕ)
    → a < 256
    → b < 256
    → c < 256
    → d < 256
    → p < 2 ^ 16
    → Reads little a b c d p (from_octets little a b c d p)
from_octets-Reads little a b c d p ha hb hc hd hp =
    rw (from_octets-from_bytes little a b c d p ha hb hc hd)
      (from_bytes-Reads little a b c d p ha hb hc hd hp)

-- On machines of either byte order, four constructors agree with the one from four octets: the empty
-- address is 0.0.0.0 with port 0, the one from a port alone is 0.0.0.0 with that port, `localhost` is
-- 127.0.0.1 with its port, and the one from an array of four octets below 256 is that of the same
-- octets and port.
pub constructors-from_octets :
    (little : Bool) (a b c d p : ℕ)
    → a < 256
    → b < 256
    → c < 256
    → d < 256
    → (empty ≡ from_octets little 0 0 0 0 0)
      × (any_host little p ≡ from_octets little 0 0 0 0 p)
      × (localhost little p ≡ from_octets little 127 0 0 1 p)
      × (from_bytes little a b c d p ≡ from_octets little a b c d p)
unfolding empty any_host localhost from_octets bswap16 bswap32
constructors-from_octets true a b c d p ha hb hc hd =
    (refl, refl, refl, sym (from_octets-from_bytes true a b c d p ha hb hc hd))
constructors-from_octets false a b c d p ha hb hc hd =
    (refl, refl, refl, sym (from_octets-from_bytes false a b c d p ha hb hc hd))

-- The octets and the port in one number.
abbrev pub rank : Bool → InetAddress → ℕ
rank little x =
    ip little 0 x * 2 ^ 40
    + ip little 1 x * 2 ^ 32
    + ip little 2 x * 2 ^ 24
    + ip little 3 x * 2 ^ 16
    + port little x

abbrev then_by : Ordering → Ordering → Ordering
then_by o o' = elim o [ Ordering.lt ↦ Ordering.lt | Ordering.eq ↦ o' | Ordering.gt ↦ Ordering.gt ]

-- Comparing the high digits first is comparing the numbers.
first_digit :
    (n x y p q : ℕ)
    → p < n
    → q < n
    → then_by (compare x y) (compare p q) ≡ compare (x * n + p) (y * n + q)
first_digit n x y p q hp hq =
    let up : x < y → x * n + n ≤ y * n =
      λ l. omega (arith, mul-le-mul_right {m = suc x} {n = y} n l) in
    let down : y < x → y * n + n ≤ x * n =
      λ l. omega (arith, mul-le-mul_right {m = suc y} {n = x} n l) in
    ground (arith, up, down)

pub ip_bound : (little : Bool) (i : ℕ) (x : InetAddress) → ip little i x < 256
unfolding ip
ip_bound true i x = omega arith
ip_bound false i x = omega arith

-- `operator<=>` of two addresses with 16-bit ports is the order of numbers: of the octets from the
-- first one on, and the port after them, in one number.
pub three_way-rank :
    (little : Bool) (x y : InetAddress)
    → port little x < 2 ^ 16
    → port little y < 2 ^ 16
    → three_way little x y ≡ compare (rank little x) (rank little y)
unfolding three_way compare_loop
three_way-rank little x y hx hy =
    let x0 = ip little 0 x in
    let x1 = ip little 1 x in
    let x2 = ip little 2 x in
    let x3 = ip little 3 x in
    let xp = port little x in
    let y0 = ip little 0 y in
    let y1 = ip little 1 y in
    let y2 = ip little 2 y in
    let y3 = ip little 3 y in
    let yp = port little y in
    let a1 = ip_bound little 1 x in
    let a2 = ip_bound little 2 x in
    let a3 = ip_bound little 3 x in
    let b1 = ip_bound little 1 y in
    let b2 = ip_bound little 2 y in
    let b3 = ip_bound little 3 y in
    let xs3 = x3 * 2 ^ 16 + xp in
    let ys3 = y3 * 2 ^ 16 + yp in
    let xs2 = x2 * 2 ^ 24 + xs3 in
    let ys2 = y2 * 2 ^ 24 + ys3 in
    let xs1 = x1 * 2 ^ 32 + xs2 in
    let ys1 = y1 * 2 ^ 32 + ys2 in
    let sum : rank little x ≡ x0 * 2 ^ 40 + xs1 = omega arith in
    let sum' : rank little y ≡ y0 * 2 ^ 40 + ys1 = omega arith in
    let e3 : compare_loop little 1 3 x y ≡ compare xs3 ys3 =
      first_digit (2 ^ 16) x3 y3 xp yp hx hy in
    let e2 : compare_loop little 2 2 x y ≡ compare xs2 ys2 =
      ap (then_by (compare x2 y2)) e3
      ∙ first_digit (2 ^ 24) x2 y2 xs3 ys3 (omega arith) (omega arith) in
    let e1 : compare_loop little 3 1 x y ≡ compare xs1 ys1 =
      ap (then_by (compare x1 y1)) e2
      ∙ first_digit (2 ^ 32) x1 y1 xs2 ys2 (omega arith) (omega arith) in
    rw (sum, sum')
      (ap (then_by (compare x0 y0)) e1
        ∙ first_digit (2 ^ 40) x0 y0 xs1 ys1 (omega arith) (omega arith))
