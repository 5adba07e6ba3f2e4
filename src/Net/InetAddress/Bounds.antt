-- ===== src/Net/InetAddress/Bounds.antt =====
-- Addresses whose fields have the widths of `struct sockaddr_in`.
use metasys.Base.{ℕ, suc, ◌+◌, ◌*◌, ◌^◌, ◌≤◌, ◌<◌, ◌≡◌, refl, ap, ◌↔◌, Bool, true, false, arith}
use metasys.Net.Bit.{ntoh16}
use Prim.Native.Nat.{Ordering}
use native.Mathlib.Nat.{mul-le-mul_right}
use metasys.Net.Bit.Laws.{bswap16_lem}
use metasys.Net.InetAddress.{InetAddress, af_inet, ip, port, three_way}
use metasys.Net.InetAddress.Laws.{three_way-rank, rank, ip_bound}

-- The fields have the widths of `struct sockaddr_in`, and the family is AF_INET.
pub record IsSockaddr (x : InetAddress) : Type 0 where
  pub inet : x.family ≡ af_inet
  pub port_width : x.sin_port < 2 ^ 16
  pub addr_width : x.s_addr < 2 ^ 32

-- Numbers made of the same digits have the same digits.
digits : (n x y p q : ℕ) → p < n → q < n → x * n + p ≡ y * n + q → (x ≡ y) × (p ≡ q)
digits n x y p q hp hq e =
    let up : x < y → x * n + n ≤ y * n =
      λ l. omega (arith, mul-le-mul_right {m = suc x} {n = y} n l) in
    let down : y < x → y * n + n ≤ x * n =
      λ l. omega (arith, mul-le-mul_right {m = suc y} {n = x} n l) in
    (ground (arith, up, down), ground (arith, up, down))

-- The four bytes of a 32-bit word tell the word.
ip-tells :
    (little : Bool) (x y : InetAddress)
    → x.s_addr < 2 ^ 32
    → y.s_addr < 2 ^ 32
    → ip little 0 x ≡ ip little 0 y
    → ip little 1 x ≡ ip little 1 y
    → ip little 2 x ≡ ip little 2 y
    → ip little 3 x ≡ ip little 3 y
    → x.s_addr ≡ y.s_addr
unfolding ip
ip-tells true x y hx hy e0 e1 e2 e3 = omega arith
ip-tells false x y hx hy e0 e1 e2 e3 = omega arith

port-tells :
    (little : Bool) (x y : InetAddress)
    → x.sin_port < 2 ^ 16
    → y.sin_port < 2 ^ 16
    → port little x ≡ port little y
    → x.sin_port ≡ y.sin_port
unfolding port ntoh16
port-tells true x y hx hy e = omega (arith, bswap16_lem x.sin_port hx, bswap16_lem y.sin_port hy)
port-tells false x y hx hy e = e

port_bound : (little : Bool) (x : InetAddress) → x.sin_port < 2 ^ 16 → port little x < 2 ^ 16
unfolding port ntoh16
port_bound true x h = omega (arith, bswap16_lem x.sin_port h)
port_bound false x h = h

-- Addresses with the same bytes and the same port are the same.
ext :
    (x y : InetAddress)
    → IsSockaddr x
    → IsSockaddr y
    → x.sin_port ≡ y.sin_port
    → x.s_addr ≡ y.s_addr
    → x ≡ y
ext x y vx vy ports addrs =
    let same : record { family = x.family; sin_port = x.sin_port; s_addr = x.s_addr }
        ≡ record { family = y.family; sin_port = y.sin_port; s_addr = y.s_addr } =
      rw (vx.inet, vy.inet, ports, addrs) refl in
    same

rank-tells :
    (little : Bool) (x y : InetAddress)
    → IsSockaddr x
    → IsSockaddr y
    → rank little x ≡ rank little y
    → x ≡ y
rank-tells little x y vx vy e =
    let hx = port_bound little x vx.port_width in
    let hy = port_bound little y vy.port_width in
    let (e0, r0) =
      digits (2 ^ 40) (ip little 0 x) (ip little 0 y)
        (ip little 1 x * 2 ^ 32 + ip little 2 x * 2 ^ 24 + ip little 3 x * 2 ^ 16 + port little x)
        (ip little 1 y * 2 ^ 32 + ip little 2 y * 2 ^ 24 + ip little 3 y * 2 ^ 16 + port little y)
        (omega (arith, ip_bound little 1 x, ip_bound little 2 x, ip_bound little 3 x))
        (omega (arith, ip_bound little 1 y, ip_bound little 2 y, ip_bound little 3 y))
        (omega arith) in
    let (e1, r1) =
      digits (2 ^ 32) (ip little 1 x) (ip little 1 y)
        (ip little 2 x * 2 ^ 24 + ip little 3 x * 2 ^ 16 + port little x)
        (ip little 2 y * 2 ^ 24 + ip little 3 y * 2 ^ 16 + port little y)
        (omega (arith, ip_bound little 2 x, ip_bound little 3 x))
        (omega (arith, ip_bound little 2 y, ip_bound little 3 y)) (omega arith) in
    let (e2, r2) =
      digits (2 ^ 24) (ip little 2 x) (ip little 2 y) (ip little 3 x * 2 ^ 16 + port little x)
        (ip little 3 y * 2 ^ 16 + port little y) (omega (arith, ip_bound little 3 x))
        (omega (arith, ip_bound little 3 y)) (omega arith) in
    let (e3, r3) =
      digits (2 ^ 16) (ip little 3 x) (ip little 3 y) (port little x) (port little y) hx hy
        (omega arith) in
    ext x y vx vy (port-tells little x y vx.port_width vy.port_width r3)
      (ip-tells little x y vx.addr_width vy.addr_width e0 e1 e2 e3)

-- `operator<=>` of two AF_INET addresses whose fields have the widths of `struct sockaddr_in` says
-- equal just when they are the same address.
three_way-same :
    (little : Bool) (x y : InetAddress)
    → IsSockaddr x
    → IsSockaddr y
    → (three_way little x y ≡ Ordering.eq) ↔ (x ≡ y)
three_way-same little x y vx vy =
    let by =
      three_way-rank little x y (port_bound little x vx.port_width)
        (port_bound little y vy.port_width) in
    (
      λ e. rank-tells little x y vx vy (ground (arith, by, e)),
      λ e. ground (arith, by, ap (rank little) e),
    )
