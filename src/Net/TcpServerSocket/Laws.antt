-- ===== src/Net/TcpServerSocket/Laws.antt =====
-- The order of the calls that open a server.
use metasys.Base.{ℕ, ◌≡◌, Bool, true, false, arith, if◌then◌else◌, is_neg, ℤ, pos}
use metasys.Machine.{Addr, History, Kernel, Call, update, after, Machine, done}
use metasys.Net.InetAddress
use metasys.Net.SocketDescriptor.{socket_call}
use metasys.Net.TcpSocketDescriptor.{tcp, sol_socket, so_reuseport}
use metasys.Net.TcpServerSocket.{listeninit}

module _ (k : Kernel) where
  abbrev pub then_call : Call → Machine → Machine
  then_call c s = after s c (k s.trace c)

  -- Where no call fails, `listeninit` makes socket(2), then setsockopt(2) for SO_REUSEPORT if the
  -- template argument asks for it, then bind(2) to the address and listen(2) with the backlog, each
  -- once and on the new descriptor, which the result holds.
  pub listeninit-calls :
      (reuse_port : Bool) (addr : Addr) (backlog : ℤ) (flags : ℕ) (this : Addr) (s : Machine)
      → ((h : History) (c : Call) → is_neg (k h c).ret ≡ false)
      → let fd = (k s.trace (socket_call tcp k flags)).ret in
        let opened = then_call (socket_call tcp k flags) s in
        let held = record opened { mem = update s.mem this fd } in
        let option = Call.setsockopt fd sol_socket so_reuseport (pos 1) 4 in
        let shared = if reuse_port then then_call option held else held in
        listeninit k reuse_port addr backlog flags this s
        ≡ done tt (
            then_call
              (Call.listen fd backlog)
              (then_call (Call.bind fd addr InetAddress.size) shared))
  unfolding listeninit
  listeninit-calls true addr backlog flags this s works =
      let c = socket_call tcp k flags in
      let s1 = then_call c s in
      let fd = (k s.trace c).ret in
      let c1 = Call.setsockopt fd sol_socket so_reuseport (pos 1) 4 in
      let s2 = then_call c1 s1 in
      let c2 = Call.bind fd addr InetAddress.size in
      let s3 = then_call c2 s2 in
      ground (
        arith,
        works s.trace c,
        works s1.trace c1,
        works s2.trace c2,
        works s3.trace (Call.listen fd backlog),
      )
  listeninit-calls false addr backlog flags this s works =
      let c = socket_call tcp k flags in
      let s1 = then_call c s in
      let fd = (k s.trace c).ret in
      let c2 = Call.bind fd addr InetAddress.size in
      let s3 = then_call c2 s1 in
      ground (arith, works s.trace c, works s1.trace c2, works s3.trace (Call.listen fd backlog))
