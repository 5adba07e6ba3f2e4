-- ===== src/Net/TcpSocketDescriptor.antt =====
-- include/metasys/net/TcpSocketDescriptor.hxx: what both kinds of TCP socket share.
use metasys.Base.{Bool, [], ◌∷◌, if◌then◌else◌, is_neg, ℤ, pos}
use metasys.Machine.{
  Addr, Kernel, Call, errno_not_in, M, ◌>>=◌, ◌>>◌, when, assert, call, ebadf, efault, einval,
  enametoolong, enotsock,
}
use metasys.Sys.FileDescriptor
use metasys.Sys.ClosingDescriptor
use metasys.Sys.ClosingDescriptor.{rvalue}
use metasys.Sys.SystemException.{throw_errno}
use metasys.Net.InetAddress
use metasys.Net.InetAddress.{af_inet}
use metasys.Net.TcpAddress.{sock_stream, ipproto_tcp}
use metasys.Net.SocketDescriptor.{SocketType, setsockopt_with, throwsetsockopt}

-- SOL_SOCKET, SO_REUSEADDR and SO_REUSEPORT of <sys/socket.h>.
abbrev pub sol_socket : ℤ
sol_socket = pos 1

abbrev pub so_reuseaddr : ℤ
so_reuseaddr = pos 2

abbrev pub so_reuseport : ℤ
so_reuseport = pos 15

-- `TcpSocketDescriptorBase`
abbrev pub tcp : SocketType
tcp = record { domain = pos af_inet; type = sock_stream; protocol = pos ipproto_tcp }

-- `TcpSocketDescriptor(TcpSocketDescriptorBase &&other)`
unfoldable pub construct_base : (this other : Addr) → M (Unit {0})
unfolding ClosingDescriptor.construct
construct_base this other = ClosingDescriptor.construct (rvalue other) this

-- `static_cast<int> (allow)`
abbrev pub to_int : Bool → ℤ
to_int allow = if allow then pos 1 else pos 0

unfoldable pub throwbind : {A : Type 0} → M A
unfolding throw_errno
throwbind = errno_not_in (ebadf ∷ einval ∷ enotsock ∷ efault ∷ enametoolong ∷ []) >> throw_errno

module _ (k : Kernel) where
  -- `bind(addr, handler)`
  unfoldable pub bind_with : {B : Type 0} → Addr → (ℤ → M B) → Addr → M B
  unfolding FileDescriptor.valid FileDescriptor.value
  bind_with addr handler this = do
    ok ← FileDescriptor.valid this
    assert ok
    fd ← FileDescriptor.value this
    ret ← call k (Call.bind fd addr InetAddress.size)
    handler ret

  -- `bind(addr)`
  unfoldable pub bind : Addr → Addr → M (Unit {0})
  unfolding bind_with throwbind
  bind addr this = bind_with addr (λ ret. when (is_neg ret) throwbind) this

  unfoldable pub setreuseaddr_with : {B : Type 0} → Bool → (ℤ → M B) → Addr → M B
  unfolding setsockopt_with
  setreuseaddr_with allow handler this =
      setsockopt_with k sol_socket so_reuseaddr (to_int allow) handler this

  unfoldable pub setreuseaddr : Bool → Addr → M (Unit {0})
  unfolding setreuseaddr_with throwsetsockopt
  setreuseaddr allow this = setreuseaddr_with allow (λ ret. when (is_neg ret) throwsetsockopt) this

  unfoldable pub setreuseport_with : {B : Type 0} → Bool → (ℤ → M B) → Addr → M B
  unfolding setsockopt_with
  setreuseport_with allow handler this =
      setsockopt_with k sol_socket so_reuseport (to_int allow) handler this

  unfoldable pub setreuseport : Bool → Addr → M (Unit {0})
  unfolding setreuseport_with throwsetsockopt
  setreuseport allow this = setreuseport_with allow (λ ret. when (is_neg ret) throwsetsockopt) this
