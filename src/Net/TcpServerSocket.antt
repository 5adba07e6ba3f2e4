-- ===== src/Net/TcpServerSocket.antt =====
-- include/metasys/net/TcpServerSocket.hxx: a listening socket. The result of `listeninit` and of
-- `accept` stands at `this` and at `dest`; handlers are ones that may throw.
pub mod Laws
use metasys.Base.{ℕ, Bool, true, false, cond, List, [], ◌∷◌, is_neg, ◌==ℤ◌, ℤ, pos}
use metasys.Machine.{
  Addr, Kernel, Call, errno_not_in, M, pure, ◌>>=◌, ◌>>◌, owning, when, assert, syscall, call,
  ebadf, efault, einval, enotsock, eopnotsupp,
}
use metasys.Sys.FileDescriptor
use metasys.Sys.ClosingDescriptor
use metasys.Sys.SystemException.{throw_errno}
use metasys.Net.InetAddress
use metasys.Net.SocketDescriptor.{openinit, openinit_with}
use metasys.Net.TcpSocketDescriptor.{tcp, bind, bind_with, setreuseport, setreuseport_with}

unfoldable pub throwaccept : {A : Type 0} → M A
unfolding throw_errno
throwaccept = errno_not_in (ebadf ∷ efault ∷ einval ∷ enotsock ∷ eopnotsupp ∷ []) >> throw_errno

unfoldable pub throwlisten : {A : Type 0} → M A
unfolding throw_errno
throwlisten = errno_not_in (ebadf ∷ enotsock ∷ eopnotsupp ∷ []) >> throw_errno

-- `slen` after accept4(2), which was given the size: the value stored there, if any.
abbrev pub stored_length : List ℤ → ℤ
stored_length [] = pos InetAddress.size
stored_length (v ∷ _) = v

abbrev pub default_backlog : ℤ
default_backlog = pos 32

module _ (k : Kernel) where
  -- `accept(from, flags, handler)`; the shorter forms pass `nullptr` and 0.
  unfoldable pub accept_with :
      {B : Type 0} → Addr → ℤ → (ℤ → M B) → (dest this : Addr) → M (Unit {0})
  unfolding FileDescriptor.valid FileDescriptor.value FileDescriptor.construct_from
  accept_with from flags handler dest this = do
    ok ← FileDescriptor.valid this
    assert ok
    fd ← FileDescriptor.value this
    reply ← syscall k (Call.accept4 fd from flags)
    assert (stored_length reply.out ==ℤ pos InetAddress.size)
    handler reply.ret
    FileDescriptor.construct_from reply.ret dest

  -- `accept(from, flags)`
  unfoldable pub accept : Addr → ℤ → (dest this : Addr) → M (Unit {0})
  unfolding accept_with throwaccept
  accept from flags dest this =
      accept_with from flags (λ ret. when (is_neg ret) throwaccept) dest this

  -- `listen(backlog, handler)`
  unfoldable pub listen_with : {B : Type 0} → ℤ → (ℤ → M B) → Addr → M B
  unfolding FileDescriptor.valid FileDescriptor.value
  listen_with backlog handler this = do
    ok ← FileDescriptor.valid this
    assert ok
    fd ← FileDescriptor.value this
    ret ← call k (Call.listen fd backlog)
    handler ret

  -- `listen(backlog)`
  unfoldable pub listen : ℤ → Addr → M (Unit {0})
  unfolding listen_with throwlisten
  listen backlog this = listen_with backlog (λ ret. when (is_neg ret) throwlisten) this

  -- The labels `err_close` and `err` of `listeninit`.
  unfoldable pub fail_close : (ℤ → M (Unit {0})) → ℤ → Addr → M (Unit {0})
  unfolding FileDescriptor.close
  fail_close handler err this = do FileDescriptor.close k this; handler err

  -- From the call of `bind` on.
  unfoldable pub bind_and_listen : Addr → ℤ → (ℤ → M (Unit {0})) → Addr → M (Unit {0})
  unfolding bind_with listen_with fail_close
  bind_and_listen addr backlog handler this = do
    bound ← bind_with k addr (λ r. pure r) this
    cond (is_neg bound) (fail_close handler bound this) (do
      listening ← listen_with backlog (λ r. pure r) this
      cond (is_neg listening) (fail_close handler listening this) (pure tt))

  -- From the call of `setreuseport` on.
  unfoldable pub configure :
      (reuse_port : Bool) → Addr → ℤ → (ℤ → M (Unit {0})) → Addr → M (Unit {0})
  unfolding setreuseport_with fail_close bind_and_listen
  configure true addr backlog handler this = do
    reused ← setreuseport_with k true (λ r. pure r) this
    cond (is_neg reused) (fail_close handler reused this)
        (bind_and_listen addr backlog handler this)
  configure false addr backlog handler this = bind_and_listen addr backlog handler this

  -- `listeninit<ReusePort>(addr, backlog, flags, handler)`
  unfoldable pub listeninit_with :
      (reuse_port : Bool) → Addr → ℤ → ℕ → (ℤ → M (Unit {0})) → Addr → M (Unit {0})
  unfolding openinit_with FileDescriptor.value ClosingDescriptor.destroy configure
  listeninit_with reuse_port addr backlog flags handler this = do
    openinit_with tcp k flags (λ _. pure tt) this
    err ← FileDescriptor.value this
    owning (ClosingDescriptor.destroy k this)
        (cond (is_neg err) (handler err) (configure reuse_port addr backlog handler this))

  -- `listeninit<ReusePort>(addr, backlog, handler)`: the call inside names no template argument.
  unfoldable pub listeninit_no_flags :
      (reuse_port : Bool) → Addr → ℤ → (ℤ → M (Unit {0})) → Addr → M (Unit {0})
  unfolding listeninit_with
  listeninit_no_flags reuse_port addr backlog handler this =
      listeninit_with true addr backlog 0 handler this

  -- `listeninit<ReusePort>(addr, handler)`
  unfoldable pub listeninit_no_backlog :
      (reuse_port : Bool) → Addr → (ℤ → M (Unit {0})) → Addr → M (Unit {0})
  unfolding listeninit_with
  listeninit_no_backlog reuse_port addr handler this =
      listeninit_with true addr default_backlog 0 handler this

  -- `listeninit<ReusePort>(addr, backlog, flags)`
  unfoldable pub listeninit : (reuse_port : Bool) → Addr → ℤ → ℕ → Addr → M (Unit {0})
  unfolding openinit ClosingDescriptor.destroy setreuseport bind listen
  listeninit reuse_port addr backlog flags this = do
    openinit tcp k flags this
    owning (ClosingDescriptor.destroy k this)
        (do when reuse_port (setreuseport k true this); bind k addr this; listen backlog this)
