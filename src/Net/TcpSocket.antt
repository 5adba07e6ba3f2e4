-- ===== src/Net/TcpSocket.antt =====
-- include/metasys/net/TcpSocket.hxx: a connection. The result of `connectinit` stands at `this`; the
-- handler is one that may throw, so the function is not `noexcept`.
use metasys.Base.{ℕ, cond, [], ◌∷◌, is_neg, ℤ}
use metasys.Machine.{
  Addr, Kernel, Call, errno_not_in, M, pure, ◌>>=◌, ◌>>◌, owning, when, assert, call, ebadf, efault,
  enotsock, eprototype, eafnosupport, eisconn, ealready,
}
use metasys.Sys.FileDescriptor
use metasys.Sys.ClosingDescriptor
use metasys.Sys.SystemException.{throw_errno}
use metasys.Net.InetAddress
use metasys.Net.SocketDescriptor.{openinit, openinit_with}
use metasys.Net.TcpSocketDescriptor.{tcp}

unfoldable pub throwconnect : {A : Type 0} → M A
unfolding throw_errno
throwconnect =
    errno_not_in (eafnosupport ∷ ealready ∷ ebadf ∷ efault ∷ eisconn ∷ enotsock ∷ eprototype ∷ [])
    >> throw_errno

unfoldable pub throwdisconnect : {A : Type 0} → M A
unfolding throwconnect
throwdisconnect = throwconnect

module _ (k : Kernel) where
  -- `connect(addr, handler)`
  unfoldable pub connect_with : {B : Type 0} → Addr → (ℤ → M B) → Addr → M B
  unfolding FileDescriptor.valid FileDescriptor.value
  connect_with addr handler this = do
    ok ← FileDescriptor.valid this
    assert ok
    fd ← FileDescriptor.value this
    ret ← call k (Call.connect fd addr InetAddress.size)
    handler ret

  -- `connect(addr)`
  unfoldable pub connect : Addr → Addr → M (Unit {0})
  unfolding connect_with throwconnect
  connect addr this = connect_with addr (λ ret. when (is_neg ret) throwconnect) this

  -- `disconnect(handler)`: connect(2) with an address of family AF_UNSPEC
  unfoldable pub disconnect_with : {B : Type 0} → (ℤ → M B) → Addr → M B
  unfolding FileDescriptor.valid FileDescriptor.value
  disconnect_with handler this = do
    ok ← FileDescriptor.valid this
    assert ok
    fd ← FileDescriptor.value this
    ret ← call k (Call.disconnect fd)
    handler ret

  unfoldable pub disconnect : Addr → M (Unit {0})
  unfolding disconnect_with throwdisconnect
  disconnect this = disconnect_with (λ ret. when (is_neg ret) throwdisconnect) this

  -- The labels `err_close` and `err` of `connectinit`.
  unfoldable pub fail_close : (ℤ → M (Unit {0})) → ℤ → Addr → M (Unit {0})
  unfolding FileDescriptor.close
  fail_close handler err this = do FileDescriptor.close k this; handler err

  -- `connectinit(addr, flags, handler)`; the shorter forms pass the flags 0.
  unfoldable pub connectinit_with : Addr → ℕ → (ℤ → M (Unit {0})) → Addr → M (Unit {0})
  unfolding openinit_with FileDescriptor.value ClosingDescriptor.destroy connect_with fail_close
  connectinit_with addr flags handler this = do
    openinit_with tcp k flags (λ _. pure tt) this
    err ← FileDescriptor.value this
    owning (ClosingDescriptor.destroy k this) (
        cond (is_neg err) (handler err) (do
          ret ← connect_with addr (λ r. pure r) this
          cond (is_neg ret) (fail_close handler ret this) (pure tt)))

  -- `connectinit(addr, flags)`
  unfoldable pub connectinit : Addr → ℕ → Addr → M (Unit {0})
  unfolding openinit ClosingDescriptor.destroy connect
  connectinit addr flags this = do
    openinit tcp k flags this
    owning (ClosingDescriptor.destroy k this) (connect addr this)
