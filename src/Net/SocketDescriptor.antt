-- ===== src/Net/SocketDescriptor.antt =====
-- include/metasys/net/SocketDescriptor.hxx: a socket is a `ClosingDescriptor`, and the domain, type
-- and protocol of the template are a record.
use metasys.Base.{ℕ, bit_or, not, [], ◌∷◌, is_neg, ℤ}
use metasys.Machine.{
  Addr, Kernel, Call, errno_not_in, M, ◌>>=◌, ◌>>◌, when, assert, call, ebadf, einval, edom,
  enotsock, enoprotoopt, eisconn,
}
use metasys.Sys.FileDescriptor
use metasys.Sys.SystemException.{throw_errno}

pub record SocketType : Type 0 where
  pub domain : ℤ
  pub type : ℕ
  pub protocol : ℤ

unfoldable pub throwopen : {A : Type 0} → M A
unfolding throw_errno
throwopen = errno_not_in (einval ∷ []) >> throw_errno

unfoldable pub throwsetsockopt : {A : Type 0} → M A
unfolding throw_errno
throwsetsockopt =
    errno_not_in (ebadf ∷ edom ∷ einval ∷ eisconn ∷ enoprotoopt ∷ enotsock ∷ []) >> throw_errno

-- `sizeof (int)` and the size of a pointer.
abbrev pub sizeof_int : ℕ
sizeof_int = 4

abbrev pub sizeof_pointer : ℕ
sizeof_pointer = 8

module _ (t : SocketType) (k : Kernel) where
  -- `::socket(Domain, Type | flags, Protocol)`
  abbrev pub socket_call : ℕ → Call
  socket_call flags = Call.socket t.domain (bit_or t.type flags) t.protocol

  -- `open(flags, handler)`; the shorter form passes 0.
  unfoldable pub open_with : {B : Type 0} → ℕ → (ℤ → M B) → Addr → M B
  unfolding FileDescriptor.valid FileDescriptor.reset FileDescriptor.value
  open_with flags handler this = do
    ok ← FileDescriptor.valid this
    assert (not ok)
    fd ← call k (socket_call flags)
    FileDescriptor.reset fd this
    ret ← FileDescriptor.value this
    handler ret

  -- `open(flags)`
  unfoldable pub open_socket : ℕ → Addr → M (Unit {0})
  unfolding open_with throwopen
  open_socket flags this = open_with flags (λ ret. when (is_neg ret) throwopen) this

  -- `openinit(flags, handler)`, with the result at `this`; the shorter form passes 0.
  unfoldable pub openinit_with : {B : Type 0} → ℕ → (ℤ → M B) → Addr → M (Unit {0})
  unfolding FileDescriptor.construct_from
  openinit_with flags handler this = do
    fd ← call k (socket_call flags)
    handler fd
    FileDescriptor.construct_from fd this

  -- `openinit(flags)`
  unfoldable pub openinit : ℕ → Addr → M (Unit {0})
  unfolding openinit_with throwopen
  openinit flags this = openinit_with flags (λ ret. when (is_neg ret) throwopen) this

module _ (k : Kernel) where
  -- `setsockopt(level, optname, optval, optlen, handler)` on a pointer
  unfoldable pub setsockopt_at_with :
      {B : Type 0} → (level optname : ℤ) → Addr → ℕ → (ℤ → M B) → Addr → M B
  unfolding FileDescriptor.valid FileDescriptor.value
  setsockopt_at_with level optname optval optlen handler this = do
    ok ← FileDescriptor.valid this
    assert ok
    fd ← FileDescriptor.value this
    ret ← call k (Call.setsockopt_at fd level optname optval optlen)
    handler ret

  -- `setsockopt(level, optname, optval, handler)` on an `int`, passed by its address
  unfoldable pub setsockopt_with :
      {B : Type 0} → (level optname optval : ℤ) → (ℤ → M B) → Addr → M B
  unfolding FileDescriptor.valid FileDescriptor.value
  setsockopt_with level optname optval handler this = do
    ok ← FileDescriptor.valid this
    assert ok
    fd ← FileDescriptor.value this
    ret ← call k (Call.setsockopt fd level optname optval sizeof_int)
    handler ret

  -- `setsockopt(level, optname, optval, optlen)`
  unfoldable pub setsockopt_at : (level optname : ℤ) → Addr → ℕ → Addr → M (Unit {0})
  unfolding setsockopt_at_with throwsetsockopt
  setsockopt_at level optname optval optlen this =
      setsockopt_at_with level optname optval optlen (λ ret. when (is_neg ret) throwsetsockopt) this

  -- `setsockopt<Value>(level, optname, optval, optlen)`, whose parameter `optval` stands at the
  -- address `param`: the address of the parameter is passed on, and its size.
  unfoldable pub setsockopt_typed :
      (level optname : ℤ) → (param optval : Addr) → ℕ → Addr → M (Unit {0})
  unfolding setsockopt_at
  setsockopt_typed level optname param optval optlen this =
      setsockopt_at level optname param sizeof_pointer this
