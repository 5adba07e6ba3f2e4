-- ===== src/Io/ReadableDescriptor.antt =====
-- include/metasys/io/ReadableDescriptor.hxx: `read` over any descriptor. The loop of `retry` takes
-- fuel, one unit for each call of read(2).
pub mod Laws
use metasys.Base.{ℕ, zero, suc, Bool, ◌||◌, [], ◌∷◌, ◌==◌, if◌then◌else◌, is_neg, to_size, ℤ}
use metasys.Machine.{
  Addr, Kernel, Call, errno_not_in, M, ◌>>=◌, ◌>>◌, assert, get, after, call, done, out_of_fuel,
  eintr, ebadf, eagain, efault, eisdir,
}
use metasys.Sys.FileDescriptor
use metasys.Sys.SystemException.{throw_errno}

unfoldable pub throwread : {A : Type 0} → M A
unfolding throw_errno
throwread = errno_not_in (ebadf ∷ efault ∷ eisdir ∷ []) >> throw_errno

-- `(errno == EAGAIN) || (errno == EINTR)`
abbrev pub is_retry : ℕ → Bool
is_retry e = (e == eagain) || (e == eintr)

module _ (k : Kernel) where
  -- `read(void *dest, size_t len, ErrorHandler &&handler)`
  unfoldable pub read_with : {B : Type 0} → Addr → ℕ → (ℤ → M B) → Addr → M B
  unfolding FileDescriptor.valid
  read_with dest len handler this = do
    ok ← FileDescriptor.valid this
    assert ok
    fd ← get this
    ret ← call k (Call.read fd dest len)
    handler ret

  unfoldable pub read_loop : ℕ → ℤ → Addr → ℕ → M ℕ
  unfolding throwread to_size
  read_loop zero fd dest len s = out_of_fuel s
  read_loop (suc fuel) fd dest len s =
      let r = k s.trace (Call.read fd dest len) in
      let s' = after s (Call.read fd dest len) r in
      let again = read_loop fuel fd dest len s' in
      if is_neg r.ret
      then (if is_retry r.errno then again else throwread s')
      else done (to_size r.ret) s'

  -- `read(void *dest, size_t len)`
  unfoldable pub read : ℕ → Addr → ℕ → Addr → M ℕ
  unfolding FileDescriptor.valid read_loop
  read fuel dest len this = do
    ok ← FileDescriptor.valid this
    assert ok
    fd ← get this
    read_loop fuel fd dest len
