-- ===== src/Io/WritableDescriptor.antt =====
-- include/metasys/io/WritableDescriptor.hxx: `write` over any descriptor. The loop of `retry` takes
-- fuel, one unit for each call of write(2).
pub mod Laws
use metasys.Base.{ℕ, zero, suc, not, [], ◌∷◌, if◌then◌else◌, is_positive, to_size, ℤ}
use metasys.Machine.{
  Addr, Kernel, Call, errno_not_in, M, ◌>>=◌, ◌>>◌, assert, get, after, call, done, out_of_fuel,
  ebadf, efault, eisdir, einval, edestaddrreq,
}
use metasys.Sys.FileDescriptor
use metasys.Sys.SystemException.{throw_errno}
use metasys.Io.ReadableDescriptor.{is_retry}

unfoldable pub throwwrite : {A : Type 0} → M A
unfolding throw_errno
throwwrite = errno_not_in (ebadf ∷ edestaddrreq ∷ efault ∷ einval ∷ eisdir ∷ []) >> throw_errno

module _ (k : Kernel) where
  -- `write(const void *src, size_t len, ErrorHandler &&handler)`
  unfoldable pub write_with : {B : Type 0} → Addr → ℕ → (ℤ → M B) → Addr → M B
  unfolding FileDescriptor.valid
  write_with src len handler this = do
    ok ← FileDescriptor.valid this
    assert ok
    fd ← get this
    ret ← call k (Call.write fd src len)
    handler ret

  -- The test is `ret <= 0`.
  unfoldable pub write_loop : ℕ → ℤ → Addr → ℕ → M ℕ
  unfolding throwwrite to_size
  write_loop zero fd src len s = out_of_fuel s
  write_loop (suc fuel) fd src len s =
      let r = k s.trace (Call.write fd src len) in
      let s' = after s (Call.write fd src len) r in
      let again = write_loop fuel fd src len s' in
      if not (is_positive r.ret)
      then (if is_retry r.errno then again else throwwrite s')
      else done (to_size r.ret) s'

  -- `write(const void *src, size_t len)`
  unfoldable pub write : ℕ → Addr → ℕ → Addr → M ℕ
  unfolding FileDescriptor.valid write_loop
  write fuel src len this = do
    ok ← FileDescriptor.valid this
    assert ok
    fd ← get this
    write_loop fuel fd src len
