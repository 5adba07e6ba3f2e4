-- ===== src/Fs/Stat.antt =====
-- include/metasys/fs/Stat.hxx: `struct stat` at the address `this`, which the calls fill in.
pub mod Laws
use metasys.Base.{ℕ, zero, suc, [], ◌∷◌, is_neg, ℤ}
use metasys.Machine.{
  Addr, Kernel, Call, errno_not_in, M, pure, ◌>>=◌, ◌>>◌, when, call, out_of_fuel, ebadf, efault,
  einval, enametoolong,
}
use metasys.Sys.FileDescriptor
use metasys.Sys.SystemException.{throw_errno}

-- What a `scan` or `lscan` looks at; a path is a C string.
pub data Target : Type 0 where
  at : (fd : ℤ) → (path : Addr) → (flags : ℤ) → Target
  path : Addr → Target
  descriptor : (fd : ℤ) → Target
  link : (path : Addr) → Target

abbrev pub stat_call : Target → Addr → Call
stat_call (at fd name flags) this = Call.fstatat fd name this flags
stat_call (path name) this = Call.stat name this
stat_call (descriptor fd) this = Call.fstat fd this
stat_call (link name) this = Call.lstat name this

unfoldable pub scanthrow : {A : Type 0} → M A
unfolding throw_errno
scanthrow = errno_not_in (ebadf ∷ efault ∷ einval ∷ enametoolong ∷ []) >> throw_errno

-- `operator=(const Stat &other)`, whose body is `*this = other; return *this;`: fuel counts the calls.
unfoldable pub assign : ℕ → (this other : Addr) → M (Unit {0})
assign zero this other = out_of_fuel
assign (suc fuel) this other = assign fuel this other

module _ (k : Kernel) where
  -- `scan(..., handler)` and `lscan(..., handler)`
  unfoldable pub scan_with : {B : Type 0} → Target → (ℤ → M B) → Addr → M B
  scan_with target handler this = do ret ← call k (stat_call target this); handler ret

  -- `scan(...)` and `lscan(...)`
  unfoldable pub scan : Target → Addr → M (Unit {0})
  unfolding scan_with scanthrow
  scan target this = scan_with target (λ ret. when (is_neg ret) scanthrow) this

  -- `scan(fd, path, flags)` and `scan(fd)` on a `FileDescriptor`
  unfoldable pub scan_at : Addr → Addr → ℤ → Addr → M (Unit {0})
  unfolding scan FileDescriptor.value
  scan_at fd name flags this = do v ← FileDescriptor.value fd; scan (at v name flags) this

  unfoldable pub scan_descriptor : Addr → Addr → M (Unit {0})
  unfolding scan FileDescriptor.value
  scan_descriptor fd this = do v ← FileDescriptor.value fd; scan (descriptor v) this

  -- The constructors `Stat(...)`
  unfoldable pub construct_with : {B : Type 0} → Target → (ℤ → M B) → Addr → M (Unit {0})
  unfolding scan_with
  construct_with target handler this = do scan_with target handler this; pure tt

  unfoldable pub construct : Target → Addr → M (Unit {0})
  unfolding construct_with scanthrow
  construct target this = construct_with target (λ ret. when (is_neg ret) scanthrow) this
