-- ===== src/Fs/Directory.antt =====
-- include/metasys/fs/Directory.hxx and fs/Directory.cxx: `_dh` of the object at `this` is the cell
-- `this`, and the null pointer is 0.
pub mod Laws
use metasys.Base.{Bool, not, [], ◌∷◌, if◌then◌else◌, minus_one, ◌==ℤ◌, ℤ, pos}
use metasys.Machine.{
  Addr, Kernel, Call, errno_not_in, M, pure, ◌>>=◌, ◌>>◌, noexcept, when, assert, get, put, call,
  ebadf,
}
use metasys.Sys.FileDescriptor
use metasys.Sys.SystemException.{throw_errno}

abbrev pub null : ℤ
null = pos 0

abbrev pub is_handle : ℤ → Bool
is_handle dh = not (dh ==ℤ null)

-- `Directory()`
unfoldable pub construct : Addr → M (Unit {0})
construct this = put this null

-- `Directory(DIR *dh)`
unfoldable pub construct_from : ℤ → Addr → M (Unit {0})
construct_from dh this = put this dh

-- `Directory(Directory &&other)`
unfoldable pub move_construct : (this other : Addr) → M (Unit {0})
move_construct this other = do dh ← get other; put this dh; put other null

unfoldable pub value : Addr → M ℤ
value this = get this

unfoldable pub valid : Addr → M Bool
valid this = do dh ← get this; pure (is_handle dh)

-- `reset(DIR *dh)`
unfoldable pub reset : ℤ → Addr → M ℤ
reset dh this = do tmp ← get this; put this dh; pure tmp

unfoldable pub openthrow : {A : Type 0} → M A
unfolding throw_errno
openthrow = errno_not_in (ebadf ∷ []) >> throw_errno

module _ (k : Kernel) where
  -- `Directory(const char *name, handler)` by `Call.opendir`, `Directory(int fd, handler)` by
  -- `Call.fdopendir`.
  unfoldable pub construct_with : {B : Type 0} → Call → (ℤ → M B) → Addr → M (Unit {0})
  construct_with c handler this = do dh ← call k c; put this dh; handler dh; pure tt

  -- `Directory(FileDescriptor &&fd, handler)`
  unfoldable pub construct_taking : {B : Type 0} → Addr → (ℤ → M B) → Addr → M (Unit {0})
  unfolding FileDescriptor.reset construct_with
  construct_taking other handler this = do
    fd ← FileDescriptor.reset minus_one other
    construct_with (Call.fdopendir fd) handler this

  -- `Directory(Target &&target)`
  unfoldable pub construct_or_throw : Call → Addr → M (Unit {0})
  unfolding construct_with openthrow
  construct_or_throw c this = construct_with c (λ ret. when (ret ==ℤ null) openthrow) this

  -- `Directory(Target &&target)` where the target is a `FileDescriptor &&`
  unfoldable pub construct_or_throw_taking : (other this : Addr) → M (Unit {0})
  unfolding construct_taking openthrow
  construct_or_throw_taking other this =
      construct_taking other (λ ret. when (ret ==ℤ null) openthrow) this

  -- `open(name, handler)` and `open(fd, handler)`
  unfoldable pub open_with : {B : Type 0} → Call → (ℤ → M B) → Addr → M B
  unfolding valid
  open_with c handler this = do
    ok ← valid this
    assert (not ok)
    dh ← call k c
    put this dh
    handler dh

  -- `open(target)`
  unfoldable pub open_dir : Call → Addr → M (Unit {0})
  unfolding open_with openthrow
  open_dir c this = open_with c (λ ret. when (ret ==ℤ null) openthrow) this

  -- `close()`
  unfoldable pub close : Addr → M (Unit {0})
  unfolding valid
  close this = noexcept (do
    ok ← valid this
    assert ok
    dh ← get this
    ret ← call k (Call.closedir dh)
    assert (ret ==ℤ pos 0))

  -- `~Directory()`
  unfoldable pub destroy : Addr → M (Unit {0})
  unfolding valid close
  destroy this = do ok ← valid this; if not ok then pure tt else close this

  -- `operator=(Directory &&other)`
  unfoldable pub move_assign : (this other : Addr) → M (Unit {0})
  unfolding valid close
  move_assign this other = do
    ok ← valid this
    when ok (do theirs ← get other; ours ← get this; when (not (theirs ==ℤ ours)) (close this))
    dh ← get other
    put this dh
    put other null

  -- `read()`: the entry, or null
  unfoldable pub read : Addr → M ℤ
  unfolding valid
  read this = noexcept (do ok ← valid this; assert ok; dh ← get this; call k (Call.readdir dh))
