-- ===== src/Sys/FileDescriptor.antt =====
-- include/metasys/sys/FileDescriptor.hxx: the field `_fd` of the object at `this` is the cell `this`.
pub mod Laws
use metasys.Base.{Bool, not, [], ◌∷◌, minus_one, is_neg, ℤ}
use metasys.Machine.{
  Addr, Kernel, Call, errno_not_in, M, pure, ◌>>=◌, ◌>>◌, when, assert, get, put, call, ebadf,
}
use metasys.Sys.SystemException.{throw_errno}

-- `FileDescriptor()`
unfoldable pub construct : Addr → M (Unit {0})
construct this = put this minus_one

-- `FileDescriptor(int fd)`
unfoldable pub construct_from : ℤ → Addr → M (Unit {0})
construct_from fd this = put this fd

-- `FileDescriptor(const FileDescriptor &other)`
unfoldable pub construct_copy : (this other : Addr) → M (Unit {0})
construct_copy this other = do fd ← get other; put this fd

-- `FileDescriptor(FileDescriptor &&other)`
unfoldable pub move_construct : (this other : Addr) → M (Unit {0})
move_construct this other = do fd ← get other; put this fd; put other minus_one

-- `operator=(FileDescriptor &&other)`
unfoldable pub move_assign : (this other : Addr) → M (Unit {0})
move_assign this other = do tmp ← get other; put other minus_one; put this tmp

unfoldable pub value : Addr → M ℤ
value this = get this

abbrev pub is_valid_fd : ℤ → Bool
is_valid_fd fd = not (is_neg fd)

unfoldable pub valid : Addr → M Bool
valid this = do fd ← get this; pure (is_valid_fd fd)

-- `reset(int fd)`; the default argument is -1.
unfoldable pub reset : ℤ → Addr → M ℤ
reset fd this = do tmp ← get this; put this fd; pure tmp

unfoldable pub closethrow : {A : Type 0} → M A
unfolding throw_errno
closethrow = errno_not_in (ebadf ∷ []) >> throw_errno

module _ (k : Kernel) where
  -- `close(ErrHandler &&handler)`
  unfoldable pub close_with : {B : Type 0} → (ℤ → M B) → Addr → M B
  unfolding valid
  close_with handler this = do
    ok ← valid this
    assert ok
    tmp ← get this
    put this minus_one
    ret ← call k (Call.close tmp)
    handler ret

  -- `close()`
  unfoldable pub close : Addr → M (Unit {0})
  unfolding close_with closethrow
  close this = close_with (λ ret. when (is_neg ret) closethrow) this
