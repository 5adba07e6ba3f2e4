-- ===== src/Handles/Directories.antt =====
-- Directory handles: what the objects of include/metasys/fs/Directory.hxx implement together.
mod Objects
pub mod Theorems
use metasys.Base.{
  ◌≡◌, refl, ◌≢◌, Bool, true, false, not, ◌&&◌, Option, none, some, arith, if◌then◌else◌, ℤ,
}
use metasys.Machine.{Addr, History, Kernel, Call, Reply, M, pure, ◌>>=◌, ◌>>◌, put}
use metasys.Handles.{Resource, is_live}
use metasys.Fs.Directory
use metasys.Fs.Directory.{is_handle, null}

-- opendir(3) and fdopendir(3) return a handle or a null pointer; closedir(3) takes one back, and
-- fails only for what is no handle.
abbrev opens_directory : Call → Bool
opens_directory (Call.opendir name) = true
opens_directory (Call.fdopendir fd) = true
opens_directory c = false

abbrev closes_directory : Call → Option ℤ
closes_directory (Call.closedir dir) = some dir
closes_directory c = none

abbrev names_directory : Call → Option ℤ
names_directory (Call.closedir dir) = some dir
names_directory (Call.readdir dir) = some dir
names_directory c = none

abbrev opened : Call → Reply → Option ℤ
opened c r = if opens_directory c && is_handle r.ret then some r.ret else none

abbrev is_null : ℤ → Bool
is_null dh = not (is_handle dh)

pub opened-real : (c : Call) (r : Reply) (v : ℤ) → opened c r ≡ some v → is_null v ≡ false
opened-real c r v e = ground (arith, e)

abbrev pub directories : Resource
directories = record {
  is_none = is_null;
  empty = null;
  gives = opened;
  takes = λ c _. closes_directory c;
  names = names_directory;
  empty_none = refl;
  gives_real = opened-real;
}

-- A handle that is given out is not in use.
abbrev pub IsOpening : Kernel → Type 0
IsOpening k =
    (h : History) (c : Call) (v : ℤ) → opened c (k h c) ≡ some v → is_live directories h v ≡ false

-- Where a directory is looked for.
pub data Place : Type 0 where
  path : (name : Addr) → Place
  descriptor : (fd : ℤ) → Place

abbrev pub place_call : Place → Call
place_call (path name) = Call.opendir name
place_call (descriptor fd) = Call.fdopendir fd

-- One statement of a program. The statements that make a new object end the life of the one in its
-- place. `close` is no statement, since it leaves the closed handle in its object.
pub data Statement : Type 0 where
  construct : (place : Place) → (this : Addr) → Statement
  open_dir : (place : Place) → (this : Addr) → Statement
  read : (this : Addr) → Statement
  move_construct : (this from : Addr) → this ≢ from → Statement
  move_assign : (this from : Addr) → this ≢ from → Statement
  destroy : (this : Addr) → Statement

module _ (k : Kernel) where
  -- The life of an object ends, and its cell is free.
  unfoldable pub end_of_life : Addr → M (Unit {0})
  end_of_life this = do Directory.destroy k this; put this null

  unfoldable pub execute : Statement → M (Unit {0})
  unfolding end_of_life
  execute (construct place this) =
      end_of_life this >> Directory.construct_or_throw k (place_call place) this
  execute (open_dir place this) = Directory.open_dir k (place_call place) this
  execute (read this) = do Directory.read k this; pure tt
  execute (move_construct this from apart) = end_of_life this >> Directory.move_construct this from
  execute (move_assign this from apart) = Directory.move_assign k this from
  execute (destroy this) = end_of_life this
