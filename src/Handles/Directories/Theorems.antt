-- ===== src/Handles/Directories/Theorems.antt =====
-- Programs over directories.
use metasys.Base.{
  ◌≡◌, refl, sym, ◌≢◌, inl, inr, true, false, List, arith, Bool-cases, ◌==ℤ◌, ==ℤ_iff, ℤ, pos,
}
use metasys.Machine.{Addr, Kernel, Call, update, Machine, done}
use metasys.Fs.Directory
use metasys.Fs.Directory.{is_handle, null}
use metasys.Fs.Directory.Laws.{move_assign_directory_lem, closed_dir}
use metasys.Handles.{is_live, IsMatched, IsNew}
use metasys.Handles.Steps.{IsMatched-ext, IsMatched-hand_over}
use metasys.Handles.Rules.{
  IsEmpty, Safe, Keeps, Empties-Keeps, Empties-Fills, run, run-Keeps, run-none_live,
}
use metasys.Handles.Directories.{
  directories, IsOpening, place_call, Statement, end_of_life, execute, construct, open_dir, read,
  move_construct, move_assign, destroy,
}
use metasys.Handles.Directories.Objects.{
  open_dir-Keeps, construct-Fills, closed_dir-IsMatched, closed_dir-IsClean, end_of_life-Empties,
  read-Keeps, move_construct-Fills,
}

module _ (k : Kernel) (opening : IsOpening k) where
  -- The old handle is closed, and then the new one handed over.
  handed_over-IsMatched :
      (this from : Addr) (s : Machine)
      → IsMatched directories s
      → is_handle (s.mem this) ≡ true
      → this ≢ from
      → IsMatched directories
          (record (closed_dir k this s) { mem = update (update s.mem this (s.mem from)) from null })
  handed_over-IsMatched this from s v has apart =
      let t = record (closed_dir k this s) { mem = update s.mem this null } in
      let w = closed_dir-IsMatched k opening this s v has in
      let moved = IsMatched-hand_over directories t w this from (ground arith) apart in
      IsMatched-ext directories
        (record t { mem = update (update t.mem this (t.mem from)) from null }) moved
        (update (update s.mem this (s.mem from)) from null) (λ a. ground arith)

  move_assign-Keeps :
      (this from : Addr) → this ≢ from → Keeps directories (Directory.move_assign k this from)
  unfolding Directory.move_assign
  move_assign-Keeps this from apart s v = elim (Bool-cases (is_handle (s.mem this))) [
    | inr free ↦ rw free (IsMatched-hand_over directories s v this from (rw free refl) apart)
    | inl has ↦ elim (Bool-cases (s.mem from ==ℤ s.mem this)) [
      | inl same ↦ absurd (
          apart (v.sole this from (rw has refl) (sym ((==ℤ_iff (s.mem from) (s.mem this)).0 same))))
      | inr differ ↦ elim (Bool-cases ((k s.trace (Call.closedir (s.mem this))).ret ==ℤ pos 0)) [
        | inl went ↦
            rw (move_assign_directory_lem k this from s differ, has, went)
              (handed_over-IsMatched this from s v has apart)
        | inr failed ↦
            rw (move_assign_directory_lem k this from s differ, has, failed)
              (closed_dir-IsClean k opening this s v has)
      ]
    ]
  ]

  execute-Keeps : (c : Statement) → Keeps directories (execute k c)
  unfolding execute
  execute-Keeps (construct place this) =
      Empties-Fills directories this (end_of_life k this)
        (Directory.construct_or_throw k (place_call place) this)
        (end_of_life-Empties k opening this) (construct-Fills k opening place this)
  execute-Keeps (open_dir place this) = open_dir-Keeps k opening place this
  execute-Keeps (read this) = read-Keeps k opening this
  execute-Keeps (move_construct this from apart) =
      Empties-Fills directories this (end_of_life k this) (Directory.move_construct this from)
        (end_of_life-Empties k opening this) (move_construct-Fills k opening this from apart)
  execute-Keeps (move_assign this from apart) = move_assign-Keeps this from apart
  execute-Keeps (destroy this) =
      Empties-Keeps directories this (end_of_life k this) (end_of_life-Empties k opening this)

  -- In a program over directories, of objects that are opened, read, moved, assigned from another
  -- object and destroyed, each statement followed by a handler of every exception, where opendir(3)
  -- and fdopendir(3) return a handle that is not in use or fail: from a machine where the objects
  -- that hold a handle and the handles not yet closed match one to one, readdir(3) and closedir(3)
  -- are only ever passed a handle that was opened and not closed since, whether the program ends or
  -- the process is stopped; where it ends, objects and handles match again.
  pub run-directories-IsMatched :
      (cs : List Statement) (s : Machine)
      → IsMatched directories s
      → Safe directories (λ _. IsMatched directories) (run (execute k) cs s)
  run-directories-IsMatched = run-Keeps directories (execute k) execute-Keeps

  -- A program over directories that starts with nothing called and every object empty, and that
  -- ends with every object empty, has closed every handle that was opened, under the same
  -- hypothesis on opendir(3) and fdopendir(3).
  pub run-all_closed :
      (cs : List Statement) (s t : Machine) (dh : ℤ)
      → IsNew directories s
      → run (execute k) cs s ≡ done tt t
      → ((a : Addr) → IsEmpty directories a t)
      → is_live directories t.trace dh ≡ false
  run-all_closed = run-none_live directories (execute k) execute-Keeps
