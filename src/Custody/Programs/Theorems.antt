-- ===== src/Custody/Programs/Theorems.antt =====
-- Through every such program, each running thread has one object that answers for it.
use metasys.Base.{ℕ, ◌≡◌, refl, ◌∙◌, ◌≢◌, false, List, [], arith, ℤ}
use metasys.Machine.{Addr, Kernel, update, Machine, done}
use metasys.Sched.Pthread
use metasys.Sched.Pthread.Laws.{destroy-terminate}
use metasys.Sched.Pthread.{Pthreads, IsPthreads, Target, invalid, create_call, createthrow}
use metasys.Handles.{IsNew}
use metasys.Handles.Steps.{IsNew-IsMatched, IsMatched-hand_over, IsMatched-ext}
use metasys.Handles.Rules.{
  Safe, Keeps, Empties, Fills, Empties-Keeps, Empties-Fills, run, run-Keeps, run-none_live,
}
use metasys.Custody.{running, is_running, ended, ended-IsTaking, hand_over, IsThreading, IsKept}
use metasys.Sched.Thread.{thread_behavior}
use metasys.Custody.Programs.{
  Statement, end_of_life, execute, create, createinit, join, detach, cancel, move_construct,
  move_assign, hand_over_thread, destroy,
}
use metasys.Custody.Operations.{
  create-Keeps, createinit-Fills, join-Keeps, detach-Keeps, cancel-Keeps, destroy-Empties,
  when_free-Keeps, hand_over-Fills, move_assign-Fills,
}

module _ (p : Pthreads) (law : IsPthreads p) (k : Kernel) (threading : IsThreading k) where
  move_construct-Fills :
      (this from : Addr) → this ≢ from → Fills running this (Pthread.move_construct this from)
  unfolding Pthread.move_construct
  move_construct-Fills this from apart s v free =
      IsMatched-hand_over running s v this from free apart

  end_of_life-Empties : (this : Addr) → Empties running this (end_of_life p k this)
  unfolding end_of_life
  end_of_life-Empties this = destroy-Empties p law k threading ended ended-IsTaking this

  -- Both objects without a thread: the destructor has nothing to terminate.
  move_assign_none-Safe :
      (this from : Addr) (s : Machine)
      → IsKept s
      → s.mem this ≡ invalid
      → s.mem from ≡ invalid
      → Safe running (λ _. IsKept) (Pthread.move_assign p k thread_behavior this from s)
  unfolding Pthread.move_assign Pthread.destroy
  move_assign_none-Safe this from s v none_here none_there =
      let quiet : Pthread.stop_thread p k thread_behavior this s ≡ done tt s =
        destroy-terminate p law k this s ∙ rw none_here refl in
      let left =
        IsMatched-ext running s v (update (update s.mem this invalid) from invalid)
          (λ a. ground (arith, none_here, none_there)) in
      rw (none_here, none_there, law invalid invalid) (rw quiet (rw none_there left))

  execute-Keeps : (c : Statement) → Keeps running (execute p k c)
  unfolding execute
  execute-Keeps (create attr target this) =
      create-Keeps p law k threading ended ended-IsTaking attr target this
  execute-Keeps (createinit attr target this) =
      Empties-Fills running this (end_of_life p k this) (Pthread.createinit p k attr target this)
        (end_of_life-Empties this)
        (createinit-Fills p law k threading ended ended-IsTaking attr target this)
  execute-Keeps (join this) = join-Keeps p law k threading ended ended-IsTaking this
  execute-Keeps (detach this) = detach-Keeps p law k threading ended ended-IsTaking this
  execute-Keeps (cancel this) = cancel-Keeps p law k threading ended ended-IsTaking this
  execute-Keeps (move_construct this from apart) =
      Empties-Fills running this (end_of_life p k this) (Pthread.move_construct this from)
        (end_of_life-Empties this) (move_construct-Fills this from apart)
  execute-Keeps (move_assign this from) =
      when_free-Keeps p law k threading ended ended-IsTaking this
        (Pthread.move_assign p k thread_behavior this from)
        (move_assign-Fills p law k threading ended ended-IsTaking thread_behavior this from
          (move_assign_none-Safe this from))
  execute-Keeps (hand_over_thread this from) =
      when_free-Keeps p law k threading ended ended-IsTaking this (hand_over this from)
        (hand_over-Fills p law k threading ended ended-IsTaking this from)
  execute-Keeps (destroy this) =
      Empties-Keeps running this (end_of_life p k this) (end_of_life-Empties this)

  -- Over `Thread` objects, a program is any sequence of `create`, `createinit`, `join`, `detach`,
  -- `cancel` (without handlers), move constructions, destructions, and move assignments and
  -- hand-overs by `reset` to an object without a thread (with no other move assignment and no other
  -- `reset`), each followed by a handler of every exception. Through all of it, each running thread
  -- has exactly one object that answers for it, each object with a thread a running one, and only
  -- running threads were joined or detached, so none twice. It is assumed that pthread_create(3)
  -- stores one value, and on success the id of a new thread other than 0, that pthread_join(3) and
  -- pthread_detach(3) have no errors but those of their manual pages, and that pthread_equal(3) is
  -- nonzero exactly for the same thread. The program starts from such a state. Where an assertion,
  -- `abort()` or `std::terminate()` stops it, only running threads were joined or detached.
  pub run-IsKept :
      (cs : List Statement) (s : Machine)
      → IsKept s
      → Safe running (λ _. IsKept) (run (execute p k) cs s)
  run-IsKept = run-Keeps running (execute p k) execute-Keeps

-- No thread was created, and no object has one.
abbrev pub initial : ℕ → Machine
initial e = record { mem = λ _. invalid; errno = e; trace = [] }

initial-IsNew : (e : ℕ) → IsNew running (initial e)
initial-IsNew e = (refl, λ a. refl)

pub initial-IsKept : (e : ℕ) → IsKept (initial e)
initial-IsKept e = IsNew-IsMatched running (initial e) (initial-IsNew e)

-- Over `Thread` objects, a program is any sequence of `create`, `createinit`, `join`, `detach`,
-- `cancel` (without handlers), move constructions, destructions, and move assignments and
-- hand-overs by `reset` to an object without a thread (with no other move assignment and no other
-- `reset`), each followed by a handler of every exception. One that starts with no thread, runs to
-- its end and leaves no object with a thread has joined or detached every thread that it created,
-- whichever calls failed and whichever exceptions were caught on the way. It is assumed that
-- pthread_create(3) stores one value, and on success the id of a new thread other than 0, that
-- pthread_join(3) and pthread_detach(3) have no errors but those of their manual pages, and that
-- pthread_equal(3) is nonzero exactly for the same thread.
pub run-all_ended :
    (p : Pthreads) (k : Kernel) (e : ℕ) (cs : List Statement) (s : Machine) (tid : ℤ)
    → IsPthreads p
    → IsThreading k
    → run (execute p k) cs (initial e) ≡ done tt s
    → ((a : Addr) → s.mem a ≡ invalid)
    → is_running s.trace tid ≡ false
run-all_ended p k e cs s tid law threading ran empty =
    run-none_live running (execute p k) (execute-Keeps p law k threading) cs (initial e) s tid
      (initial-IsNew e) ran (λ a. rw (empty a) refl)
