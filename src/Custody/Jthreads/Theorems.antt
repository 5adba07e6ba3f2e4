-- ===== src/Custody/Jthreads/Theorems.antt =====
-- What holds through every program over `Jthread` objects.
use metasys.Base.{◌≡◌, refl, ◌≢◌, inl, inr, false, List, arith, Bool-cases, ◌==ℤ◌, ==ℤ_iff, ℤ}
use metasys.Machine.{
  Addr, Kernel, Call, Reply, unwound, update, after, Machine, assertion, done, stopped,
}
use metasys.Sys.Safety
use metasys.Sys.Safety.{Safe-keep, Safe-unwound}
use metasys.Sched.PthreadBehavior
use metasys.Sched.Pthread
use metasys.Sched.Pthread.{Pthreads, IsPthreads, Target, invalid}
use metasys.Sched.Pthread.Laws.{destroy-empty}
use metasys.Sched.Thread
use metasys.Sched.Thread.Laws.{destroy_jthread_lem}
use metasys.Handles.{IsNew}
use metasys.Handles.Steps.{IsMatched-benign, IsMatched-clear, IsMatched-hand_over, IsMatched-drop}
use metasys.Handles.Rules.{
  Clean, IsEmpty, Safe, Keeps, Empties, Fills, Empties-Keeps, run, run-Keeps, run-none_live,
}
use metasys.Custody.{
  unjoined, attempts, attempts-IsTaking, is_running, is_abandoned, is_abandoned-is_running,
  hand_over, IsThreading, IsTended,
}
use metasys.Sched.Thread.{jthread_behavior}
use metasys.Custody.Operations.{
  create-Unmade, create-Keeps, join-Keeps, detach-Keeps, cancel-Keeps, when_free-Keeps,
  hand_over-Fills, move_assign-Fills,
}
use metasys.Custody.Steps.{IsUnmade}
use metasys.Custody.Jthreads.{
  Statement, end_of_life, execute, construct, create, join, detach, cancel, move_construct,
  move_assign, hand_over_thread, destroy,
}

module _ (p : Pthreads) (law : IsPthreads p) (k : Kernel) (threading : IsThreading k) where
  destroy_empty-IsClean :
      (this : Addr) (s : Machine)
      → IsUnmade attempts this s
      → Safety.Safe
          (IsUnmade attempts this)
          (Clean unjoined)
          (λ _. IsUnmade attempts this)
          (Thread.destroy p k this s)
  unfolding Thread.destroy
  destroy_empty-IsClean this s u =
      rw
        (destroy-empty p law k PthreadBehavior.join this s (omega arith)
          ((==ℤ_iff (s.mem this) invalid).0 u.1))
        u.0.clean

  -- A join ends the duty of the object, also where it fails.
  ended-IsTended :
      (this : Addr) (c : Call) (r : Reply) (s : Machine)
      → IsTended s
      → (s.mem this ==ℤ invalid) ≡ false
      → c ≡ Call.pthread_join (s.mem this)
      → IsTended (record (after s c r) { mem = update s.mem this invalid })
  ended-IsTended this c r s v has joins =
      IsMatched-drop unjoined s v this c r invalid has refl (rw joins refl) (rw joins refl)
        (rw joins refl)

  construct-Fills :
      (attr : Addr) (target : Target) (this : Addr)
      → Fills unjoined this (Thread.construct_with p k attr target this)
  unfolding Thread.construct_with
  construct-Fills attr target this s v free =
      let t = record s { mem = update s.mem this invalid } in
      let made =
        create-Unmade p law k threading attempts attempts-IsTaking attr target this t
          (IsMatched-clear unjoined s v this invalid free refl) (ground arith) in
      Safe-keep (IsUnmade attempts this) IsTended (Clean unjoined) (λ _. IsTended)
        (unwound (Thread.destroy p k this) (Pthread.create p k attr target this t)) (λ _ u. u.0)
        (Safe-unwound (IsUnmade attempts this) (Clean unjoined) (λ _. IsTended)
          (Thread.destroy p k this) (Pthread.create p k attr target this t)
          (destroy_empty-IsClean this) made)

  end_of_life-Empties : (this : Addr) → Empties unjoined this (end_of_life p k this)
  unfolding end_of_life Thread.destroy
  end_of_life-Empties this s v =
      let tid = s.mem this in
      let c = Call.pthread_cancel tid in
      let t = after s c (k s.trace c) in
      elim (Bool-cases (tid ==ℤ invalid)) [
        | inl free ↦
            rw
              (destroy-empty p law k PthreadBehavior.join this s (omega arith)
                ((==ℤ_iff tid invalid).0 free))
              v.clean
        | inr has ↦
            let w = IsMatched-benign unjoined s v c (k s.trace c) refl (ground arith) refl in
            rw (destroy_jthread_lem p law k this s has) (
              ended-IsTended this (Call.pthread_join tid) (k t.trace (Call.pthread_join tid)) t w
                  has refl,
              ground arith,
            )
      ]

  move_construct-Fills :
      (this from : Addr) → this ≢ from → Fills unjoined this (Pthread.move_construct this from)
  unfolding Pthread.move_construct
  move_construct-Fills this from apart s v free =
      IsMatched-hand_over unjoined s v this from free apart

  -- Both objects without a thread: the assertion of `cancel` ends the process.
  move_assign_none-Safe :
      (this from : Addr) (s : Machine)
      → IsTended s
      → s.mem this ≡ invalid
      → s.mem from ≡ invalid
      → Safe unjoined (λ _. IsTended) (Pthread.move_assign p k jthread_behavior this from s)
  unfolding Pthread.move_assign Pthread.destroy jthread_behavior
  move_assign_none-Safe this from s v none_here none_there =
      let fails : Pthread.stop_thread p k jthread_behavior this s ≡ stopped assertion s =
        destroy-empty p law k PthreadBehavior.join this s (omega arith) none_here in
      rw (none_here, none_there, law invalid invalid) (rw fails v.clean)

  execute-Keeps : (c : Statement) → Keeps unjoined (execute p k c)
  unfolding execute
  execute-Keeps (construct attr target this) =
      when_free-Keeps p law k threading attempts attempts-IsTaking this
        (Thread.construct_with p k attr target this) (construct-Fills attr target this)
  execute-Keeps (create attr target this) =
      create-Keeps p law k threading attempts attempts-IsTaking attr target this
  execute-Keeps (join this) = join-Keeps p law k threading attempts attempts-IsTaking this
  execute-Keeps (detach this) = detach-Keeps p law k threading attempts attempts-IsTaking this
  execute-Keeps (cancel this) = cancel-Keeps p law k threading attempts attempts-IsTaking this
  execute-Keeps (move_construct this from apart) =
      when_free-Keeps p law k threading attempts attempts-IsTaking this
        (Pthread.move_construct this from) (move_construct-Fills this from apart)
  execute-Keeps (move_assign this from) =
      when_free-Keeps p law k threading attempts attempts-IsTaking this
        (Pthread.move_assign p k jthread_behavior this from)
        (move_assign-Fills p law k threading attempts attempts-IsTaking jthread_behavior this from
          (move_assign_none-Safe this from))
  execute-Keeps (hand_over_thread this from) =
      when_free-Keeps p law k threading attempts attempts-IsTaking this (hand_over this from)
        (hand_over-Fills p law k threading attempts attempts-IsTaking this from)
  execute-Keeps (destroy this) =
      Empties-Keeps unjoined this (end_of_life p k this) (end_of_life-Empties this)

  -- Over `Jthread` objects, a program is any sequence of constructions on a routine, `create`,
  -- `join`, `detach`, `cancel` (without handlers), move constructions, destructions, and move
  -- assignments and hand-overs by `reset` to an object without a thread (with no other move
  -- assignment and no other `reset`), each followed by a handler of every exception. Through all of
  -- it, each thread that no join or detach was called for has exactly one object, each object with
  -- a thread such a one, and only such threads were joined or detached, so none twice, also by the
  -- destructors. It is assumed that pthread_create(3) stores one value, and on success the id of a
  -- new thread other than 0, that pthread_join(3) and pthread_detach(3) have no errors but those of
  -- their manual pages, and that pthread_equal(3) is nonzero exactly for the same thread; a join
  -- may fail. The program starts from such a state. Where the process is stopped, as by the
  -- destruction of an object without a thread, only threads that no join or detach was called for
  -- were joined or detached.
  pub run_jthreads-IsTended :
      (cs : List Statement) (s : Machine)
      → IsTended s
      → Safe unjoined (λ _. IsTended) (run (execute p k) cs s)
  run_jthreads-IsTended = run-Keeps unjoined (execute p k) execute-Keeps

  -- Over `Jthread` objects, a program is any sequence of constructions on a routine, `create`,
  -- `join`, `detach`, `cancel` (without handlers), move constructions, destructions, and move
  -- assignments and hand-overs by `reset` to an object without a thread (with no other move
  -- assignment and no other `reset`), each followed by a handler of every exception. One that
  -- starts with nothing called and no object with a thread, and that ends with no object with a
  -- thread, has joined or detached every thread that it created, but for those for which a join or
  -- a detach failed. It is assumed that pthread_create(3) stores one value, and on success the id
  -- of a new thread other than 0, that pthread_join(3) and pthread_detach(3) have no errors but
  -- those of their manual pages, and that pthread_equal(3) is nonzero exactly for the same thread.
  pub run_jthreads-all_ended :
      (cs : List Statement) (s t : Machine) (tid : ℤ)
      → IsNew unjoined s
      → run (execute p k) cs s ≡ done tt t
      → ((a : Addr) → IsEmpty unjoined a t)
      → is_abandoned t.trace tid ≡ false
      → is_running t.trace tid ≡ false
  run_jthreads-all_ended cs s t tid new ran empty =
      is_abandoned-is_running t.trace tid
        (run-none_live unjoined (execute p k) execute-Keeps cs s t tid new ran empty)
