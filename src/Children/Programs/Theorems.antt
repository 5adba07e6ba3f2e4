-- ===== src/Children/Programs/Theorems.antt =====
-- Whatever such a program does in the parent, each child has one object that waits for it.
use metasys.Base.{
  ℕ, ◌≡◌, refl, ◌≢◌, inl, inr, true, false, List, [], arith, Bool-cases, is_positive, ◌==ℤ◌,
  ==ℤ_iff, ==ℤ_refl, ℤ, pos,
}
use metasys.Machine.{Addr, Kernel, Call, update, after, Machine}
use metasys.Sched.Process
use metasys.Sched.Process.{ProcessBehavior}
use metasys.Sched.Process.Laws.{
  destroy_process_lem, move_assign_process_lem, signalled, waited, stopped_mem,
}
use metasys.Handles.{IsNew}
use metasys.Handles.Steps.{
  IsNew-IsMatched, IsMatched-ext, IsMatched-use, IsMatched-clear, IsMatched-drop, IsMatched-move,
  IsMatched-hand_over,
}
use metasys.Handles.Rules.{
  Safe, Keeps, Empties, Fills, Empties-Keeps, Empties-Fills, run, run-Keeps,
}
use metasys.Children.{unwaited, IsParent, IsHeld}
use metasys.Children.Programs.{
  Statement, end_of_life, execute, fork, forkinit, kill, move_construct, move_assign, hand_over,
  wait_reset, destroy,
}
use metasys.Children.Operations.{fork-Keeps, forkinit-Fills, kill-Keeps}

module _ (k : Kernel) (parent : IsParent k) where
  module _ (b : ProcessBehavior) (waits : b.wait_on_destroy ≡ true) where
    -- waitpid(2) on the child of an object, which lets go of it.
    reaped-IsHeld :
        (this : Addr) (s : Machine)
        → IsHeld s
        → is_positive (s.mem this) ≡ true
        → let c = Call.waitpid (s.mem this) 0 (pos 0) in
          IsHeld (record (after s c (k s.trace c)) { mem = update s.mem this (pos 0) })
    reaped-IsHeld this s v has =
        let c = Call.waitpid (s.mem this) 0 (pos 0) in
        IsMatched-drop unwaited s v this c (k s.trace c) (pos 0) (rw has refl) refl refl refl refl

    -- A child is signalled, where the behaviour names a signal, and reaped.
    stopped-IsHeld :
        (this : Addr) (s : Machine)
        → IsHeld s
        → is_positive (s.mem this) ≡ true
        → IsHeld
            (record (waited k b this (signalled k b this s)) { mem = update s.mem this (pos 0) })
    stopped-IsHeld this s v has = elim (Bool-cases (b.signal_on_destroy ==ℤ pos 0)) [
      | inl silent ↦ rw (silent, waits) (reaped-IsHeld this s v has)
      | inr sends ↦
          let c = Call.kill (s.mem this) b.signal_on_destroy in
          let t = after s c (k s.trace c) in
          let w =
            IsMatched-use unwaited s v this c (k s.trace c) (rw has refl) refl (ground arith)
              refl in
          rw (sends, waits) (reaped-IsHeld this t w has)
    ]

    end_of_life-Empties : (this : Addr) → Empties unwaited this (end_of_life k b this)
    unfolding end_of_life
    end_of_life-Empties this s v = elim (Bool-cases (is_positive (s.mem this))) [
      | inl has ↦
          rw (destroy_process_lem k b this s, has)
            (rw (stopped_mem k b this s) (stopped-IsHeld this s v has, ground arith))
      | inr free ↦
          rw (destroy_process_lem k b this s, free)
            (IsMatched-clear unwaited s v this (pos 0) (rw free refl) refl, ground arith)
    ]

    -- The new child comes after the old one has been reaped.
    handed_over-IsHeld :
        (this from : Addr) (s : Machine)
        → IsHeld s
        → is_positive (s.mem this) ≡ true
        → (s.mem this ==ℤ s.mem from) ≡ false
        → IsHeld (record (waited k b this (signalled k b this s)) {
          mem = update (update s.mem from (pos 0)) this (s.mem from);
        })
    handed_over-IsHeld this from s v has differ =
        let t = record (waited k b this (signalled k b this s)) {
          mem = update s.mem this (pos 0);
        } in
        let w : IsHeld t = stopped-IsHeld this s v has in
        let moved = IsMatched-move unwaited t w this from (inl (ground arith)) in
        IsMatched-ext unwaited
          (record t { mem = update (update t.mem from (pos 0)) this (t.mem from) }) moved
          (update (update s.mem from (pos 0)) this (s.mem from))
          (λ a. ground (arith, ==ℤ_refl (s.mem this)))

    move_assign-Keeps : (this from : Addr) → Keeps unwaited (Process.move_assign k b this from)
    move_assign-Keeps this from s v = elim (Bool-cases (is_positive (s.mem this))) [
      | inr free ↦
          rw (move_assign_process_lem k b this from s, free)
            (IsMatched-move unwaited s v this from (inl (rw free refl)))
      | inl has ↦ elim (Bool-cases (s.mem this ==ℤ s.mem from)) [
        | inl same ↦
            let one = v.sole this from (rw has refl) ((==ℤ_iff (s.mem this) (s.mem from)).0 same) in
            rw (move_assign_process_lem k b this from s, has, same)
              (IsMatched-move unwaited s v this from (inr one))
        | inr differ ↦
            rw (move_assign_process_lem k b this from s, has, differ)
              (handed_over-IsHeld this from s v has differ)
      ]
    ]

    move_construct-Fills :
        (this from : Addr) → this ≢ from → Fills unwaited this (Process.move_construct this from)
    unfolding Process.move_construct
    move_construct-Fills this from apart s v free =
        IsMatched-hand_over unwaited s v this from free apart

    hand_over-Keeps : (this from : Addr) → Keeps unwaited (execute k b (hand_over this from))
    unfolding execute Process.valid Process.reset
    hand_over-Keeps this from s v = elim (Bool-cases (is_positive (s.mem this))) [
      | inl has ↦ rw has v
      | inr free ↦ rw free (IsMatched-move unwaited s v this from (inl (rw free refl)))
    ]

    wait_reset-Keeps :
        (wstatus : Addr) (options : ℤ) (this : Addr)
        → Keeps unwaited (execute k b (wait_reset wstatus options this))
    unfolding execute Process.wait_with Process.reset
    wait_reset-Keeps wstatus options this s v = elim (Bool-cases (is_positive (s.mem this))) [
      | inr free ↦ rw free v.clean
      | inl has ↦
          let c = Call.waitpid (s.mem this) wstatus options in
          rw has (
            IsMatched-drop unwaited s v this c (k s.trace c) (pos 0) (rw has refl) refl refl refl
              refl)
    ]

    execute-Keeps : (c : Statement) → Keeps unwaited (execute k b c)
    unfolding execute
    execute-Keeps (fork this) = fork-Keeps k parent this
    execute-Keeps (forkinit this) =
        Empties-Fills unwaited this (end_of_life k b this) (Process.forkinit k this)
          (end_of_life-Empties this) (forkinit-Fills k parent this)
    execute-Keeps (kill sig this) = kill-Keeps k parent sig this
    execute-Keeps (move_construct this from apart) =
        Empties-Fills unwaited this (end_of_life k b this) (Process.move_construct this from)
          (end_of_life-Empties this) (move_construct-Fills this from apart)
    execute-Keeps (move_assign this from) = move_assign-Keeps this from
    execute-Keeps (hand_over this from) = hand_over-Keeps this from
    execute-Keeps (wait_reset wstatus options this) = wait_reset-Keeps wstatus options this
    execute-Keeps (destroy this) =
        Empties-Keeps unwaited this (end_of_life k b this) (end_of_life-Empties this)

    -- Over `Process` objects whose behaviour waits on destruction, a program is any sequence of
    -- `fork`, `forkinit` and `kill` (without handlers), move constructions, move assignments,
    -- destructions, hand-overs by `reset` from one object to another that has no child, and calls
    -- of `wait` with a handler that ignores the result, followed by `reset` (with no other use of
    -- `wait` and `reset`), each followed by a handler of every exception. Through all of it, each
    -- child that no waitpid(2) was called for has exactly one object, each object with a child one
    -- that no waitpid(2) was called for, and only such children were signalled or waited for, so
    -- none was waited for twice. It is assumed that the program is the parent after each fork(2),
    -- which gives out process ids that no unreaped child has; waitpid(2) and kill(2) may fail. The
    -- program starts from such a state. Where an assertion or `abort()` stops it, only children
    -- that no waitpid(2) was called for were signalled or waited for.
    pub run-IsHeld :
        (cs : List Statement) (s : Machine)
        → IsHeld s
        → Safe unwaited (λ _. IsHeld) (run (execute k b) cs s)
    run-IsHeld = run-Keeps unwaited (execute k b) execute-Keeps

-- No child was forked, and no object has one.
abbrev pub initial : ℕ → Machine
initial e = record { mem = λ _. pos 0; errno = e; trace = [] }

initial-IsNew : (e : ℕ) → IsNew unwaited (initial e)
initial-IsNew e = (refl, λ a. refl)

pub initial-IsHeld : (e : ℕ) → IsHeld (initial e)
initial-IsHeld e = IsNew-IsMatched unwaited (initial e) (initial-IsNew e)
