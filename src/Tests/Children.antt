-- ===== src/Tests/Children.antt =====
-- Programs over processes.
use metasys.Base.{◌≡◌, refl, true, List, [], ◌∷◌, pos}
use metasys.Machine.{Call, update, Machine, done, eintr}
use metasys.Children.{unwaited, is_child, IsHeld}
use metasys.Children.Programs.{
  Statement, fork, forkinit, kill, move_assign, hand_over, wait_reset, destroy, execute,
}
use metasys.Handles.Rules.{Safe, run}
use metasys.Children.Programs.Theorems.{run-IsHeld, initial, initial-IsHeld}
use metasys.Sched.Process
use metasys.Sched.Process.{behavior_subprocess, sigterm}
use metasys.Tests.Kernels.{failing}
use metasys.Handles.{is_live}
use metasys.Children.Interrupted.{destroy-interrupted}
use metasys.Tests.Kernels.Handles.{process_kernel, process_kernel-IsParent}

-- Three children: the second takes the place of the first, and the third is waited for and forgotten.
abbrev some_children : List Statement
some_children =
    fork 0
    ∷ forkinit 1
    ∷ fork 2
    ∷ kill sigterm 0
    ∷ move_assign 0 1
    ∷ move_assign 0 0
    ∷ hand_over 3 2
    ∷ wait_reset 0 (pos 0) 3
    ∷ destroy 0
    ∷ []

run-IsHeld_example :
    Safe unwaited
      (λ _. IsHeld)
      (run (execute process_kernel behavior_subprocess) some_children (initial 0))
run-IsHeld_example =
    run-IsHeld process_kernel process_kernel-IsParent behavior_subprocess refl some_children
      (initial 0) (initial-IsHeld 0)

-- A child that is forked, signalled and reaped.
abbrev reaped_again : Machine
reaped_again = record {
  mem = update (update (λ _. pos 0) 0 (pos 1)) 0 (pos 0);
  errno = 0;
  trace =
      (Call.waitpid (pos 1) 0 (pos 0), record { ret = pos 1; errno = 0; out = [] })
      ∷ (Call.kill (pos 1) sigterm, record { ret = pos 0; errno = 0; out = [] })
      ∷ (Call.fork, record { ret = pos 1; errno = 0; out = [] })
      ∷ [];
}

-- A child that was forked, by an object at 0.
abbrev one_child : Machine
one_child = record {
  mem = update (λ _. pos 0) 0 (pos 7);
  errno = 0;
  trace = (Call.fork, record { ret = pos 7; errno = 0; out = [] }) ∷ [];
}

-- EINTR: the child 7 is left.
destroy-interrupted_example :
    (t : Machine) × (Process.destroy (failing eintr) behavior_subprocess 0 one_child ≡ done tt t)
    × (is_child t.trace (pos 7) ≡ true)
unfolding is_live
destroy-interrupted_example =
    destroy-interrupted (failing eintr) behavior_subprocess 0 one_child (pos 7) refl refl refl
