-- ===== src/Tests/Custody.antt =====
-- Programs over threads.
use metasys.Base.{◌≡◌, refl, ◌≢◌, false, List, [], ◌∷◌, arith, pos}
use metasys.Machine.{Addr, Call, update, Machine}
use metasys.Custody.{running, is_running, IsKept}
use metasys.Custody.Programs.{
  Statement, create, createinit, join, detach, move_construct, move_assign, hand_over_thread,
  destroy, execute,
}
use metasys.Handles.Rules.{Safe, run}
use metasys.Custody.Programs.Theorems.{run-IsKept, run-all_ended, initial, initial-IsKept}
use metasys.Sched.Pthread
use metasys.Sched.Pthread.{routine_only, invalid}
use metasys.Tests.Kernels.{threads, threads-IsPthreads}
use metasys.Tests.Kernels.Handles.{thread_kernel, thread_kernel-IsThreading}

abbrev moved_to : Addr
moved_to = 1

abbrev moved_from : Addr
moved_from = 0

one_apart : moved_to ≢ moved_from
one_apart e = cc

-- Two threads: one is moved three times and joined, the other detached.
abbrev two_threads : List Statement
two_threads =
    create 0 (routine_only 700) 0
    ∷ createinit 0 (routine_only 800) 2
    ∷ move_construct moved_to moved_from one_apart
    ∷ hand_over_thread 0 1
    ∷ move_assign 1 0
    ∷ join 1
    ∷ detach 2
    ∷ destroy 0
    ∷ []

run-IsKept_example :
    Safe running (λ _. IsKept) (run (execute threads thread_kernel) two_threads (initial 0))
run-IsKept_example =
    run-IsKept threads threads-IsPthreads thread_kernel thread_kernel-IsThreading two_threads
      (initial 0) (initial-IsKept 0)

-- A thread that is created and joined.
abbrev joined_again : Machine
joined_again = record {
  mem = update (update (λ _. invalid) 0 (pos 1)) 0 invalid;
  errno = 0;
  trace =
      (Call.pthread_join (pos 1), record { ret = pos 0; errno = 0; out = [] })
      ∷ (Call.pthread_create 0 700 0, record { ret = pos 0; errno = 0; out = pos 1 ∷ [] })
      ∷ [];
}

run-all_ended_example : is_running joined_again.trace (pos 1) ≡ false
unfolding run execute thread_kernel Pthread.create Pthread.join
run-all_ended_example =
    run-all_ended threads thread_kernel 0 (create 0 (routine_only 700) 0 ∷ join 0 ∷ []) joined_again
      (pos 1) threads-IsPthreads thread_kernel-IsThreading refl (λ a. ground arith)
