-- ===== src/Tests/Jthreads.antt =====
-- Programs over `Jthread` objects.
use metasys.Base.{◌≡◌, refl, ◌≢◌, false, List, [], ◌∷◌, arith, pos}
use metasys.Machine.{Addr, Call, update, Machine}
use metasys.Handles.{IsNew}
use metasys.Handles.Steps.{IsNew-IsMatched}
use metasys.Handles.Rules.{Safe, run}
use metasys.Custody.{unjoined, is_running, IsTended}
use metasys.Custody.Jthreads.{
  Statement, construct, join, cancel, move_construct, move_assign, hand_over_thread, destroy,
  execute, end_of_life,
}
use metasys.Custody.Jthreads.Theorems.{run_jthreads-IsTended, run_jthreads-all_ended}
use metasys.Sched.Pthread.{routine_only, invalid}
use metasys.Sched.Thread
use metasys.Tests.Kernels.{threads, threads-IsPthreads}
use metasys.Tests.Kernels.Handles.{thread_kernel, thread_kernel-IsThreading}

abbrev no_threads : Machine
no_threads = record { mem = λ _. invalid; errno = 0; trace = [] }

no_threads-IsNew : IsNew unjoined no_threads
no_threads-IsNew = (refl, λ a. refl)

abbrev new_place : Addr
new_place = 1

abbrev old_place : Addr
old_place = 0

places_apart : new_place ≢ old_place
places_apart e = cc

-- Two threads: one is moved three times and left to its destructor, the other joined.
abbrev two_jthreads : List Statement
two_jthreads =
    construct 0 (routine_only 700) 0
    ∷ move_construct new_place old_place places_apart
    ∷ move_assign 0 1
    ∷ hand_over_thread 1 0
    ∷ construct 0 (routine_only 800) 2
    ∷ cancel 1
    ∷ join 2
    ∷ destroy 1
    ∷ []

run_jthreads-IsTended_example :
    Safe unjoined (λ _. IsTended) (run (execute threads thread_kernel) two_jthreads no_threads)
run_jthreads-IsTended_example =
    run_jthreads-IsTended threads threads-IsPthreads thread_kernel thread_kernel-IsThreading
      two_jthreads no_threads (IsNew-IsMatched unjoined no_threads no_threads-IsNew)

-- A thread that its destructor joins.
abbrev left_to_destructor : Machine
left_to_destructor = record {
  mem = update (update (update (λ _. invalid) 0 invalid) 0 (pos 1)) 0 invalid;
  errno = 0;
  trace =
      (Call.pthread_join (pos 1), record { ret = pos 0; errno = 0; out = [] })
      ∷ (Call.pthread_cancel (pos 1), record { ret = pos 0; errno = 0; out = [] })
      ∷ (Call.pthread_create 0 700 0, record { ret = pos 0; errno = 0; out = pos 1 ∷ [] })
      ∷ [];
}

run_jthreads-all_ended_example : is_running left_to_destructor.trace (pos 1) ≡ false
unfolding run execute thread_kernel Thread.construct_with Thread.destroy end_of_life
run_jthreads-all_ended_example =
    run_jthreads-all_ended threads threads-IsPthreads thread_kernel thread_kernel-IsThreading
      (construct 0 (routine_only 700) 0 ∷ destroy 0 ∷ []) no_threads left_to_destructor (pos 1)
      no_threads-IsNew refl (λ a. ground arith) refl
