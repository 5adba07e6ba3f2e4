-- ===== src/Tests/Scheduling.antt =====
-- Threads, processes, mutexes and epoll at concrete inputs.
use metasys.Base.{
  ℕ, suc, ◌≤◌, ◌≡◌, refl, true, false, Option, some, [], ◌∷◌, arith, ◌==◌, if◌then◌else◌, to_size,
  ℤ, pos,
}
use metasys.Machine.{
  Call, and_then, ◌>>◌, update, get, put, after, Machine, errno_exception, assertion, done, thrown,
  stopped, eintr, eio, eagain, ebusy,
}
use metasys.Io.Retry.{RetriesFor, calls}
use metasys.Sched.PthreadBehavior
use metasys.Sched.PthreadBehavior.{has_base, has_cancel, with_cancel}
use metasys.Sched.Pthread
use metasys.Sched.Pthread.{routine_only, invalid, create_call}
use metasys.Sched.Pthread.Laws.{move_assign-drops}
use metasys.Sched.ThisPthread.Laws.{inhibited, inhibited-Restores, Restores}
use metasys.Sched.Process
use metasys.Sched.Process.{behavior_subprocess, behavior_default}
use metasys.Sched.Process.Laws.{destroy-wait, signalled, waited}
use metasys.Sched.PthreadMutex.{lock, trylock}
use metasys.Sched.EpollDescriptor.{wait}
use metasys.Sched.EpollDescriptor.Laws.{wait-calls, wait-ends, answer}
use metasys.Tests.Kernels.{
  constant, interrupted_once, holding, cancel_kernel, cancel_kernel-HasCancelState, threads,
  threads-IsPthreads,
}
use metasys.Sched.PthreadMutex.Exclusion.{
  Reach, System, here, next, locking, trying, Reach-alone, set, Thread,
}
use metasys.Sched.Thread as Threads
use metasys.Sched.Thread.Laws.{construct_with-failed}
use metasys.Sched.PthreadMutex.Refinement.{run_lock, acquired, is_owner, Reach-run_lock}
use metasys.Tests.Kernels.{mutex_kernel, mutex_kernel-IsMutex}
use metasys.Sched.Pthread.Cast.{ptr_cast, wrapper_obj}
use metasys.Sched.Pthread.Cast.Laws.{wrapper_obj-ptr_cast}

-- Thread 41 is overwritten by the empty object at 1.
abbrev one_thread : Machine
one_thread = record { mem = λ a. if a == 0 then pos 41 else invalid; errno = 0; trace = [] }

move_assign-drops_example :
    Pthread.move_assign threads (constant (pos 0) []) PthreadBehavior.join 0 1 one_thread
    ≡ done tt (record one_thread { mem = update (update one_thread.mem 0 invalid) 1 invalid })
move_assign-drops_example =
    move_assign-drops threads threads-IsPthreads (constant (pos 0) []) PthreadBehavior.join 0 1
      one_thread (λ e. cc)

-- A block that throws.
inhibited-Restores_example :
    Restores {A = ℕ}
      (λ q. q == 0)
      one_thread
      (inhibited cancel_kernel 7 (thrown (errno_exception eio)) one_thread)
inhibited-Restores_example =
    inhibited-Restores cancel_kernel cancel_kernel-HasCancelState (λ q. q == 0) 7
      (thrown (errno_exception eio)) refl (λ t off. (refl, λ q kept. refl)) one_thread

wait-calls_example :
    let c = Call.epoll_wait (pos 3) 100 8 (pos 50) in
    let k = interrupted_once eintr in
    wait k 2 100 8 (pos 50) 0 (holding (pos 3))
    ≡ done 8
        (after (after (holding (pos 3)) c (k [] c)) c (record { ret = pos 8; errno = 0; out = [] }))
unfolding RetriesFor calls to_size
wait-calls_example =
    wait-calls (interrupted_once eintr) 100 8 (pos 50) 1 2 0 (holding (pos 3)) refl (omega arith)
      (refl, refl)

-- Thread 1 locks the mutex at 100, and thread 2 tries in vain.
abbrev unlocked : System
unlocked = record {
  machine = record { mem = λ _. pos 0; errno = 0; trace = [] };
  inside = λ _. false;
}

abbrev lock_call : Call
lock_call = Call.pthread_mutex_lock 100

abbrev locked : Machine
locked = after unlocked.machine lock_call (record { ret = pos 0; errno = 0; out = [] })

abbrev missed : Machine
missed =
    after locked (Call.pthread_mutex_trylock 100) (record { ret = pos ebusy; errno = 0; out = [] })

abbrev locker : Thread
locker = 1

contended :
    Reach mutex_kernel 100 unlocked (record { machine = missed; inside = set (λ _. false) 1 true })
unfolding lock trylock mutex_kernel
contended = next (next here (locking 1 locked refl)) (trying 2 false missed refl)

Reach-alone_example : locker ≡ locker
Reach-alone_example =
    Reach-alone mutex_kernel mutex_kernel-IsMutex 100 0 (λ _. pos 0)
      (record { machine = missed; inside = set (λ _. false) locker true }) locker locker contended
      refl refl

-- EAGAIN.
construct_with-failed_example :
    let k = constant (pos eagain) (pos 41 ∷ []) in
    let c = create_call threads k 0 (routine_only 700) in
    let s = holding (pos 5) in
    Threads.construct_with threads k 0 (routine_only 700) 0 s
    ≡ stopped assertion (record (after s c (k [] c)) {
      mem = update (update (update s.mem 0 invalid) 0 (pos 41)) 0 invalid;
    })
construct_with-failed_example =
    construct_with-failed threads threads-IsPthreads (constant (pos eagain) (pos 41 ∷ [])) 0
      (routine_only 700) 0 (pos 41) eagain (holding (pos 5)) refl refl refl

-- The child 41 has been reaped, and is signalled again.
destroy-wait_example :
    let k = constant (pos 41) [] in
    let c = Call.waitpid (pos 41) 0 (pos 0) in
    and_then (Process.wait k 0 (pos 0) 0 one_thread) (λ _. Process.destroy k behavior_subprocess 0)
    ≡ done tt (
        waited k behavior_subprocess 0
          (signalled k behavior_subprocess 0 (after one_thread c (k [] c))))
destroy-wait_example =
    destroy-wait (constant (pos 41) []) behavior_subprocess 0 0 (pos 0) one_thread refl refl

-- A 32-bit number in the low half of a pointer, under four bytes of something else.
wrapper_obj-ptr_cast_example :
    wrapper_obj {B = ℤ} true 4 (λ v. put v (pos 9) >> get v) (ptr_cast true 4 77 500) one_thread
    ≡ done (pos 9) (record one_thread { mem = update one_thread.mem 500 (pos 9) })
wrapper_obj-ptr_cast_example =
    wrapper_obj-ptr_cast true 4 77 500 (λ v. put v (pos 9) >> get v) one_thread refl (omega arith)
      (omega arith)

-- The second reply ends the loop.
wait-ends_example :
    let k = interrupted_once eintr in
    let c = Call.epoll_wait (pos 3) 100 8 (pos 50) in
    (m : ℕ) × (m ≤ 1)
    × (wait k 2 100 8 (pos 50) 0 (holding (pos 3))
        ≡ answer (k (calls k c m (holding (pos 3))).trace c) (calls k c (suc m) (holding (pos 3))))
unfolding calls
wait-ends_example =
    wait-ends (interrupted_once eintr) 100 8 (pos 50) 1 0 (holding (pos 3)) refl refl

Reach-run_lock_example :
    (l : Option Thread) × (run_lock (acquired 1 ∷ []) ≡ some l)
    × ((t : Thread) → set (λ _. false) 1 true t ≡ is_owner l t)
unfolding contended
Reach-run_lock_example =
    Reach-run_lock mutex_kernel mutex_kernel-IsMutex 100 0 (λ _. pos 0)
      (record { machine = missed; inside = set (λ _. false) 1 true }) contended
