-- ===== src/Sched/Pthread/Laws.antt =====
-- Creating, joining, destroying and assigning threads.
use metasys.Base.{
  ℕ, ◌≤◌, ◌≡◌, refl, ◌≢◌, true, false, [], ◌∷◌, arith, if◌then◌else◌, ◌==ℤ◌, ==ℤ_false, ℤ, pos,
}
use metasys.Machine.{
  Addr, Kernel, Call, is_any, and_then, update, after, store_out, Machine, assertion, terminated,
  done, stopped, esrch, einval, edeadlk,
}
use metasys.Sched.PthreadBehavior.{with_cancel, base_mask}
use metasys.Sched.PthreadBehavior.Laws.{behavior_roundtrip}
use metasys.Sched.PthreadBehavior.{has_base, has_cancel}
use metasys.Sched.PthreadBehavior
use metasys.Sched.Pthread.{
  Pthreads, IsPthreads, Target, invalid, create_call, create, createinit, join, detach, cancel,
  destroy, move_assign, createthrow,
}

module _ (p : Pthreads) (law : IsPthreads p) (k : Kernel) where
  -- `create` fails its assertion on an object that has a thread. Otherwise it makes one call; where
  -- that succeeds the object holds what was stored, and where it fails the object is left without a
  -- thread, whatever was stored, before `createthrow` sees the error number. It is assumed that the
  -- call stores one thread id, and that pthread_equal(3) is nonzero exactly for the same thread.
  pub create_lem :
      (attr : Addr) (target : Target) (this : Addr) (tid : ℤ) (s : Machine)
      → let c = create_call p k attr target in
        let r = k s.trace c in
        let s' = after s c r in
        r.out ≡ tid ∷ []
        → create p k attr target this s ≡ (
            if s.mem this ==ℤ invalid
            then (if r.ret ==ℤ pos 0
                then done tt (record s' { mem = update s.mem this tid })
                else createthrow r.ret
                    (record s' { mem = update (update s.mem this tid) this invalid }))
            else stopped assertion s)
  unfolding create
  create_lem attr target this tid s stored = rw (law (s.mem this) invalid, stored) (ground arith)

  -- The destructor of a thread that only terminates: an object without a thread is destroyed in
  -- silence, and one with a thread ends the process. It is assumed that pthread_equal(3) is nonzero
  -- exactly for the same thread.
  pub destroy-terminate :
      (this : Addr) (s : Machine)
      → destroy p k PthreadBehavior.terminate this s
        ≡ (if s.mem this ==ℤ invalid then done tt s else stopped terminated s)
  unfolding destroy
  destroy-terminate this s = rw (law (s.mem this) invalid) (ground arith)

  -- A move assignment looks at the old thread of the object only where both objects hold the same
  -- one: onto a thread that differs from the new one, it overwrites it, and neither terminates nor
  -- cancels nor joins nor detaches it, whatever the behaviour. It is assumed that pthread_equal(3)
  -- is nonzero exactly for the same thread.
  pub move_assign-drops :
      (behavior : ℕ) (this other : Addr) (s : Machine)
      → s.mem this ≢ s.mem other
      → move_assign p k behavior this other s
        ≡ done tt (record s { mem = update (update s.mem this (s.mem other)) other invalid })
  unfolding move_assign
  move_assign-drops behavior this other s differ =
      rw (law (s.mem this) (s.mem other), ==ℤ_false (s.mem this) (s.mem other) differ) refl

  -- `join` on an object with a thread makes one pthread_join(3) and, unless that reports EDEADLK,
  -- EINVAL or ESRCH, leaves the object without a thread and returns what the thread returned. Those
  -- three and an object without a thread fail an assertion, and another error is ignored. It is
  -- assumed that pthread_equal(3) is nonzero exactly for the same thread.
  pub join_lem :
      (this : Addr) (s : Machine)
      → let c = Call.pthread_join (s.mem this) in
        let r = k s.trace c in
        let s' = after s c r in
        join p k this s ≡ (
          if s.mem this ==ℤ invalid
          then stopped assertion s
          else if is_any r.ret (edeadlk ∷ einval ∷ esrch ∷ [])
          then stopped assertion s'
          else done r.out (record s' { mem = update s.mem this invalid }))
  unfolding join
  join_lem this s = rw (law (s.mem this) invalid) (ground arith)

  -- The destructor of a thread that cancels, whatever else it does: on an object without a thread,
  -- which is what `join`, a move and the default constructor leave, it fails the assertion of
  -- `cancel` and makes no call. It is assumed that pthread_equal(3) is nonzero exactly for the same
  -- thread.
  pub destroy-empty :
      (base : ℕ) (this : Addr) (s : Machine)
      → base ≤ base_mask
      → s.mem this ≡ invalid
      → destroy p k (with_cancel base) this s ≡ stopped assertion s
  unfolding destroy
  destroy-empty base this s small empty =
      let (_, _, _, cancels) = behavior_roundtrip base base small small in
      rw (cancels, law (s.mem this) invalid, empty)

  -- `detach` on an object with a thread leaves it without one and makes one pthread_detach(3); EINVAL
  -- and ESRCH, and an object without a thread, fail an assertion.
  pub detach_lem :
      (this : Addr) (s : Machine)
      → let c = Call.pthread_detach (s.mem this) in
        let r = k s.trace c in
        let s' = record (after s c r) { mem = update s.mem this invalid } in
        detach p k this s ≡ (
          if s.mem this ==ℤ invalid
          then stopped assertion s
          else if is_any r.ret (einval ∷ esrch ∷ [])
          then stopped assertion s'
          else done tt s')
  unfolding detach
  detach_lem this s = rw (law (s.mem this) invalid) (ground arith)

  -- `cancel` makes one pthread_cancel(3) and changes nothing.
  pub cancel_lem :
      (this : Addr) (s : Machine)
      → let c = Call.pthread_cancel (s.mem this) in
        let r = k s.trace c in
        cancel p k this s ≡ (
          if s.mem this ==ℤ invalid
          then stopped assertion s
          else if is_any r.ret (esrch ∷ [])
          then stopped assertion (after s c r)
          else done tt (after s c r))
  unfolding cancel
  cancel_lem this s = rw (law (s.mem this) invalid) (ground arith)

  -- `createinit` makes one call, and an object of what that stored where it succeeded.
  pub createinit_lem :
      (attr : Addr) (target : Target) (this : Addr) (tid : ℤ) (s : Machine)
      → let c = create_call p k attr target in
        let r = k s.trace c in
        let s' = after s c r in
        r.out ≡ tid ∷ []
        → (r.ret ==ℤ pos 0) ≡ true
        → createinit p k attr target this s ≡ done tt (record s' { mem = update s.mem this tid })
  unfolding createinit
  createinit_lem attr target this tid s stored went = ground (arith, stored, went)

  -- Where it failed, `createthrow` ends it unless the error number is let through.
  pub createinit-failed :
      (attr : Addr) (target : Target) (this : Addr) (s : Machine)
      → let c = create_call p k attr target in
        let r = k s.trace c in
        (r.ret ==ℤ pos 0) ≡ false
        → createinit p k attr target this s
          ≡ and_then (createthrow r.ret (after s c r)) (λ _. store_out this r.out)
  unfolding createinit
  createinit-failed attr target this s failed = rw failed refl
