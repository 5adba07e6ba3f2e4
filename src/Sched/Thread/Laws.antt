-- ===== src/Sched/Thread/Laws.antt =====
-- The life of a `Jthread`.
use metasys.Base.{
  ℕ, ◌≡◌, refl, ap, ◌∙◌, Bool, true, false, not, [], ◌∷◌, arith, ◌==◌, if◌then◌else◌, elem, ◌==ℤ◌,
  ℤ, pos,
}
use metasys.Machine.{
  Addr, Kernel, Call, is_any, M, and_then, ◌>>◌, unwound, assert, update, after, Machine, Exception,
  errno_exception, assertion, aborted, done, thrown, stopped, einval,
}
use metasys.Sys.SystemException.{cases, throw_errno_of}
use metasys.Sys.SystemException.Laws.{throw_errno_of_lem}
use metasys.Sched.PthreadBehavior
use metasys.Sched.PthreadBehavior.{has_base, has_cancel, with_cancel}
use metasys.Sched.Pthread
use metasys.Sched.Pthread.{Pthreads, IsPthreads, Target, invalid, create_call, createthrow}
use metasys.Sched.Pthread.Laws.{create_lem, destroy-empty}
use metasys.Sched.Thread.{destroy, construct_with}

-- Whether `createthrow` asserts the number away.
abbrev is_refused : ℕ → Bool
is_refused err = is_any (pos err) (einval ∷ [])

assert_then :
    (b : Bool) (m : M (Unit {0})) (t : Machine)
    → (assert (not b) >> m) t ≡ (if b then stopped assertion t else m t)
assert_then true m t = refl
assert_then false m t = refl

createthrow_lem :
    (err : ℕ) (t : Machine)
    → createthrow (pos err) t ≡ (
        if is_refused err
        then stopped assertion t
        else if elem err cases
        then thrown (errno_exception err) t
        else stopped aborted t)
unfolding createthrow
createthrow_lem err t =
    assert_then (is_refused err) (throw_errno_of (pos err)) t
    ∙ ap (λ o. if is_refused err then stopped assertion t else o) (throw_errno_of_lem err t)

-- An exception of `create` that meets a destructor whose assertion fails.
unwound-assertion :
    (free : M (Unit {0})) (t : Machine) (refused named : Bool) (e : Exception)
    → free t ≡ stopped assertion t
    → (refused ≡ true → named ≡ true)
    → unwound {A = Unit {0}} free
        (if refused then stopped assertion t else if named then thrown e t else stopped aborted t)
      ≡ stopped (if named then assertion else aborted) t
unwound-assertion free t true true e dies both = refl
unwound-assertion free t true false e dies both = absurd (ground (arith, both refl))
unwound-assertion free t false true e dies both = rw dies refl
unwound-assertion free t false false e dies both = refl

einval-cases : (err : ℕ) → is_refused err ≡ true → elem err cases ≡ true
einval-cases err e = let same : err ≡ einval = ground arith in rw same refl

module _ (p : Pthreads) (law : IsPthreads p) (k : Kernel) where
  -- The machine once the thread `tid` has been cancelled and joined.
  abbrev pub joined : ℤ → Machine → Machine
  joined tid s =
      let s' = after s (Call.pthread_cancel tid) (k s.trace (Call.pthread_cancel tid)) in
      after s' (Call.pthread_join tid) (k s'.trace (Call.pthread_join tid))

  -- The destructor of a `Jthread` that has a thread cancels it and then joins it, once each, whatever
  -- the two calls answer. It is assumed that pthread_equal(3) is nonzero exactly for the same thread.
  pub destroy_jthread_lem :
      (this : Addr) (s : Machine)
      → (s.mem this ==ℤ invalid) ≡ false
      → destroy p k this s ≡ done tt (joined (s.mem this) s)
  unfolding destroy
  destroy_jthread_lem this s has = rw (law (s.mem this) invalid, has) refl

  -- A `Jthread` that is built on a routine and then destroyed creates one thread, cancels it and
  -- joins it, in this order, and makes no other call. It is assumed that pthread_create(3) succeeds
  -- and stores one thread id other than 0, and that pthread_equal(3) is nonzero exactly for the
  -- same thread.
  construct-destroy :
      (attr : Addr) (target : Target) (this : Addr) (tid : ℤ) (s : Machine)
      → let c = create_call p k attr target in
        let r = k s.trace c in
        let t = record (after s c r) { mem = update (update s.mem this invalid) this tid } in
        r.ret ≡ pos 0
        → r.out ≡ tid ∷ []
        → (tid ==ℤ invalid) ≡ false
        → and_then (construct_with p k attr target this s) (λ _. destroy p k this)
          ≡ done tt (joined tid t)
  unfolding construct_with
  construct-destroy attr target this tid s went stored real =
      let c = create_call p k attr target in
      let s' = record s { mem = update s.mem this invalid } in
      let t = record (after s c (k s.trace c)) {
        mem = update (update s.mem this invalid) this tid;
      } in
      let made : Pthread.create p k attr target this s' ≡ done tt t =
        create_lem p law k attr target this tid s' stored ∙ ground (arith, went) in
      let holds : t.mem this ≡ tid = ground arith in
      let ended = destroy_jthread_lem this t (rw holds real) in rw made (ended ∙ rw holds refl)

  -- A `Jthread` whose thread cannot be created never throws, and ends the process: the exception of
  -- `create` runs the destructor of the base, which has no thread, and the assertion of `cancel`
  -- fails. An error number that has no exception aborts before. It is assumed that
  -- pthread_create(3) returns a positive error number and stores one value, and that
  -- pthread_equal(3) is nonzero exactly for the same thread.
  pub construct_with-failed :
      (attr : Addr) (target : Target) (this : Addr) (tid : ℤ) (err : ℕ) (s : Machine)
      → let c = create_call p k attr target in
        let r = k s.trace c in
        r.ret ≡ pos err
        → (err == 0) ≡ false
        → r.out ≡ tid ∷ []
        → construct_with p k attr target this s
          ≡ stopped (if elem err cases then assertion else aborted) (record (after s c r) {
            mem = update (update (update s.mem this invalid) this tid) this invalid;
          })
  unfolding construct_with
  construct_with-failed attr target this tid err s fails nonzero stored =
      let c = create_call p k attr target in
      let r = k s.trace c in
      let s' = record s { mem = update s.mem this invalid } in
      let t = record (after s c r) {
        mem = update (update (update s.mem this invalid) this tid) this invalid;
      } in
      let made : Pthread.create p k attr target this s' ≡ createthrow (pos err) t =
        create_lem p law k attr target this tid s' stored
        ∙ simp (fails, nonzero) (ground (arith, nonzero)) in
      let empty : t.mem this ≡ invalid = ground arith in
      let dies : destroy p k this t ≡ stopped assertion t =
        destroy-empty p law k PthreadBehavior.join this t (omega arith) empty in
      rw (made, createthrow_lem err t)
        (unwound-assertion (destroy p k this) t (is_refused err) (elem err cases)
          (errno_exception err) dies (einval-cases err))
