-- ===== src/Custody/Operations.antt =====
-- What each operation of a thread keeps.
use metasys.Base.{
  ℕ, ◌≡◌, refl, sym, ap, ◌∙◌, ◌≢◌, inl, inr, true, false, Option, none, some, [], ◌∷◌, arith,
  Bool-cases, ◌==ℤ◌, ==ℤ_iff, ℤ, pos,
}
use metasys.Machine.{
  Addr, Kernel, Call, Reply, is_any, M, pure, ◌>>◌, update, after, store_out, Machine, esrch,
  einval, edeadlk,
}
use metasys.Sys.Safety
use metasys.Sys.Safety.{Safe-keep, Safe-and_then, Safe-switch}
use metasys.Sched.PthreadBehavior
use metasys.Sched.Pthread
use metasys.Sched.Pthread.{Pthreads, IsPthreads, Target, invalid, create_call, createthrow}
use metasys.Sched.Pthread.Laws.{
  move_assign-drops, create_lem, createinit_lem, createinit-failed, join_lem, detach_lem,
  cancel_lem, destroy-terminate,
}
use metasys.Handles.{IsClean, IsMatched, naming}
use metasys.Handles.Steps.{IsMatched-benign, IsMatched-gain, IsMatched-move, IsMatched-hand_over}
use metasys.Handles.Rules.{Safe, Clean, IsEmpty, Keeps, Empties, Fills}
use metasys.Custody.{when_free, hand_over, starts, ends, is_running, taking, IsTaking, IsThreading}
use metasys.Custody.Steps.{IsUnmade, createthrow-Safe, scratched-IsKept, ended-IsKept}

module _ (p : Pthreads) (law : IsPthreads p) (k : Kernel) (threading : IsThreading k)
    (taken : Call → Reply → Option ℤ) (terms : IsTaking taken) where
  starts_lem : (attr : Addr) (target : Target) → starts (create_call p k attr target) ≡ true
  starts_lem attr (Target.routine_arg routine arg) = refl
  starts_lem attr (Target.routine_only routine) = refl
  starts_lem attr (Target.method_obj method obj) = refl
  starts_lem attr (Target.method_only method) = refl

  ends_lem : (attr : Addr) (target : Target) → ends (create_call p k attr target) ≡ none
  ends_lem attr (Target.routine_arg routine arg) = refl
  ends_lem attr (Target.routine_only routine) = refl
  ends_lem attr (Target.method_obj method obj) = refl
  ends_lem attr (Target.method_only method) = refl

  failed-IsKept :
      (attr : Addr) (target : Target) (s : Machine)
      → IsMatched (taking taken) s
      → let c = create_call p k attr target in
        ((k s.trace c).ret ==ℤ pos 0) ≡ false → IsMatched (taking taken) (after s c (k s.trace c))
  failed-IsKept attr target s v failed =
      let c = create_call p k attr target in
      IsMatched-benign (taking taken) s v c (k s.trace c) (ground (arith, failed))
        (terms.others c (k s.trace c) (ends_lem attr target)) (ends_lem attr target)

  -- A new thread, in an object that has none.
  created-IsKept :
      (attr : Addr) (target : Target) (this : Addr) (tid : ℤ) (s : Machine)
      → IsMatched (taking taken) s
      → IsEmpty (taking taken) this s
      → let c = create_call p k attr target in
        ((k s.trace c).ret ==ℤ pos 0) ≡ true
        → (k s.trace c).out ≡ tid ∷ []
        → (tid ==ℤ invalid) ≡ false
        → is_running s.trace tid ≡ false
        → IsMatched
            (taking taken)
            (record (after s c (k s.trace c)) { mem = update s.mem this tid })
  created-IsKept attr target this tid s v free went stored new fresh =
      let c = create_call p k attr target in
      let given : (taking taken).gives c (k s.trace c) ≡ some tid =
        rw (starts_lem attr target, went, stored, new) refl in
      IsMatched-gain (taking taken) s v this c (k s.trace c) tid free given (ends_lem attr target)
        (terms.fewer s.trace tid fresh)

  stores :
      (attr : Addr) (target : Target) (s : Machine)
      → let c = create_call p k attr target in (tid : ℤ) × ((k s.trace c).out ≡ tid ∷ [])
  stores attr target s =
      let c = create_call p k attr target in
      elim (Bool-cases ((k s.trace c).ret ==ℤ pos 0)) [
        | inl went ↦
            let (tid, stored, _, _) = threading.created s.trace c (starts_lem attr target) went in
            (tid, stored)
        | inr failed ↦ threading.not_created s.trace c (starts_lem attr target) failed
      ]

  pub create-Unmade :
      (attr : Addr) (target : Target) (this : Addr) (s : Machine)
      → IsMatched (taking taken) s
      → IsEmpty (taking taken) this s
      → Safety.Safe
          (IsUnmade taken this)
          (Clean (taking taken))
          (λ _. IsMatched (taking taken))
          (Pthread.create p k attr target this s)
  create-Unmade attr target this s v free =
      let c = create_call p k attr target in
      let r = k s.trace c in
      let b = starts_lem attr target in
      elim (Bool-cases (r.ret ==ℤ pos 0)) [
        | inl went ↦
            let (tid, stored, new, fresh) = threading.created s.trace c b went in
            rw (create_lem p law k attr target this tid s stored, free, went)
              (created-IsKept attr target this tid s v free went stored new fresh)
        | inr failed ↦
            let (tid, stored) = threading.not_created s.trace c b failed in
            let w = failed-IsKept attr target s v failed in
            rw (create_lem p law k attr target this tid s stored, free, failed)
              (createthrow-Safe taken (IsUnmade taken this) (λ _ u. u.0.clean)
                (λ _. IsMatched (taking taken)) r.ret _
                (scratched-IsKept taken this tid (after s c r) w free, ground arith))
      ]

  pub create-Keeps :
      (attr : Addr) (target : Target) (this : Addr)
      → Keeps (taking taken) (Pthread.create p k attr target this)
  create-Keeps attr target this s v = elim (Bool-cases (s.mem this ==ℤ invalid)) [
    | inr has ↦
        let (tid, stored) = stores attr target s in
        rw (create_lem p law k attr target this tid s stored, has) v.clean
    | inl free ↦
        Safe-keep (IsUnmade taken this) (IsMatched (taking taken)) (Clean (taking taken))
          (λ _. IsMatched (taking taken)) (Pthread.create p k attr target this s) (λ _ u. u.0)
          (create-Unmade attr target this s v free)
  ]

  pub createinit-Fills :
      (attr : Addr) (target : Target) (this : Addr)
      → Fills (taking taken) this (Pthread.createinit p k attr target this)
  createinit-Fills attr target this s v free =
      let c = create_call p k attr target in
      let r = k s.trace c in
      let b = starts_lem attr target in
      elim (Bool-cases (r.ret ==ℤ pos 0)) [
        | inl went ↦
            let (tid, stored, new, fresh) = threading.created s.trace c b went in
            rw (createinit_lem p law k attr target this tid s stored went)
              (created-IsKept attr target this tid s v free went stored new fresh)
        | inr failed ↦ rw (createinit-failed p law k attr target this s failed) (
            Safe-and_then (IsMatched (taking taken)) (Clean (taking taken)) (λ _ t. ⊥)
              (λ _. IsMatched (taking taken)) (createthrow r.ret (after s c r))
              (λ _. store_out this r.out)
              (createthrow-Safe taken (IsMatched (taking taken)) (λ _ v. v.clean) (λ _ t. ⊥) r.ret
                (after s c r) (failed-IsKept attr target s v failed))
              (λ _ t no. absurd no))
      ]

  -- A call that should end the thread of an object: it does, or an assertion fails.
  stopped-IsClean :
      (this : Addr) (c : Call) (r : Reply) (s : Machine)
      → IsMatched (taking taken) s
      → (s.mem this ==ℤ invalid) ≡ false
      → ends c ≡ some (s.mem this)
      → IsClean (taking taken) ((c, r) ∷ s.trace)
  stopped-IsClean this c r s v has over = naming (s.mem this) over (v.live this has) v.clean

  pub join-Keeps : (this : Addr) → Keeps (taking taken) (do Pthread.join p k this; pure tt)
  join-Keeps this s v =
      let c = Call.pthread_join (s.mem this) in
      let r = k s.trace c in
      elim (Bool-cases (s.mem this ==ℤ invalid)) [
        | inl free ↦ rw (join_lem p law k this s, free) v.clean
        | inr has ↦ elim (Bool-cases (is_any r.ret (edeadlk ∷ einval ∷ esrch ∷ []))) [
          | inl refused ↦
              rw (join_lem p law k this s, has, refused) (stopped-IsClean this c r s v has refl)
          | inr allowed ↦
              rw (join_lem p law k this s, has, allowed)
                (ended-IsKept taken terms this c r s v has refl refl
                  (ground (arith, threading.join_errors s.trace (s.mem this))))
        ]
      ]

  pub detach-Keeps : (this : Addr) → Keeps (taking taken) (Pthread.detach p k this)
  detach-Keeps this s v =
      let c = Call.pthread_detach (s.mem this) in
      let r = k s.trace c in
      elim (Bool-cases (s.mem this ==ℤ invalid)) [
        | inl free ↦ rw (detach_lem p law k this s, free) v.clean
        | inr has ↦ elim (Bool-cases (is_any r.ret (einval ∷ esrch ∷ []))) [
          | inl refused ↦
              rw (detach_lem p law k this s, has, refused) (stopped-IsClean this c r s v has refl)
          | inr allowed ↦
              rw (detach_lem p law k this s, has, allowed)
                (ended-IsKept taken terms this c r s v has refl refl
                  (ground (arith, threading.detach_errors s.trace (s.mem this))))
        ]
      ]

  pub cancel-Keeps : (this : Addr) → Keeps (taking taken) (Pthread.cancel p k this)
  cancel-Keeps this s v =
      let c = Call.pthread_cancel (s.mem this) in
      let r = k s.trace c in
      let w = IsMatched-benign (taking taken) s v c r refl (terms.others c r refl) refl in
      elim (Bool-cases (s.mem this ==ℤ invalid)) [
        | inl free ↦ rw (cancel_lem p law k this s, free) v.clean
        | inr has ↦ elim (Bool-cases (is_any r.ret (esrch ∷ []))) [
          | inl refused ↦ rw (cancel_lem p law k this s, has, refused) (w.clean)
          | inr allowed ↦ rw (cancel_lem p law k this s, has, allowed) w
        ]
      ]

  pub destroy-Empties :
      (this : Addr)
      → Empties (taking taken) this (Pthread.destroy p k PthreadBehavior.terminate this)
  destroy-Empties this s v = elim (Bool-cases (s.mem this ==ℤ invalid)) [
    | inl free ↦ rw (destroy-terminate p law k this s, free) (v, free)
    | inr has ↦ rw (destroy-terminate p law k this s, has) v.clean
  ]

  -- What needs a free cell, and is skipped where there is none.
  pub when_free-Keeps :
      (this : Addr) (m : M (Unit {0}))
      → Fills (taking taken) this m
      → Keeps (taking taken) (when_free this m)
  when_free-Keeps this m fills s v = elim (Bool-cases (s.mem this ==ℤ invalid)) [
    | inl free ↦ rw free (fills s v free)
    | inr has ↦ rw has v
  ]

  pub hand_over-Fills : (this from : Addr) → Fills (taking taken) this (hand_over this from)
  unfolding hand_over
  hand_over-Fills this from s v free = IsMatched-move (taking taken) s v this from (inl free)

  -- A move assignment to an object without a thread, but for one from an object without a thread,
  -- which goes on with what stopping the former does.
  pub move_assign-Fills :
      (behavior : ℕ) (this from : Addr)
      → ((s : Machine)
          → IsMatched (taking taken) s
          → s.mem this ≡ invalid
          → s.mem from ≡ invalid
          → Safe
              (taking taken)
              (λ _. IsMatched (taking taken))
              (Pthread.move_assign p k behavior this from s))
      → Fills (taking taken) this (Pthread.move_assign p k behavior this from)
  move_assign-Fills behavior this from stops s v free =
      let empty = (==ℤ_iff (s.mem this) invalid).0 free in
      elim (Bool-cases (s.mem this ==ℤ s.mem from)) [
        | inl same ↦ stops s v empty (sym ((==ℤ_iff (s.mem this) (s.mem from)).0 same) ∙ empty)
        | inr differ ↦
            let drop : s.mem this ≢ s.mem from =
              λ e. ground (arith, ==ℤ_iff (s.mem this) (s.mem from)) in
            rw (move_assign-drops p law k behavior this from s drop)
              (IsMatched-hand_over (taking taken) s v this from free (λ e. drop (ap s.mem e)))
      ]
