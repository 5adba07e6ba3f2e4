-- ===== src/Sched/ThisPthread/Laws.antt =====
-- Nested inhibitors of cancellation.
use metasys.Base.{
  ◌≡◌, refl, ◌∙◌, Bool, true, false, ◌||◌, [], ◌∷◌, arith, ◌==◌, if◌then◌else◌, ◌==ℤ◌, ℤ, pos,
}
use metasys.Machine.{
  Addr, History, Kernel, Call, M, ◌>>◌, scope_left, scoped, update, after, Machine, Outcome, done,
  thrown, stopped, out_of_fuel,
}
use metasys.Sched.ThisPthread.{cancel_enable, cancel_disable, setcancel, inhibit, restore}

-- Whether the calls so far have left the thread cancellable, which it is at its start.
unfoldable pub is_enabled : History → Bool
is_enabled [] = true
is_enabled ((Call.pthread_setcancelstate state, r) ∷ h) =
    if r.ret ==ℤ pos 0 then state ==ℤ cancel_enable else is_enabled h
is_enabled ((_, r) ∷ h) = is_enabled h

-- pthread_setcancelstate(3) succeeds, and stores the state that the last call of it has set.
abbrev pub HasCancelState : Kernel → Type 0
HasCancelState k =
    (h : History) (state : ℤ)
    → ((k h (Call.pthread_setcancelstate state)).ret ≡ pos 0)
      × ((k h (Call.pthread_setcancelstate state)).out
          ≡ (if is_enabled h then cancel_enable else cancel_disable) ∷ [])

module _ (k : Kernel) (posix : HasCancelState k) where
  -- `setcancel` makes the thread cancellable or not, as asked, and returns whether it was before.
  -- It is assumed that pthread_setcancelstate(3) succeeds and stores the state it replaces.
  pub setcancel_lem :
      (enabled : Bool) (s : Machine)
      → (t : Machine) × (setcancel k enabled s ≡ done (is_enabled s.trace) t)
        × (is_enabled t.trace ≡ enabled)
        × (t.mem ≡ s.mem)
  unfolding setcancel is_enabled
  setcancel_lem true s =
      let c = Call.pthread_setcancelstate cancel_enable in
      let (went, stored) = posix s.trace cancel_enable in
      (after s c (k s.trace c), rw (went, stored) (ground arith), rw went, refl)
  setcancel_lem false s =
      let c = Call.pthread_setcancelstate cancel_disable in
      let (went, stored) = posix s.trace cancel_disable in
      (after s c (k s.trace c), rw (went, stored) (ground arith), rw went, refl)

-- The outcome, where there is one, leaves the thread as cancellable as `s` and the cells of `kept` as
-- they were.
abbrev pub Restores : {A : Type 0} → (kept : Addr → Bool) → Machine → Outcome A → Type 0
Restores kept s (done a t) =
    (is_enabled t.trace ≡ is_enabled s.trace) × ((q : Addr) → kept q ≡ true → t.mem q ≡ s.mem q)
Restores kept s (thrown e t) =
    (is_enabled t.trace ≡ is_enabled s.trace) × ((q : Addr) → kept q ≡ true → t.mem q ≡ s.mem q)
Restores kept s (stopped c t) = Unit
Restores kept s (out_of_fuel t) = Unit

-- A block that begins with a `PthreadCancelInhibitor` at `this`.
abbrev pub inhibited : {A : Type 0} → Kernel → Addr → M A → M A
inhibited k this body = inhibit k this >> scoped (restore k this) body

module _ (k : Kernel) (posix : HasCancelState k) where
  inhibit_lem :
      (this : Addr) (s : Machine)
      → (t : Machine) × (inhibit k this s ≡ done tt t)
        × (is_enabled t.trace ≡ false)
        × (t.mem ≡ update s.mem this (if is_enabled s.trace then pos 1 else pos 0))
  unfolding inhibit
  inhibit_lem this s =
      let (t, ran, off, same) = setcancel_lem k posix false s in
      (
        record t { mem = update t.mem this (if is_enabled s.trace then pos 1 else pos 0) },
        rw ran refl,
        off,
        rw same,
      )

  restore_lem :
      (this : Addr) (s : Machine) (b : Bool)
      → s.mem this ≡ (if b then pos 1 else pos 0)
      → (t : Machine) × (restore k this s ≡ done tt t) × (is_enabled t.trace ≡ b) × (t.mem ≡ s.mem)
  unfolding restore
  restore_lem this s true e =
      let (t, ran, on, same) = setcancel_lem k posix true s in (t, rw (e, ran) refl, on, same)
  restore_lem this s false e =
      let (t, ran, on, same) = setcancel_lem k posix false s in (t, rw (e, ran) refl, on, same)

  -- What `body` keeps, seen from before the inhibitor.
  saved :
      (kept : Addr → Bool) (this : Addr) (s t u : Machine)
      → kept this ≡ false
      → t.mem ≡ update s.mem this (if is_enabled s.trace then pos 1 else pos 0)
      → ((q : Addr) → ((q == this) || kept q) ≡ true → u.mem q ≡ t.mem q)
      → (u.mem this ≡ (if is_enabled s.trace then pos 1 else pos 0))
        × ((q : Addr) → kept q ≡ true → u.mem q ≡ s.mem q)
  saved kept this s t u apart set keep = (
    keep this (ground arith) ∙ rw set (ground arith),
    λ q kq. keep q (ground arith) ∙ rw set (ground arith),
  )

  scoped-Restores :
      {A : Type 0} (kept : Addr → Bool) (this : Addr) (s t : Machine) (o : Outcome A)
      → kept this ≡ false
      → t.mem ≡ update s.mem this (if is_enabled s.trace then pos 1 else pos 0)
      → Restores (λ q. (q == this) || kept q) t o
      → Restores kept s (scope_left (restore k this) o)
  scoped-Restores kept this s t (done a u) apart set (_, keep) =
      let (own, rest) = saved kept this s t u apart set keep in
      let (v, ran, as_before, same) = restore_lem this u (is_enabled s.trace) own in
      rw ran (as_before, λ q kq. rw same (rest q kq))
  scoped-Restores kept this s t (thrown e u) apart set (_, keep) =
      let (own, rest) = saved kept this s t u apart set keep in
      let (v, ran, as_before, same) = restore_lem this u (is_enabled s.trace) own in
      rw ran (as_before, λ q kq. rw same (rest q kq))
  scoped-Restores kept this s t (stopped c u) apart set r = tt
  scoped-Restores kept this s t (out_of_fuel u) apart set r = tt

  -- A block under an inhibitor runs where the thread cannot be cancelled, and leaves the thread as
  -- cancellable as it was, by its end or by an exception. It is enough that what is inside does so
  -- too, and does not write to the inhibitor, and this holds of blocks under inhibitors in turn:
  -- they nest. It is assumed that pthread_setcancelstate(3) succeeds and stores the state it
  -- replaces.
  pub inhibited-Restores :
      {A : Type 0} (kept : Addr → Bool) (this : Addr) (body : M A)
      → kept this ≡ false
      → ((t : Machine)
          → is_enabled t.trace ≡ false
          → Restores (λ q. (q == this) || kept q) t (body t))
      → (s : Machine) → Restores kept s (inhibited k this body s)
  inhibited-Restores kept this body apart inside s =
      let (t, ran, off, set) = inhibit_lem this s in
      rw ran (scoped-Restores kept this s t (body t) apart set (inside t off))
