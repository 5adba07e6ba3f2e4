-- ===== src/Sched/PthreadMutex/Exclusion.antt =====
-- Mutual exclusion: threads that lock, try and unlock one mutex in any order, with any other calls in
-- between.
use metasys.Base.{
  ℕ, ◌≡◌, sym, ap, ◌∙◌, inl, inr, Bool, true, false, not, Option, none, some, [], ◌∷◌, arith, ◌==◌,
  if◌then◌else◌, Bool-cases, ◌==ℤ◌, ℤ, pos,
}
use metasys.Machine.{
  Addr, History, Kernel, Call, Reply, is_any, after, Machine, Outcome, done, thrown, stopped,
  out_of_fuel,
}
use metasys.Sched.PthreadMutex.{lock, trylock, unlock}
use metasys.Sched.PthreadMutex.Laws.{lock_lem, trylock_lem, lock_errors, trylock_errors}

abbrev pub Thread : Type 0
Thread = ℕ

-- The calls that may change who holds a mutex.
abbrev pub locks : Call → Option Addr
locks (Call.pthread_mutex_lock m) = some m
locks (Call.pthread_mutex_trylock m) = some m
locks c = none

abbrev pub unlocks : Call → Option Addr
unlocks (Call.pthread_mutex_unlock m) = some m
unlocks c = none

abbrev is_at : Addr → Option Addr → Bool
is_at m none = false
is_at m (some p) = p == m

-- Whether the calls so far have left the mutex locked.
unfoldable pub is_held : History → Addr → Bool
is_held [] m = false
is_held ((c, r) ∷ h) m =
    let before = is_held h m in
    if not (r.ret ==ℤ pos 0)
    then before
    else if is_at m (locks c)
    then true
    else if is_at m (unlocks c)
    then false
    else before

-- pthread_mutex_lock(3) and pthread_mutex_trylock(3) return zero only when the calling thread has
-- become the owner of a mutex that had none; pthread_mutex_lock(3) has no other errors than those
-- that its manual page names.
pub record IsMutex (k : Kernel) : Type 0 where
  pub lock_granted :
      (h : History) (m : Addr)
      → ((k h (Call.pthread_mutex_lock m)).ret ==ℤ pos 0) ≡ true
      → is_held h m ≡ false
  pub trylock_granted :
      (h : History) (m : Addr)
      → ((k h (Call.pthread_mutex_trylock m)).ret ==ℤ pos 0) ≡ true
      → is_held h m ≡ false
  pub lock_refused :
      (h : History) (m : Addr)
      → ((k h (Call.pthread_mutex_lock m)).ret ==ℤ pos 0) ≡ false
      → is_any (k h (Call.pthread_mutex_lock m)).ret lock_errors ≡ true

-- The machine, and which threads are between a lock that they got and their unlock.
pub record System : Type 0 where
  pub machine : Machine
  pub inside : Thread → Bool

abbrev pub set : (Thread → Bool) → Thread → Bool → Thread → Bool
set f t b u = if u == t then b else f u

-- One thread makes one step.
pub data Step (k : Kernel) (m : Addr) (s : System) : System → Type 0 where
  locking :
      (t : Thread) (s' : Machine)
      → lock k m s.machine ≡ done tt s'
      → Step k m s (record { machine = s'; inside = set s.inside t true })
  trying :
      (t : Thread) (got : Bool) (s' : Machine)
      → trylock k m s.machine ≡ done got s'
      → Step k m s (record { machine = s'; inside = if got then set s.inside t true else s.inside })
  unlocking :
      (t : Thread) (s' : Machine)
      → s.inside t ≡ true
      → unlock k m s.machine ≡ done tt s'
      → Step k m s (record { machine = s'; inside = set s.inside t false })
  calling :
      (c : Call) (r : Reply)
      → is_at m (locks c) ≡ false
      → is_at m (unlocks c) ≡ false
      → Step k m s (record s { machine = after s.machine c r })

pub data Reach (k : Kernel) (m : Addr) (s : System) : System → Type 0 where
  here : Reach k m s s
  next : {t u : System} → Reach k m s t → Step k m t u → Reach k m s u

-- Whoever is inside holds the lock, and is alone.
pub record IsExclusive (m : Addr) (s : System) : Type 0 where
  pub held : (t : Thread) → s.inside t ≡ true → is_held s.machine.trace m ≡ true
  pub alone : (t u : Thread) → s.inside t ≡ true → s.inside u ≡ true → t ≡ u

abbrev last : {A : Type 0} → Outcome A → Machine
last (done a s) = s
last (thrown e s) = s
last (stopped c s) = s
last (out_of_fuel s) = s

abbrev value : Outcome Bool → Bool
value (done b s) = b
value _ = false

module _ (k : Kernel) (mutex : IsMutex k) (m : Addr) where
  -- A `lock` that returns has the lock, which nobody had.
  pub lock-done :
      (s s' : Machine)
      → lock k m s ≡ done tt s'
      → (is_held s.trace m ≡ false) × (is_held s'.trace m ≡ true)
  unfolding is_held
  lock-done s s' ran =
      let c = Call.pthread_mutex_lock m in
      let r = k s.trace c in
      let by = sym (lock_lem k m s) ∙ ran in
      elim (Bool-cases (r.ret ==ℤ pos 0)) [
        | inl free ↦
            let same : after s c r ≡ s' = ap last (rw free at by) in
            (mutex.lock_granted s.trace m free, rw (← same) (ground (arith, free)))
        | inr failed ↦
            let wrong = rw (failed, mutex.lock_refused s.trace m failed) at by in absurd (cc)
      ]

  -- What a `trylock` that returns says about its call.
  trylock-done :
      (s s' : Machine) (got : Bool)
      → trylock k m s ≡ done got s'
      → let c = Call.pthread_mutex_trylock m in
        (((k s.trace c).ret ==ℤ pos 0) ≡ got) × (after s c (k s.trace c) ≡ s')
  trylock-done s s' got ran =
      let c = Call.pthread_mutex_trylock m in
      let r = k s.trace c in
      let by = sym (trylock_lem k m s) ∙ ran in
      elim (Bool-cases (is_any r.ret trylock_errors)) [
        | inl named ↦ let wrong = rw named at by in absurd (cc)
        | inr other ↦ let right = rw other at by in (ap value right, ap last right)
      ]

  -- A `trylock` that returns true has the lock, which nobody had.
  pub trylock-got :
      (s s' : Machine)
      → trylock k m s ≡ done true s'
      → (is_held s.trace m ≡ false) × (is_held s'.trace m ≡ true)
  unfolding is_held
  trylock-got s s' ran =
      let (free, same) = trylock-done s s' true ran in
      (mutex.trylock_granted s.trace m free, rw (← same) (ground (arith, free)))

  -- One that returns false changes nothing.
  pub trylock-missed :
      (s s' : Machine) → trylock k m s ≡ done false s' → is_held s'.trace m ≡ is_held s.trace m
  unfolding is_held
  trylock-missed s s' ran =
      let (missed, same) = trylock-done s s' false ran in rw (← same) (ground (arith, missed))

  entered-IsExclusive :
      (s : System) (t : Thread) (s' : Machine)
      → is_held s.machine.trace m ≡ false
      → is_held s'.trace m ≡ true
      → IsExclusive m s
      → IsExclusive m (record { machine = s'; inside = set s.inside t true })
  entered-IsExclusive s t s' free taken v = record {
    held = λ u i. taken;
    alone = λ u w i j. ground (arith, v.held u, v.held w);
  }

  Step-IsExclusive : {s u : System} → Step k m s u → IsExclusive m s → IsExclusive m u
  unfolding is_held
  Step-IsExclusive {s} (locking t s' ran) v =
      let (free, taken) = lock-done s.machine s' ran in entered-IsExclusive s t s' free taken v
  Step-IsExclusive {s} (trying t true s' ran) v =
      let (free, taken) = trylock-got s.machine s' ran in entered-IsExclusive s t s' free taken v
  Step-IsExclusive {s} (trying t false s' ran) v =
      let same = trylock-missed s.machine s' ran in
      record { held = λ u i. same ∙ v.held u i; alone = v.alone }
  Step-IsExclusive {s} (unlocking t s' within ran) v = record {
    held = λ w i. ground (arith, v.alone w t);
    alone = λ w x i j. ground (arith, v.alone w x);
  }
  Step-IsExclusive {s} (calling c r no_lock no_unlock) v = record {
    held = λ t i. ground (arith, v.held t, no_lock, no_unlock);
    alone = v.alone;
  }

  -- At every point of every interleaving of `lock`, `trylock`, `unlock` and other calls that starts
  -- with an unlocked mutex, at most one thread is between a lock that it got and its unlock. It is
  -- assumed that pthread_mutex_lock(3) and pthread_mutex_trylock(3) succeed only on a free mutex,
  -- that pthread_mutex_lock(3) has no errors but those that its manual page names, and that a
  -- thread unlocks only what it has locked.
  pub Reach-alone :
      (e : ℕ) (cells : Addr → ℤ) (s : System) (t u : Thread)
      → Reach k m
          (record { machine = record { mem = cells; errno = e; trace = [] }; inside = λ _. false })
          s
      → s.inside t ≡ true
      → s.inside u ≡ true
      → t ≡ u
  Reach-alone e cells s t u reached = (reached-IsExclusive reached).alone t u
    where
      reached-IsExclusive :
          {u : System}
          → Reach k m
              (record {
                machine = record { mem = cells; errno = e; trace = [] };
                inside = λ _. false;
              })
              u
          → IsExclusive m u
      reached-IsExclusive here = record { held = λ t h. cc; alone = λ t u h. absurd cc }
      reached-IsExclusive (next r st) = Step-IsExclusive st (reached-IsExclusive r)
