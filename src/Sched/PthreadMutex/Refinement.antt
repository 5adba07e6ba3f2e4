-- ===== src/Sched/PthreadMutex/Refinement.antt =====
-- The mutex against an abstract lock: who acquired it and who released it, in which order.
use metasys.Base.{
  ℕ, ◌≡◌, refl, ◌∙◌, Bool, true, false, Option, none, some, List, [], ◌∷◌, arith, ◌==◌,
  if◌then◌else◌, ℤ,
}
use metasys.Machine.{Addr, Kernel, Machine}
use metasys.Sched.PthreadMutex.Exclusion.{
  Thread, System, Step, Reach, IsMutex, is_held, set, locking, trying, unlocking, calling, here,
  next, lock-done, trylock-got, trylock-missed,
}

pub data LockEvent : Type 0 where
  acquired released : Thread → LockEvent

-- The lock is free or has one owner. Only a free lock is acquired, and only its owner releases it.
abbrev pub step_lock : LockEvent → Option Thread → Option (Option Thread)
step_lock (acquired t) none = some (some t)
step_lock (acquired t) (some u) = none
step_lock (released t) none = none
step_lock (released t) (some u) = if u == t then some none else none

-- What a history of events, the last one first, leaves of a free lock; nothing, if it is no history of
-- a lock.
abbrev pub run_lock : List LockEvent → Option (Option Thread)
run_lock [] = some none
run_lock (e ∷ es) = elim (run_lock es) [ some l ↦ step_lock e l | none ↦ none ]

-- What is seen of a step, and of an interleaving.
abbrev pub seen :
    {k : Kernel} {m : Addr} {s u : System} → Step k m s u → List LockEvent → List LockEvent
seen (locking t s' ran) es = acquired t ∷ es
seen (trying t got s' ran) es = if got then acquired t ∷ es else es
seen (unlocking t s' within ran) es = released t ∷ es
seen (calling c r no_lock no_unlock) es = es

abbrev pub events : {k : Kernel} {m : Addr} {s u : System} → Reach k m s u → List LockEvent
events here = []
events (next r st) = seen st (events r)

abbrev pub is_owner : Option Thread → Thread → Bool
is_owner none t = false
is_owner (some u) t = u == t

-- The abstract lock is owned by whoever is inside, and the mutex is held then.
record Refines (m : Addr) (s : System) (l : Option Thread) : Type 0 where
  inside : (t : Thread) → s.inside t ≡ is_owner l t
  held : (t : Thread) → is_owner l t ≡ true → is_held s.machine.trace m ≡ true

module _ (k : Kernel) (mutex : IsMutex k) (m : Addr) where
  -- Nobody owns the abstract lock when the mutex is free.
  Refines-free :
      (s : System) (l : Option Thread)
      → Refines m s l
      → is_held s.machine.trace m ≡ false
      → l ≡ none
  Refines-free s none v free = refl
  Refines-free s (some t) v free = absurd (ground (arith, v.held t, free))

  -- A free lock is acquired.
  entered-Refines :
      (s : System) (t : Thread) (s' : Machine) (l : Option Thread)
      → Refines m s l
      → is_held s.machine.trace m ≡ false
      → is_held s'.trace m ≡ true
      → (step_lock (acquired t) l ≡ some (some t))
        × Refines m (record { machine = s'; inside = set s.inside t true }) (some t)
  entered-Refines s t s' l v free taken =
      let none_before = Refines-free s l v free in
      (
        rw none_before refl,
        record {
          inside = λ u. ground (arith, v.inside u, rw none_before at (v.inside u));
          held = λ u e. taken;
        },
      )

  -- A step of the threads is seen as steps of the lock.
  Step-Refines :
      {s u : System} (st : Step k m s u) (es : List LockEvent) (l : Option Thread)
      → run_lock es ≡ some l
      → Refines m s l
      → (l' : Option Thread) × (run_lock (seen st es) ≡ some l') × Refines m u l'
  unfolding is_held
  Step-Refines {s} (locking t s' ran) es l from v =
      let (free, taken) = lock-done k mutex m s.machine s' ran in
      let (step, w) = entered-Refines s t s' l v free taken in (some t, rw from step, w)
  Step-Refines {s} (trying t true s' ran) es l from v =
      let (free, taken) = trylock-got k mutex m s.machine s' ran in
      let (step, w) = entered-Refines s t s' l v free taken in (some t, rw from step, w)
  Step-Refines {s} (trying t false s' ran) es l from v =
      let same = trylock-missed k mutex m s.machine s' ran in
      (l, from, record { inside = v.inside; held = λ u e. same ∙ v.held u e })
  Step-Refines {s} (unlocking t s' within ran) es none from v =
      absurd (ground (arith, v.inside t, within))
  Step-Refines {s} (unlocking t s' within ran) es (some u) from v = (
    none,
    rw from (ground (arith, v.inside t)),
    record {
      inside = λ w. ground (arith, v.inside w, v.inside t, within);
      held = λ w e. absurd cc;
    },
  )
  Step-Refines {s} (calling c r no_lock no_unlock) es l from v = (
    l,
    from,
    record { inside = v.inside; held = λ u e. ground (arith, v.held u, no_lock, no_unlock) },
  )

  -- Every interleaving of `lock`, `trylock`, `unlock` and other calls that starts with an unlocked
  -- mutex is a history of an abstract lock, which is acquired only while it is free and released only
  -- by the thread that acquired it; and at its end the owner of the lock is the one thread that is
  -- between a lock that it got and its unlock. The assumptions are those of mutual exclusion: the
  -- two locking calls succeed only on a free mutex, pthread_mutex_lock(3) has no errors but those
  -- that its manual page names, and a thread unlocks only what it has locked.
  pub Reach-run_lock :
      (e : ℕ) (cells : Addr → ℤ) (s : System)
      (r : Reach k m
        (record { machine = record { mem = cells; errno = e; trace = [] }; inside = λ _. false })
        s)
      → (l : Option Thread) × (run_lock (events r) ≡ some l)
        × ((t : Thread) → s.inside t ≡ is_owner l t)
  Reach-run_lock e cells s reached = let (l, ran, v) = refined reached in (l, ran, v.inside)
    where
      refined :
          {u : System}
          (r : Reach k m
            (record {
              machine = record { mem = cells; errno = e; trace = [] };
              inside = λ _. false;
            })
            u)
          → (l : Option Thread) × (run_lock (events r) ≡ some l) × Refines m u l
      refined here = (none, refl, record { inside = λ t. refl; held = λ t e. absurd cc })
      refined (next r st) = let (l, ran, v) = refined r in Step-Refines st (events r) l ran v
