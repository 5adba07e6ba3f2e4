-- ===== src/Sched/PthreadMutex/Laws.antt =====
-- Locking on every branch.
use metasys.Base.{
  ℕ, ◌≡◌, refl, inl, inr, not, ◌&&◌, List, [], ◌∷◌, arith, if◌then◌else◌, Bool-cases, ◌==ℤ◌,
  ==ℤ_iff, pos,
}
use metasys.Machine.{
  Addr, Kernel, Call, is_any, after, Machine, Outcome, assertion, done, stopped, eperm, eagain,
  ebusy, einval, edeadlk, eownerdead, enotrecoverable,
}
use metasys.Sched.PthreadMutex.{lock, trylock, unlock}

-- The errors that `trylockthrow` names.
abbrev pub trylock_errors : List ℕ
trylock_errors = eagain ∷ edeadlk ∷ einval ∷ enotrecoverable ∷ eownerdead ∷ eperm ∷ []

module _ (k : Kernel) where
  -- `trylock` makes one pthread_mutex_trylock(3). It returns true exactly if that call took the lock;
  -- it returns false for EBUSY and for every error that no assertion names, and the named ones fail.
  pub trylock_lem :
      (this : Addr) (s : Machine)
      → let c = Call.pthread_mutex_trylock this in
        let r = k s.trace c in
        trylock k this s ≡ (
          if is_any r.ret trylock_errors
          then stopped assertion (after s c r)
          else done (r.ret ==ℤ pos 0) (after s c r))
  unfolding trylock
  trylock_lem this s =
      let r = (k s.trace (Call.pthread_mutex_trylock this)).ret in
      elim (Bool-cases (r ==ℤ pos 0)) [
        | inl free ↦ rw ((==ℤ_iff r (pos 0)).0 free) refl
        | inr held ↦ elim (Bool-cases (r ==ℤ pos ebusy)) [
          | inl busy ↦ rw ((==ℤ_iff r (pos ebusy)).0 busy) refl
          | inr other ↦ rw (held, other) (ground arith)
        ]
      ]

-- The errors that `lockthrow` and `unlockthrow` name.
abbrev pub lock_errors : List ℕ
lock_errors = eagain ∷ ebusy ∷ edeadlk ∷ einval ∷ enotrecoverable ∷ eownerdead ∷ eperm ∷ []

-- A call of which `lock` or `unlock` consists.
abbrev locked : Kernel → Call → Machine → Outcome (Unit {0})
locked k c s =
    let r = k s.trace c in
    if not (r.ret ==ℤ pos 0) && is_any r.ret lock_errors
    then stopped assertion (after s c r)
    else done tt (after s c r)

module _ (k : Kernel) where
  -- `lock` makes one pthread_mutex_lock(3); an error that an assertion names stops the process, and
  -- any other one is ignored.
  pub lock_lem :
      (this : Addr) (s : Machine) → lock k this s ≡ locked k (Call.pthread_mutex_lock this) s
  unfolding lock
  lock_lem this s = elim (Bool-cases ((k s.trace (Call.pthread_mutex_lock this)).ret ==ℤ pos 0)) [
    | inl free ↦ rw free refl
    | inr held ↦ rw held (ground arith)
  ]

  -- `unlock` makes one pthread_mutex_unlock(3); an error that an assertion names stops the process,
  -- and any other one is ignored.
  pub unlock_lem :
      (this : Addr) (s : Machine) → unlock k this s ≡ locked k (Call.pthread_mutex_unlock this) s
  unfolding unlock
  unlock_lem this s =
      elim (Bool-cases ((k s.trace (Call.pthread_mutex_unlock this)).ret ==ℤ pos 0)) [
        | inl free ↦ rw free refl
        | inr held ↦ rw held (ground arith)
      ]
