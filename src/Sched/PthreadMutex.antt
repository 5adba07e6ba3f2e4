-- ===== src/Sched/PthreadMutex.antt =====
-- include/metasys/sched/PthreadMutex.hxx: the mutex at `this` is `_inner`, and what it holds is the
-- C library's.
pub mod Laws
pub mod Exclusion
pub mod Refinement
use metasys.Base.{Bool, not, ◌&&◌, [], ◌∷◌, ◌==ℤ◌, ℤ, pos}
use metasys.Machine.{
  Addr, Kernel, Call, ret_not_in, M, pure, ◌>>=◌, ◌>>◌, noexcept, when, assert, call, eperm, eagain,
  ebusy, einval, edeadlk, eownerdead, enotrecoverable,
}
use metasys.Sys.SystemException.{throw_errno_of}

abbrev is_nonzero : ℤ → Bool
is_nonzero ret = not (ret ==ℤ pos 0)

unfoldable pub initthrow : ℤ → M (Unit {0})
unfolding throw_errno_of
initthrow err = ret_not_in err (einval ∷ []) >> throw_errno_of err

unfoldable pub lockthrow : ℤ → M (Unit {0})
lockthrow err =
    ret_not_in err (eagain ∷ ebusy ∷ edeadlk ∷ einval ∷ enotrecoverable ∷ eownerdead ∷ eperm ∷ [])

unfoldable pub trylockthrow : ℤ → M (Unit {0})
trylockthrow err =
    ret_not_in err (eagain ∷ edeadlk ∷ einval ∷ enotrecoverable ∷ eownerdead ∷ eperm ∷ [])

unfoldable pub unlockthrow : ℤ → M (Unit {0})
unlockthrow err =
    ret_not_in err (eagain ∷ ebusy ∷ edeadlk ∷ einval ∷ enotrecoverable ∷ eownerdead ∷ eperm ∷ [])

-- `PthreadMutex()`: a static initializer, without a call.
unfoldable pub construct : Addr → M (Unit {0})
construct this = pure tt

module _ (k : Kernel) where
  -- `~PthreadMutex()`
  unfoldable pub destroy : Addr → M (Unit {0})
  destroy this = do ret ← call k (Call.pthread_mutex_destroy this); assert (ret ==ℤ pos 0)

  unfoldable pub lock_with : {B : Type 0} → (ℤ → M B) → Addr → M B
  lock_with handler this = do ret ← call k (Call.pthread_mutex_lock this); handler ret

  unfoldable pub lock : Addr → M (Unit {0})
  unfolding lock_with lockthrow
  lock this = noexcept (lock_with (λ ret. when (is_nonzero ret) (lockthrow ret)) this)

  unfoldable pub trylock_with : {B : Type 0} → (ℤ → M B) → Addr → M B
  trylock_with handler this = do ret ← call k (Call.pthread_mutex_trylock this); handler ret

  unfoldable pub trylock : Addr → M Bool
  unfolding trylock_with trylockthrow
  trylock this = noexcept (
      trylock_with
        (λ ret. do
          when (is_nonzero ret && not (ret ==ℤ pos ebusy)) (trylockthrow ret)
          pure (ret ==ℤ pos 0))
        this)

  unfoldable pub unlock_with : {B : Type 0} → (ℤ → M B) → Addr → M B
  unlock_with handler this = do ret ← call k (Call.pthread_mutex_unlock this); handler ret

  unfoldable pub unlock : Addr → M (Unit {0})
  unfolding unlock_with unlockthrow
  unlock this = noexcept (unlock_with (λ ret. when (is_nonzero ret) (unlockthrow ret)) this)
