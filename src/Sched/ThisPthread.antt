-- ===== src/Sched/ThisPthread.antt =====
-- include/metasys/sched/ThisPthread.hxx and PthreadCancelInhibitor.hxx. The inhibitor at `this`
-- keeps `_old` in the cell `this`, 1 for true.
pub mod Laws
use metasys.Base.{Bool, false, not, List, [], ◌∷◌, if◌then◌else◌, ◌==ℤ◌, ℤ, pos}
use metasys.Machine.{
  Addr, Kernel, Call, M, pure, ◌>>=◌, ◌>>◌, noexcept, assert, get, put, syscall, call,
}

-- PTHREAD_CANCEL_ENABLE and PTHREAD_CANCEL_DISABLE of <pthread.h>.
abbrev pub cancel_enable : ℤ
cancel_enable = pos 0

abbrev pub cancel_disable : ℤ
cancel_disable = pos 1

abbrev pub from_bool : Bool → ℤ
from_bool b = if b then pos 1 else pos 0

-- `oldstate` as pthread_setcancelstate(3) stored it.
abbrev pub stored : List ℤ → ℤ
stored [] = pos 0
stored (v ∷ _) = v

module _ (k : Kernel) where
  unfoldable pub testcancel : M (Unit {0})
  testcancel = do call k Call.pthread_testcancel; pure tt

  unfoldable pub setcancel : Bool → M Bool
  setcancel enabled = noexcept (do
    reply ←
        syscall k (Call.pthread_setcancelstate (if enabled then cancel_enable else cancel_disable))
    assert (reply.ret ==ℤ pos 0)
    pure (stored reply.out ==ℤ cancel_enable))

  -- `PthreadCancelInhibitor()`
  unfoldable pub inhibit : Addr → M (Unit {0})
  unfolding setcancel
  inhibit this = do old ← setcancel false; put this (from_bool old)

  -- `~PthreadCancelInhibitor()`
  unfoldable pub restore : Addr → M (Unit {0})
  unfolding setcancel
  restore this = do old ← get this; setcancel (not (old ==ℤ pos 0)); pure tt
