-- ===== src/Sched/Thread.antt =====
-- include/metasys/sched/Thread.hxx: `Thread` and `Jthread`, the two instances of `Pthread` that carry a
-- name. `Jthread` cancels and joins when it is destroyed.
pub mod Laws
use metasys.Base.{ℕ}
use metasys.Machine.{Addr, Kernel, M, ◌>>=◌, ◌>>◌, owning}
use metasys.Sched.PthreadBehavior
use metasys.Sched.PthreadBehavior.{with_cancel}
use metasys.Sched.Pthread
use metasys.Sched.Pthread.{Pthreads, Target, null}

abbrev pub thread_behavior : ℕ
thread_behavior = PthreadBehavior.terminate

unfoldable pub jthread_behavior : ℕ
unfolding with_cancel
jthread_behavior = with_cancel PthreadBehavior.join

-- `Jthread()`
unfoldable pub construct : Addr → M (Unit {0})
unfolding Pthread.construct
construct this = Pthread.construct this

module _ (p : Pthreads) (k : Kernel) where
  -- `~Jthread()`, the destructor of its base.
  unfoldable pub destroy : Addr → M (Unit {0})
  unfolding Pthread.destroy jthread_behavior
  destroy this = Pthread.destroy p k jthread_behavior this

  -- `Jthread(Args && ... args)` and `Jthread(Constexpr<M>, Args && ... args)`: the base is built first,
  -- and destroyed again when `create` throws.
  unfoldable pub construct_with : (attr : Addr) → Target → Addr → M (Unit {0})
  unfolding Pthread.construct Pthread.create destroy
  construct_with attr target this = do
    Pthread.construct this
    owning (destroy this) (Pthread.create p k attr target this)
