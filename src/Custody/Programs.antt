-- ===== src/Custody/Programs.antt =====
-- Programs over any number of `Thread` objects, which create, join, detach, cancel, move and destroy
-- in any order. A thread is only assigned, or taken over by `reset`, by an object without one: over
-- another, both forget a thread.
pub mod Theorems
use metasys.Base.{◌≢◌}
use metasys.Machine.{Addr, Kernel, M, pure, ◌>>=◌, ◌>>◌}
use metasys.Sched.Pthread
use metasys.Sched.Pthread.{Pthreads, Target}
use metasys.Sched.Thread.{thread_behavior}
use metasys.Custody.{when_free, hand_over}

-- One statement. The statements that make a new object end the life of the one in its place.
pub data Statement : Type 0 where
  create : (attr : Addr) → (target : Target) → (this : Addr) → Statement
  createinit : (attr : Addr) → (target : Target) → (this : Addr) → Statement
  join : (this : Addr) → Statement
  detach : (this : Addr) → Statement
  cancel : (this : Addr) → Statement
  move_construct : (this from : Addr) → this ≢ from → Statement
  move_assign : (this from : Addr) → Statement
  hand_over_thread : (this from : Addr) → Statement
  destroy : (this : Addr) → Statement

module _ (p : Pthreads) (k : Kernel) where
  -- The life of an object ends.
  unfoldable pub end_of_life : Addr → M (Unit {0})
  end_of_life this = Pthread.destroy p k thread_behavior this

  unfoldable pub execute : Statement → M (Unit {0})
  unfolding end_of_life
  execute (create attr target this) = Pthread.create p k attr target this
  execute (createinit attr target this) =
      end_of_life this >> Pthread.createinit p k attr target this
  execute (join this) = do Pthread.join p k this; pure tt
  execute (detach this) = Pthread.detach p k this
  execute (cancel this) = Pthread.cancel p k this
  execute (move_construct this from apart) = end_of_life this >> Pthread.move_construct this from
  execute (move_assign this from) =
      when_free this (Pthread.move_assign p k thread_behavior this from)
  execute (hand_over_thread this from) = when_free this (hand_over this from)
  execute (destroy this) = end_of_life this
