-- ===== src/Custody/Jthreads.antt =====
-- Programs over any number of `Jthread` objects. The destructor of an object without a thread ends the
-- process, so a new object is only made in a cell that holds no thread, and without the destruction
-- of another there. A thread is only assigned, or taken over by `reset`, by an object without one:
-- over another, both forget a thread.
pub mod Theorems
use metasys.Base.{◌≢◌}
use metasys.Machine.{Addr, Kernel, M, pure, ◌>>=◌, ◌>>◌, put}
use metasys.Sched.Pthread
use metasys.Sched.Pthread.{Pthreads, Target, invalid}
use metasys.Sched.Thread
use metasys.Custody.{when_free, hand_over}
use metasys.Sched.Thread.{jthread_behavior}

-- One statement.
pub data Statement : Type 0 where
  construct : (attr : Addr) → (target : Target) → (this : Addr) → Statement
  create : (attr : Addr) → (target : Target) → (this : Addr) → Statement
  join : (this : Addr) → Statement
  detach : (this : Addr) → Statement
  cancel : (this : Addr) → Statement
  move_construct : (this from : Addr) → this ≢ from → Statement
  move_assign : (this from : Addr) → Statement
  hand_over_thread : (this from : Addr) → Statement
  destroy : (this : Addr) → Statement

module _ (p : Pthreads) (k : Kernel) where
  -- The life of an object ends, and its cell is free.
  unfoldable pub end_of_life : Addr → M (Unit {0})
  end_of_life this = do Thread.destroy p k this; put this invalid

  unfoldable pub execute : Statement → M (Unit {0})
  unfolding end_of_life
  execute (construct attr target this) = when_free this (Thread.construct_with p k attr target this)
  execute (create attr target this) = Pthread.create p k attr target this
  execute (join this) = do Pthread.join p k this; pure tt
  execute (detach this) = Pthread.detach p k this
  execute (cancel this) = Pthread.cancel p k this
  execute (move_construct this from apart) = when_free this (Pthread.move_construct this from)
  execute (move_assign this from) =
      when_free this (Pthread.move_assign p k jthread_behavior this from)
  execute (hand_over_thread this from) = when_free this (hand_over this from)
  execute (destroy this) = end_of_life this
