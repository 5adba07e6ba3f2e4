-- ===== src/Children/Programs.antt =====
-- Programs over any number of `Process` objects that fork, signal, move, assign and destroy in any
-- order, in the parent. `reset` is used where `this` has no child, to take the one of `from`, and
-- after a `wait` whose handler returns; elsewhere it loses a child. A `wait` without a `reset` is no
-- statement: it leaves the reaped child in its object.
pub mod Theorems
use metasys.Base.{◌≢◌, not, ℤ, pos}
use metasys.Machine.{Addr, Kernel, M, pure, ◌>>=◌, ◌>>◌, when, put}
use metasys.Sched.Process
use metasys.Sched.Process.{ProcessBehavior}

-- One statement. The statements that make a new object end the life of the one in its place.
pub data Statement : Type 0 where
  fork : (this : Addr) → Statement
  forkinit : (this : Addr) → Statement
  kill : (sig : ℤ) → (this : Addr) → Statement
  move_construct : (this from : Addr) → this ≢ from → Statement
  move_assign : (this from : Addr) → Statement
  hand_over : (this from : Addr) → Statement
  wait_reset : (wstatus : Addr) → (options : ℤ) → (this : Addr) → Statement
  destroy : (this : Addr) → Statement

module _ (k : Kernel) (b : ProcessBehavior) where
  -- The life of an object ends, and its cell is free.
  unfoldable pub end_of_life : Addr → M (Unit {0})
  end_of_life this = do Process.destroy k b this; put this (pos 0)

  unfoldable pub execute : Statement → M (Unit {0})
  unfolding end_of_life
  execute (fork this) = Process.fork k this
  execute (forkinit this) = end_of_life this >> Process.forkinit k this
  execute (kill sig this) = Process.kill k sig this
  execute (move_construct this from apart) = end_of_life this >> Process.move_construct this from
  execute (move_assign this from) = Process.move_assign k b this from
  execute (hand_over this from) = do
    has ← Process.valid this
    when (not has) (do pid ← Process.reset (pos 0) from; Process.reset pid this; pure tt)
  execute (wait_reset wstatus options this) = do
    Process.wait_with k wstatus options (λ _. pure tt) this
    Process.reset (pos 0) this
    pure tt
  execute (destroy this) = end_of_life this
