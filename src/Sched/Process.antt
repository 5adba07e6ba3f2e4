-- ===== src/Sched/Process.antt =====
-- include/metasys/sched/Process.hxx and ProcessBehavior.hxx: `_pid` of the object at `this` is the
-- cell `this`. The calls are those of one process, the parent's or the child's side of a fork.
pub mod Laws
use metasys.Base.{Bool, true, false, not, [], ◌∷◌, is_neg, is_positive, ◌==ℤ◌, ℤ, pos}
use metasys.Machine.{
  Addr, Kernel, Call, errno_not_in, M, pure, ◌>>=◌, ◌>>◌, noexcept, when, assert, get, put, call,
  echild, einval,
}
use metasys.Sys.SystemException.{throw_errno}

pub record ProcessBehavior : Type 0 where
  pub capture_stdin : Bool
  pub capture_stdout : Bool
  pub capture_stderr : Bool
  pub signal_on_destroy : ℤ
  pub wait_on_destroy : Bool

-- SIGTERM of <csignal>.
abbrev pub sigterm : ℤ
sigterm = pos 15

abbrev pub behavior_default : ProcessBehavior
behavior_default = record {
  capture_stdin = false;
  capture_stdout = false;
  capture_stderr = false;
  signal_on_destroy = pos 0;
  wait_on_destroy = false;
}

abbrev pub behavior_subprocess : ProcessBehavior
behavior_subprocess = record behavior_default {
  signal_on_destroy = sigterm;
  wait_on_destroy = true;
}

abbrev pub behavior_command : ProcessBehavior
behavior_command = record behavior_subprocess { capture_stdout = true }

abbrev pub behavior_piped : ProcessBehavior
behavior_piped = record behavior_subprocess { capture_stdin = true }

abbrev pub behavior_service : ProcessBehavior
behavior_service = record behavior_subprocess {
  capture_stdin = true;
  capture_stdout = true;
  capture_stderr = true;
}

-- `Process()`
unfoldable pub construct : Addr → M (Unit {0})
construct this = put this (pos 0)

-- `Process(pid_t pid)`
unfoldable pub construct_from : ℤ → Addr → M (Unit {0})
construct_from pid this = put this pid

-- `Process(Process &&other)`
unfoldable pub move_construct : (this other : Addr) → M (Unit {0})
move_construct this other = do pid ← get other; put this pid; put other (pos 0)

unfoldable pub pid : Addr → M ℤ
pid this = get this

unfoldable pub valid : Addr → M Bool
valid this = do p ← get this; pure (is_positive p)

-- `reset(pid_t pid)`
unfoldable pub reset : ℤ → Addr → M ℤ
reset p this = do ret ← get this; put this p; pure ret

unfoldable pub throwfork : {A : Type 0} → M A
unfolding throw_errno
throwfork = throw_errno

unfoldable pub throwwait : {A : Type 0} → M A
unfolding throw_errno
throwwait = errno_not_in (echild ∷ einval ∷ []) >> throw_errno

unfoldable pub throwkill : {A : Type 0} → M A
unfolding throw_errno
throwkill = errno_not_in (einval ∷ []) >> throw_errno

module _ (k : Kernel) where
  unfoldable pub fork_with : {B : Type 0} → (ℤ → M B) → Addr → M B
  unfolding valid
  fork_with handler this = do
    ok ← valid this
    assert (not ok)
    ret ← call k Call.fork
    put this ret
    p ← get this
    handler p

  unfoldable pub fork : Addr → M (Unit {0})
  unfolding fork_with throwfork
  fork this = fork_with (λ ret. when (is_neg ret) throwfork) this

  -- `forkinit(handler)`, with the result at `this`
  unfoldable pub forkinit_with : {B : Type 0} → (ℤ → M B) → Addr → M (Unit {0})
  unfolding construct_from
  forkinit_with handler this = do p ← call k Call.fork; handler p; construct_from p this

  unfoldable pub forkinit : Addr → M (Unit {0})
  unfolding forkinit_with throwfork
  forkinit this = forkinit_with (λ ret. when (is_neg ret) throwfork) this

  -- `wait(wstatus, options, handler)`; the shorter forms pass `nullptr` and 0.
  unfoldable pub wait_with : {B : Type 0} → Addr → ℤ → (ℤ → M B) → Addr → M B
  unfolding valid
  wait_with wstatus options handler this = do
    ok ← valid this
    assert ok
    p ← get this
    ret ← call k (Call.waitpid p wstatus options)
    handler ret

  unfoldable pub wait : Addr → ℤ → Addr → M (Unit {0})
  unfolding wait_with throwwait
  wait wstatus options this = wait_with wstatus options (λ ret. when (is_neg ret) throwwait) this

  unfoldable pub kill_with : {B : Type 0} → ℤ → (ℤ → M B) → Addr → M B
  unfolding valid
  kill_with sig handler this = do
    ok ← valid this
    assert ok
    p ← get this
    ret ← call k (Call.kill p sig)
    handler ret

  unfoldable pub kill : ℤ → Addr → M (Unit {0})
  unfolding kill_with throwkill
  kill sig this = kill_with sig (λ ret. when (is_neg ret) throwkill) this

  module _ (behavior : ProcessBehavior) where
    -- `_stop()`
    unfoldable pub stop_process : Addr → M (Unit {0})
    unfolding valid kill_with wait_with
    stop_process this = noexcept (do
      ok ← valid this
      assert ok
      when (not (behavior.signal_on_destroy ==ℤ pos 0))
          (kill_with behavior.signal_on_destroy (λ _. pure tt) this)
      when behavior.wait_on_destroy (wait_with 0 (pos 0) (λ _. pure tt) this))

    -- `~Process()`
    unfoldable pub destroy : Addr → M (Unit {0})
    unfolding valid stop_process
    destroy this = noexcept (do ok ← valid this; when ok (stop_process this))

    -- `operator=(Process &&other)`
    unfoldable pub move_assign : (this other : Addr) → M (Unit {0})
    unfolding valid stop_process
    move_assign this other = noexcept (do
      ok ← valid this
      when ok
          (do ours ← get this; theirs ← get other; when (not (ours ==ℤ theirs)) (stop_process this))
      tmp ← get other
      put other (pos 0)
      put this tmp)
