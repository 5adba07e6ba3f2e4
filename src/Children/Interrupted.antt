-- ===== src/Children/Interrupted.antt =====
-- include/metasys/sched/Process.hxx, `_stop()`: a waitpid(2) that reaps nothing.
use metasys.Base.{
  ◌≡◌, refl, ◌∙◌, inl, inr, true, false, ◌∷◌, arith, Bool-cases, is_positive, ◌==ℤ◌, ℤ, pos,
}
use metasys.Machine.{Addr, History, Kernel, Call, Reply, Machine, done}
use metasys.Sched.Process.{ProcessBehavior, destroy}
use metasys.Sched.Process.Laws.{signalled, waited, destroy_process_lem, signalled_mem}
use metasys.Handles.{is_live}
use metasys.Children.{is_child}

-- A signal reaps nobody.
is_child-signalled :
    (k : Kernel) (b : ProcessBehavior) (this : Addr) (s : Machine) (pid : ℤ)
    → is_child (signalled k b this s).trace pid ≡ is_child s.trace pid
unfolding is_live
is_child-signalled k b this s pid = elim (Bool-cases (b.signal_on_destroy ==ℤ pos 0)) [
  | inl silent ↦ rw silent refl
  | inr sends ↦ rw sends (ground arith)
]

-- Nor does a waitpid(2) that returns no process id.
is_child-waitpid :
    (h : History) (r : Reply) (a pid : ℤ)
    → is_positive r.ret ≡ false
    → is_child ((Call.waitpid a 0 (pos 0), r) ∷ h) pid ≡ is_child h pid
unfolding is_live
is_child-waitpid h r a pid failed = ground (arith, failed)

-- The destructor of an object with a child and a behaviour that waits, where waitpid(2) returns no
-- process id, as when a signal interrupts it, returns all the same, and every child that was there
-- to be reaped is still there.
pub destroy-interrupted :
    (k : Kernel) (b : ProcessBehavior) (this : Addr) (s : Machine) (pid : ℤ)
    → b.wait_on_destroy ≡ true
    → is_positive (s.mem this) ≡ true
    → is_positive (k (signalled k b this s).trace (Call.waitpid (s.mem this) 0 (pos 0))).ret ≡ false
    → (t : Machine) × (destroy k b this s ≡ done tt t)
      × (is_child t.trace pid ≡ is_child s.trace pid)
destroy-interrupted k b this s pid waits has failed =
    let u = signalled k b this s in
    (
      waited k b this u,
      destroy_process_lem k b this s ∙ rw has refl,
      rw waits (
          rw (signalled_mem k b this s) (
            is_child-waitpid u.trace (k u.trace (Call.waitpid (s.mem this) 0 (pos 0))) (s.mem this)
              pid failed
            ∙ is_child-signalled k b this s pid)),
    )
