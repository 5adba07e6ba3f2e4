-- ===== src/Sched/Process/Laws.antt =====
-- Forking, destroying and assigning processes.
use metasys.Base.{
  ◌≡◌, refl, ◌∙◌, inl, inr, true, false, not, ◌&&◌, arith, if◌then◌else◌, Bool-cases, is_neg,
  is_positive, ◌==ℤ◌, ==ℤ_refl, is_positive_lem, ℤ, pos,
}
use metasys.Machine.{Addr, Kernel, Call, and_then, update, after, Machine, done}
use metasys.Sched.Process.{ProcessBehavior, destroy, move_assign, stop_process, fork, wait}

module _ (k : Kernel) where
  abbrev pub signalled : ProcessBehavior → Addr → Machine → Machine
  signalled b this s =
      let c = Call.kill (s.mem this) b.signal_on_destroy in
      if b.signal_on_destroy ==ℤ pos 0 then s else after s c (k s.trace c)

  abbrev pub waited : ProcessBehavior → Addr → Machine → Machine
  waited b this s =
      let c = Call.waitpid (s.mem this) 0 (pos 0) in
      if b.wait_on_destroy then after s c (k s.trace c) else s

  pub signalled_mem :
      (b : ProcessBehavior) (this : Addr) (s : Machine) → (signalled b this s).mem ≡ s.mem
  signalled_mem b this s = elim (Bool-cases (b.signal_on_destroy ==ℤ pos 0)) [
    | inl silent ↦ rw silent refl
    | inr sends ↦ rw sends refl
  ]

  pub stopped_mem :
      (b : ProcessBehavior) (this : Addr) (s : Machine)
      → (waited b this (signalled b this s)).mem ≡ s.mem
  stopped_mem b this s = elim (Bool-cases b.wait_on_destroy) [
    | inl waits ↦ rw waits (signalled_mem b this s)
    | inr goes ↦ rw goes (signalled_mem b this s)
  ]

  stop_process_lem :
      (b : ProcessBehavior) (this : Addr) (s : Machine)
      → is_positive (s.mem this) ≡ true
      → stop_process k b this s ≡ done tt (waited b this (signalled b this s))
  unfolding stop_process
  stop_process_lem b this s held = elim (Bool-cases (b.signal_on_destroy ==ℤ pos 0)) [
    | inl silent ↦ elim (Bool-cases b.wait_on_destroy) [
      | inl waits ↦ rw (held, silent, waits) (rw held refl)
      | inr goes ↦ rw (held, silent, goes) refl
    ]
    | inr sends ↦ elim (Bool-cases b.wait_on_destroy) [
      | inl waits ↦ rw (held, sends) (rw held (rw waits (rw held refl)))
      | inr goes ↦ rw (held, sends) (rw held (rw goes refl))
    ]
  ]

  -- The destructor of an object with a child signals the child, if the behaviour names a signal, and
  -- then waits for it, if the behaviour says so, each exactly once and whatever the calls report; it
  -- does nothing on an object without a child. It never stops the process and never throws.
  pub destroy_process_lem :
      (b : ProcessBehavior) (this : Addr) (s : Machine)
      → destroy k b this s
        ≡ done tt (if is_positive (s.mem this) then waited b this (signalled b this s) else s)
  unfolding destroy
  destroy_process_lem b this s = elim (Bool-cases (is_positive (s.mem this))) [
    | inl held ↦ rw (held, stop_process_lem b this s held) refl
    | inr empty ↦ rw empty refl
  ]

  -- A move assignment stops the old child, as the destructor would, where there is one and both
  -- objects do not hold the same, and then hands the child of `other` over. It never stops the
  -- process and never throws.
  pub move_assign_process_lem :
      (b : ProcessBehavior) (this other : Addr) (s : Machine)
      → let t = waited b this (signalled b this s) in
        let t' = if is_positive (s.mem this) && not (s.mem this ==ℤ s.mem other) then t else s in
        move_assign k b this other s
        ≡ done tt (record t' { mem = update (update s.mem other (pos 0)) this (s.mem other) })
  unfolding move_assign
  move_assign_process_lem b this other s = elim (Bool-cases (is_positive (s.mem this))) [
    | inl held ↦ elim (Bool-cases (s.mem this ==ℤ s.mem other)) [
      | inl same ↦ rw (held, same) refl
      | inr differ ↦
          rw (held, differ, stop_process_lem b this s held) (rw (stopped_mem b this s) refl)
    ]
    | inr empty ↦ rw empty refl
  ]

  -- A process that is assigned to itself keeps its child, which is neither signalled nor waited for.
  pub move_assign_process_self :
      (b : ProcessBehavior) (this a : Addr) (s : Machine)
      → (t : Machine) × (move_assign k b this this s ≡ done tt t)
        × (t.mem a ≡ s.mem a)
        × (t.trace ≡ s.trace)
  unfolding move_assign
  move_assign_process_self b this a s = (
    record s { mem = update (update s.mem this (pos 0)) this (s.mem this) },
    move_assign_process_lem b this this s ∙ rw (==ℤ_refl (s.mem this)) (ground arith),
    ground arith,
    refl,
  )

  -- The destructor after a `fork` that succeeds on an object without a child: the parent stops its
  -- child as the behaviour says; the child, for which fork(2) returned 0, makes no further call.
  pub destroy-fork :
      (b : ProcessBehavior) (this : Addr) (s : Machine)
      → is_positive (s.mem this) ≡ false
      → is_neg (k s.trace Call.fork).ret ≡ false
      → let r = k s.trace Call.fork in
        let s' = record (after s Call.fork r) { mem = update s.mem this r.ret } in
        and_then (fork k this s) (λ _. destroy k b this)
        ≡ done tt (if r.ret ==ℤ pos 0 then s' else waited b this (signalled b this s'))
  unfolding fork
  destroy-fork b this s empty went =
      let r = k s.trace Call.fork in
      let s' = record (after s Call.fork r) { mem = update s.mem this r.ret } in
      let forked : fork k this s ≡ done tt s' = ground (arith, empty, went) in
      rw (forked, destroy_process_lem b this s') (ground (arith, is_positive_lem r.ret went))

  -- A `wait` that succeeds leaves the child in its object: the destructor that follows signals the
  -- same process id again, if the behaviour names a signal, and waits for it again, if the
  -- behaviour says so.
  pub destroy-wait :
      (b : ProcessBehavior) (wstatus this : Addr) (options : ℤ) (s : Machine)
      → let c = Call.waitpid (s.mem this) wstatus options in
        let s' = after s c (k s.trace c) in
        is_positive (s.mem this) ≡ true
        → is_neg (k s.trace c).ret ≡ false
        → and_then (wait k wstatus options this s) (λ _. destroy k b this)
          ≡ done tt (waited b this (signalled b this s'))
  unfolding wait
  destroy-wait b wstatus this options s has went =
      let c = Call.waitpid (s.mem this) wstatus options in
      let s' = after s c (k s.trace c) in
      let returned : wait k wstatus options this s ≡ done tt s' = ground (arith, has, went) in
      rw (returned, destroy_process_lem b this s', has) refl
