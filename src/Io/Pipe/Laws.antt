-- ===== src/Io/Pipe/Laws.antt =====
-- The life of a pipe: opening, destruction, moving and splitting.
use metasys.Base.{
  ◌+◌, ◌≡◌, refl, sym, ap, ◌∙◌, ◌≢◌, true, false, [], ◌∷◌, arith, ◌==◌, if◌then◌else◌, elem,
  minus_one, is_neg, ==ℤ_refl, ==ℤ_false, ℤ,
}
use metasys.Machine.{
  Addr, Kernel, Call, and_then, unwound, update, after, Machine, errno_exception, done, thrown,
  ebadf, efault,
}
use metasys.Sys.SystemException.{cases}
use metasys.Sys.SystemException.Laws.{checked_throw_lem}
use metasys.Sys.FileDescriptor.{is_valid_fd, closethrow}
use metasys.Io.Pipe.{destroy, move_assign, openinit, rmove, throwopen}

throwopen_lem :
    {A : Type 0} (s : Machine)
    → (s.errno == efault) ≡ false
    → elem s.errno cases ≡ true
    → throwopen {A = A} s ≡ thrown (errno_exception s.errno) s
unfolding throwopen
throwopen_lem s named listed = checked_throw_lem (efault ∷ []) s (ground arith) listed

closethrow_lem :
    {A : Type 0} (s : Machine)
    → (s.errno == ebadf) ≡ false
    → elem s.errno cases ≡ true
    → closethrow {A = A} s ≡ thrown (errno_exception s.errno) s
unfolding closethrow
closethrow_lem s named listed = checked_throw_lem (ebadf ∷ []) s (ground arith) listed

-- One close(2), of a descriptor that no object cell is changed for.
abbrev pub close_fd : Kernel → ℤ → Machine → Machine
close_fd k fd s = if is_valid_fd fd then after s (Call.close fd) (k s.trace (Call.close fd)) else s

-- The four cells after the ends of `other` have gone to `this`.
abbrev pub handed_over : (this other : Addr) → Machine → Machine
handed_over this other s =
    let m = update s.mem this (s.mem other) in
    let m' = update m (this + 1) (m (other + 1)) in
    record s { mem = update (update m' other minus_one) (other + 1) minus_one }

module _ (k : Kernel) where
  -- The destructor closes the read end and then the write end, each if it is valid, and nothing else.
  pub destroy_pipe_lem :
      (this : Addr) (s : Machine)
      → destroy k this s ≡ done tt (close_fd k (s.mem (this + 1)) (close_fd k (s.mem this) s))
  unfolding destroy
  destroy_pipe_lem this s = ground arith

  -- A pipe with two different valid descriptors that is assigned to itself loses both, and closes
  -- neither: they leak.
  pub move_assign_pipe_self :
      (this : Addr) (s : Machine)
      → is_valid_fd (s.mem this) ≡ true
      → is_valid_fd (s.mem (this + 1)) ≡ true
      → s.mem this ≢ s.mem (this + 1)
      → (t : Machine) × (move_assign k this this s ≡ done tt t)
        × (t.trace ≡ s.trace)
        × (t.mem this ≡ minus_one)
        × (t.mem (this + 1) ≡ minus_one)
  unfolding move_assign
  move_assign_pipe_self this s r w apart =
      let held : is_neg (s.mem this) ≡ false = ground arith in
      let held' : is_neg (s.mem (this + 1)) ≡ false = ground arith in
      let same = ==ℤ_refl (s.mem this) in
      let same' = ==ℤ_refl (s.mem (this + 1)) in
      let differ = ==ℤ_false (s.mem this) (s.mem (this + 1)) apart in
      let differ' = ==ℤ_false (s.mem (this + 1)) (s.mem this) (λ e. apart (sym e)) in
      (
        handed_over this this s,
        rw (held, differ, same, held', differ', same'),
        refl,
        ground arith,
        ground arith,
      )

  -- Splitting a pipe: the read end goes to a `Reader` in another place, and the destructor of the
  -- pipe then closes the write end alone, if it is valid.
  pub destroy-rmove :
      (this dest : Addr) (s : Machine)
      → dest ≢ this
      → dest ≢ this + 1
      → and_then (rmove this dest s) (λ _. destroy k this)
        ≡ done tt (
            close_fd k
              (s.mem (this + 1))
              (record s { mem = update (update s.mem this minus_one) dest (s.mem this) }))
  unfolding destroy rmove
  destroy-rmove this dest s ne ne' = ground arith

  -- `openinit` where pipe2(2) fails, with an error number that `throwErrno` names and not EFAULT,
  -- and so writes no descriptors. The exception of the error number leaves; but on the way out the
  -- destructor of the pipe, whose cells were never initialised, closes what numbers they happen to
  -- hold, if these look valid.
  pub openinit-failed :
      (flags : ℤ) (this : Addr) (s : Machine)
      → let r = k s.trace (Call.pipe2 flags) in
        let s' = after s (Call.pipe2 flags) r in
        r.out ≡ []
        → r.ret ≡ minus_one
        → (r.errno == efault) ≡ false
        → elem r.errno cases ≡ true
        → openinit k (Call.pipe2 flags) this s
          ≡ thrown
              (errno_exception r.errno)
              (close_fd k (s.mem (this + 1)) (close_fd k (s.mem this) s'))
  unfolding openinit
  openinit-failed flags this s silent failed named listed =
      let r = k s.trace (Call.pipe2 flags) in
      let s' = after s (Call.pipe2 flags) r in
      let e = errno_exception r.errno in
      let opened : openinit k (Call.pipe2 flags) this s ≡ unwound (destroy k this) (throwopen s') =
        rw (silent, failed) in
      opened
      ∙ ap (unwound (destroy k this)) (throwopen_lem s' named listed)
      ∙ ap (λ o. and_then {B = Unit {0}} o (λ _. thrown e)) (destroy_pipe_lem this s')

  -- A move assignment whose close(2) of the old read end fails, with an error number that
  -- `throwErrno` names and not EBADF, throws before it writes to the object: the object still holds
  -- the descriptor that was just closed, and the destructor closes the same number again.
  pub move_assign_pipe-failed :
      (this from : Addr) (s : Machine)
      → let r = k s.trace (Call.close (s.mem this)) in
        let s' = after s (Call.close (s.mem this)) r in
        is_valid_fd (s.mem this) ≡ true
        → s.mem this ≢ s.mem from
        → s.mem this ≢ s.mem (from + 1)
        → is_neg r.ret ≡ true
        → (r.errno == ebadf) ≡ false
        → elem r.errno cases ≡ true
        → (move_assign k this from s ≡ thrown (errno_exception r.errno) s')
          × (destroy k this s'
              ≡ done tt (close_fd k (s.mem (this + 1)) (close_fd k (s.mem this) s')))
  unfolding move_assign
  move_assign_pipe-failed this from s valid differ differ' failed named listed =
      let r = k s.trace (Call.close (s.mem this)) in
      let s' = after s (Call.close (s.mem this)) r in
      let held : is_neg (s.mem this) ≡ false = ground arith in
      (
        rw
            (
              held,
              ==ℤ_false (s.mem this) (s.mem from) differ,
              ==ℤ_false (s.mem this) (s.mem (from + 1)) differ',
              failed,
            )
            (rw (closethrow_lem s' named listed) refl),
        destroy_pipe_lem this s',
      )
