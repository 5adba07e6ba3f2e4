-- ===== src/Ownership/Library/Pipes.antt =====
-- Pipes: include/metasys/io/Pipe.hxx. Both cells of a pipe own a descriptor each.
use metasys.Base.{
  ◌+◌, ◌≡◌, refl, ◌∙◌, ◌≢◌, inl, inr, true, false, not, ◌&&◌, none, [], ◌∷◌, arith, Bool-cases,
  elem, minus_one, is_neg, ◌==ℤ◌, ℤ, pos,
}
use metasys.Machine.{
  Addr, Kernel, Call, M, ◌>>=◌, ◌>>◌, when, update, put, syscall, store_out, Machine, Outcome, done,
  thrown, stopped, out_of_fuel, efault,
}
use metasys.Io.Pipe
use metasys.Io.Pipe.{throwopen}
use metasys.Io.Pipe.Laws.{destroy_pipe_lem, close_fd}
use metasys.Sys.SystemException.{cases, throw_errno}
use metasys.Sys.SystemException.Laws.{throw_errno_of_lem}
use metasys.Ownership.{has_made, IsClean, opens, closes, pairs, IsPiping, IsOwned}
use metasys.Ownership.Rules.{Post}
use metasys.Ownership.Steps.{
  is_open-nonneg, IsOwned-benign, IsOwned-close, IsOwned-move, IsOwned-pair,
}
use metasys.Ownership.Library.Opening.{Fills}
use metasys.Ownership.Library.Closing.{IsEmpty, Keeps}

-- Neither end of the pipe.
abbrev pub IsEmptyPipe : Addr → Machine → Type 0
IsEmptyPipe this s = IsEmpty this s × IsEmpty (this + 1) s

-- The end of an object's life: what its storage holds is no descriptor of anyone.
abbrev pub discard : Addr → M (Unit {0})
discard this = put this minus_one >> put (this + 1) minus_one

-- Two pipes that do not overlap.
abbrev pub IsApart : Addr → Addr → Type 0
IsApart this from = (this ≢ from) × (this + 1 ≢ from) × (from + 1 ≢ this)

-- Only the contents of the cells matter.
pub IsOwned-ext :
    (s : Machine) (m m' : Addr → ℤ)
    → ((q : Addr) → m q ≡ m' q)
    → IsOwned (record s { mem = m })
    → IsOwned (record s { mem = m' })
IsOwned-ext s m m' same v = let e : m ≡ m' = λ i q. same q i in rw e at v

IsOwned-clear :
    (s : Machine) (this : Addr)
    → IsOwned s
    → IsEmpty this s
    → IsOwned (record s { mem = update s.mem this minus_one })
IsOwned-clear s this v e = record {
  sole = λ a b. ground (arith, v.sole a b);
  live = λ a p. ground (arith, v.live a);
  kept = λ fd p. let (a, h) = v.kept fd p in (a, ground (arith, is_open-nonneg s.trace fd p));
  clean = v.clean;
}

module _ (k : Kernel) where
  -- One end is closed and its cell is cleared.
  IsOwned-end :
      (s : Machine) (this : Addr)
      → IsOwned s
      → IsOwned (record (close_fd k (s.mem this) s) { mem = update s.mem this minus_one })
  IsOwned-end s this v = elim (Bool-cases (is_neg (s.mem this))) [
    | inl none_held ↦ rw none_held (IsOwned-clear s this v none_held)
    | inr held ↦ rw held (IsOwned-close s v this (k s.trace (Call.close (s.mem this))) held)
  ]

  close_fd-mem : (fd : ℤ) (s : Machine) → (close_fd k fd s).mem ≡ s.mem
  close_fd-mem fd s = elim (Bool-cases (is_neg fd)) [
    | inl bad ↦ rw bad refl
    | inr good ↦ rw good refl
  ]

  close_fd-record :
      (fd : ℤ) (s : Machine) (m : Addr → ℤ)
      → close_fd k fd (record s { mem = m }) ≡ record (close_fd k fd s) { mem = m }
  close_fd-record fd s m = elim (Bool-cases (is_neg fd)) [
    | inl bad ↦ rw bad refl
    | inr good ↦ rw good refl
  ]

  pub destroy_pipe-Empties :
      (this : Addr) (s : Machine)
      → IsOwned s
      → Post (λ _ s'. IsOwned s' × IsEmptyPipe this s') ((do Pipe.destroy k this; discard this) s)
  destroy_pipe-Empties this s v =
      let r = s.mem this in
      let w = s.mem (this + 1) in
      let m = update s.mem this minus_one in
      let t = close_fd k r s in
      let x = close_fd k w t in
      let apart : update s.mem this minus_one (this + 1) ≡ w = ground arith in
      let kept_cells : x.mem ≡ s.mem = close_fd-mem w t ∙ close_fd-mem r s in
      let both = IsOwned-end (record t { mem = m }) (this + 1) (IsOwned-end s this v) in
      let owned : IsOwned (record x { mem = update m (this + 1) minus_one }) =
        rw (apart, close_fd-record w t m) at (both) in
      rw (destroy_pipe_lem k this s, kept_cells) (owned, (ground arith, ground arith))

  -- Everything is owned at the end, and where it ends by an exception the pipe is still empty.
  abbrev Settles : Addr → Outcome (Unit {0}) → Type 0
  Settles this (done a s) = IsOwned s
  Settles this (thrown e s) = IsOwned s × IsEmptyPipe this s
  Settles this (stopped c s) = IsClean s.trace
  Settles this (out_of_fuel s) = IsOwned s

  Settles-Post : (this : Addr) (o : Outcome (Unit {0})) → Settles this o → Post (λ _. IsOwned) o
  Settles-Post this (done a s) p = p
  Settles-Post this (thrown e s) p = p.0
  Settles-Post this (stopped c s) p = p
  Settles-Post this (out_of_fuel s) p = p

  throwopen-Settles :
      (this : Addr) (s : Machine) → IsOwned s → IsEmptyPipe this s → Settles this (throwopen s)
  unfolding throwopen throw_errno
  throwopen-Settles this s v e = elim (Bool-cases (elem s.errno (efault ∷ []))) [
    | inl refused ↦ rw refused v.clean
    | inr free ↦
        rw (free, throw_errno_of_lem {A = Unit {0}} s.errno s)
          (elim (Bool-cases (elem s.errno cases)) [
            | inl listed ↦ rw listed (v, e)
            | inr unlisted ↦ rw unlisted v.clean
          ])
  ]

  module _ (piping : IsPiping k) (c : Call) (is_pair : pairs c ≡ true) (n : closes c ≡ none)
      (o : opens c ≡ false) (this : Addr) where
    -- The call, what it stores, and the usual handler.
    made-Settles :
        (s : Machine)
        → IsOwned s
        → IsEmptyPipe this s
        → Settles this (
            (do
              reply ← syscall k c
              store_out this reply.out
              when (not (reply.ret ==ℤ pos 0)) throwopen)
              s)
    made-Settles s v (er, ew) =
        let r = k s.trace c in
        elim (Bool-cases (r.ret ==ℤ pos 0)) [
          | inl went ↦
              let (a, b, stored, new) = piping.success s.trace c is_pair went in
              let two : (pairs c && (r.ret ==ℤ pos 0)) ≡ true = rw (is_pair, went) refl in
              simp (went, stored) (IsOwned-pair s v this c r a b er ew n o two stored new)
          | inr failed ↦
              let none_made : has_made c r ≡ false = rw (o, is_pair, failed) refl in
              simp (failed, piping.failure s.trace c is_pair failed)
                (throwopen-Settles this _ (IsOwned-benign s v c r none_made n) (er, ew))
        ]

    pub open_pipe-Keeps : Keeps (Pipe.open_pipe k c this)
    unfolding Pipe.open_pipe
    open_pipe-Keeps s v = elim (Bool-cases (is_neg (s.mem this))) [
      | inl er ↦ elim (Bool-cases (is_neg (s.mem (this + 1)))) [
        | inl ew ↦ rw (er, ew) (Settles-Post this _ (made-Settles s v (er, ew)))
        | inr used ↦ rw (er, used) v.clean
      ]
      | inr used ↦ rw used v.clean
    ]

  pub construct_pipe-Fills :
      (this : Addr) (s : Machine)
      → IsOwned s
      → IsEmptyPipe this s
      → Post (λ _. IsOwned) (Pipe.construct this s)
  unfolding Pipe.construct
  construct_pipe-Fills this s v (er, ew) =
      IsOwned-clear (record s { mem = update s.mem this minus_one }) (this + 1)
        (IsOwned-clear s this v er) (ground arith)

  -- The read end of a pipe goes to a `Reader`, or the write end to a `Writer`, in a new object.
  pub rmove-Fills : (this dest : Addr) → Fills dest (Pipe.rmove this dest)
  unfolding Pipe.rmove
  rmove-Fills this dest s v e = IsOwned-move s v dest this (inl e)

  pub wmove-Fills : (this dest : Addr) → Fills dest (Pipe.wmove this dest)
  unfolding Pipe.wmove
  wmove-Fills this dest s v e = IsOwned-move s v dest (this + 1) (inl e)

  -- Both ends go to a new pipe that does not overlap the old one.
  pub move_construct_pipe-Fills :
      (this from : Addr) (s : Machine)
      → IsApart this from
      → IsOwned s
      → IsEmptyPipe this s
      → Post (λ _. IsOwned) (Pipe.move_construct this from s)
  unfolding Pipe.move_construct
  move_construct_pipe-Fills this from s (x, y, z) v (er, ew) =
      let s1 = record s { mem = update (update s.mem from minus_one) this (s.mem from) } in
      let v1 : IsOwned s1 = IsOwned-move s v this from (inl er) in
      let still : is_neg (s1.mem (this + 1)) ≡ true = ground arith in
      IsOwned-ext s _ _ (λ q. ground arith) (IsOwned-move s1 v1 (this + 1) (from + 1) (inl still))
