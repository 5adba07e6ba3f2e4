-- ===== src/Sys/ClosingDescriptor/Laws.antt =====
-- What the destructor and the move assignment of a closing descriptor do, on every branch.
use metasys.Base.{
  ◌≡◌, refl, ◌≢◌, true, false, not, ◌&&◌, ◌∷◌, arith, if◌then◌else◌, minus_one, is_neg, ◌==ℤ◌,
  ==ℤ_iff, ==ℤ_refl,
}
use metasys.Machine.{Addr, Kernel, Call, and_then, ◌>>◌, update, Machine, done}
use metasys.Sys.FileDescriptor
use metasys.Sys.FileDescriptor.{is_valid_fd}
use metasys.Sys.FileDescriptor.Laws.{released}
use metasys.Sys.ClosingDescriptor.{destroy, move_assign, construct, lvalue}
use metasys.Ownership.{is_open}

-- What `other` held goes to `this`, and `other` is left empty.
abbrev pub handed_over : (this other : Addr) → Machine → Machine
handed_over this other s = record s {
  mem = update (update s.mem other minus_one) this (s.mem other);
}

module _ (k : Kernel) where
  -- The destructor closes a valid descriptor exactly once, ignores the result of close(2) and leaves
  -- the object empty; on an object without a descriptor it does nothing. It never throws.
  pub destroy_closing_lem :
      (this : Addr) (s : Machine)
      → destroy k this s ≡ done tt (if is_valid_fd (s.mem this) then released k this s else s)
  unfolding destroy
  destroy_closing_lem this s = ground arith

  -- A move assignment closes the old descriptor first, but not where there is none or where both
  -- objects hold the same one, and then hands the descriptor over. If that close(2) reports an error,
  -- the outcome is that of `closethrow`, and nothing is handed over.
  move_assign_closing_lem :
      (this other : Addr) (s : Machine)
      → move_assign k this other s ≡ (
          if is_valid_fd (s.mem this) && not (s.mem other ==ℤ s.mem this)
          then (if is_neg (k s.trace (Call.close (s.mem this))).ret
              then FileDescriptor.closethrow (released k this s)
              else done tt (handed_over this other (released k this s)))
          else done tt (handed_over this other s))
  unfolding move_assign
  move_assign_closing_lem this other s = ground arith

  -- A descriptor assigned to itself is kept, and not closed.
  pub move_assign_closing_self :
      (this a : Addr) (s : Machine)
      → (t : Machine) × (move_assign k this this s ≡ done tt t)
        × (t.mem a ≡ s.mem a)
        × (t.trace ≡ s.trace)
  unfolding move_assign
  move_assign_closing_self this a s = (
    handed_over this this s,
    ground (arith, ==ℤ_iff (s.mem this) (s.mem this)),
    ground arith,
    refl,
  )

  -- A closing descriptor that is built from an lvalue of another shares its descriptor. The two
  -- destructors then close the same number, which is no longer open at the second close(2). The two
  -- objects are not one, and the descriptor is valid.
  pub destroy-construct_lvalue :
      (this other : Addr) (s : Machine)
      → this ≢ other
      → is_valid_fd (s.mem other) ≡ true
      → let c = Call.close (s.mem other) in
        let h = (c, k s.trace c) ∷ s.trace in
        (t : Machine) × (and_then
            (construct (lvalue other) this s)
            (λ _. destroy k other >> destroy k this)
          ≡ done tt t)
        × (t.trace ≡ (c, k h c) ∷ h)
        × (is_open h (s.mem other) ≡ false)
  unfolding construct destroy is_open
  destroy-construct_lvalue this other s apart valid =
      let c = Call.close (s.mem other) in
      let t = record s { mem = update s.mem this (s.mem other) } in
      (
        released k this (released k other t),
        ground (arith, valid, apart),
        ground (arith, apart),
        ground (arith, ==ℤ_refl (s.mem other)),
      )
