-- ===== src/Sys/ClosingDescriptor.antt =====
-- include/metasys/sys/ClosingDescriptor.hxx: a descriptor that is closed with its object.
pub mod Laws
use metasys.Base.{not, minus_one, ◌==ℤ◌, ℤ}
use metasys.Machine.{Addr, Kernel, M, pure, ◌>>=◌, ◌>>◌, noexcept, when}
use metasys.Sys.FileDescriptor

-- What `ClosingInterface(Args && ... args)` may be given: no argument, a number, another descriptor to
-- copy from, which is an lvalue that is not const where it is a closing descriptor itself, or one to
-- move from.
pub data Arguments : Type 0 where
  no_arguments : Arguments
  number : (fd : ℤ) → Arguments
  lvalue rvalue : (other : Addr) → Arguments

-- `ClosingInterface(Args && ... args)` over a `FileDescriptor`, which the arguments are forwarded to.
unfoldable pub construct : Arguments → Addr → M (Unit {0})
unfolding FileDescriptor.construct FileDescriptor.construct_from FileDescriptor.construct_copy
    FileDescriptor.move_construct
construct no_arguments this = FileDescriptor.construct this
construct (number fd) this = FileDescriptor.construct_from fd this
construct (lvalue other) this = FileDescriptor.construct_copy this other
construct (rvalue other) this = FileDescriptor.move_construct this other

module _ (k : Kernel) where
  -- `~ClosingInterface()`
  unfoldable pub destroy : Addr → M (Unit {0})
  unfolding FileDescriptor.valid FileDescriptor.close_with
  destroy this =
      noexcept (do
        ok ← FileDescriptor.valid this
        when ok (FileDescriptor.close_with k (λ _. pure tt) this))

  -- `operator=(ClosingInterface &&other)`
  unfoldable pub move_assign : (this other : Addr) → M (Unit {0})
  unfolding FileDescriptor.valid FileDescriptor.value FileDescriptor.reset FileDescriptor.close
  move_assign this other = do
    ok ← FileDescriptor.valid this
    when ok (do
      theirs ← FileDescriptor.value other
      ours ← FileDescriptor.value this
      when (not (theirs ==ℤ ours)) (FileDescriptor.close k this))
    fd ← FileDescriptor.reset minus_one other
    FileDescriptor.reset fd this
    pure tt
