-- ===== src/Machine/State.antt =====
-- State and outcomes. Each wrapper object keeps its handle in a cell of `mem`, at the address of
-- the object, so two references to one object are one address.
use metasys.Base.{ℕ, ◌+◌, Bool, List, [], ◌∷◌, ◌==◌, if◌then◌else◌, ℤ}
use metasys.Machine.Calls.{Addr, Call, Reply, History, Kernel}

pub record Machine : Type 0 where
  pub mem : Addr → ℤ
  pub errno : ℕ
  pub trace : History

pub data Exception : Type 0 where
  errno_exception : ℕ → Exception
  resolve_exception : ℤ → Exception

-- Why the process ended: a failed `assert`, `abort()`, or `std::terminate()`.
pub data Cause : Type 0 where
  assertion aborted terminated : Cause

pub data Outcome (A : Type 0) : Type 0 where
  done : A → Machine → Outcome A
  thrown : Exception → Machine → Outcome A
  stopped : Cause → Machine → Outcome A
  out_of_fuel : Machine → Outcome A

-- A C++ function body.
abbrev pub M : Type 0 → Type 0
M A = Machine → Outcome A

abbrev pub pure : {A : Type 0} → A → M A
pure = done

module _ {A B : Type 0} where
  abbrev pub and_then : Outcome A → (A → M B) → Outcome B
  and_then (done a s) f = f a s
  and_then (thrown e s) f = thrown e s
  and_then (stopped c s) f = stopped c s
  and_then (out_of_fuel s) f = out_of_fuel s

  infixl 5 ◌>>=◌ ◌>>◌
  abbrev pub ◌>>=◌ : M A → (A → M B) → M B
  m >>= f = λ s. and_then (m s) f

  abbrev pub ◌>>◌ : M A → M B → M B
  m >> n = m >>= λ _. n

module _ {A : Type 0} where
  -- An exception leaves a `noexcept` function by `std::terminate()`.
  abbrev pub ended : Outcome A → Outcome A
  ended (thrown e s) = stopped terminated s
  ended r = r

  abbrev pub noexcept : M A → M A
  noexcept m s = ended (m s)

  -- Stack unwinding: an exception that leaves the scope of an object runs the destructor first.
  abbrev pub unwound : M (Unit {0}) → Outcome A → Outcome A
  unwound destroy (thrown e s) = and_then (destroy s) λ _. thrown e
  unwound destroy r = r

  abbrev pub owning : M (Unit {0}) → M A → M A
  owning destroy m s = unwound destroy (m s)

  -- A local object with a destructor: it runs however the scope is left.
  abbrev pub scope_left : M (Unit {0}) → Outcome A → Outcome A
  scope_left destroy (done a s) = and_then (destroy s) λ _. done a
  scope_left destroy (thrown e s) = and_then (destroy s) λ _. thrown e
  scope_left destroy r = r

  abbrev pub scoped : M (Unit {0}) → M A → M A
  scoped destroy m s = scope_left destroy (m s)

  abbrev pub throw : Exception → M A
  throw = thrown

  abbrev pub stop : Cause → M A
  stop = stopped

abbrev pub when : Bool → M (Unit {0}) → M (Unit {0})
when b m = if b then m else pure tt

abbrev pub assert : Bool → M (Unit {0})
assert b = if b then pure tt else stop assertion

abbrev pub update : (Addr → ℤ) → Addr → ℤ → Addr → ℤ
update f p v q = if q == p then v else f q

abbrev pub get : Addr → M ℤ
get p s = done (s.mem p) s

abbrev pub put : Addr → ℤ → M (Unit {0})
put p v s = done tt (record s { mem = update s.mem p v })

-- A call of the C library, with the reply of the kernel.
abbrev pub after : Machine → Call → Reply → Machine
after s c r = record s { errno = r.errno; trace = (c, r) ∷ s.trace }

abbrev pub syscall : Kernel → Call → M Reply
syscall k c s = done (k s.trace c) (after s c (k s.trace c))

abbrev pub call : Kernel → Call → M ℤ
call k c s = done ((k s.trace c).ret) (after s c (k s.trace c))

-- What the call wrote through a pointer to the two cells at `p`; no values, nothing written.
abbrev pub store_out : Addr → List ℤ → M (Unit {0})
store_out p [] = pure tt
store_out p (v ∷ []) = put p v
store_out p (v ∷ w ∷ _) = put p v >> put (p + 1) w
