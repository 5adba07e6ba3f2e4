-- ===== src/Handles/Rules.antt =====
-- Programs over the objects of a resource, and the rules of Sys/Safety for them.
use metasys.Base.{ℕ, ◌≡◌, inl, inr, true, false, List, [], ◌∷◌, arith, Bool-cases, ℤ}
use metasys.Machine.{Addr, errno_not_in, M, and_then, ◌>>◌, Machine, Outcome, done}
use metasys.Sys.SystemException.{throw_errno}
use metasys.Sys.Safety
use metasys.Sys.Safety.{Safe-and_then, Safe-mono, Safe-throw, caught, caught-Safe}
use metasys.Handles.{Resource, is_live, IsClean, IsMatched, IsNew}
use metasys.Handles.Steps.{is_live-real, IsNew-IsMatched}

-- The statements of a list, one after the other, each followed by a handler of every exception.
unfoldable pub run : {S : Type 0} → (execute : S → M (Unit {0})) → List S → M (Unit {0})
unfolding caught
run execute [] s = done tt s
run execute (c ∷ cs) s = and_then (caught (execute c s)) λ _. run execute cs

module _ (x : Resource) where
  -- Only live handles were named up to here.
  abbrev pub Clean : Machine → Type 0
  Clean s = IsClean x s.trace

  abbrev pub Safe : {A : Type 0} → (A → Machine → Type 0) → Outcome A → Type 0
  Safe Q o = Safety.Safe (IsMatched x) Clean Q o

  abbrev pub IsEmpty : Addr → Machine → Type 0
  IsEmpty this s = x.is_none (s.mem this) ≡ true

  abbrev pub Keeps : M (Unit {0}) → Type 0
  Keeps m = (s : Machine) → IsMatched x s → Safe (λ _. IsMatched x) (m s)

  -- After it the object is empty too.
  abbrev pub Empties : Addr → M (Unit {0}) → Type 0
  Empties this m =
      (s : Machine) → IsMatched x s → Safe (λ _ t. IsMatched x t × IsEmpty this t) (m s)

  -- The object must be empty before it.
  abbrev pub Fills : Addr → M (Unit {0}) → Type 0
  Fills this m = (s : Machine) → IsMatched x s → IsEmpty this s → Safe (λ _. IsMatched x) (m s)

  pub Empties-Keeps : (this : Addr) (m : M (Unit {0})) → Empties this m → Keeps m
  Empties-Keeps this m empties s v =
      Safe-mono (IsMatched x) Clean (λ _ t. IsMatched x t × IsEmpty this t) (λ _. IsMatched x) (m s)
        (empties s v) (λ _ t w. w.0)

  -- A new object in the place of an old one, whose life ends first.
  pub Empties-Fills :
      (this : Addr) (end_of_life m : M (Unit {0}))
      → Empties this end_of_life
      → Fills this m
      → Keeps (end_of_life >> m)
  Empties-Fills this end_of_life m empties fills s v =
      Safe-and_then (IsMatched x) Clean (λ _ t. IsMatched x t × IsEmpty this t) (λ _. IsMatched x)
        (end_of_life s) (λ _. m) (empties s v) (λ _ t w. fills t w.0 w.1)

  -- A result that is thrown away.
  pub pure-Safe :
      {A : Type 0} (o : Outcome A)
      → Safe (λ _. IsMatched x) o
      → Safe (λ _. IsMatched x) (and_then {B = Unit {0}} o (λ _. done tt))
  pure-Safe o w =
      Safe-and_then (IsMatched x) Clean (λ _. IsMatched x) (λ _. IsMatched x) o (λ _. done tt) w
        (λ _ t w'. w')

  -- The usual error handler, for any postcondition, since it does not return.
  pub throw-Safe :
      {A : Type 0} (Q : A → Machine → Type 0) (refused : List ℕ) (s : Machine)
      → IsMatched x s
      → Safe Q (and_then (errno_not_in refused s) λ _. throw_errno)
  throw-Safe = Safe-throw (IsMatched x) Clean (λ _ v. v.clean)

  -- What every statement keeps, a program keeps.
  pub run-Keeps :
      {S : Type 0} (execute : S → M (Unit {0}))
      → ((c : S) → Keeps (execute c))
      → (cs : List S) → Keeps (run execute cs)
  unfolding run
  run-Keeps execute each [] s v = v
  run-Keeps execute each (c ∷ cs) s v =
      Safe-and_then (IsMatched x) Clean (λ _. IsMatched x) (λ _. IsMatched x) (caught (execute c s))
        (λ _. run execute cs) (caught-Safe (IsMatched x) Clean (execute c s) (each c s v))
        (λ _ t w. run-Keeps execute each cs t w)

  -- And one that ends with every object empty has left no handle live.
  pub run-none_live :
      {S : Type 0} (execute : S → M (Unit {0}))
      → ((c : S) → Keeps (execute c))
      → (cs : List S) (s t : Machine) (h : ℤ) → IsNew x s
      → run execute cs s ≡ done tt t
      → ((a : Addr) → IsEmpty a t)
      → is_live x t.trace h ≡ false
  run-none_live execute each cs s t h new ran empty = elim (Bool-cases (is_live x t.trace h)) [
    | inr gone ↦ gone
    | inl live ↦
        let v : IsMatched x t = rw ran at (run-Keeps execute each cs s (IsNew-IsMatched x s new)) in
        let (a, held) = v.kept h live in
        let real = is_live-real x t.trace h live in ground (arith, real, empty a, held)
  ]
