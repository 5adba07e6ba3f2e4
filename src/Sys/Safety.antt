-- ===== src/Sys/Safety.antt =====
-- A small logic of outcomes. `Safe keep clean Q` says that `Q` holds where a function returns, that
-- `keep` holds where it throws, and that `clean` holds of what was done up to there where the process
-- is stopped.
use metasys.Base.{ℕ, inl, inr, List, [], ◌∷◌, if◌then◌else◌, Bool-cases, elem, ◌==ℤ◌, ℤ, pos}
use metasys.Machine.{
  errno_not_in, M, and_then, ended, unwound, Machine, Outcome, done, thrown, stopped, out_of_fuel,
}
use metasys.Sys.SystemException.{cases, switch, throw_errno}

-- `try { ... } catch (...) {}`
unfoldable pub caught : Outcome (Unit {0}) → Outcome (Unit {0})
caught (thrown e s) = done tt s
caught o = o

module _ (keep clean : Machine → Type 0) where
  abbrev pub Safe : {A : Type 0} → (A → Machine → Type 0) → Outcome A → Type 0
  Safe Q (done a s) = Q a s
  Safe Q (thrown e s) = keep s
  Safe Q (stopped c s) = clean s
  Safe Q (out_of_fuel s) = keep s

  -- The rule of a sequence.
  pub Safe-and_then :
      {A B : Type 0} (P : A → Machine → Type 0) (Q : B → Machine → Type 0) (o : Outcome A)
      (f : A → M B)
      → Safe P o
      → ((a : A) (s : Machine) → P a s → Safe Q (f a s))
      → Safe Q (and_then o f)
  Safe-and_then P Q (done a s) f p next = next a s p
  Safe-and_then P Q (thrown e s) f p next = p
  Safe-and_then P Q (stopped c s) f p next = p
  Safe-and_then P Q (out_of_fuel s) f p next = p

  -- The rule of consequence.
  pub Safe-mono :
      {A : Type 0} (P Q : A → Machine → Type 0) (o : Outcome A)
      → Safe P o
      → ((a : A) (s : Machine) → P a s → Q a s)
      → Safe Q o
  Safe-mono P Q (done a s) p weaken = weaken a s p
  Safe-mono P Q (thrown e s) p weaken = p
  Safe-mono P Q (stopped c s) p weaken = p
  Safe-mono P Q (out_of_fuel s) p weaken = p

  -- The rule of a local object that an exception destroys.
  pub Safe-unwound :
      {A : Type 0} (Q : A → Machine → Type 0) (destroy : M (Unit {0})) (o : Outcome A)
      → ((s : Machine) → keep s → Safe {A = Unit {0}} (λ _. keep) (destroy s))
      → Safe Q o
      → Safe Q (unwound destroy o)
  Safe-unwound Q destroy (done a s) kept p = p
  Safe-unwound {A} Q destroy (thrown e s) kept p =
      Safe-and_then {B = A} (λ _. keep) Q (destroy s) (λ _. thrown e) (kept s p) (λ _ s' q. q)
  Safe-unwound Q destroy (stopped c s) kept p = p
  Safe-unwound Q destroy (out_of_fuel s) kept p = p

  pub caught-Safe : (o : Outcome (Unit {0})) → Safe (λ _. keep) o → Safe (λ _. keep) (caught o)
  unfolding caught
  caught-Safe (done a s) q = q
  caught-Safe (thrown e s) q = q
  caught-Safe (stopped c s) q = q
  caught-Safe (out_of_fuel s) q = q

  module _ (keep-clean : (s : Machine) → keep s → clean s) where
    -- The rule of a `noexcept` function.
    pub Safe-ended :
        {A : Type 0} (Q : A → Machine → Type 0) (o : Outcome A) → Safe Q o → Safe Q (ended o)
    Safe-ended Q (done a s) p = p
    Safe-ended Q (thrown e s) p = keep-clean s p
    Safe-ended Q (stopped c s) p = p
    Safe-ended Q (out_of_fuel s) p = p

    -- Whatever the error number is, `throwErrno` ends where it starts, and does not return.
    pub Safe-switch :
        {A : Type 0} (Q : A → Machine → Type 0) (err : ℤ) (cs : List ℕ) (s : Machine)
        → keep s
        → Safe Q (switch err cs s)
    unfolding switch
    Safe-switch Q err [] s v = keep-clean s v
    Safe-switch Q err (c ∷ cs) s v = elim (Bool-cases (err ==ℤ pos c)) [
      | inl hit ↦ rw (hit, if◌then◌else◌) v
      | inr miss ↦ rw (miss, if◌then◌else◌) (Safe-switch Q err cs s v)
    ]

    -- The assertions on `errno`, then `throwErrno`.
    pub Safe-throw :
        {A : Type 0} (Q : A → Machine → Type 0) (refused : List ℕ) (s : Machine)
        → keep s
        → Safe Q (and_then (errno_not_in refused s) λ _. throw_errno)
    unfolding throw_errno
    Safe-throw Q refused s v = elim (Bool-cases (elem s.errno refused)) [
      | inl hit ↦ rw hit (keep-clean s v)
      | inr miss ↦ rw miss (Safe-switch Q (pos s.errno) cases s v)
    ]

-- A stronger promise where a function throws.
pub Safe-keep :
    {A : Type 0} (stronger keep clean : Machine → Type 0) (Q : A → Machine → Type 0) (o : Outcome A)
    → ((s : Machine) → stronger s → keep s)
    → Safe stronger clean Q o
    → Safe keep clean Q o
Safe-keep stronger keep clean Q (done a s) weaken p = p
Safe-keep stronger keep clean Q (thrown e s) weaken p = weaken s p
Safe-keep stronger keep clean Q (stopped c s) weaken p = p
Safe-keep stronger keep clean Q (out_of_fuel s) weaken p = weaken s p
