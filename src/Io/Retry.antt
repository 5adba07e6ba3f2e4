-- ===== src/Io/Retry.antt =====
-- Runs of one library call: the reference for the loops that retry, and what all of them do.

use metasys.Base.{
  ℕ, zero, suc, ◌≤◌, ◌<◌, ◌≡◌, refl, inl, inr, Bool, true, false, arith, if◌then◌else◌, Bool-cases,
}
use metasys.Machine.{Kernel, Call, Reply, M, after, Machine}

-- The machine after `n` calls of `c`, one after the other.
unfoldable pub calls : Kernel → Call → ℕ → Machine → Machine
calls k c zero s = s
calls k c (suc n) s = calls k c n (after s c (k s.trace c))

-- The first `n` replies pass `again`, and the one after them does not.
unfoldable pub RetriesFor : (Reply → Bool) → Kernel → Call → ℕ → Machine → Type 0
RetriesFor again k c zero s = again (k s.trace c) ≡ false
RetriesFor again k c (suc n) s =
    (again (k s.trace c) ≡ true) × RetriesFor again k c n (after s c (k s.trace c))

-- If the reply after `n` calls does not pass, there is a first reply that does not.
pub RetriesFor-first :
    (again : Reply → Bool) (k : Kernel) (c : Call) (n : ℕ) (s : Machine)
    → again (k (calls k c n s).trace c) ≡ false
    → (m : ℕ) × (m ≤ n) × RetriesFor again k c m s
unfolding calls RetriesFor
RetriesFor-first again k c zero s ends = (0, omega arith, ends)
RetriesFor-first again k c (suc n) s ends = elim (Bool-cases (again (k s.trace c))) [
  | inl more ↦
      let (m, le, run) = RetriesFor-first again k c n (after s c (k s.trace c)) ends in
      (suc m, omega arith, (more, run))
  | inr over ↦ (0, omega arith, over)
]

-- A loop on fuel, one unit for each call, that repeats the call while the reply passes `again`, and
-- otherwise ends as `answer` says.
pub record IsRetrying {A : Type 0} (again : Reply → Bool) (answer : Reply → M A) (k : Kernel)
    (c : Call) (loop : ℕ → M A) : Type 0 where
  pub step :
      (fuel : ℕ) (s : Machine)
      → let r = k s.trace c in
        loop (suc fuel) s ≡ (if again r then loop fuel (after s c r) else answer r (after s c r))

module _ {A : Type 0} (again : Reply → Bool) (answer : Reply → M A) (k : Kernel) (c : Call)
    (loop : ℕ → M A) (retrying : IsRetrying again answer k c loop) where
  -- The run that the loop makes; any fuel beyond the retries is enough.
  pub IsRetrying-calls :
      (n fuel : ℕ) (s : Machine)
      → n < fuel
      → RetriesFor again k c n s
      → loop fuel s ≡ answer (k (calls k c n s).trace c) (calls k c (suc n) s)
  unfolding calls RetriesFor
  IsRetrying-calls n zero s lt h = absurd (omega arith)
  IsRetrying-calls zero (suc fuel) s lt h = rw (retrying.step fuel s, h) refl
  IsRetrying-calls (suc n) (suc fuel) s lt h =
      rw (retrying.step fuel s, h.0)
        (IsRetrying-calls n fuel (after s c (k s.trace c)) (omega arith) h.1)
