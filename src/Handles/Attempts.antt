-- ===== src/Handles/Attempts.antt =====
-- Calls that should take a handle back, and may fail: what is left of a handle where they do.
use metasys.Base.{
  ◌≡◌, Bool, true, false, not, ◌&&◌, Option, none, some, [], ◌∷◌, arith, if◌then◌else◌, ◌==ℤ◌, ℤ,
}
use metasys.Machine.{History, Call, Reply}
use metasys.Handles.{Resource, is_live}

-- A handle is out of the objects' hands once a call was made that should take it back, also where
-- that call failed.
abbrev pub attempted : Resource → (Call → Option ℤ) → Resource
attempted x ends = record x { takes = λ c r. ends c }

-- A call that should take the handle back has failed.
abbrev pub is_missed : (Call → Option ℤ) → (Reply → Bool) → History → ℤ → Bool
is_missed ends went [] v = false
is_missed ends went ((c, r) ∷ h) v =
    let before = is_missed ends went h v in
    elim (ends c) [ some a ↦ if (a ==ℤ v) && not (went r) then true else before | none ↦ before ]

module _ (x : Resource) (ends : Call → Option ℤ) (went : Reply → Bool)
    (agrees : (c : Call) (r : Reply) → x.takes c r ≡ (if went r then ends c else none)) where
  -- What nobody tried to take back is not taken back.
  pub attempted-is_live :
      (h : History) (v : ℤ) → is_live (attempted x ends) h v ≡ true → is_live x h v ≡ true
  unfolding is_live
  attempted-is_live [] v p = p
  attempted-is_live ((c, r) ∷ h) v p = ground (arith, agrees c r, attempted-is_live h v)

  -- What somebody tried to take back, and is still out, was missed.
  pub is_missed-is_live :
      (h : History) (v : ℤ)
      → is_live x h v ≡ true
      → is_live (attempted x ends) h v ≡ false
      → is_missed ends went h v ≡ true
  unfolding is_live
  is_missed-is_live [] v p q = absurd cc
  is_missed-is_live ((c, r) ∷ h) v p q = ground (arith, agrees c r, is_missed-is_live h v)
