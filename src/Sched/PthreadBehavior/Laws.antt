-- ===== src/Sched/PthreadBehavior/Laws.antt =====
-- The byte of a behaviour holds its base and the cancel option apart.
use metasys.Base.{ℕ, zero, suc, ◌≤◌, ◌≡◌, refl, true, false, arith, ◌==◌}
use metasys.Sched.PthreadBehavior.{has_base, has_cancel, with_cancel, base_mask}

-- For the four base values: each is read back from the byte, with and without the option, and no
-- other one is; and the option is read back exactly where it was put in.
pub behavior_roundtrip :
    (b c : ℕ)
    → b ≤ base_mask
    → c ≤ base_mask
    → (has_base b c ≡ (b == c))
      × (has_base (with_cancel b) c ≡ (b == c))
      × (has_cancel b ≡ false)
      × (has_cancel (with_cancel b) ≡ true)
unfolding has_base has_cancel with_cancel
behavior_roundtrip zero c hb hc = (refl, refl, refl, refl)
behavior_roundtrip (suc zero) c hb hc = (refl, refl, refl, refl)
behavior_roundtrip (suc (suc zero)) c hb hc = (refl, refl, refl, refl)
behavior_roundtrip (suc (suc (suc zero))) c hb hc = (refl, refl, refl, refl)
behavior_roundtrip (suc (suc (suc (suc b)))) c hb hc = absurd (omega arith)
