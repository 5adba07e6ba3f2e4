-- ===== src/Children/Operations.antt =====
-- What forking and signalling keep.
use metasys.Base.{
  ◌≡◌, refl, inl, inr, true, false, [], ◌∷◌, arith, Bool-cases, is_neg, is_positive, ℤ, pos, negsuc,
}
use metasys.Machine.{Addr, Kernel, Call, update, after, Machine, einval}
use metasys.Sys.Safety.{Safe-and_then}
use metasys.Sched.Process
use metasys.Sched.Process.{ProcessBehavior}
use metasys.Handles.Steps.{IsMatched-benign, IsMatched-use, IsMatched-clear, IsMatched-gain}
use metasys.Handles.Rules.{Clean, IsEmpty, Keeps, Fills, throw-Safe}
use metasys.Children.{unwaited, unwaited-is_child, IsParent, IsHeld}

is_neg_lem : (a : ℤ) → is_neg a ≡ true → is_positive a ≡ false
is_neg_lem (pos a) e = absurd cc
is_neg_lem (negsuc a) e = refl

module _ (k : Kernel) (parent : IsParent k) where
  -- fork(2), failed or not, with the result in an object that has no child.
  forked-IsHeld :
      (this : Addr) (s : Machine)
      → IsHeld s
      → IsEmpty unwaited this s
      → let r = k s.trace Call.fork in
        IsHeld (record (after s Call.fork r) { mem = update s.mem this r.ret })
  forked-IsHeld this s v free =
      let r = k s.trace Call.fork in
      elim (Bool-cases (is_positive r.ret)) [
        | inl went ↦
            IsMatched-gain unwaited s v this Call.fork r r.ret free (rw went refl) refl
              (unwaited-is_child s.trace r.ret (parent.forked s.trace went))
        | inr failed ↦
            let w = IsMatched-benign unwaited s v Call.fork r (rw failed refl) refl refl in
            IsMatched-clear unwaited (after s Call.fork r) w this r.ret free (rw failed refl)
      ]

  pub fork-Keeps : (this : Addr) → Keeps unwaited (Process.fork k this)
  unfolding Process.fork
  fork-Keeps this s v =
      let r = k s.trace Call.fork in
      elim (Bool-cases (is_positive (s.mem this))) [
        | inl has ↦ rw has v.clean
        | inr free ↦
            let w = forked-IsHeld this s v (rw free refl) in
            let held : update s.mem this r.ret this ≡ r.ret = ground arith in
            elim (Bool-cases (is_neg r.ret)) [
              | inl failed ↦ rw (free, held, failed) (throw-Safe unwaited (λ _. IsHeld) [] _ w)
              | inr went ↦ rw (free, held, went) w
            ]
      ]

  pub forkinit-Fills : (this : Addr) → Fills unwaited this (Process.forkinit k this)
  unfolding Process.forkinit
  forkinit-Fills this s v free =
      let r = k s.trace Call.fork in
      elim (Bool-cases (is_neg r.ret)) [
        | inl failed ↦ rw failed (
            Safe-and_then IsHeld (Clean unwaited) (λ _ t. ⊥) (λ _. IsHeld)
              (Process.throwfork {A = Unit {0}} (after s Call.fork r))
              (λ _. Process.construct_from r.ret this)
              (throw-Safe unwaited (λ _ t. ⊥) [] (after s Call.fork r)
                (IsMatched-benign unwaited s v Call.fork r (ground (arith, is_neg_lem r.ret))
                  (ground (arith, is_neg_lem r.ret)) refl))
              (λ _ t no. absurd no))
        | inr went ↦ rw went (forked-IsHeld this s v free)
      ]

  pub kill-Keeps : (sig : ℤ) (this : Addr) → Keeps unwaited (Process.kill k sig this)
  unfolding Process.kill
  kill-Keeps sig this s v =
      let r = k s.trace (Call.kill (s.mem this) sig) in
      elim (Bool-cases (is_positive (s.mem this))) [
        | inr empty ↦ rw empty v.clean
        | inl has ↦
            let c = Call.kill (s.mem this) sig in
            let w = IsMatched-use unwaited s v this c r (rw has refl) refl (ground arith) refl in
            elim (Bool-cases (is_neg r.ret)) [
              | inl failed ↦ rw (has, failed) (throw-Safe unwaited (λ _. IsHeld) (einval ∷ []) _ w)
              | inr went ↦ rw (has, went) w
            ]
      ]
