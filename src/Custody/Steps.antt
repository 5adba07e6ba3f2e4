-- ===== src/Custody/Steps.antt =====
-- Steps of the operations of a thread.
use metasys.Base.{
  ◌≡◌, refl, inl, inr, true, false, Option, some, [], ◌∷◌, arith, Bool-cases, ◌==ℤ◌, ℤ,
}
use metasys.Machine.{Addr, Call, Reply, is_any, update, after, Machine, einval}
use metasys.Sys.Safety
use metasys.Sys.Safety.{Safe-keep, Safe-and_then, Safe-switch}
use metasys.Sys.SystemException.{cases}
use metasys.Sched.Pthread.{invalid, createthrow}
use metasys.Handles.Steps.{IsMatched-ext, IsMatched-clear, IsMatched-drop}
use metasys.Handles.Rules.{Clean, IsEmpty}
use metasys.Handles.{IsMatched}
use metasys.Custody.{starts, ends, has_ended, taking, IsTaking}

module _ (taken : Call → Reply → Option ℤ) where
  -- Where creation throws, the object is left without a thread.
  abbrev pub IsUnmade : Addr → Machine → Type 0
  IsUnmade this s = IsMatched (taking taken) s × IsEmpty (taking taken) this s

  -- Whatever the error number is, `createthrow` ends where it starts, and does not return.
  pub createthrow-Safe :
      (keep : Machine → Type 0)
      → ((s : Machine) → keep s → Clean (taking taken) s)
      → (Q : Unit {0} → Machine → Type 0) (err : ℤ) (s : Machine) → keep s
      → Safety.Safe keep (Clean (taking taken)) Q (createthrow err s)
  unfolding createthrow
  createthrow-Safe keep keep-clean Q err s v = elim (Bool-cases (is_any err (einval ∷ []))) [
    | inl refused ↦ rw refused (keep-clean s v)
    | inr allowed ↦ rw allowed (Safe-switch keep (Clean (taking taken)) keep-clean Q err cases s v)
  ]

  -- A cell without a thread may be written in between.
  pub scratched-IsKept :
      (this : Addr) (tid : ℤ) (s : Machine)
      → IsMatched (taking taken) s
      → IsEmpty (taking taken) this s
      → IsMatched (taking taken) (record s { mem = update (update s.mem this tid) this invalid })
  scratched-IsKept this tid s v free =
      let t = record s { mem = update s.mem this invalid } in
      IsMatched-ext (taking taken) t (IsMatched-clear (taking taken) s v this invalid free refl)
        (update (update s.mem this tid) this invalid) (λ a. ground arith)

module _ (taken : Call → Reply → Option ℤ) (terms : IsTaking taken) where
  -- A thread is joined or detached, and its object lets go of it.
  pub ended-IsKept :
      (this : Addr) (c : Call) (r : Reply) (s : Machine)
      → IsMatched (taking taken) s
      → (s.mem this ==ℤ invalid) ≡ false
      → starts c ≡ false
      → ends c ≡ some (s.mem this)
      → has_ended r ≡ true
      → IsMatched (taking taken) (record (after s c r) { mem = update s.mem this invalid })
  ended-IsKept this c r s v has none_started over went =
      IsMatched-drop (taking taken) s v this c r invalid has refl (rw none_started refl)
        (terms.successes c r (s.mem this) over went) over
