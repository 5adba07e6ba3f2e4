-- ===== src/Handles/AddressLists/Objects.antt =====
-- What each operation on an object that holds a list of addresses keeps.
use metasys.Base.{
  ◌≡◌, refl, sym, ◌≢◌, inl, inr, Bool, true, false, not, ◌||◌, some, [], arith, Bool-cases, ◌==ℤ◌,
  ==ℤ_iff, ℤ, pos,
}
use metasys.Machine.{
  Addr, Kernel, Hints, Call, M, and_then, when, assert, update, after, Machine, eai_badflags,
  eai_socktype, eai_system,
}
use metasys.Net.AddressInfo
use metasys.Net.AddressInfo.{Info, null, is_list, resolvethrow, cases}
use metasys.Net.AddressInfo.Laws.{resolvethrow_lem, is_case}
use metasys.Handles.{IsMatched}
use metasys.Handles.Steps.{
  IsMatched-benign, IsMatched-clear, IsMatched-gain, IsMatched-drop, IsMatched-hand_over,
}
use metasys.Handles.Rules.{Safe, Keeps, Empties, Fills, throw-Safe}
use metasys.Handles.AddressLists.{lists, IsResolving, end_of_life}

-- Whatever the code is, `resolvethrow` ends where it starts.
resolvethrow-Keeps : (ret : ℤ) → Keeps lists (resolvethrow ret)
resolvethrow-Keeps ret s v = elim (Bool-cases ((ret ==ℤ eai_badflags) || (ret ==ℤ eai_socktype))) [
  | inl wrong ↦ rw (resolvethrow_lem ret s, wrong) v.clean
  | inr right ↦ elim (Bool-cases (is_case ret cases)) [
    | inl named ↦ rw (resolvethrow_lem ret s, right, named) v
    | inr unnamed ↦ elim (Bool-cases (ret ==ℤ eai_system)) [
      | inl system ↦
          rw (resolvethrow_lem ret s, right, unnamed, system)
            (throw-Safe lists (λ _. IsMatched lists) [] s v)
      | inr unknown ↦ rw (resolvethrow_lem ret s, right, unnamed, unknown) v
    ]
  ]
]

-- The usual handler.
abbrev pub handle : ℤ → M (Unit {0})
handle ret = when (not (ret ==ℤ pos 0)) (resolvethrow ret)

pub handle-Keeps : (ret : ℤ) → Keeps lists (handle ret)
handle-Keeps ret s v = elim (Bool-cases (ret ==ℤ pos 0)) [
  | inl went ↦ rw went v
  | inr failed ↦ rw failed (resolvethrow-Keeps ret s v)
]

-- Assertions end the process or do nothing.
pub assert_then-Safe :
    {A : Type 0} (b : Bool) (m : M A) (s : Machine)
    → IsMatched lists s
    → Safe lists (λ _. IsMatched lists) (m s)
    → Safe lists (λ _. IsMatched lists) (and_then (assert b s) λ _. m)
assert_then-Safe true m s v w = w
assert_then-Safe false m s v w = v.clean

pub assert-Keeps : (b : Bool) → Keeps lists (assert b)
assert-Keeps true s v = v
assert-Keeps false s v = v.clean

module _ (k : Kernel) (resolving : IsResolving k) where
  -- getaddrinfo(3) into an empty object, and what the handler does with its code.
  pub resolve_with-Fills :
      {B : Type 0} (name service : Addr) (hints : Hints) (handler : ℤ → M B) (this : Addr)
      (s : Machine)
      → ((ret : ℤ) (t : Machine)
          → IsMatched lists t
          → Safe lists (λ _. IsMatched lists) (handler ret t))
      → IsMatched lists s
      → Safe lists
          (λ _. IsMatched lists)
          (AddressInfo.resolve_with k name service hints handler this s)
  unfolding AddressInfo.resolve_with
  resolve_with-Fills name service hints handler this s handled v =
      let c = Call.getaddrinfo name service hints in
      let r = k s.trace c in
      elim (Bool-cases (is_list (s.mem this))) [
        | inl has ↦ rw has v.clean
        | inr empty ↦ elim (Bool-cases (r.ret ==ℤ pos 0)) [
          | inl went ↦
              let (list, stored, real, fresh) = resolving.found s.trace name service hints went in
              let given : lists.gives c r ≡ some list = rw (went, stored) (ground (arith, real)) in
              simp (empty, stored)
                (handled r.ret _
                  (IsMatched-gain lists s v this c r list (rw empty refl) given refl fresh))
          | inr failed ↦
              let nothing = resolving.not_found s.trace name service hints failed in
              simp (empty, nothing)
                (handled r.ret (after s c r)
                  (IsMatched-benign lists s v c r (rw failed refl) refl refl))
        ]
      ]

  pub resolve-Keeps :
      (name service : Addr) (hints : Hints) (this : Addr)
      → Keeps lists (AddressInfo.resolve k name service hints this)
  unfolding AddressInfo.resolve
  resolve-Keeps name service hints this s v =
      resolve_with-Fills name service hints handle this s (λ ret t w. handle-Keeps ret t w) v

  pub end_of_life-Empties : (this : Addr) → Empties lists this (end_of_life k this)
  unfolding end_of_life AddressInfo.destroy
  end_of_life-Empties this s v =
      let c = Call.freeaddrinfo (s.mem this) in
      let r = k s.trace c in
      elim (Bool-cases (is_list (s.mem this))) [
        | inl has ↦ (
          IsMatched-drop lists s v this c r null (rw has refl) refl refl (rw has refl)
              (rw has refl),
          ground arith,
        )
        | inr vacant ↦
            let w = IsMatched-benign lists s v c r refl (rw vacant refl) (rw vacant refl) in
            (IsMatched-clear lists (after s c r) w this null (rw vacant refl) refl, ground arith)
      ]

  pub free-Keeps : (this : Addr) → Keeps lists (AddressInfo.free k this)
  unfolding AddressInfo.free end_of_life AddressInfo.destroy
  free-Keeps this s v = (end_of_life-Empties this s v).0

  pub move_construct-Fills :
      (this from : Addr) → this ≢ from → Fills lists this (AddressInfo.move_construct this from)
  unfolding AddressInfo.move_construct
  move_construct-Fills this from apart s v vacant =
      IsMatched-hand_over lists s v this from vacant apart

  -- The old list is freed, and then the new one handed over.
  pub move_assign-Keeps :
      (this from : Addr) → this ≢ from → Keeps lists (AddressInfo.move_assign k this from)
  unfolding AddressInfo.move_assign
  move_assign-Keeps this from apart s v = elim (Bool-cases (is_list (s.mem this))) [
    | inr vacant ↦ rw vacant (IsMatched-hand_over lists s v this from (rw vacant refl) apart)
    | inl has ↦ elim (Bool-cases (s.mem from ==ℤ s.mem this)) [
      | inl same ↦ absurd (
          apart (v.sole this from (rw has refl) (sym ((==ℤ_iff (s.mem from) (s.mem this)).0 same))))
      | inr differ ↦
          let c = Call.freeaddrinfo (s.mem this) in
          let t = record (after s c (k s.trace c)) { mem = update s.mem this null } in
          let w : IsMatched lists t = free-Keeps this s v in
          let moved = IsMatched-hand_over lists t w this from (ground arith) apart in
          simp (has, differ) moved
    ]
  ]
