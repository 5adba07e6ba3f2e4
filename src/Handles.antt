-- ===== src/Handles.antt =====
-- What the wrappers of heap objects and ids have in common: a handle that some call of the C library
-- gives out, that one object holds, and that another call takes back. A `Resource` says which calls
-- these are; it is stated from the manual pages and not from the code.
pub mod Steps
pub mod Rules
pub mod Attempts
pub mod Directories
pub mod AddressLists
use metasys.Base.{◌≡◌, Bool, true, false, Option, none, some, [], ◌∷◌, if◌then◌else◌, ◌==ℤ◌, ℤ}
use metasys.Machine.{Addr, History, Call, Reply, Machine}

-- `is_none` tells the values of an empty object, of which `empty` is one. A reply of a call gives a
-- handle or takes one back, and a call may be about a handle, which it names.
pub record Resource : Type 0 where
  pub is_none : ℤ → Bool
  pub empty : ℤ
  pub gives : Call → Reply → Option ℤ
  pub takes : Call → Reply → Option ℤ
  pub names : Call → Option ℤ
  pub empty_none : is_none empty ≡ true
  pub gives_real : (c : Call) (r : Reply) (v : ℤ) → gives c r ≡ some v → is_none v ≡ false

module _ (x : Resource) where
  -- Whether a handle was given out and not taken back since.
  unfoldable pub is_live : History → ℤ → Bool
  is_live [] v = false
  is_live ((c, r) ∷ h) v =
      let before = is_live h v in
      elim (x.gives c r) [
        | some a ↦ if a ==ℤ v then true else before
        | none ↦ elim (x.takes c r) [ some a ↦ if a ==ℤ v then false else before | none ↦ before ]
      ]

  -- Every call that names a handle named a live one.
  pub data IsClean : History → Type 0 where
    start : IsClean []
    other :
        {c : Call} {r : Reply} {h : History} → x.names c ≡ none → IsClean h → IsClean ((c, r) ∷ h)
    naming :
        {c : Call} {r : Reply} {h : History} (v : ℤ)
        → x.names c ≡ some v
        → is_live h v ≡ true
        → IsClean h
        → IsClean ((c, r) ∷ h)

  -- Objects and live handles match one to one.
  pub record IsMatched (s : Machine) : Type 0 where
    pub sole : (a b : Addr) → x.is_none (s.mem a) ≡ false → s.mem a ≡ s.mem b → a ≡ b
    pub live : (a : Addr) → x.is_none (s.mem a) ≡ false → is_live s.trace (s.mem a) ≡ true
    pub kept : (v : ℤ) → is_live s.trace v ≡ true → (a : Addr) × (s.mem a ≡ v)
    pub clean : IsClean s.trace

  -- A machine with no handle, and on which nothing was called.
  abbrev pub IsNew : Machine → Type 0
  IsNew s = (s.trace ≡ []) × ((a : Addr) → x.is_none (s.mem a) ≡ true)
