-- ===== src/Net/AddressInfo/Laws.antt =====
-- Errors of resolution, and the life of the list.
use metasys.Base.{
  ◌≡◌, refl, inl, inr, Bool, false, ◌||◌, List, [], ◌∷◌, arith, if◌then◌else◌, Bool-cases, ◌==ℤ◌,
  ==ℤ_iff, ==ℤ_refl, ℤ,
}
use metasys.Machine.{
  Addr, Kernel, update, Machine, resolve_exception, assertion, done, thrown, stopped, eai_badflags,
  eai_socktype, eai_system,
}
use metasys.Sys.SystemException.{throw_errno}
use metasys.Net.AddressInfo.{cases, switch, resolvethrow, move_assign, null}

abbrev pub is_case : ℤ → List ℤ → Bool
is_case ret [] = false
is_case ret (c ∷ cs) = (ret ==ℤ c) || is_case ret cs

switch_lem :
    (ret : ℤ) (cs : List ℤ) (s : Machine)
    → switch ret cs s ≡ (
        if is_case ret cs
        then thrown (resolve_exception ret) s
        else if ret ==ℤ eai_system
        then throw_errno s
        else done tt s)
unfolding switch
switch_lem ret [] s = ground arith
switch_lem ret (c ∷ cs) s = elim (Bool-cases (ret ==ℤ c)) [
  | inl hit ↦ rw ((==ℤ_iff ret c).0 hit, ==ℤ_refl c) refl
  | inr miss ↦ rw (miss, switch_lem ret cs s) refl
]

-- What `resolvethrow` does with each code: EAI_BADFLAGS and EAI_SOCKTYPE fail an assertion, the eight
-- codes of the switch are thrown as they are, EAI_SYSTEM is thrown as `errno`, and every other code
-- is swallowed: the function returns as if nothing had failed.
pub resolvethrow_lem :
    (ret : ℤ) (s : Machine)
    → resolvethrow ret s ≡ (
        if (ret ==ℤ eai_badflags) || (ret ==ℤ eai_socktype)
        then stopped assertion s
        else if is_case ret cases
        then thrown (resolve_exception ret) s
        else if ret ==ℤ eai_system
        then throw_errno s
        else done tt s)
unfolding resolvethrow
resolvethrow_lem ret s = elim (Bool-cases (ret ==ℤ eai_badflags)) [
  | inl flags ↦ rw flags refl
  | inr other ↦ elim (Bool-cases (ret ==ℤ eai_socktype)) [
    | inl type ↦ rw (other, type) refl
    | inr other' ↦ rw (other, other') (switch_lem ret cases s)
  ]
]

-- A list that is assigned to itself is lost, and not freed.
pub move_assign_list_self :
    (k : Kernel) (this : Addr) (s : Machine)
    → (t : Machine) × (move_assign k this this s ≡ done tt t)
      × (t.mem this ≡ null)
      × (t.trace ≡ s.trace)
unfolding move_assign
move_assign_list_self k this s = (
  record s { mem = update (update s.mem this (s.mem this)) this null },
  ground (arith, ==ℤ_refl (s.mem this)),
  ground arith,
  refl,
)
