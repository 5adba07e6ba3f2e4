-- ===== src/Sys/Exceptions/Laws.antt =====
-- Which handlers get which exceptions.
use metasys.Base.{
  ℕ, zero, suc, ◌≡◌, refl, sym, inl, inr, Bool, true, false, ◌||◌, none, some, arith, ◌==◌,
  if◌then◌else◌, Bool-cases, elem, ◌==ℤ◌, ==ℤ_iff, ==ℤ_refl, ℤ, pos,
}
use metasys.Machine.{
  pure, and_then, Machine, errno_exception, assertion, aborted, done, thrown, stopped, eai_badflags,
  eai_socktype, eai_system,
}
use Prim.Native.String.{String}
use metasys.Sys.SystemException.{cases, throw_errno_of, throw_errno}
use metasys.Sys.SystemException.Laws.{throw_errno_of_lem}
use metasys.Net.AddressInfo
use metasys.Net.AddressInfo.{resolvethrow}
use metasys.Net.AddressInfo.Laws.{resolvethrow_lem, is_case}
use metasys.Sys.Exceptions.{
  Class, Messages, base_exception, system_exception, network_exception, errno_class, resolve_class,
  message, declared, IsA, same, derived, is_same, is_a_within, is_a, catch_as,
}

is_same_iff : (c d : Class) → is_same c d ≡ true → c ≡ d
is_same_iff base_exception base_exception e = refl
is_same_iff system_exception system_exception e = refl
is_same_iff network_exception network_exception e = refl
is_same_iff (errno_class a) (errno_class b) e = let q : a ≡ b = ground arith in cc
is_same_iff (resolve_class a) (resolve_class b) e = let q = (==ℤ_iff a b).0 e in cc
is_same_iff _ _ e = absurd cc

-- One derivation, and what the base class gives.
abbrev base_is_a : ℕ → Class → Class → Bool
base_is_a n c d = elim (declared c).derives [ some b ↦ is_a_within n b d | none ↦ false ]

derived_within :
    (n : ℕ) (c d : Class)
    → ((b : Class) → is_a_within n b d ≡ true → IsA b d)
    → base_is_a n c d ≡ true
    → IsA c d
derived_within n base_exception d next e = absurd cc
derived_within n system_exception d next e = derived base_exception refl (next base_exception e)
derived_within n network_exception d next e =
    derived system_exception refl (next system_exception e)
derived_within n (errno_class err) d next e =
    derived system_exception refl (next system_exception e)
derived_within n (resolve_class ret) d next e =
    derived network_exception refl (next network_exception e)

is_a_within-IsA : (n : ℕ) (c d : Class) → is_a_within n c d ≡ true → IsA c d
is_a_within-IsA zero c d e = rw (is_same_iff c d e) same
is_a_within-IsA (suc n) c d e = elim (Bool-cases (is_same c d)) [
  | inl hit ↦ rw (is_same_iff c d hit) same
  | inr miss ↦ derived_within n c d (λ b. is_a_within-IsA n b d) (rw miss at e)
]

is_same_refl : (c : Class) → is_same c c ≡ true
is_same_refl base_exception = refl
is_same_refl system_exception = refl
is_same_refl network_exception = refl
is_same_refl (errno_class err) = ground arith
is_same_refl (resolve_class ret) = ==ℤ_refl ret

-- The bound of `is_a` is enough.
is_a-derived : (b c d : Class) → (declared c).derives ≡ some b → is_a b d ≡ true → is_a c d ≡ true
is_a-derived b base_exception d from e = absurd cc
is_a-derived b system_exception d from e =
    let q : base_exception ≡ b = cc in ground (arith, rw (sym q) at e)
is_a-derived b network_exception d from e =
    let q : system_exception ≡ b = cc in ground (arith, rw (sym q) at e)
is_a-derived b (errno_class err) d from e =
    let q : system_exception ≡ b = cc in ground (arith, rw (sym q) at e)
is_a-derived b (resolve_class ret) d from e =
    let q : network_exception ≡ b = cc in ground (arith, rw (sym q) at e)

IsA-is_a : {c d : Class} → IsA c d → is_a c d ≡ true
IsA-is_a {c} same = ground (arith, is_same_refl c)
IsA-is_a {c} {d} (derived b from i) = is_a-derived b c d from (IsA-is_a i)

-- `is_a` decides the hierarchy of the classes.
is_a_iff : (c d : Class) → (is_a c d ≡ true → IsA c d) × (IsA c d → is_a c d ≡ true)
is_a_iff c d = (is_a_within-IsA 3 c d, IsA-is_a)

-- Which handlers a number that `throwErrno` throws can reach.
abbrev pub gets_errno : Class → ℕ → Bool
gets_errno base_exception err = true
gets_errno system_exception err = true
gets_errno (errno_class n) err = err == n
gets_errno c err = false

caught_if :
    (texts : Messages) (c : Class) (err : ℕ) (s : Machine) (listed : Bool)
    → catch_as c
        (λ e. pure (message texts e))
        (if listed then thrown (errno_exception err) s else stopped aborted s)
      ≡ (if listed
          then if gets_errno c err
            then done (texts.strerror err) s
            else thrown (errno_exception err) s
          else stopped aborted s)
unfolding catch_as
caught_if texts c err s false = refl
caught_if texts base_exception err s true = refl
caught_if texts system_exception err s true = refl
caught_if texts network_exception err s true = refl
caught_if texts (errno_class n) err s true = ground arith
caught_if texts (resolve_class n) err s true = refl

-- `try { throwErrno(err); } catch (const C &e) { return e.what(); }` for each class C of the
-- library: where the switch of `throwErrno` names the number, the handlers of `Exception`, of
-- `SystemException` and of the `ErrnoException` of the same number return what strerror(3) says of
-- it, and the exception passes every other handler, that of `NetworkException` included. For any
-- other number the process is aborted, whatever the handler is for.
pub catch-throw_errno_of :
    (texts : Messages) (c : Class) (err : ℕ) (s : Machine)
    → catch_as c (λ e. pure (message texts e)) (throw_errno_of (pos err) s) ≡ (
        if elem err cases
        then if gets_errno c err
          then done (texts.strerror err) s
          else thrown (errno_exception err) s
        else stopped aborted s)
unfolding catch_as
catch-throw_errno_of texts c err s =
    rw (throw_errno_of_lem {A = String} err s) (caught_if texts c err s (elem err cases))

not_network_if :
    (texts : Messages) (quiet : String) (s : Machine) (listed : Bool)
    → catch_as network_exception
        (λ e. pure (message texts e))
        (and_then {A = Unit {0}}
          (if listed then thrown (errno_exception s.errno) s else stopped aborted s)
          (λ _. pure quiet))
      ≡ (if listed then thrown (errno_exception s.errno) s else stopped aborted s)
unfolding catch_as
not_network_if texts quiet s true = refl
not_network_if texts quiet s false = refl

-- What `throwErrno` throws is no `NetworkException`.
not_network :
    (texts : Messages) (quiet : String) (s : Machine)
    → catch_as network_exception
        (λ e. pure (message texts e))
        (and_then (throw_errno {A = Unit {0}} s) (λ _. pure quiet))
      ≡ throw_errno {A = String} s
unfolding throw_errno
not_network texts quiet s =
    rw (throw_errno_of_lem {A = Unit {0}} s.errno s, throw_errno_of_lem {A = String} s.errno s)
      (not_network_if texts quiet s (elem s.errno cases))

-- A handler of `NetworkException` around `AddressInfo::resolvethrow(ret)` gets the eight codes of
-- its switch, and reads the message of gai_strerror(3) from them. EAI_SYSTEM passes it, as whatever
-- `throwErrno` does with `errno`; EAI_BADFLAGS and EAI_SOCKTYPE stop the process before; and with
-- any other code the call returns.
pub catch-resolvethrow :
    (texts : Messages) (quiet : String) (ret : ℤ) (s : Machine)
    → catch_as network_exception
        (λ e. pure (message texts e))
        (and_then (resolvethrow ret s) (λ _. pure quiet))
      ≡ (if (ret ==ℤ eai_badflags) || (ret ==ℤ eai_socktype)
          then stopped assertion s
          else if is_case ret AddressInfo.cases
          then done (texts.gai_strerror ret) s
          else if ret ==ℤ eai_system
          then throw_errno s
          else done quiet s)
unfolding catch_as
catch-resolvethrow texts quiet ret s =
    elim (Bool-cases ((ret ==ℤ eai_badflags) || (ret ==ℤ eai_socktype))) [
      | inl wrong ↦ rw (resolvethrow_lem ret s, wrong) refl
      | inr right ↦ elim (Bool-cases (is_case ret AddressInfo.cases)) [
        | inl named ↦ rw (resolvethrow_lem ret s, right, named) refl
        | inr unnamed ↦ elim (Bool-cases (ret ==ℤ eai_system)) [
          | inl system ↦
              rw (resolvethrow_lem ret s, right, unnamed, system) (not_network texts quiet s)
          | inr unknown ↦ rw (resolvethrow_lem ret s, right, unnamed, unknown) refl
        ]
      ]
    ]
