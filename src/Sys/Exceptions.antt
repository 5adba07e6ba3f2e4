-- ===== src/Sys/Exceptions.antt =====
-- The exception classes: include/metasys/sys/Exception.hxx, SystemException.hxx, ErrnoException.hxx
-- and include/metasys/net/NetworkException.hxx, ResolveException.hxx. The objects have no fields,
-- so an object is its class.
pub mod Laws
use metasys.Base.{
  ℕ, zero, suc, ◌≡◌, Bool, true, false, ◌||◌, Option, none, some, ◌==◌, if◌then◌else◌, ◌==ℤ◌, ℤ,
}
use metasys.Machine.{M, Exception, Outcome, errno_exception, resolve_exception, thrown}
use Prim.Native.String.{String}

-- `ErrnoException<Errno>` and `ResolveException<GaiErr>` are a class for each number.
pub data Class : Type 0 where
  base_exception system_exception network_exception : Class
  errno_class : (err : ℕ) → Class
  resolve_class : (ret : ℤ) → Class

-- strerror(3) and gai_strerror(3).
pub record Messages : Type 0 where
  pub strerror : ℕ → String
  pub gai_strerror : ℤ → String

-- What a class declares: the class it derives from, where it is one of these, and `what()`.
pub record Declaration : Type 0 where
  pub derives : Option Class
  pub what : Messages → String

abbrev pub base_declaration : Declaration
base_declaration = record { derives = none; what = λ _. "unknown metasys exception" }

abbrev pub system_declaration : Declaration
system_declaration = record {
  derives = some base_exception;
  what = λ _. "generic system metasys exception";
}

abbrev pub errno_declaration : ℕ → Declaration
errno_declaration err = record {
  derives = some system_exception;
  what = λ texts. texts.strerror err;
}

abbrev pub network_declaration : Declaration
network_declaration = record {
  derives = some system_exception;
  what = λ _. "generic network metasys exception";
}

abbrev pub resolve_declaration : ℤ → Declaration
resolve_declaration ret = record {
  derives = some network_exception;
  what = λ texts. texts.gai_strerror ret;
}

abbrev pub declared : Class → Declaration
declared base_exception = base_declaration
declared system_exception = system_declaration
declared network_exception = network_declaration
declared (errno_class err) = errno_declaration err
declared (resolve_class ret) = resolve_declaration ret

-- The object that a `throw` of the library makes, and the call of its virtual `what()`.
abbrev pub class_of : Exception → Class
class_of (errno_exception err) = errno_class err
class_of (resolve_exception ret) = resolve_class ret

abbrev pub message : Messages → Exception → String
message texts e = (declared (class_of e)).what texts

-- `c` is `d`, or derives from a class that is.
pub data IsA : Class → Class → Type 0 where
  same : {c : Class} → IsA c c
  derived : {c d : Class} (b : Class) → (declared c).derives ≡ some b → IsA b d → IsA c d

abbrev pub is_same : Class → Class → Bool
is_same base_exception base_exception = true
is_same system_exception system_exception = true
is_same network_exception network_exception = true
is_same (errno_class a) (errno_class b) = a == b
is_same (resolve_class a) (resolve_class b) = a ==ℤ b
is_same c d = false

abbrev pub is_a_within : ℕ → Class → Class → Bool
is_a_within zero c d = is_same c d
is_a_within (suc n) c d =
    is_same c d || elim (declared c).derives [ some b ↦ is_a_within n b d | none ↦ false ]

-- The longest chain has three derivations.
abbrev pub is_a : Class → Class → Bool
is_a c d = is_a_within 3 c d

-- `try { ... } catch (const C &e) { handler }`
unfoldable pub catch_as : {A : Type 0} → Class → (Exception → M A) → Outcome A → Outcome A
catch_as c handler (thrown e s) = if is_a (class_of e) c then handler e s else thrown e s
catch_as c handler o = o
