-- ===== src/Ownership.antt =====
-- Who owns a file descriptor: the specification that the closing descriptors of include/metasys/sys,
-- net and sched implement together. `is_open` reads from the history of calls which descriptors the
-- process has open; it is stated from the manual pages and not from the code.
pub mod Rules
mod Steps
mod Library
pub mod Statements
pub mod Scripts
use metasys.Base.{
  ◌≡◌, ◌≢◌, Bool, true, false, not, ◌&&◌, ◌||◌, Option, none, some, List, [], ◌∷◌, if◌then◌else◌,
  is_neg, ◌==ℤ◌, ℤ, pos,
}
use metasys.Machine.{Addr, History, Kernel, Call, Reply, Machine}

-- The calls that return a new descriptor.
abbrev pub opens : Call → Bool
opens (Call.socket domain type protocol) = true
opens (Call.accept4 fd addr flags) = true
opens (Call.epoll_create size) = true
opens c = false

-- close(2) frees the descriptor, also where it reports an error.
abbrev pub closes : Call → Option ℤ
closes (Call.close fd) = some fd
closes c = none

-- The calls that store two new descriptors.
abbrev pub pairs : Call → Bool
pairs Call.pipe = true
pairs (Call.pipe2 flags) = true
pairs c = false

-- The call may make a descriptor, and with this reply it has made some.
abbrev pub creates : Call → Bool
creates c = opens c || pairs c

abbrev pub has_made : Call → Reply → Bool
has_made c r = if opens c then not (is_neg r.ret) else pairs c && (r.ret ==ℤ pos 0)

-- `fd` is one of the first two values of the list.
abbrev pub in_pair : ℤ → List ℤ → Bool
in_pair fd [] = false
in_pair fd (a ∷ []) = a ==ℤ fd
in_pair fd (a ∷ b ∷ _) = (a ==ℤ fd) || (b ==ℤ fd)

abbrev pub made : Call → Reply → ℤ → Bool
made c r fd = if opens c then r.ret ==ℤ fd else not (is_neg fd) && in_pair fd r.out

abbrev pub is_open_after : Call → Reply → Bool → ℤ → Bool
is_open_after c r before fd = elim (closes c) [
  | some d ↦ if d ==ℤ fd then false else before
  | none ↦ if has_made c r && made c r fd then true else before
]

unfoldable pub is_open : History → ℤ → Bool
is_open [] fd = false
is_open ((c, r) ∷ h) fd = is_open_after c r (is_open h fd) fd

-- Every close(2) was of a descriptor that was open.
pub data IsClean : History → Type 0 where
  start : IsClean []
  other : {c : Call} {r : Reply} {h : History} → closes c ≡ none → IsClean h → IsClean ((c, r) ∷ h)
  closing :
      {c : Call} {r : Reply} {h : History} (fd : ℤ)
      → closes c ≡ some fd
      → is_open h fd ≡ true
      → IsClean h
      → IsClean ((c, r) ∷ h)

-- open(2): "The file descriptor returned by a successful call will be the lowest-numbered file
-- descriptor not currently open for the process", as do socket(2), accept(2) and epoll_create(2).
abbrev pub IsFresh : Kernel → Type 0
IsFresh k =
    (h : History) (c : Call)
    → opens c ≡ true
    → is_neg ((k h c).ret) ≡ false
    → is_open h ((k h c).ret) ≡ false

-- Two different descriptors, neither of them open before.
pub record IsNewPair (h : History) (r w : ℤ) : Type 0 where
  pub read_end : is_neg r ≡ false
  pub write_end : is_neg w ≡ false
  pub apart : r ≢ w
  pub read_free : is_open h r ≡ false
  pub write_free : is_open h w ≡ false

-- pipe(2): on success it returns zero and stores two new descriptors; on error "pipefd is left
-- unchanged".
pub record IsPiping (k : Kernel) : Type 0 where
  pub success :
      (h : History) (c : Call)
      → pairs c ≡ true
      → ((k h c).ret ==ℤ pos 0) ≡ true
      → (r : ℤ) × (w : ℤ) × ((k h c).out ≡ r ∷ w ∷ []) × IsNewPair h r w
  pub failure :
      (h : History) (c : Call) → pairs c ≡ true → ((k h c).ret ==ℤ pos 0) ≡ false → (k h c).out ≡ []

-- Objects and descriptors match one to one: an object with a descriptor owns an open one alone, an
-- open descriptor has its object, and nothing was closed that was not open.
pub record IsOwned (s : Machine) : Type 0 where
  pub sole : (a b : Addr) → is_neg (s.mem a) ≡ false → s.mem a ≡ s.mem b → a ≡ b
  pub live : (a : Addr) → is_neg (s.mem a) ≡ false → is_open s.trace (s.mem a) ≡ true
  pub kept : (fd : ℤ) → is_open s.trace fd ≡ true → (a : Addr) × (s.mem a ≡ fd)
  pub clean : IsClean s.trace
