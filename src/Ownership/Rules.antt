-- ===== src/Ownership/Rules.antt =====
-- The rules of Sys/Safety for the ownership of descriptors: `Post Q` says that `Q` holds where a
-- function returns, and that the descriptors are owned where it throws. Where the process is stopped,
-- no closed descriptor was closed again up to there.
use metasys.Base.{ℕ, List}
use metasys.Machine.{errno_not_in, M, and_then, ended, unwound, Machine, Outcome}
use metasys.Sys.Safety
use metasys.Sys.Safety.{Safe-and_then, Safe-mono, Safe-unwound, Safe-ended, Safe-throw}
use metasys.Sys.SystemException.{throw_errno}
use metasys.Ownership.{IsClean, IsOwned}

abbrev pub Clean : Machine → Type 0
Clean s = IsClean s.trace

IsOwned-Clean : (s : Machine) → IsOwned s → Clean s
IsOwned-Clean s v = v.clean

abbrev pub Post : {A : Type 0} → (A → Machine → Type 0) → Outcome A → Type 0
Post Q o = Safety.Safe IsOwned Clean Q o

pub Post-and_then :
    {A B : Type 0} (P : A → Machine → Type 0) (Q : B → Machine → Type 0) (o : Outcome A)
    (f : A → M B)
    → Post P o
    → ((a : A) (s : Machine) → P a s → Post Q (f a s))
    → Post Q (and_then o f)
Post-and_then = Safe-and_then IsOwned Clean

pub Post-unwound :
    {A : Type 0} (Q : A → Machine → Type 0) (destroy : M (Unit {0})) (o : Outcome A)
    → ((s : Machine) → IsOwned s → Post {A = Unit {0}} (λ _. IsOwned) (destroy s))
    → Post Q o
    → Post Q (unwound destroy o)
Post-unwound = Safe-unwound IsOwned Clean

pub Post-ended :
    {A : Type 0} (Q : A → Machine → Type 0) (o : Outcome A) → Post Q o → Post Q (ended o)
Post-ended = Safe-ended IsOwned Clean IsOwned-Clean

pub Post-throw :
    {A : Type 0} (Q : A → Machine → Type 0) (refused : List ℕ) (s : Machine)
    → IsOwned s
    → Post Q (and_then (errno_not_in refused s) λ _. throw_errno)
Post-throw = Safe-throw IsOwned Clean IsOwned-Clean

pub Post-mono :
    {A : Type 0} (P Q : A → Machine → Type 0) (o : Outcome A)
    → Post P o
    → ((a : A) (s : Machine) → P a s → Q a s)
    → Post Q o
Post-mono = Safe-mono IsOwned Clean
