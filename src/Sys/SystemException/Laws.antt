-- ===== src/Sys/SystemException/Laws.antt =====
-- What `throwErrno` makes of an error number.
use metasys.Base.{ℕ, ◌≡◌, refl, ◌∙◌, true, false, List, [], ◌∷◌, arith, if◌then◌else◌, elem, pos}
use metasys.Machine.{errno_not_in, and_then, Machine, errno_exception, aborted, thrown, stopped}
use metasys.Sys.SystemException.{cases, switch, throw_errno_of, throw_errno}

switch_cases :
    {A : Type 0} (err : ℕ) (cs : List ℕ) (s : Machine)
    → switch {A = A} (pos err) cs s
      ≡ (if elem err cs then thrown (errno_exception err) s else stopped aborted s)
unfolding switch
switch_cases err [] s = refl
switch_cases {A} err (c ∷ cs) s = ground (arith, switch_cases {A = A} err cs s)

-- `throwErrno` never returns: it throws the exception of its own number where the switch names the
-- number, and aborts the process for every other one. It makes no call and changes nothing.
pub throw_errno_of_lem :
    {A : Type 0} (err : ℕ) (s : Machine)
    → throw_errno_of {A = A} (pos err) s
      ≡ (if elem err cases then thrown (errno_exception err) s else stopped aborted s)
unfolding throw_errno_of
throw_errno_of_lem err s = switch_cases err cases s

-- The usual error handler, where `errno` is none of the refused numbers and the switch names it.
pub checked_throw_lem :
    {A : Type 0} (refused : List ℕ) (s : Machine)
    → elem s.errno refused ≡ false
    → elem s.errno cases ≡ true
    → and_then (errno_not_in refused s) (λ _. throw_errno {A = A})
      ≡ thrown (errno_exception s.errno) s
unfolding throw_errno
checked_throw_lem refused s free listed =
    let thrown_by = throw_errno_of_lem s.errno s in rw free (thrown_by ∙ rw listed)
