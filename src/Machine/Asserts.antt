-- ===== src/Machine/Asserts.antt =====
-- Runs of `assert (errno != X)`, one after the other. The first that fails ends the process, and
-- nothing else happens in between, so one test on the list of the constants stands for the run.
use metasys.Machine.State.{M, assert}
use metasys.Base.{ℕ, ℤ, pos, List, [], ◌∷◌, Bool, false, not, ◌||◌, elem, ◌==ℤ◌}

abbrev pub errno_not_in : List ℕ → M (Unit {0})
errno_not_in codes s = assert (not (elem s.errno codes)) s

-- `ret` is one of the error numbers of the list.
abbrev pub is_any : ℤ → List ℕ → Bool
is_any ret [] = false
is_any ret (c ∷ cs) = (ret ==ℤ pos c) || is_any ret cs

-- The same for a call that returns the error number.
abbrev pub ret_not_in : ℤ → List ℕ → M (Unit {0})
ret_not_in ret codes = assert (not (is_any ret codes))
