-- ===== src/Meta/StaticOptional/Laws.antt =====
-- What a disabled value leaves out.
use metasys.Base.{◌≡◌, refl, Bool, true, false, if◌then◌else◌}
use metasys.Machine.{M, and_then, ◌>>=◌, Machine, done}
use metasys.Meta.StaticOptional.{StaticOptional, construct_invoking, enabled, invoke}

-- A function that makes the value and one that uses it run one after the other where the value is
-- enabled, and neither runs where it is not.
pub invoke-construct_invoking :
    (enable : Bool) {A : Type 0} (func : M A) (after_it : A → M (Unit {0})) (s : Machine)
    → (construct_invoking enable func >>= invoke enable after_it) s
      ≡ (if enabled enable then and_then (func s) after_it else done tt s)
unfolding StaticOptional construct_invoking invoke enabled
invoke-construct_invoking true func after_it s = refl
invoke-construct_invoking false func after_it s = refl
