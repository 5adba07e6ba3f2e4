-- ===== src/Meta/StaticOptional.antt =====
-- include/metasys/meta/StaticOptional.hxx: a value that is there or not by a compile-time test. The two
-- specialisations are the two cases of the test.
pub mod Laws
use metasys.Base.{Bool, true, false}
use metasys.Machine.{M, pure}

-- `StaticOptional<Enable, T>`: the `_value`, or nothing.
unfoldable pub StaticOptional : Bool → Type 0 → Type 0
StaticOptional true A = A
StaticOptional false A = Unit {0}

-- `StaticOptional(Args && ... args)`, where `make` is what the constructor of `T` makes of the
-- arguments. Without a value, `T` is not constructed.
unfoldable pub construct :
    (enable : Bool) → {A : Type 0} → (make : M A) → M (StaticOptional enable A)
unfolding StaticOptional
construct true make = make
construct false make = pure tt

-- `StaticOptional(Function &&func, Args && ... args)`, where `func` has its arguments.
unfoldable pub construct_invoking :
    (enable : Bool) → {A : Type 0} → (func : M A) → M (StaticOptional enable A)
unfolding StaticOptional
construct_invoking true func = func
construct_invoking false func = pure tt

unfoldable pub enabled : (enable : Bool) → Bool
enabled true = true
enabled false = false

-- `invoke(Function &&func, Args && ... args)`
unfoldable pub invoke :
    (enable : Bool)
    → {A : Type 0} → (func : A → M (Unit {0})) → StaticOptional enable A
    → M (Unit {0})
unfolding StaticOptional
invoke true func o = func o
invoke false func o = pure tt
