-- ===== src/Meta/AutoHolder.antt =====
-- include/metasys/meta/AutoHolder.hxx: the result of a function, also where that is `void`.

use metasys.Base.{Bool, true, false}
use metasys.Machine.{M, pure, ◌>>◌}

-- The type that the function returns: `void` or another.
pub data Result : Type 1 where
  void : Result
  of : Type 0 → Result

-- `AutoHolder<T>`: the `_value`, and nothing for `void`.
unfoldable pub AutoHolder : Result → Type 0
AutoHolder void = Unit {0}
AutoHolder (of A) = A

-- `AutoHolder(Function &&func, Args && ... args)`, where `func` has its arguments: it is invoked in
-- both cases.
unfoldable pub construct : (t : Result) → (func : M (AutoHolder t)) → M (AutoHolder t)
unfolding AutoHolder
construct void func = func >> pure tt
construct (of A) func = func

unfoldable pub isvoid : Result → Bool
isvoid void = true
isvoid (of A) = false

-- `value()`, which `AutoHolder<void>` does not have.
unfoldable pub value : {A : Type 0} → AutoHolder (of A) → A
unfolding AutoHolder
value h = h
