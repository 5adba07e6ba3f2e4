-- ===== src/Sched/Pthread/Cast.antt =====
-- include/metasys/sched/Pthread.hxx, `PtrCast` and `_wrapper`: an argument of any type that is no
-- larger than a pointer travels through the `void *` of a thread routine. A value is the number
-- that its bytes make in the byte order of the machine, and a pointer has 8 bytes.
pub mod Laws
use metasys.Base.{ℕ, ◌+◌, ◌-◌, ◌*◌, ◌/◌, ◌%◌, ◌^◌, Bool, ◌&&◌, ◌||◌, ◌==◌, if◌then◌else◌, leb}
use metasys.Machine.{M}

-- `PtrCast<T>`: the union after `.value` was written, read as `.ptr`. `junk` is what the bytes hold
-- that `T` does not cover.
unfoldable pub ptr_cast : (little : Bool) → (size junk value : ℕ) → ℕ
ptr_cast little size junk value =
    if little then value + junk * 2 ^ (8 * size) else value * 2 ^ (8 * (8 - size)) + junk

-- `value_cast<T>(void *ptr)`: the same union after `.ptr` was written, read as `.value`.
unfoldable pub value_cast : (little : Bool) → (size ptr : ℕ) → ℕ
value_cast little size ptr =
    if little then ptr % 2 ^ (8 * size) else ptr / 2 ^ (8 * (8 - size)) % 2 ^ (8 * size)

-- `PointerTransferable<T>`
abbrev pub is_pointer_transferable : (size : ℕ) → Bool
is_pointer_transferable size = leb size 8

-- `PthreadRoutine<T>`, of a type that may be called with a `PthreadRoutineArg` or with nothing.
abbrev pub is_routine : (size : ℕ) → (takes_arg takes_nothing : Bool) → Bool
is_routine size takes_arg takes_nothing = (size == 8) && (takes_arg || takes_nothing)

-- `InvokeCompatible<T, Ret, Args ...>`, of a type that may be called with the arguments and then
-- returns a `Ret`, or of any result for a `Ret` of `void`.
abbrev pub is_invoke_compatible : (invocable returns_ret is_void : Bool) → Bool
is_invoke_compatible invocable returns_ret is_void = invocable && (returns_ret || is_void)

-- `PthreadNoArgCall<Routine, Ret>`
abbrev pub is_no_arg_call : (size : ℕ) → (takes_arg takes_nothing returns_ret is_void : Bool) → Bool
is_no_arg_call size takes_arg takes_nothing returns_ret is_void =
    is_routine size takes_arg takes_nothing
    && is_invoke_compatible takes_nothing returns_ret is_void

-- `PthreadArgCall<Routine, Ret, Arg>`, where `accepts` says whether it may be called with an `Arg`.
abbrev pub is_arg_call :
    (size arg_size : ℕ) → (takes_arg takes_nothing accepts returns_ret is_void : Bool) → Bool
is_arg_call size arg_size takes_arg takes_nothing accepts returns_ret is_void =
    is_routine size takes_arg takes_nothing
    && (is_pointer_transferable arg_size && is_invoke_compatible accepts returns_ret is_void)

-- `_wrapper<Method, Obj>(void *arg)`; for a `JoinRet` of `void` the result is dropped.
unfoldable pub wrapper_obj :
    {B : Type 0} → (little : Bool) → (size : ℕ) → (method : ℕ → M B) → (arg : ℕ) → M B
unfolding value_cast
wrapper_obj little size method arg = method (value_cast little size arg)

-- `_wrapper<Method>(void *)`
unfoldable pub wrapper_only : {B : Type 0} → (method : M B) → (arg : ℕ) → M B
wrapper_only method arg = method
