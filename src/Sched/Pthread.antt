-- ===== src/Sched/Pthread.antt =====
-- include/metasys/sched/Pthread.hxx: `_tid` of the object at `this` is the cell `this`, and
-- `INVALID` is 0. A routine is an address, as is an argument that has been cast to a pointer; the
-- addresses of the wrappers that the compiler makes of a method are functions of `Pthreads`, with the
-- comparison of the C library.
pub mod Laws
pub mod Cast
use metasys.Base.{ℕ, ◌≡◌, Bool, not, List, [], ◌∷◌, if◌then◌else◌, ◌==ℤ◌, ℤ, pos}
use metasys.Machine.{
  Addr, Kernel, Call, ret_not_in, M, pure, ◌>>=◌, ◌>>◌, noexcept, stop, when, assert, get, put,
  syscall, call, store_out, terminated, esrch, einval, edeadlk,
}
use metasys.Sys.SystemException.{throw_errno_of}
use metasys.Sched.PthreadBehavior
use metasys.Sched.PthreadBehavior.{has_base, has_cancel}

pub record Pthreads : Type 0 where
  pub equal : ℤ → ℤ → ℤ
  pub wrapper_with : Addr → Addr
  pub wrapper : Addr → Addr

-- pthread_equal(3): nonzero exactly for the same thread.
abbrev pub IsPthreads : Pthreads → Type 0
IsPthreads p = (a b : ℤ) → (p.equal a b ==ℤ pos 0) ≡ not (a ==ℤ b)

abbrev pub invalid : ℤ
invalid = pos 0

-- The null pointer.
abbrev pub null : Addr
null = 0

-- What a thread is made to run: the four families of `create`.
pub data Target : Type 0 where
  routine_arg : (routine arg : Addr) → Target
  routine_only : (routine : Addr) → Target
  method_obj : (method obj : Addr) → Target
  method_only : (method : Addr) → Target

-- `Pthread()`
unfoldable pub construct : Addr → M (Unit {0})
construct this = put this invalid

-- `Pthread(pthread_t tid)`
unfoldable pub construct_from : ℤ → Addr → M (Unit {0})
construct_from tid this = put this tid

-- `Pthread(Pthread &&other)`
unfoldable pub move_construct : (this other : Addr) → M (Unit {0})
move_construct this other = do tid ← get other; put this tid; put other invalid

-- `reset(pthread_t tid)`
unfoldable pub reset : ℤ → Addr → M ℤ
reset tid this = do tmp ← get this; put this tid; pure tmp

unfoldable pub createthrow : ℤ → M (Unit {0})
unfolding throw_errno_of
createthrow ret = ret_not_in ret (einval ∷ []) >> throw_errno_of ret

unfoldable pub jointhrow : ℤ → M (Unit {0})
jointhrow ret = ret_not_in ret (edeadlk ∷ einval ∷ esrch ∷ [])

unfoldable pub detachthrow : ℤ → M (Unit {0})
detachthrow ret = ret_not_in ret (einval ∷ esrch ∷ [])

unfoldable pub cancelthrow : ℤ → M (Unit {0})
cancelthrow ret = ret_not_in ret (esrch ∷ [])

abbrev is_nonzero : ℤ → Bool
is_nonzero ret = not (ret ==ℤ pos 0)

module _ (p : Pthreads) (k : Kernel) where
  -- `routine_cast(...)` and `ptr_cast(...)` in the bodies of `create`.
  abbrev pub create_call : Addr → Target → Call
  create_call attr (routine_arg routine arg) = Call.pthread_create attr routine arg
  create_call attr (routine_only routine) = Call.pthread_create attr routine null
  create_call attr (method_obj method obj) = Call.pthread_create attr (p.wrapper_with method) obj
  create_call attr (method_only method) = Call.pthread_create attr (p.wrapper method) null

  -- `valid()`
  abbrev pub is_valid : ℤ → Bool
  is_valid tid = p.equal tid invalid ==ℤ pos 0

  unfoldable pub valid : Addr → M Bool
  valid this = do tid ← get this; pure (is_valid tid)

  -- `create(attr, ..., handler)`
  unfoldable pub create_with : {B : Type 0} → Addr → Target → (ℤ → M B) → Addr → M B
  unfolding valid
  create_with attr target handler this = do
    ok ← valid this
    assert (not ok)
    reply ← syscall k (create_call attr target)
    store_out this reply.out
    handler reply.ret

  -- `createinit(attr, ..., handler)`: the local `tid` becomes the result, at `this`, once the handler
  -- has returned.
  unfoldable pub createinit_with : {B : Type 0} → Addr → Target → (ℤ → M B) → Addr → M (Unit {0})
  createinit_with attr target handler this = do
    reply ← syscall k (create_call attr target)
    handler reply.ret
    store_out this reply.out

  -- `create(attr, ...)`
  unfoldable pub create : Addr → Target → Addr → M (Unit {0})
  unfolding create_with reset createthrow
  create attr target this =
      create_with attr target
        (λ ret. when (is_nonzero ret) (do reset invalid this; createthrow ret)) this

  -- `createinit(attr, ...)`
  unfoldable pub createinit : Addr → Target → Addr → M (Unit {0})
  unfolding createinit_with createthrow
  createinit attr target this =
      createinit_with attr target (λ ret. when (is_nonzero ret) (createthrow ret)) this

  -- `create(..., handler)` and `createinit(..., handler)` with the attributes `NULL`, and the same
  -- forms that throw.
  unfoldable pub create_default_with : {B : Type 0} → Target → (ℤ → M B) → Addr → M B
  unfolding create_with
  create_default_with target handler this = create_with null target handler this

  unfoldable pub createinit_default_with : {B : Type 0} → Target → (ℤ → M B) → Addr → M (Unit {0})
  unfolding createinit_with
  createinit_default_with target handler this = createinit_with null target handler this

  unfoldable pub create_default : Target → Addr → M (Unit {0})
  unfolding create
  create_default target this = create null target this

  unfoldable pub createinit_default : Target → Addr → M (Unit {0})
  unfolding createinit
  createinit_default target this = createinit null target this

  -- `join(handler)`; the result is what pthread_join(3) stored for the caller.
  unfoldable pub join_with : {B : Type 0} → (ℤ → M B) → Addr → M (List ℤ)
  unfolding valid
  join_with handler this = do
    ok ← valid this
    assert ok
    tid ← get this
    reply ← syscall k (Call.pthread_join tid)
    handler reply.ret
    put this invalid
    pure reply.out

  -- `join()`
  unfoldable pub join : Addr → M (List ℤ)
  unfolding join_with jointhrow
  join this = noexcept (join_with (λ ret. when (is_nonzero ret) (jointhrow ret)) this)

  -- `detach(handler)`
  unfoldable pub detach_with : {B : Type 0} → (ℤ → M B) → Addr → M B
  unfolding valid
  detach_with handler this = do
    ok ← valid this
    assert ok
    tid ← get this
    ret ← call k (Call.pthread_detach tid)
    put this invalid
    handler ret

  -- `detach()`
  unfoldable pub detach : Addr → M (Unit {0})
  unfolding detach_with detachthrow
  detach this = noexcept (detach_with (λ ret. when (is_nonzero ret) (detachthrow ret)) this)

  -- `cancel(handler)`
  unfoldable pub cancel_with : {B : Type 0} → (ℤ → M B) → Addr → M B
  unfolding valid
  cancel_with handler this = do
    ok ← valid this
    assert ok
    tid ← get this
    ret ← call k (Call.pthread_cancel tid)
    handler ret

  -- `cancel()`
  unfoldable pub cancel : Addr → M (Unit {0})
  unfolding cancel_with cancelthrow
  cancel this = noexcept (cancel_with (λ ret. when (is_nonzero ret) (cancelthrow ret)) this)

  -- `trycancel()`
  unfoldable pub trycancel : Addr → M Bool
  unfolding cancel_with
  trycancel this = noexcept (cancel_with (λ ret. pure (ret ==ℤ pos 0)) this)

  module _ (behavior : ℕ) where
    -- The second half of `_stop()`.
    unfoldable pub stop_base : Addr → M (Unit {0})
    unfolding valid has_base
    stop_base this =
        if has_base behavior PthreadBehavior.terminate
        then (do ok ← valid this; when ok (stop terminated))
        else if has_base behavior PthreadBehavior.detach
        then (do tid ← get this; call k (Call.pthread_detach tid); pure tt)
        else if has_base behavior PthreadBehavior.join
        then (do tid ← get this; syscall k (Call.pthread_join tid); pure tt)
        else pure tt

    -- `_stop()`
    unfoldable pub stop_thread : Addr → M (Unit {0})
    unfolding has_cancel trycancel stop_base
    stop_thread this =
        noexcept (do when (has_cancel behavior) (do trycancel this; pure tt); stop_base this)

    -- `~Pthread()`
    unfoldable pub destroy : Addr → M (Unit {0})
    unfolding stop_thread
    destroy this = stop_thread this

    -- `operator=(Pthread &&other)`
    unfoldable pub move_assign : (this other : Addr) → M (Unit {0})
    unfolding stop_thread
    move_assign this other = noexcept (do
      ours ← get this
      theirs ← get other
      when (not (p.equal ours theirs ==ℤ pos 0)) (stop_thread this)
      tid ← get other
      put this tid
      put other invalid)
