-- ===== src/Sched/EpollDescriptor.antt =====
-- include/metasys/sched/EpollDescriptor.hxx: an epoll instance is a `ClosingDescriptor`. The loop of
-- `retry` takes fuel, one unit for each call of epoll_wait(2).
pub mod Laws
use metasys.Base.{
  ℕ, zero, suc, ◌^◌, not, [], ◌∷◌, ◌==◌, if◌then◌else◌, minus_one, is_neg, to_size, ℤ, pos,
}
use metasys.Machine.{
  Addr, Kernel, Call, errno_not_in, M, pure, ◌>>=◌, ◌>>◌, when, assert, after, call, done,
  out_of_fuel, eperm, enoent, eintr, ebadf, efault, eexist, einval, eloop,
}
use metasys.Sys.FileDescriptor
use metasys.Sys.ClosingDescriptor
use metasys.Sys.ClosingDescriptor.{no_arguments, number, rvalue}
use metasys.Sys.SystemException.{throw_errno}

-- EPOLL_CTL_ADD, EPOLL_CTL_DEL, EPOLL_CTL_MOD and EPOLLEXCLUSIVE of <sys/epoll.h>.
abbrev pub epoll_ctl_add : ℤ
epoll_ctl_add = pos 1

abbrev pub epoll_ctl_del : ℤ
epoll_ctl_del = pos 2

abbrev pub epoll_ctl_mod : ℤ
epoll_ctl_mod = pos 3

abbrev pub epollexclusive : ℕ
epollexclusive = 2 ^ 28

unfoldable pub throwcreate : {A : Type 0} → M A
unfolding throw_errno
throwcreate = errno_not_in (einval ∷ []) >> throw_errno

unfoldable pub throwctl : {A : Type 0} → M A
unfolding throw_errno
throwctl =
    errno_not_in (ebadf ∷ eexist ∷ einval ∷ epollexclusive ∷ eloop ∷ enoent ∷ eperm ∷ [])
    >> throw_errno

unfoldable pub throwwait : {A : Type 0} → M A
unfolding throw_errno
throwwait = errno_not_in (ebadf ∷ efault ∷ einval ∷ []) >> throw_errno

-- `EpollDescriptor()`, `EpollDescriptor(int)` and `EpollDescriptor(FileDescriptor &&)`
unfoldable pub construct : Addr → M (Unit {0})
unfolding ClosingDescriptor.construct
construct this = ClosingDescriptor.construct no_arguments this

unfoldable pub construct_from : ℤ → Addr → M (Unit {0})
unfolding ClosingDescriptor.construct
construct_from fd this = ClosingDescriptor.construct (number fd) this

unfoldable pub construct_taking : (this other : Addr) → M (Unit {0})
unfolding ClosingDescriptor.construct
construct_taking this other = ClosingDescriptor.construct (rvalue other) this

module _ (k : Kernel) where
  unfoldable pub create_with : {B : Type 0} → (ℤ → M B) → Addr → M B
  unfolding FileDescriptor.valid FileDescriptor.reset FileDescriptor.value
  create_with handler this = do
    ok ← FileDescriptor.valid this
    assert (not ok)
    fd ← call k (Call.epoll_create (pos 1))
    FileDescriptor.reset fd this
    ret ← FileDescriptor.value this
    handler ret

  unfoldable pub create : Addr → M (Unit {0})
  unfolding create_with throwcreate
  create this = create_with (λ ret. when (is_neg ret) throwcreate) this

  -- `createinit(handler)`, with the result at `this`
  unfoldable pub createinit_with : {B : Type 0} → (ℤ → M B) → Addr → M (Unit {0})
  unfolding FileDescriptor.construct_from
  createinit_with handler this = do
    fd ← call k (Call.epoll_create (pos 1))
    handler fd
    FileDescriptor.construct_from fd this

  unfoldable pub createinit : Addr → M (Unit {0})
  unfolding createinit_with throwcreate
  createinit this = createinit_with (λ ret. when (is_neg ret) throwcreate) this

  unfoldable pub ctl_with : {B : Type 0} → ℤ → ℤ → Addr → (ℤ → M B) → Addr → M B
  unfolding FileDescriptor.valid FileDescriptor.value
  ctl_with op fd event handler this = do
    ok ← FileDescriptor.valid this
    assert ok
    epfd ← FileDescriptor.value this
    ret ← call k (Call.epoll_ctl epfd op fd event)
    handler ret

  unfoldable pub ctl : ℤ → ℤ → Addr → Addr → M (Unit {0})
  unfolding ctl_with throwctl
  ctl op fd event this = ctl_with op fd event (λ ret. when (is_neg ret) throwctl) this

  -- `ctl(op, const FileDescriptor &fd, ...)`
  unfoldable pub ctl_on : ℤ → Addr → Addr → Addr → M (Unit {0})
  unfolding ctl FileDescriptor.value
  ctl_on op other event this = do fd ← FileDescriptor.value other; ctl op fd event this

  unfoldable pub add : ℤ → Addr → Addr → M (Unit {0})
  unfolding ctl
  add fd event this = ctl epoll_ctl_add fd event this

  unfoldable pub mod_event : ℤ → Addr → Addr → M (Unit {0})
  unfolding ctl
  mod_event fd event this = ctl epoll_ctl_mod fd event this

  unfoldable pub del : ℤ → Addr → Addr → M (Unit {0})
  unfolding ctl
  del fd event this = ctl epoll_ctl_del fd event this

  -- `wait(events, maxevents, timeout, handler)`
  unfoldable pub wait_with : {B : Type 0} → Addr → ℕ → ℤ → (ℤ → M B) → Addr → M B
  unfolding FileDescriptor.valid FileDescriptor.value
  wait_with events maxevents timeout handler this = do
    ok ← FileDescriptor.valid this
    assert ok
    epfd ← FileDescriptor.value this
    ret ← call k (Call.epoll_wait epfd events maxevents timeout)
    handler ret

  -- `wait(events, maxevents, handler)`
  unfoldable pub wait_forever_with : {B : Type 0} → Addr → ℕ → (ℤ → M B) → Addr → M B
  unfolding wait_with
  wait_forever_with events maxevents handler this =
      wait_with events maxevents minus_one handler this

  -- A failure that is neither EINTR nor asserted away falls through to the return.
  unfoldable pub wait_loop : ℕ → ℤ → Addr → ℕ → ℤ → M ℕ
  unfolding to_size
  wait_loop zero epfd events maxevents timeout s = out_of_fuel s
  wait_loop (suc fuel) epfd events maxevents timeout s =
      let r = k s.trace (Call.epoll_wait epfd events maxevents timeout) in
      let s' = after s (Call.epoll_wait epfd events maxevents timeout) r in
      let again = wait_loop fuel epfd events maxevents timeout s' in
      if is_neg r.ret
      then (if r.errno == eintr
          then again
          else (errno_not_in (ebadf ∷ efault ∷ einval ∷ []) >> pure (to_size r.ret)) s')
      else done (to_size r.ret) s'

  -- `wait(events, maxevents, timeout)`
  unfoldable pub wait : ℕ → Addr → ℕ → ℤ → Addr → M ℕ
  unfolding FileDescriptor.valid FileDescriptor.value wait_loop
  wait fuel events maxevents timeout this = do
    ok ← FileDescriptor.valid this
    assert ok
    epfd ← FileDescriptor.value this
    wait_loop fuel epfd events maxevents timeout

  -- `wait(EpollEvent<D> *events, maxevents, ...)`: the array, seen as one of `struct epoll_event`.
  unfoldable pub wait_typed : ℕ → (events : Addr) → ℕ → ℤ → Addr → M ℕ
  unfolding wait
  wait_typed fuel events maxevents timeout this = wait fuel events maxevents timeout this

  -- `wait(Container *dest, timeout)`, for the `data()` and the `size()` of the container.
  unfoldable pub wait_into : ℕ → (cells : Addr) → (size : ℕ) → ℤ → Addr → M ℕ
  unfolding wait
  wait_into fuel cells size timeout this = wait fuel cells size timeout this
