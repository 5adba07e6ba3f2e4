-- ===== src/Io/Pipe.antt =====
-- include/metasys/io/Pipe.hxx: `_fds[0]` and `_fds[1]` of the pipe at `this` are the cells `this` and
-- `this + 1`. A `ReaderProxy` or `WriterProxy` is a temporary that holds a copy of one descriptor, so
-- a call on it is a call on that value.
pub mod Laws
use metasys.Base.{◌+◌, Bool, not, [], ◌∷◌, minus_one, is_neg, ◌==ℤ◌, ℤ, pos}
use metasys.Machine.{
  Addr, Kernel, Call, errno_not_in, M, pure, ◌>>=◌, ◌>>◌, noexcept, owning, when, assert, get, put,
  syscall, call, store_out, efault,
}
use metasys.Sys.FileDescriptor.{is_valid_fd, closethrow}
use metasys.Sys.SystemException.{throw_errno}

-- `Pipe()`
unfoldable pub construct : Addr → M (Unit {0})
construct this = put this minus_one >> put (this + 1) minus_one

-- `Pipe(noinit_t)`: the cells keep what the memory held.
abbrev pub construct_noinit : Addr → M (Unit {0})
construct_noinit this = pure tt

-- `Pipe(Pipe &&other)`
unfoldable pub move_construct : (this other : Addr) → M (Unit {0})
move_construct this other = do
  r ← get other
  put this r
  w ← get (other + 1)
  put (this + 1) w
  put other minus_one
  put (other + 1) minus_one

-- The descriptor in the proxy that `rend()` returns, and in that of `wend()`.
abbrev pub rend : Addr → M ℤ
rend this = get this

abbrev pub wend : Addr → M ℤ
wend this = get (this + 1)

-- `rmove()`, with the returned `Reader` at `dest`.
unfoldable pub rmove : (this dest : Addr) → M (Unit {0})
rmove this dest = do tmp ← get this; put this minus_one; put dest tmp

-- `wmove()`, with the returned `Writer` at `dest`.
unfoldable pub wmove : (this dest : Addr) → M (Unit {0})
wmove this dest = do tmp ← get (this + 1); put (this + 1) minus_one; put dest tmp

unfoldable pub throwopen : {A : Type 0} → M A
unfolding throw_errno
throwopen = errno_not_in (efault ∷ []) >> throw_errno

abbrev is_nonzero : ℤ → Bool
is_nonzero ret = not (ret ==ℤ pos 0)

module _ (k : Kernel) where
  -- `close(handler)` and `close()` of a proxy that holds `fd`.
  unfoldable pub close_proxy_with : {B : Type 0} → (ℤ → M B) → ℤ → M B
  close_proxy_with handler fd = do
    assert (is_valid_fd fd)
    ret ← call k (Call.close fd)
    handler ret

  unfoldable pub close_proxy : ℤ → M (Unit {0})
  unfolding close_proxy_with closethrow
  close_proxy fd = close_proxy_with (λ ret. when (is_neg ret) closethrow) fd

  -- `~Pipe()`
  unfoldable pub destroy : Addr → M (Unit {0})
  unfolding close_proxy_with
  destroy this = noexcept (do
    r ← rend this
    when (is_valid_fd r) (close_proxy_with (λ _. pure tt) r)
    w ← wend this
    when (is_valid_fd w) (close_proxy_with (λ _. pure tt) w))

  -- `operator=(Pipe &&other)`
  unfoldable pub move_assign : (this other : Addr) → M (Unit {0})
  unfolding close_proxy
  move_assign this other = do
    r ← rend this
    or ← rend other
    ow ← wend other
    when (is_valid_fd r) (assert (not (r ==ℤ ow)) >> when (not (r ==ℤ or)) (close_proxy r))
    w ← wend this
    when (is_valid_fd w) (assert (not (w ==ℤ or)) >> when (not (w ==ℤ ow)) (close_proxy w))
    new_r ← get other
    put this new_r
    new_w ← get (other + 1)
    put (this + 1) new_w
    put other minus_one
    put (other + 1) minus_one

  -- `open(handler)` where `c` is `Call.pipe`: the call fills the two cells at `this`.
  unfoldable pub open_with : {B : Type 0} → Call → (ℤ → M B) → Addr → M B
  open_with c handler this = do
    r ← rend this
    assert (not (is_valid_fd r))
    w ← wend this
    assert (not (is_valid_fd w))
    reply ← syscall k c
    store_out this reply.out
    handler reply.ret

  -- `open()` where `c` is `Call.pipe`
  unfoldable pub open_pipe : Call → Addr → M (Unit {0})
  unfolding open_with throwopen
  open_pipe c this = open_with c (λ ret. when (is_nonzero ret) throwopen) this

  -- `openinit(handler)` where `c` is `Call.pipe`: the local `ret` is the result itself, at
  -- `this`, and holds what the memory held; its destructor runs if the handler throws.
  unfoldable pub openinit_with : Call → (ℤ → M (Unit {0})) → Addr → M (Unit {0})
  unfolding destroy
  openinit_with c handler this =
      construct_noinit this
      >> owning (destroy this) (do reply ← syscall k c; store_out this reply.out; handler reply.ret)

  -- `openinit()` where `c` is `Call.pipe`
  unfoldable pub openinit : Call → Addr → M (Unit {0})
  unfolding destroy throwopen
  openinit c this =
      construct_noinit this
      >> owning (destroy this)
          (do reply ← syscall k c; store_out this reply.out; when (is_nonzero reply.ret) throwopen)

  -- The forms with flags: the same bodies around pipe2(2).
  unfoldable pub open_flags_with : {B : Type 0} → (flags : ℤ) → (ℤ → M B) → Addr → M B
  unfolding open_with
  open_flags_with flags handler this = open_with (Call.pipe2 flags) handler this

  unfoldable pub open_flags : (flags : ℤ) → Addr → M (Unit {0})
  unfolding open_pipe
  open_flags flags this = open_pipe (Call.pipe2 flags) this

  unfoldable pub openinit_flags_with : (flags : ℤ) → (ℤ → M (Unit {0})) → Addr → M (Unit {0})
  unfolding openinit_with
  openinit_flags_with flags handler this = openinit_with (Call.pipe2 flags) handler this

  unfoldable pub openinit_flags : (flags : ℤ) → Addr → M (Unit {0})
  unfolding openinit
  openinit_flags flags this = openinit (Call.pipe2 flags) this
