-- ===== src/Machine/Calls.antt =====
-- The calls that the wrappers make into the C library, with the arguments that they pass. None of
-- that library is defined here: what a call answers is up to the `Kernel`.
use metasys.Base.{ℕ, ℤ, List}

-- The address of an object, of a buffer or of a string.
abbrev pub Addr : Type 0
Addr = ℕ

-- What the code puts into `struct addrinfo hints`; `rest` stands for the fields that it leaves
-- uninitialised.
pub record Hints : Type 0 where
  pub flags : ℤ
  pub family : ℤ
  pub socktype : ℤ
  pub protocol : ℤ
  pub rest : List ℤ

pub data Call : Type 0 where
  close : (fd : ℤ) → Call
  read : (fd : ℤ) → (dest : Addr) → (len : ℕ) → Call
  write : (fd : ℤ) → (src : Addr) → (len : ℕ) → Call
  pipe : Call
  pipe2 : (flags : ℤ) → Call
  socket : (domain : ℤ) → (type : ℕ) → (protocol : ℤ) → Call
  setsockopt : (fd level optname optval : ℤ) → (optlen : ℕ) → Call
  setsockopt_at : (fd level optname : ℤ) → (optval : Addr) → (optlen : ℕ) → Call
  bind : (fd : ℤ) → (addr : Addr) → (len : ℕ) → Call
  listen : (fd backlog : ℤ) → Call
  accept4 : (fd : ℤ) → (addr : Addr) → (flags : ℤ) → Call
  connect : (fd : ℤ) → (addr : Addr) → (len : ℕ) → Call
  disconnect : (fd : ℤ) → Call
  getaddrinfo : (node service : Addr) → (hints : Hints) → Call
  freeaddrinfo : (res : ℤ) → Call
  epoll_create : (size : ℤ) → Call
  epoll_ctl : (epfd op fd : ℤ) → (event : Addr) → Call
  epoll_wait : (epfd : ℤ) → (events : Addr) → (maxevents : ℕ) → (timeout : ℤ) → Call
  opendir : (name : Addr) → Call
  fdopendir : (fd : ℤ) → Call
  closedir : (dir : ℤ) → Call
  readdir : (dir : ℤ) → Call
  fstatat : (fd : ℤ) → (path : Addr) → (buf : Addr) → (flags : ℤ) → Call
  stat : (path buf : Addr) → Call
  fstat : (fd : ℤ) → (buf : Addr) → Call
  lstat : (path buf : Addr) → Call
  fork : Call
  waitpid : (pid : ℤ) → (wstatus : Addr) → (options : ℤ) → Call
  kill : (pid sig : ℤ) → Call
  pthread_create : (attr routine arg : Addr) → Call
  pthread_join : (tid : ℤ) → Call
  pthread_detach : (tid : ℤ) → Call
  pthread_cancel : (tid : ℤ) → Call
  pthread_testcancel : Call
  pthread_setcancelstate : (state : ℤ) → Call
  pthread_mutex_destroy : (mutex : Addr) → Call
  pthread_mutex_lock : (mutex : Addr) → Call
  pthread_mutex_trylock : (mutex : Addr) → Call
  pthread_mutex_unlock : (mutex : Addr) → Call

-- `ret` is the value returned, `errno` what `errno` holds after the call, and `out` the values
-- written through the call's pointer arguments.
pub record Reply : Type 0 where
  pub ret : ℤ
  pub errno : ℕ
  pub out : List ℤ

abbrev pub Event : Type 0
Event = Call × Reply

-- The calls made so far, newest first.
abbrev pub History : Type 0
History = List Event

-- Any operating system: an answer to each call, which may depend on all that went before.
abbrev pub Kernel : Type 0
Kernel = History → Call → Reply
