-- ===== src/Ownership/Scripts.antt =====
-- Programs over descriptors keep the ownership of descriptors one to one.
use metasys.Base.{
  ℕ, ◌≡◌, refl, ◌≢◌, inl, inr, true, false, Option, none, some, List, [], ◌∷◌, arith, Bool-cases,
  minus_one, is_neg, ℤ,
}
use metasys.Machine.{Addr, Kernel, M, ◌>>◌, Machine, done}
use metasys.Sys.Safety.{caught, caught-Safe}
use metasys.Sys.ClosingDescriptor
use metasys.Sys.ClosingDescriptor.{rvalue}
use metasys.Ownership.{opens, closes, pairs, is_open, start, IsFresh, IsPiping, IsOwned}
use metasys.Ownership.Steps.{is_open-nonneg, IsOwned-move}
use metasys.Ownership.Rules.{Clean, Post, Post-and_then, Post-mono}
use metasys.Ownership.Library.Closing.{
  IsEmpty, Keeps, destroy-Empties, move_assign-Keeps, bind-Keeps, listen-Keeps, connect-Keeps,
}
use metasys.Ownership.Library.Opening.{
  Fills, open_socket-Keeps, create-Keeps, openinit-Fills, createinit-Fills, accept-Fills,
}
use metasys.Ownership.Library.Servers.{
  close-Keeps, destroy-Keeps, connectinit-Fills, listeninit-Fills,
}
use metasys.Io.Pipe
use metasys.Ownership.Library.Handlers.{connectinit_with-Fills, listeninit_with-Fills}
use metasys.Ownership.Library.Pipes.{
  IsEmptyPipe, IsOwned-ext, discard, destroy_pipe-Empties, open_pipe-Keeps, construct_pipe-Fills,
  rmove-Fills, wmove-Fills, move_construct_pipe-Fills,
}
use metasys.Ownership.Statements.{
  Statement, pipe_call, in_place, in_pipe_place, execute, run, open_socket, create_epoll, openinit,
  createinit, connectinit, listeninit, accept, bind, listen, connect, connectinit_with,
  listeninit_with, open_pipe, construct_pipe, rmove, wmove, move_construct_pipe, destroy_pipe,
  close, move_construct, hand_over, hand_over_to, move_assign, destroy,
}

module _ (k : Kernel) where
  module _ (fresh : IsFresh k) (piping : IsPiping k) where
    in_place-Keeps : (this : Addr) (m : M (Unit {0})) → Fills this m → Keeps (in_place k this m)
    unfolding in_place
    in_place-Keeps this m fill s v =
        Post-and_then (λ _ s'. IsOwned s' × IsEmpty this s') (λ _. IsOwned)
          (ClosingDescriptor.destroy k this s) (λ _. m) (destroy-Empties k this s v)
          (λ _ s' p. fill s' p.0 p.1)

    in_pipe_place-Keeps :
        (this : Addr) (m : M (Unit {0}))
        → ((s : Machine) → IsOwned s → IsEmptyPipe this s → Post (λ _. IsOwned) (m s))
        → Keeps (in_pipe_place k this m)
    unfolding in_pipe_place
    in_pipe_place-Keeps this m fill s v =
        Post-and_then (λ _ s'. IsOwned s' × IsEmptyPipe this s') (λ _. IsOwned)
          ((do Pipe.destroy k this; discard this) s) (λ _. m) (destroy_pipe-Empties k this s v)
          (λ _ s' p. fill s' p.0 p.1)

    pipe_call-pairs :
        (flags : Option ℤ)
        → (pairs (pipe_call flags) ≡ true)
          × (closes (pipe_call flags) ≡ none)
          × (opens (pipe_call flags) ≡ false)
    pipe_call-pairs none = (refl, refl, refl)
    pipe_call-pairs (some flags) = (refl, refl, refl)

    move_construct-Fills :
        (this from : Addr)
        → this ≢ from
        → Fills this (ClosingDescriptor.construct (rvalue from) this)
    unfolding ClosingDescriptor.construct
    move_construct-Fills this from apart s v free =
        IsOwned-ext s _ _ (λ a. ground arith) (IsOwned-move s v this from (inl free))

    hand_over_to-Keeps : (this from : Addr) → Keeps (hand_over_to k this from)
    unfolding hand_over_to
    hand_over_to-Keeps this from s v = elim (Bool-cases (is_neg (s.mem this))) [
      | inl free ↦ rw free (IsOwned-move s v this from (inl free))
      | inr has ↦ rw has v
    ]

    execute-Keeps : (c : Statement) → Keeps (execute k c)
    unfolding execute
    execute-Keeps (open_socket t flags this) = open_socket-Keeps k fresh this t flags
    execute-Keeps (create_epoll this) = create-Keeps k fresh this
    execute-Keeps (openinit t flags this) =
        in_place-Keeps this _ (openinit-Fills k fresh this t flags)
    execute-Keeps (createinit this) = in_place-Keeps this _ (createinit-Fills k fresh this)
    execute-Keeps (connectinit addr flags this) =
        in_place-Keeps this _ (connectinit-Fills k fresh this addr flags)
    execute-Keeps (listeninit reuse_port addr backlog flags this) =
        in_place-Keeps this _ (listeninit-Fills k fresh this reuse_port addr backlog flags)
    execute-Keeps (accept from flags dest this) =
        in_place-Keeps dest _ (accept-Fills k fresh from flags dest this)
    execute-Keeps (bind addr this) = bind-Keeps k this addr
    execute-Keeps (listen backlog this) = listen-Keeps k this backlog
    execute-Keeps (connect addr this) = connect-Keeps k this addr
    execute-Keeps (connectinit_with addr flags handler this) =
        in_place-Keeps this _
          (connectinit_with-Fills k handler.handle handler.keeps this fresh addr flags)
    execute-Keeps (listeninit_with reuse_port addr backlog flags handler this) =
        in_place-Keeps this _ (
          listeninit_with-Fills k handler.handle handler.keeps this fresh reuse_port addr backlog
            flags)
    execute-Keeps (open_pipe flags this) =
        let (two, n, o) = pipe_call-pairs flags in
        open_pipe-Keeps k piping (pipe_call flags) two n o this
    execute-Keeps (construct_pipe this) = in_pipe_place-Keeps this _ (construct_pipe-Fills k this)
    execute-Keeps (rmove this dest) = in_place-Keeps dest _ (rmove-Fills k this dest)
    execute-Keeps (wmove this dest) = in_place-Keeps dest _ (wmove-Fills k this dest)
    execute-Keeps (move_construct_pipe this from apart) =
        in_pipe_place-Keeps this _ (λ s. move_construct_pipe-Fills k this from s apart)
    execute-Keeps (destroy_pipe this) = λ s v.
        Post-mono (λ _ s'. IsOwned s' × IsEmptyPipe this s') (λ _. IsOwned) _
          (destroy_pipe-Empties k this s v) (λ _ s' p. p.0)
    execute-Keeps (close this) = close-Keeps k this
    execute-Keeps (move_construct this from apart) =
        in_place-Keeps this _ (move_construct-Fills this from apart)
    execute-Keeps (hand_over this from) = hand_over_to-Keeps this from
    execute-Keeps (move_assign this from) = move_assign-Keeps k this from
    execute-Keeps (destroy this) = destroy-Keeps k this

    -- A program is any sequence of these, each followed by a handler of every exception:
    -- `SocketDescriptor::open` and `openinit`, `EpollDescriptor::create` and `createinit`,
    -- `TcpSocket::connectinit` and `TcpServerSocket::listeninit` (without a handler, or with one
    -- that keeps ownership), `accept`, `bind`, `listen`, `connect` and `close`; of a pipe the
    -- default construction, `open` with and without flags, `rmove`, `wmove`, the move construction
    -- and the destruction; of a closing descriptor the move construction, the move assignment and
    -- the destruction, and its hand-over by `reset` to an object without a descriptor (the move
    -- assignment and `openinit` of a pipe, and every other `reset`, are not among them). Through
    -- all of it, each open descriptor has exactly one owner, each owner an open descriptor, and no
    -- descriptor was closed that was not open. It is assumed that the kernel gives out descriptors
    -- that are not in use, that pipe(2) stores two new ones on success and nothing on failure, and
    -- that the program starts from such a state. Where an assertion or `abort()` stops it, no
    -- descriptor was closed that was not open.
    pub run-IsOwned :
        (cs : List Statement) (s : Machine) → IsOwned s → Post (λ _. IsOwned) (run k cs s)
    unfolding run
    run-IsOwned [] s v = v
    run-IsOwned (c ∷ cs) s v =
        Post-and_then (λ _. IsOwned) (λ _. IsOwned) (caught (execute k c s)) (λ _. run k cs)
          (caught-Safe IsOwned Clean (execute k c s) (execute-Keeps c s v))
          (λ _ s' w. run-IsOwned cs s' w)

-- Nothing open, and no object with a descriptor.
abbrev pub initial : ℕ → Machine
initial e = record { mem = λ _. minus_one; errno = e; trace = [] }

pub initial-IsOwned : (e : ℕ) → IsOwned (initial e)
unfolding is_open
initial-IsOwned e = record {
  sole = λ a b p. cc;
  live = λ a p. cc;
  kept = λ fd p. absurd (cc);
  clean = start;
}

-- A program is any sequence of these, each followed by a handler of every exception:
-- `SocketDescriptor::open` and `openinit`, `EpollDescriptor::create` and `createinit`,
-- `TcpSocket::connectinit` and `TcpServerSocket::listeninit` (without a handler, or with one that
-- keeps ownership), `accept`, `bind`, `listen`, `connect` and `close`; of a pipe the default
-- construction, `open` with and without flags, `rmove`, `wmove`, the move construction and the
-- destruction; of a closing descriptor the move construction, the move assignment and the
-- destruction, and its hand-over by `reset` to an object without a descriptor (the move assignment
-- and `openinit` of a pipe, and every other `reset`, are not among them). One that starts with
-- nothing open, runs to its end and has let go of every descriptor has left none open: nothing
-- leaks, whichever calls failed and whichever exceptions were caught on the way. It is assumed that
-- the kernel gives out descriptors that are not in use, and that pipe(2) stores two new ones on
-- success and nothing on failure.
pub run-not_leaks :
    (k : Kernel) (e : ℕ) (cs : List Statement) (s : Machine) (fd : ℤ)
    → IsFresh k
    → IsPiping k
    → run k cs (initial e) ≡ done tt s
    → ((a : Addr) → IsEmpty a s)
    → is_open s.trace fd ≡ false
run-not_leaks k e cs s fd fresh piping ran empty = elim (Bool-cases (is_open s.trace fd)) [
  | inl opened ↦
      let v : IsOwned s =
        rw ran at (run-IsOwned k fresh piping cs (initial e) (initial-IsOwned e)) in
      let (a, held) = v.kept fd opened in ground (arith, is_open-nonneg s.trace fd opened, empty a)
  | inr closed ↦ closed
]
