-- ===== src/Ownership/Statements.antt =====
-- Programs over any number of descriptors: sockets, servers, connections, epoll instances and pipes
-- that are opened, moved, split, closed and destroyed in any order, aliasing included. `Pipe::openinit`
-- and the move assignment of a pipe are no statements: the former reads cells that nobody wrote when
-- pipe(2) fails, and the latter loses descriptors when the objects are the same or close(2) fails.
-- `reset` is used where an object without a descriptor takes one over: over another it leaks.
use metasys.Base.{ℕ, ◌≢◌, Bool, not, Option, none, some, List, [], ◌∷◌, minus_one, ℤ}
use metasys.Machine.{Addr, Kernel, Call, M, pure, and_then, ◌>>=◌, ◌>>◌, when, done}
use metasys.Sys.Safety.{caught}
use metasys.Sys.FileDescriptor
use metasys.Sys.ClosingDescriptor
use metasys.Sys.ClosingDescriptor.{rvalue}
use metasys.Io.Pipe
use metasys.Net.SocketDescriptor.{SocketType}
use metasys.Net.SocketDescriptor
use metasys.Net.TcpSocketDescriptor
use metasys.Net.TcpSocket
use metasys.Net.TcpServerSocket
use metasys.Sched.EpollDescriptor
use metasys.Ownership.Library.Closing.{Keeps}
use metasys.Ownership.Library.Pipes.{IsApart, discard}

-- An error handler that leaves the ownership of descriptors as it is.
pub record Handler : Type 0 where
  pub handle : ℤ → M (Unit {0})
  pub keeps : (err : ℤ) → Keeps (handle err)

-- pipe(2), or pipe2(2) with its flags.
abbrev pub pipe_call : Option ℤ → Call
pipe_call none = Call.pipe
pipe_call (some flags) = Call.pipe2 flags

-- One statement of a program. The statements that return a new object end the life of the object
-- that stood in its place.
pub data Statement : Type 0 where
  open_socket : (t : SocketType) → (flags : ℕ) → (this : Addr) → Statement
  create_epoll : (this : Addr) → Statement
  openinit : (t : SocketType) → (flags : ℕ) → (this : Addr) → Statement
  createinit : (this : Addr) → Statement
  connectinit : (addr : Addr) → (flags : ℕ) → (this : Addr) → Statement
  listeninit :
      (reuse_port : Bool) → (addr : Addr) → (backlog : ℤ) → (flags : ℕ) → (this : Addr) → Statement
  accept : (from : Addr) → (flags : ℤ) → (dest this : Addr) → Statement
  bind : (addr this : Addr) → Statement
  listen : (backlog : ℤ) → (this : Addr) → Statement
  connect : (addr this : Addr) → Statement
  connectinit_with : (addr : Addr) → (flags : ℕ) → (handler : Handler) → (this : Addr) → Statement
  listeninit_with :
      (reuse_port : Bool)
      → (addr : Addr) → (backlog : ℤ) → (flags : ℕ) → (handler : Handler) → (this : Addr)
      → Statement
  open_pipe : (flags : Option ℤ) → (this : Addr) → Statement
  construct_pipe : (this : Addr) → Statement
  rmove : (this dest : Addr) → Statement
  wmove : (this dest : Addr) → Statement
  move_construct_pipe : (this from : Addr) → IsApart this from → Statement
  destroy_pipe : (this : Addr) → Statement
  close : (this : Addr) → Statement
  move_construct : (this from : Addr) → this ≢ from → Statement
  move_assign : (this from : Addr) → Statement
  hand_over : (this from : Addr) → Statement
  destroy : (this : Addr) → Statement

module _ (k : Kernel) where
  unfoldable pub in_place : Addr → M (Unit {0}) → M (Unit {0})
  in_place this m = do ClosingDescriptor.destroy k this; m

  -- What follows writes both cells, before anything reads them.
  unfoldable pub in_pipe_place : Addr → M (Unit {0}) → M (Unit {0})
  in_pipe_place this m = (do Pipe.destroy k this; discard this) >> m

  -- `this.reset(from.reset())`, where `this` has no descriptor.
  unfoldable pub hand_over_to : (this from : Addr) → M (Unit {0})
  unfolding FileDescriptor.valid FileDescriptor.reset
  hand_over_to this from = do
    has ← FileDescriptor.valid this
    when (not has)
        (do fd ← FileDescriptor.reset minus_one from; FileDescriptor.reset fd this; pure tt)

  unfoldable pub execute : Statement → M (Unit {0})
  unfolding in_place in_pipe_place hand_over_to
  execute (open_socket t flags this) = SocketDescriptor.open_socket t k flags this
  execute (create_epoll this) = EpollDescriptor.create k this
  execute (openinit t flags this) = in_place this (SocketDescriptor.openinit t k flags this)
  execute (createinit this) = in_place this (EpollDescriptor.createinit k this)
  execute (connectinit addr flags this) = in_place this (TcpSocket.connectinit k addr flags this)
  execute (listeninit reuse_port addr backlog flags this) =
      in_place this (TcpServerSocket.listeninit k reuse_port addr backlog flags this)
  execute (accept from flags dest this) =
      in_place dest (TcpServerSocket.accept k from flags dest this)
  execute (bind addr this) = TcpSocketDescriptor.bind k addr this
  execute (listen backlog this) = TcpServerSocket.listen k backlog this
  execute (connect addr this) = TcpSocket.connect k addr this
  execute (connectinit_with addr flags handler this) =
      in_place this (TcpSocket.connectinit_with k addr flags handler.handle this)
  execute (listeninit_with reuse_port addr backlog flags handler this) =
      in_place this
        (TcpServerSocket.listeninit_with k reuse_port addr backlog flags handler.handle this)
  execute (open_pipe flags this) = Pipe.open_pipe k (pipe_call flags) this
  execute (construct_pipe this) = in_pipe_place this (Pipe.construct this)
  execute (rmove this dest) = in_place dest (Pipe.rmove this dest)
  execute (wmove this dest) = in_place dest (Pipe.wmove this dest)
  execute (move_construct_pipe this from apart) = in_pipe_place this (Pipe.move_construct this from)
  execute (destroy_pipe this) = do Pipe.destroy k this; discard this
  execute (close this) = FileDescriptor.close k this
  execute (move_construct this from apart) =
      in_place this (ClosingDescriptor.construct (rvalue from) this)
  execute (hand_over this from) = hand_over_to this from
  execute (move_assign this from) = ClosingDescriptor.move_assign k this from
  execute (destroy this) = ClosingDescriptor.destroy k this

  unfoldable pub run : List Statement → M (Unit {0})
  unfolding execute caught
  run [] s = done tt s
  run (c ∷ cs) s = and_then (caught (execute c s)) λ _. run cs
