-- ===== src/Lib.antt =====
-- Metasys wraps the POSIX calls on descriptors, sockets, processes and threads in C++ classes. This
-- library models those classes and proves what they do to the handles they own, on the paths of
-- success, of errors and of exceptions.
--
-- The model. A C++ function is a function from a `Machine` to an `Outcome`: it returns, throws,
-- stops the process (by a failed `assert`, by `abort()` or by `std::terminate()`), or runs out of
-- fuel. A machine has memory cells, `errno` and the history of calls. An object is an address, and
-- its handle is the cell there, so that an object assigned to itself is one address given twice.
-- The C library and the operating system are a parameter, the `Kernel`: any function from the
-- history and a call to a reply. Theorems that need more of it say so by a hypothesis (`IsFresh`,
-- `IsPiping`, `HasCancelState`, `IsPthreads`, `IsThreading`, `IsParent`, `IsMutex`,
-- `IsOpening`, `IsResolving`). Assertions are enabled, as in a build without NDEBUG. An error
-- handler is any function. A result returned by value is built in place, at an address that the
-- caller gives.
--
-- The parts, by file (paths from the root of the repository):
--   Base, Machine        integers, tests and bit lemmas; calls, state, outcomes, the constants of <cerrno>
--   Sys                  sys/SystemException.cxx, include/metasys/sys/FileDescriptor.hxx and
--                        ClosingDescriptor.hxx: throwErrno, close, reset, the destructor; Exceptions
--                        has the exception classes of include/metasys/sys and net
--   Io                   include/metasys/io: ReadableDescriptor.hxx, WritableDescriptor.hxx, Pipe.hxx;
--                        Streams has the concepts of InputStream.hxx and OutputStream.hxx, Retry the
--                        loops that repeat an interrupted call, as an interface (`IsRetrying`) that
--                        read, write and epoll_wait fill
--   Net                  include/metasys/net and net/AddressInfo.cxx: bit.hxx, InetAddress.hxx,
--                        AddressInfo.hxx, TcpAddress.hxx and the sockets
--   Sched                include/metasys/sched: Pthread.hxx, PthreadBehavior.hxx, ThisPthread.hxx,
--                        PthreadCancelInhibitor.hxx, PthreadMutex.hxx, Process.hxx, Thread.hxx,
--                        EpollDescriptor.hxx (with EpollEvent in a file of its own)
--   Fs                   include/metasys/fs and fs/Directory.cxx: Directory.hxx, Stat.hxx
--   Meta                 include/metasys/meta: StaticOptional.hxx, AutoHolder.hxx
--   Ownership            the specification that closing descriptors and pipes implement together:
--                        Statements has the programs over sockets, epoll instances and pipes that it
--                        is about, Library what each operation does to it, Scripts the theorems
--   Handles              the specification of a handle that one call gives out and another takes back, as
--                        an interface (`Resource`), the steps that keep objects and handles matched,
--                        and rules for programs over the objects. Attempts has what is left of a handle
--                        where the call that should take it back fails. Four parts fill it:
--     Handles/Directories   objects of include/metasys/fs/Directory.hxx
--     Handles/AddressLists  include/metasys/net/AddressInfo.hxx and the lookups of TcpAddress.hxx
--     Custody               Pthread.hxx with the behaviour of `Thread` (Programs) and Jthread (Jthreads)
--     Children              Process.hxx with a behaviour that waits on destruction, in the parent
--                           (a waitpid(2) that fails included; Interrupted has what it leaves)
--   Sys/Safety           the rules of reasoning about outcomes that Handles and Ownership use
--   Tests                the theorems at concrete inputs
-- A definition has the name of the function it models, with `_with` for the overload that takes a
-- handler and `init` for the static functions that return a new object. Each `Laws` file has the
-- theorems about the module above it, and Iteration, Bounds, Exclusion and Refinement have more
-- about theirs.
-- Sockets, connections, servers and epoll instances are closing descriptors and use Sys for it;
-- TcpAddress uses AddressInfo, and both use InetAddress. A Jthread is a Pthread.
--
-- Fuel. The loops of read, write and epoll_wait take fuel, one unit for each call that is repeated;
-- the theorems say that one more unit than there are interrupted calls is enough. Everything else
-- recurses on its data, but for the assignment operator of Stat.
--
-- Not modelled: the addresses of the wrappers that the compiler makes of thread routines (a
-- parameter), the constructor of EpollEvent from a descriptor, which does not compile where it is
-- used, and include/metasys/io/PipeStream.hxx, which is commented out. Some operations are
-- definitions, with theorems of their own, and no statements of the programs of a specification,
-- because they break it. In Ownership these are `openinit` of a pipe, which closes what its
-- unwritten cells hold when pipe(2) fails; the move assignment of a pipe, which throws between
-- closing the old descriptors and storing the new ones, and loses both when it is one of a pipe to
-- itself; and the construction of a closing descriptor from an lvalue one, which shares the
-- descriptor. In Custody it is a move assignment over a thread, which forgets it; in Children a
-- `wait` that no `reset` follows, which leaves the reaped child in its object; and in Handles
-- `close` of a directory, for the same reason, and the assignment of an object to itself, which
-- loses the handle. A `reset` is a statement of Ownership, Custody and Children only where it
-- hands a value over to an empty object, or follows a `wait`, and none of Handles: elsewhere it is
-- for the caller to keep what it returns.
pub mod Base
pub mod Machine
pub mod Sys
pub mod Ownership
pub mod Io
pub mod Net
pub mod Sched
pub mod Fs
pub mod Handles
pub mod Custody
pub mod Children
pub mod Meta
pub mod Tests
