-- ===== src/Ownership/Library/Handlers.antt =====
-- `connectinit` and `listeninit` with an error handler.
use metasys.Base.{ℕ, refl, Bool, true, false, cond, is_neg, ℤ, pos}
use metasys.Machine.{Addr, Kernel, Call, M, pure, ◌>>=◌, ◌>>◌, owning, update}
use metasys.Net.SocketDescriptor.{socket_call}
use metasys.Net.SocketDescriptor
use metasys.Sys.FileDescriptor
use metasys.Sys.ClosingDescriptor
use metasys.Net.TcpSocketDescriptor.{tcp}
use metasys.Net.TcpSocket
use metasys.Net.TcpServerSocket
use metasys.Ownership.{IsFresh}
use metasys.Ownership.Steps.{IsOwned-open}
use metasys.Ownership.Library.Closing.{Keeps}
use metasys.Ownership.Library.Opening.{Fills}
use metasys.Ownership.Library.Servers.{owning-Keeps, step-Keeps}

cond-Keeps : (b : Bool) (m n : M (Unit {0})) → Keeps m → Keeps n → Keeps (cond b m n)
cond-Keeps true m n p q = p
cond-Keeps false m n p q = q

module _ (k : Kernel) (handler : ℤ → M (Unit {0})) (keep : (err : ℤ) → Keeps (handler err))
    (this : Addr) where
  bind_and_listen-Keeps :
      (addr : Addr) (backlog : ℤ)
      → Keeps (TcpServerSocket.bind_and_listen k addr backlog handler this)
  unfolding TcpServerSocket.bind_and_listen
  bind_and_listen-Keeps addr backlog =
      step-Keeps k handler keep this (λ fd. Call.bind fd addr 16) _ (λ _. refl) (λ _. refl)
        (step-Keeps k handler keep this (λ fd. Call.listen fd backlog) _ (λ _. refl) (λ _. refl)
          (λ s v. v))

  configure-Keeps :
      (reuse_port : Bool) (addr : Addr) (backlog : ℤ)
      → Keeps (TcpServerSocket.configure k reuse_port addr backlog handler this)
  unfolding TcpServerSocket.configure
  configure-Keeps true addr backlog =
      step-Keeps k handler keep this (λ fd. Call.setsockopt fd (pos 1) (pos 15) (pos 1) 4) _
        (λ _. refl) (λ _. refl) (bind_and_listen-Keeps addr backlog)
  configure-Keeps false addr backlog = bind_and_listen-Keeps addr backlog

  module _ (fresh : IsFresh k) where
    -- A new socket, and `rest` on it unless it could not be had.
    open_then-Fills :
        (flags : ℕ) (rest : M (Unit {0}))
        → Keeps rest
        → Fills this (do
          SocketDescriptor.openinit_with tcp k flags (λ _. pure tt) this
          err ← FileDescriptor.value this
          owning (ClosingDescriptor.destroy k this) (cond (is_neg err) (handler err) rest))
    unfolding SocketDescriptor.openinit_with FileDescriptor.value
    open_then-Fills flags rest next s v e =
        let c = socket_call tcp k flags in
        let r = k s.trace c in
        let err = update s.mem this r.ret this in
        owning-Keeps k this (cond (is_neg err) (handler err) rest)
          (cond-Keeps (is_neg err) (handler err) rest (keep err) next) _
          (IsOwned-open s v this c r e refl refl (fresh s.trace c refl))

    pub connectinit_with-Fills :
        (addr : Addr) (flags : ℕ)
        → Fills this (TcpSocket.connectinit_with k addr flags handler this)
    unfolding TcpSocket.connectinit_with
    connectinit_with-Fills addr flags = open_then-Fills flags _ (
        step-Keeps k handler keep this (λ fd. Call.connect fd addr 16) (pure tt) (λ _. refl)
          (λ _. refl) (λ s v. v))

    pub listeninit_with-Fills :
        (reuse_port : Bool) (addr : Addr) (backlog : ℤ) (flags : ℕ)
        → Fills this (TcpServerSocket.listeninit_with k reuse_port addr backlog flags handler this)
    unfolding TcpServerSocket.listeninit_with
    listeninit_with-Fills reuse_port addr backlog flags =
        open_then-Fills flags _ (configure-Keeps reuse_port addr backlog)
