-- ===== src/Ownership/Library/Servers.antt =====
-- The functions that make a connected or listening socket in one call, and close it where a later
-- step fails: with an error handler, and with exceptions.
use metasys.Base.{ℕ, ◌≡◌, inl, inr, Bool, true, false, cond, none, arith, Bool-cases, is_neg, ℤ}
use metasys.Machine.{Addr, Kernel, Call, M, pure, ◌>>=◌, ◌>>◌, owning, when, assert, call}
use metasys.Sys.FileDescriptor
use metasys.Sys.ClosingDescriptor
use metasys.Net.SocketDescriptor
use metasys.Net.TcpSocketDescriptor
use metasys.Net.TcpSocketDescriptor.{tcp}
use metasys.Net.TcpSocket
use metasys.Net.TcpServerSocket
use metasys.Ownership.{creates, closes, IsFresh, IsOwned}
use metasys.Ownership.Rules.{Post-mono, Post-and_then, Post-unwound}
use metasys.Ownership.Steps.{IsOwned-benign}
use metasys.Ownership.Library.Closing.{
  IsEmpty, Keeps, destroy-Empties, close-Empties, bind-Keeps, listen-Keeps, connect-Keeps,
  setreuseport-Keeps,
}
use metasys.Ownership.Library.Opening.{Fills, openinit-Fills}

module _ (k : Kernel) where
  pub destroy-Keeps : (this : Addr) → Keeps (ClosingDescriptor.destroy k this)
  destroy-Keeps this s v =
      Post-mono (λ _ s'. IsOwned s' × IsEmpty this s') (λ _. IsOwned)
        (ClosingDescriptor.destroy k this s) (destroy-Empties k this s v) (λ _ s' p. p.0)

  pub close-Keeps : (this : Addr) → Keeps (FileDescriptor.close k this)
  close-Keeps this s v =
      Post-mono (λ _ s'. IsOwned s' × IsEmpty this s') (λ _. IsOwned)
        (FileDescriptor.close k this s) (close-Empties k this s v) (λ _ s' p. p.0)

  -- An object in scope is destroyed where an exception leaves.
  pub owning-Keeps :
      (this : Addr) (m : M (Unit {0}))
      → Keeps m
      → Keeps (owning (ClosingDescriptor.destroy k this) m)
  owning-Keeps this m keep s v =
      Post-unwound (λ _. IsOwned) (ClosingDescriptor.destroy k this) (m s) (destroy-Keeps this)
        (keep s v)

  seq-Keeps : (m : M (Unit {0})) (f : M (Unit {0})) → Keeps m → Keeps f → Keeps (do m; f)
  seq-Keeps m f keep next s v =
      Post-and_then (λ _. IsOwned) (λ _. IsOwned) (m s) _ (keep s v) (λ _ s' w. next s' w)

  -- A benign call that hands its result on.
  result-Keeps : (c : Call) → creates c ≡ false → closes c ≡ none → Keeps (call k c)
  result-Keeps c o n s v = IsOwned-benign s v c (k s.trace c) (ground (arith, o)) n

  module _ (handler : ℤ → M (Unit {0})) (keep : (err : ℤ) → Keeps (handler err)) (this : Addr) where
    close_then-Keeps : (err : ℤ) → Keeps (do FileDescriptor.close k this; handler err)
    close_then-Keeps err s v =
        Post-and_then (λ _ s'. IsOwned s' × IsEmpty this s') (λ _. IsOwned)
          (FileDescriptor.close k this s) _ (close-Empties k this s v) (λ _ s' w. keep err s' w.0)

    -- A benign call on the descriptor of the object.
    abbrev pub benign_call : (ℤ → Call) → M ℤ
    benign_call c = do
      ok ← FileDescriptor.valid this
      assert ok
      fd ← FileDescriptor.value this
      ret ← call k (c fd)
      pure ret

    -- On failure the object is closed and the handler called, and otherwise `rest` follows.
    pub step-Keeps :
        (c : ℤ → Call) (rest : M (Unit {0}))
        → ((fd : ℤ) → creates (c fd) ≡ false)
        → ((fd : ℤ) → closes (c fd) ≡ none)
        → Keeps rest
        → Keeps (do
          ret ← benign_call c
          cond (is_neg ret) (do FileDescriptor.close k this; handler ret) rest)
    unfolding FileDescriptor.valid FileDescriptor.value
    step-Keeps c rest o n next s v =
        let fd = s.mem this in
        let w = result-Keeps (c fd) (o fd) (n fd) s v in
        elim (Bool-cases (is_neg fd)) [
          | inl bad ↦ rw bad v.clean
          | inr good ↦ rw good (elim (Bool-cases (is_neg (k s.trace (c fd)).ret)) [
            | inl failed ↦ rw failed (close_then-Keeps _ _ w)
            | inr went ↦ rw went (next _ w)
          ])
        ]

  module _ (fresh : IsFresh k) (this : Addr) where
    pub connectinit-Fills :
        (addr : Addr) (flags : ℕ) → Fills this (TcpSocket.connectinit k addr flags this)
    unfolding TcpSocket.connectinit
    connectinit-Fills addr flags s v e =
        Post-and_then (λ _. IsOwned) (λ _. IsOwned) (SocketDescriptor.openinit tcp k flags this s) _
          (openinit-Fills k fresh this tcp flags s v e)
          (λ _. owning-Keeps this _ (connect-Keeps k this addr))

    pub listeninit-Fills :
        (reuse_port : Bool) (addr : Addr) (backlog : ℤ) (flags : ℕ)
        → Fills this (TcpServerSocket.listeninit k reuse_port addr backlog flags this)
    unfolding TcpServerSocket.listeninit
    listeninit-Fills reuse_port addr backlog flags s v e =
        Post-and_then (λ _. IsOwned) (λ _. IsOwned) (SocketDescriptor.openinit tcp k flags this s) _
          (openinit-Fills k fresh this tcp flags s v e)
          (λ _. owning-Keeps this _ (
            seq-Keeps _ _ (reuse reuse_port)
              (seq-Keeps _ _ (bind-Keeps k this addr) (listen-Keeps k this backlog))))
      where
        reuse : (b : Bool) → Keeps (when b (TcpSocketDescriptor.setreuseport k true this))
        reuse true = setreuseport-Keeps k this true
        reuse false = λ s v. v
