-- ===== src/Ownership/Library/Closing.antt =====
-- Closing, moving and plain calls: include/metasys/sys, and the calls on an open socket.
use metasys.Base.{
  ℕ, ◌≡◌, refl, inl, inr, Bool, true, false, none, List, [], ◌∷◌, arith, Bool-cases, is_neg, ◌==ℤ◌,
  ==ℤ_iff, ℤ,
}
use metasys.Machine.{
  Addr, Kernel, Call, errno_not_in, M, ◌>>=◌, ◌>>◌, when, call, Machine, ebadf, efault, einval,
  edom, enametoolong, enotsock, eprototype, enoprotoopt, eopnotsupp, eafnosupport, eisconn,
  ealready,
}
use metasys.Sys.SystemException.{throw_errno}
use metasys.Sys.FileDescriptor
use metasys.Sys.ClosingDescriptor
use metasys.Sys.ClosingDescriptor.Laws.{destroy_closing_lem}
use metasys.Net.TcpSocketDescriptor
use metasys.Net.TcpSocket
use metasys.Net.TcpServerSocket
use metasys.Ownership.{creates, closes, IsOwned}
use metasys.Ownership.Rules.{Post, Post-and_then, Post-throw}
use metasys.Ownership.Steps.{IsOwned-benign, IsOwned-close, IsOwned-move}

-- An object without a descriptor.
abbrev pub IsEmpty : Addr → Machine → Type 0
IsEmpty this s = is_neg (s.mem this) ≡ true

abbrev pub Keeps : {A : Type 0} → M A → Type 0
Keeps m = (s : Machine) → IsOwned s → Post (λ _. IsOwned) (m s)

-- After it the object is empty too.
abbrev pub Empties : Addr → M (Unit {0}) → Type 0
Empties this m = (s : Machine) → IsOwned s → Post (λ _ s'. IsOwned s' × IsEmpty this s') (m s)

module _ (k : Kernel) where
  -- A call that neither opens nor closes, with the usual handler.
  pub call-Keeps :
      (c : Call) (refused : List ℕ)
      → creates c ≡ false
      → closes c ≡ none
      → Keeps (do ret ← call k c; when (is_neg ret) (errno_not_in refused >> throw_errno))
  call-Keeps c refused o n s v = elim (Bool-cases (is_neg ((k s.trace c).ret))) [
    | inl bad ↦
        rw bad (Post-throw _ refused _ (IsOwned-benign s v c (k s.trace c) (ground (arith, o)) n))
    | inr good ↦ rw good (IsOwned-benign s v c (k s.trace c) (ground (arith, o)) n)
  ]

  pub destroy-Empties : (this : Addr) → Empties this (ClosingDescriptor.destroy k this)
  destroy-Empties this s v =
      rw (destroy_closing_lem k this s) (elim (Bool-cases (is_neg (s.mem this))) [
        | inl none_held ↦ rw none_held (v, none_held)
        | inr held ↦
            rw held
              (IsOwned-close s v this (k s.trace (Call.close (s.mem this))) held, ground arith)
      ])

  pub close-Empties : (this : Addr) → Empties this (FileDescriptor.close k this)
  unfolding FileDescriptor.close
  close-Empties this s v = elim (Bool-cases (is_neg (s.mem this))) [
    | inl none_held ↦ rw none_held v.clean
    | inr held ↦ rw held (
        let w = IsOwned-close s v this (k s.trace (Call.close (s.mem this))) held in
        elim (Bool-cases (is_neg ((k s.trace (Call.close (s.mem this))).ret))) [
          | inl bad ↦ rw bad (Post-throw _ (ebadf ∷ []) _ w)
          | inr good ↦ rw good (w, ground arith)
        ])
  ]

  pub move_assign-Keeps : (this from : Addr) → Keeps (ClosingDescriptor.move_assign k this from)
  unfolding ClosingDescriptor.move_assign
  move_assign-Keeps this from s v = elim (Bool-cases (is_neg (s.mem this))) [
    | inl none_held ↦ rw none_held (IsOwned-move s v this from (inl none_held))
    | inr held ↦ elim (Bool-cases (s.mem from ==ℤ s.mem this)) [
      | inl same ↦
          rw (held, same)
            (IsOwned-move s v this from
              (inr (v.sole this from held (ground (arith, ==ℤ_iff (s.mem from) (s.mem this))))))
      | inr differ ↦
          rw (held, differ)
            (Post-and_then (λ _ s'. IsOwned s' × IsEmpty this s') (λ _. IsOwned)
              (FileDescriptor.close k this s) _ (close-Empties this s v)
              (λ _ s' (w, e). IsOwned-move s' w this from (inl e)))
    ]
  ]

  module _ (this : Addr) where
    pub bind-Keeps : (addr : Addr) → Keeps (TcpSocketDescriptor.bind k addr this)
    unfolding TcpSocketDescriptor.bind
    bind-Keeps addr s v = elim (Bool-cases (is_neg (s.mem this))) [
      | inl bad ↦ rw bad v.clean
      | inr good ↦
          rw good
            (call-Keeps _ (ebadf ∷ einval ∷ enotsock ∷ efault ∷ enametoolong ∷ []) refl refl s v)
    ]

    pub setreuseport-Keeps : (allow : Bool) → Keeps (TcpSocketDescriptor.setreuseport k allow this)
    unfolding TcpSocketDescriptor.setreuseport
    setreuseport-Keeps allow s v = elim (Bool-cases (is_neg (s.mem this))) [
      | inl bad ↦ rw bad v.clean
      | inr good ↦ rw good (
          call-Keeps _ (ebadf ∷ edom ∷ einval ∷ eisconn ∷ enoprotoopt ∷ enotsock ∷ []) refl refl s
            v)
    ]

    pub listen-Keeps : (backlog : ℤ) → Keeps (TcpServerSocket.listen k backlog this)
    unfolding TcpServerSocket.listen
    listen-Keeps backlog s v = elim (Bool-cases (is_neg (s.mem this))) [
      | inl bad ↦ rw bad v.clean
      | inr good ↦ rw good (call-Keeps _ (ebadf ∷ enotsock ∷ eopnotsupp ∷ []) refl refl s v)
    ]

    pub connect-Keeps : (addr : Addr) → Keeps (TcpSocket.connect k addr this)
    unfolding TcpSocket.connect
    connect-Keeps addr s v = elim (Bool-cases (is_neg (s.mem this))) [
      | inl bad ↦ rw bad v.clean
      | inr good ↦ rw good (
          call-Keeps _
            (eafnosupport ∷ ealready ∷ ebadf ∷ efault ∷ eisconn ∷ enotsock ∷ eprototype ∷ []) refl
            refl s v)
    ]
