-- ===== src/Ownership/Library/Opening.antt =====
-- The operations that make a descriptor: sockets, accepted connections and epoll instances.
use metasys.Base.{
  ℕ, ◌≡◌, refl, inl, inr, true, none, List, [], ◌∷◌, arith, Bool-cases, is_neg, ◌==ℤ◌, ℤ, pos,
}
use metasys.Machine.{
  Addr, Kernel, Call, errno_not_in, M, ◌>>=◌, ◌>>◌, when, update, get, put, call, Machine, ebadf,
  efault, einval, enotsock, eopnotsupp,
}
use metasys.Sys.SystemException.{throw_errno}
use metasys.Net.SocketDescriptor.{SocketType}
use metasys.Net.SocketDescriptor
use metasys.Net.TcpServerSocket
use metasys.Net.TcpServerSocket.{stored_length}
use metasys.Sched.EpollDescriptor
use metasys.Ownership.{opens, closes, other, IsFresh, IsOwned}
use metasys.Ownership.Rules.{Post, Post-and_then, Post-throw}
use metasys.Ownership.Steps.{IsOwned-benign, IsOwned-open}
use metasys.Ownership.Library.Closing.{IsEmpty, Keeps}

-- Given that the object holds no descriptor.
abbrev pub Fills : {A : Type 0} → Addr → M A → Type 0
Fills this m = (s : Machine) → IsOwned s → IsEmpty this s → Post (λ _. IsOwned) (m s)

module _ (k : Kernel) (fresh : IsFresh k) where
  -- The new descriptor goes into the object first, and then what the object holds is tested.
  open_first-Fills :
      (c : Call) (refused : List ℕ) (this : Addr)
      → opens c ≡ true
      → closes c ≡ none
      → Fills this (do
        ret ← call k c
        put this ret
        held ← get this
        when (is_neg held) (errno_not_in refused >> throw_errno))
  open_first-Fills c refused this o n s v e =
      let r = k s.trace c in
      let w = IsOwned-open s v this c r e o n (fresh s.trace c o) in
      let same : update s.mem this r.ret this ≡ r.ret = ground arith in
      elim (Bool-cases (is_neg r.ret)) [
        | inl bad ↦ rw (same, bad) (Post-throw _ refused _ w)
        | inr good ↦ rw (same, good) w
      ]

  -- The result is tested first, and the object made only where there is a descriptor. A failed call
  -- changes no object.
  test_first-Fills :
      (c : Call) (refused : List ℕ) (this : Addr)
      → opens c ≡ true
      → closes c ≡ none
      → Fills this
          (do ret ← call k c; when (is_neg ret) (errno_not_in refused >> throw_errno); put this ret)
  test_first-Fills c refused this o n s v e =
      let r = k s.trace c in
      elim (Bool-cases (is_neg r.ret)) [
        | inl bad ↦ rw bad (
            Post-and_then (λ _ _. ⊥) (λ _. IsOwned) _ _
              (Post-throw {A = Unit {0}} (λ _ _. ⊥) refused _
                (IsOwned-benign s v c r (rw (o, bad) refl) n))
              (λ _ _ absent. absurd absent))
        | inr good ↦ rw good (IsOwned-open s v this c r e o n (fresh s.trace c o))
      ]

  module _ (this : Addr) where
    pub open_socket-Keeps :
        (t : SocketType) (flags : ℕ) → Keeps (SocketDescriptor.open_socket t k flags this)
    unfolding SocketDescriptor.open_socket
    open_socket-Keeps t flags s v = elim (Bool-cases (is_neg (s.mem this))) [
      | inl free ↦ rw free (open_first-Fills _ (einval ∷ []) this refl refl s v free)
      | inr used ↦ rw used v.clean
    ]

    pub create-Keeps : Keeps (EpollDescriptor.create k this)
    unfolding EpollDescriptor.create
    create-Keeps s v = elim (Bool-cases (is_neg (s.mem this))) [
      | inl free ↦ rw free (open_first-Fills _ (einval ∷ []) this refl refl s v free)
      | inr used ↦ rw used v.clean
    ]

    pub openinit-Fills :
        (t : SocketType) (flags : ℕ) → Fills this (SocketDescriptor.openinit t k flags this)
    unfolding SocketDescriptor.openinit
    openinit-Fills t flags = test_first-Fills _ (einval ∷ []) this refl refl

    pub createinit-Fills : Fills this (EpollDescriptor.createinit k this)
    unfolding EpollDescriptor.createinit
    createinit-Fills = test_first-Fills _ (einval ∷ []) this refl refl

  -- The length that accept4(2) stores is asserted to be that of an address.
  pub accept-Fills :
      (from : Addr) (flags : ℤ) (dest this : Addr)
      → Fills dest (TcpServerSocket.accept k from flags dest this)
  unfolding TcpServerSocket.accept
  accept-Fills from flags dest this s v e =
      let length_is = stored_length (k s.trace (Call.accept4 (s.mem this) from flags)).out in
      elim (Bool-cases (is_neg (s.mem this))) [
        | inl bad ↦ rw bad v.clean
        | inr good ↦ rw good (elim (Bool-cases (length_is ==ℤ pos 16)) [
          | inl right ↦ rw right (
              test_first-Fills (Call.accept4 (s.mem this) from flags)
                (ebadf ∷ efault ∷ einval ∷ enotsock ∷ eopnotsupp ∷ []) dest refl refl s v e)
          | inr wrong ↦ rw wrong (other refl v.clean)
        ])
      ]
