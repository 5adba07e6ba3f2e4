-- ===== src/Io/WritableDescriptor/Laws.antt =====
-- The loop of `write` against a run of write(2).
use metasys.Base.{
  ℕ, zero, suc, ◌≤◌, ◌<◌, ◌≡◌, inl, inr, Bool, true, false, not, ◌&&◌, List, [], ◌∷◌, arith,
  if◌then◌else◌, Bool-cases, elem, is_neg, is_positive, to_size, ◌==ℤ◌, ℤ, pos,
}
use metasys.Machine.{
  Addr, History, Kernel, Call, Reply, M, after, Machine, Outcome, done, thrown, stopped,
  out_of_fuel, ebadf, efault, eisdir, einval, edestaddrreq,
}
use metasys.Sys.SystemException.{cases, switch}
use metasys.Sys.FileDescriptor.{is_valid_fd}
use metasys.Io.Retry.{calls, RetriesFor, RetriesFor-first, IsRetrying, IsRetrying-calls}
use metasys.Io.ReadableDescriptor.{is_retry}
use metasys.Io.WritableDescriptor.{throwwrite, write_loop, write}

-- No byte written, with EAGAIN or EINTR in `errno`.
abbrev pub is_refused : Reply → Bool
is_refused r = not (is_positive r.ret) && is_retry r.errno

-- What `write` does with the reply that it does not retry.
abbrev pub answer : Reply → M ℕ
answer r s = if is_positive r.ret then done (to_size r.ret) s else throwwrite s

-- The outcome is no return.
abbrev pub NotDone : {A : Type 0} → Outcome A → Type 0
NotDone (done a s) = ⊥
NotDone (thrown e s) = Unit {0}
NotDone (stopped c s) = Unit {0}
NotDone (out_of_fuel s) = Unit {0}

switch-NotDone :
    (A : Type 0) (err : ℤ) (cs : List ℕ) (s : Machine) → NotDone (switch {A = A} err cs s)
unfolding switch
switch-NotDone A err [] s = tt
switch-NotDone A err (c ∷ cs) s = elim (Bool-cases (err ==ℤ pos c)) [
  | inl hit ↦ rw (hit, if◌then◌else◌) tt
  | inr miss ↦ rw (miss, if◌then◌else◌) (switch-NotDone A err cs s)
]

throwwrite-NotDone : (A : Type 0) (s : Machine) → NotDone (throwwrite {A = A} s)
unfolding throwwrite
throwwrite-NotDone A s =
    elim (Bool-cases (elem s.errno (ebadf ∷ edestaddrreq ∷ efault ∷ einval ∷ eisdir ∷ []))) [
      | inl hit ↦ rw hit tt
      | inr miss ↦ rw miss (switch-NotDone A (pos s.errno) cases s)
    ]

module _ (k : Kernel) (src : Addr) where
  write_loop-IsRetrying :
      (len : ℕ) (fd : ℤ)
      → IsRetrying is_refused answer k
          (Call.write fd src len)
          (λ fuel. write_loop k fuel fd src len)
  unfolding write_loop
  write_loop-IsRetrying len fd = record { step = λ fuel s. ground arith }

  -- `write` on a valid object repeats write(2) while no byte is written and `errno` holds EAGAIN or
  -- EINTR, and no longer: after `n` such replies and one more that is not, it has made `n + 1` calls,
  -- and returns the count of the last if that is positive, and ends as `throwwrite` does if not. Any
  -- fuel beyond `n` is enough.
  pub write-calls :
      (len n fuel : ℕ) (this : Addr) (s : Machine)
      → is_valid_fd (s.mem this) ≡ true
      → n < fuel
      → RetriesFor is_refused k (Call.write (s.mem this) src len) n s
      → let c = Call.write (s.mem this) src len in
        write k fuel src len this s ≡ answer (k (calls k c n s).trace c) (calls k c (suc n) s)
  unfolding write
  write-calls len n fuel this s v lt h =
      let fd = s.mem this in
      ground (
        arith,
        IsRetrying-calls is_refused answer k (Call.write fd src len)
            (λ f. write_loop k f fd src len) (write_loop-IsRetrying len fd) n fuel s lt h,
      )

  -- `write` on a valid object does not retry for ever if write(2) does not: when after `n` calls the
  -- next reply has written a byte, or has `errno` at neither EAGAIN nor EINTR, `write` ends after at
  -- most `n + 1` calls, as `answer` says, with fuel for that many.
  write-ends :
      (len n : ℕ) (this : Addr) (s : Machine)
      → is_valid_fd (s.mem this) ≡ true
      → let c = Call.write (s.mem this) src len in
        is_refused (k (calls k c n s).trace c) ≡ false
        → (m : ℕ) × (m ≤ n)
          × (write k (suc n) src len this s
              ≡ answer (k (calls k c m s).trace c) (calls k c (suc m) s))
  write-ends len n this s v ends =
      let c = Call.write (s.mem this) src len in
      let (m, le, run) = RetriesFor-first is_refused k c n s ends in
      (m, le, write-calls len m (suc n) this s v (omega arith) run)

  write_loop-zero :
      (len fuel : ℕ) (fd : ℤ) (s : Machine)
      → ((h : History) → is_positive (k h (Call.write fd src len)).ret ≡ false)
      → NotDone (write_loop k fuel fd src len s)
  unfolding write_loop
  write_loop-zero len zero fd s none_written = tt
  write_loop-zero len (suc fuel) fd s none_written =
      let r = k s.trace (Call.write fd src len) in
      let s' = after s (Call.write fd src len) r in
      elim (Bool-cases (is_retry r.errno)) [
        | inl again ↦ rw (none_written s.trace, again) (write_loop-zero len fuel fd s' none_written)
        | inr give_up ↦ rw (none_written s.trace, give_up) (throwwrite-NotDone ℕ s')
      ]

  -- A write for which write(2) reports 0 bytes, as it does for a length of 0, never returns: it
  -- repeats the call, throws or stops the process, as `errno` happens to be.
  pub write-zero :
      (len fuel : ℕ) (this : Addr) (s : Machine)
      → ((h : History) → (k h (Call.write (s.mem this) src len)).ret ≡ pos 0)
      → NotDone (write k fuel src len this s)
  unfolding write
  write-zero len fuel this s zero_written = elim (Bool-cases (is_neg (s.mem this))) [
    | inl bad ↦ rw bad tt
    | inr good ↦ rw good (write_loop-zero len fuel (s.mem this) s (λ h. rw (zero_written h)))
  ]
