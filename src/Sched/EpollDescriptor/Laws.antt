-- ===== src/Sched/EpollDescriptor/Laws.antt =====
-- The loop of `wait` against a run of epoll_wait(2).
use metasys.Base.{
  ℕ, suc, ◌≤◌, ◌<◌, ◌≡◌, Bool, true, false, ◌&&◌, [], ◌∷◌, arith, ◌==◌, if◌then◌else◌, elem, is_neg,
  to_size, ℤ,
}
use metasys.Machine.{
  Addr, Kernel, Call, Reply, M, Machine, assertion, done, stopped, eintr, ebadf, efault, einval,
}
use metasys.Sched.EpollDescriptor.{wait_loop, wait}
use metasys.Io.Retry.{calls, RetriesFor, RetriesFor-first, IsRetrying, IsRetrying-calls}
use metasys.Sys.FileDescriptor.{is_valid_fd}

abbrev pub is_signalled : Reply → Bool
is_signalled r = is_neg r.ret && (r.errno == eintr)

-- What `wait` does with the reply that it does not retry.
abbrev pub answer : Reply → M ℕ
answer r s =
    if is_neg r.ret && elem r.errno (ebadf ∷ efault ∷ einval ∷ [])
    then stopped assertion s
    else done (to_size r.ret) s

module _ (k : Kernel) (events : Addr) (maxevents : ℕ) (timeout : ℤ) where
  wait_loop-IsRetrying :
      (epfd : ℤ)
      → IsRetrying is_signalled answer k
          (Call.epoll_wait epfd events maxevents timeout)
          (λ fuel. wait_loop k fuel epfd events maxevents timeout)
  unfolding wait_loop
  wait_loop-IsRetrying epfd = record { step = λ fuel s. ground arith }

  -- `wait` on a valid object repeats epoll_wait(2) while it fails with EINTR, and no longer: after `n`
  -- such replies and one that is not, it has made `n + 1` calls. It returns the last result
  -- as a size_t, also where that is the -1 of an error, unless the error is EBADF, EFAULT or EINVAL,
  -- which fails an assertion. Any fuel beyond `n` is enough.
  pub wait-calls :
      (n fuel : ℕ) (this : Addr) (s : Machine)
      → is_valid_fd (s.mem this) ≡ true
      → n < fuel
      → RetriesFor is_signalled k (Call.epoll_wait (s.mem this) events maxevents timeout) n s
      → let c = Call.epoll_wait (s.mem this) events maxevents timeout in
        wait k fuel events maxevents timeout this s
        ≡ answer (k (calls k c n s).trace c) (calls k c (suc n) s)
  unfolding wait
  wait-calls n fuel this s v lt h =
      let epfd = s.mem this in
      ground (
        arith,
        IsRetrying-calls is_signalled answer k (Call.epoll_wait epfd events maxevents timeout)
            (λ f. wait_loop k f epfd events maxevents timeout) (wait_loop-IsRetrying epfd) n fuel s
            lt h,
      )

  -- `wait` on a valid object does not retry for ever if epoll_wait(2) does not: when the reply after
  -- `n` calls is no failure with EINTR, `wait` ends after at most `n + 1` calls, as `answer` says,
  -- with fuel for that many.
  pub wait-ends :
      (n : ℕ) (this : Addr) (s : Machine)
      → is_valid_fd (s.mem this) ≡ true
      → let c = Call.epoll_wait (s.mem this) events maxevents timeout in
        is_signalled (k (calls k c n s).trace c) ≡ false
        → (m : ℕ) × (m ≤ n)
          × (wait k (suc n) events maxevents timeout this s
              ≡ answer (k (calls k c m s).trace c) (calls k c (suc m) s))
  wait-ends n this s v ends =
      let c = Call.epoll_wait (s.mem this) events maxevents timeout in
      let (m, le, run) = RetriesFor-first is_signalled k c n s ends in
      (m, le, wait-calls m (suc n) this s v (omega arith) run)
