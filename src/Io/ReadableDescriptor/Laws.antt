-- ===== src/Io/ReadableDescriptor/Laws.antt =====
-- The loop of `read` against a run of read(2).
use metasys.Base.{
  ℕ, suc, ◌≤◌, ◌<◌, ◌≡◌, Bool, true, false, ◌&&◌, arith, if◌then◌else◌, is_neg, to_size, ℤ,
}
use metasys.Machine.{Addr, Kernel, Call, Reply, M, Machine, done}
use metasys.Sys.FileDescriptor.{is_valid_fd}
use metasys.Io.Retry.{calls, RetriesFor, RetriesFor-first, IsRetrying, IsRetrying-calls}
use metasys.Io.ReadableDescriptor.{is_retry, throwread, read_loop, read}

-- A failure with EAGAIN or EINTR.
abbrev pub is_interrupted : Reply → Bool
is_interrupted r = is_neg r.ret && is_retry r.errno

-- What `read` does with the reply that it does not retry.
abbrev pub answer : Reply → M ℕ
answer r s = if is_neg r.ret then throwread s else done (to_size r.ret) s

module _ (k : Kernel) (dest : Addr) (len : ℕ) where
  read_loop-IsRetrying :
      (fd : ℤ)
      → IsRetrying is_interrupted answer k
          (Call.read fd dest len)
          (λ fuel. read_loop k fuel fd dest len)
  unfolding read_loop
  read_loop-IsRetrying fd = record { step = λ fuel s. ground arith }

  -- `read` on a valid object repeats read(2) while it fails with EAGAIN or EINTR, and no longer: if the
  -- first `n` replies are such, and the next one is not, it makes `n + 1` calls and returns the count
  -- of the last or, if that failed, ends as `throwread` does. Any fuel beyond `n` is enough.
  pub read-calls :
      (n fuel : ℕ) (this : Addr) (s : Machine)
      → is_valid_fd (s.mem this) ≡ true
      → n < fuel
      → RetriesFor is_interrupted k (Call.read (s.mem this) dest len) n s
      → let c = Call.read (s.mem this) dest len in
        read k fuel dest len this s ≡ answer (k (calls k c n s).trace c) (calls k c (suc n) s)
  unfolding read
  read-calls n fuel this s v lt h =
      let fd = s.mem this in
      ground (
        arith,
        IsRetrying-calls is_interrupted answer k (Call.read fd dest len)
            (λ f. read_loop k f fd dest len) (read_loop-IsRetrying fd) n fuel s lt h,
      )

  -- `read` on a valid object does not retry for ever if read(2) does not: when the reply after `n`
  -- calls is no failure with EAGAIN or EINTR, `read` ends after at most `n + 1` calls, as `answer`
  -- says, with fuel for that many.
  pub read-ends :
      (n : ℕ) (this : Addr) (s : Machine)
      → is_valid_fd (s.mem this) ≡ true
      → let c = Call.read (s.mem this) dest len in
        is_interrupted (k (calls k c n s).trace c) ≡ false
        → (m : ℕ) × (m ≤ n)
          × (read k (suc n) dest len this s
              ≡ answer (k (calls k c m s).trace c) (calls k c (suc m) s))
  read-ends n this s v ends =
      let c = Call.read (s.mem this) dest len in
      let (m, le, run) = RetriesFor-first is_interrupted k c n s ends in
      (m, le, read-calls m (suc n) this s v (omega arith) run)
