-- ===== src/Tests/Kernels.antt =====
-- Small operating systems, and machines to run them on.
pub mod Handles
use metasys.Base.{
  ℕ, suc, ◌+◌, ◌≤◌, ◌<◌, ◌≡◌, refl, inl, inr, Bool, true, false, List, [], ◌∷◌, arith,
  if◌then◌else◌, Bool-cases, minus_one, ◌==ℤ◌, ==ℤ_iff, ℤ, pos, negsuc,
}
use metasys.Machine.{History, Kernel, Call, is_any, update, Machine, ebusy}
use metasys.Ownership.{opens, pairs, in_pair, is_open, IsFresh, IsPiping}
use metasys.Sched.ThisPthread.{cancel_enable, cancel_disable}
use metasys.Sched.ThisPthread.Laws.{is_enabled, HasCancelState}
use metasys.Sched.Pthread.{Pthreads, IsPthreads}
use metasys.Sched.PthreadMutex.Laws.{lock_errors}
use metasys.Sched.PthreadMutex.Exclusion.{is_held, IsMutex}

-- Every call returns `v` and stores `out`.
abbrev pub constant : ℤ → List ℤ → Kernel
constant v out h c = record { ret = v; errno = 0; out = out }

-- Every call fails, with the number `e`.
abbrev pub failing : ℕ → Kernel
failing e h c = record { ret = minus_one; errno = e; out = [] }

-- The first call of all fails with the number `e`; the others return 8.
abbrev pub interrupted_once : ℕ → Kernel
interrupted_once e [] c = record { ret = minus_one; errno = e; out = [] }
interrupted_once e (_ ∷ _) c = record { ret = pos 8; errno = 0; out = [] }

-- Nothing has been called, and the object at address 0 holds `v`.
abbrev pub holding : ℤ → Machine
holding v = record { mem = update (λ _. minus_one) 0 v; errno = 0; trace = [] }

-- Descriptors above all that were ever returned or stored.
abbrev pub to_nat : ℤ → ℕ
to_nat (pos n) = n
to_nat (negsuc n) = 0

abbrev pub total : List ℤ → ℕ
total [] = 0
total (v ∷ vs) = to_nat v + total vs

unfoldable pub above : History → ℕ
above [] = 0
above ((c, r) ∷ h) = suc (to_nat r.ret + total r.out + above h)

unfoldable pub fresh_kernel : Kernel
unfolding above
fresh_kernel h c =
    if opens c
    then record { ret = pos (above h); errno = 0; out = [] }
    else record { ret = pos 0; errno = 0; out = pos (above h) ∷ pos (suc (above h)) ∷ [] }

in_pair-total : (fd : ℤ) (vs : List ℤ) → in_pair fd vs ≡ true → to_nat fd ≤ total vs
in_pair-total fd [] e = absurd cc
in_pair-total fd (a ∷ []) e = ground (arith, ==ℤ_iff a fd)
in_pair-total fd (a ∷ b ∷ vs) e = ground (arith, ==ℤ_iff a fd, ==ℤ_iff b fd)

is_open-above : (h : History) (fd : ℤ) → is_open h fd ≡ true → to_nat fd < above h
unfolding is_open above
is_open-above [] fd e = cc
is_open-above ((c, r) ∷ h) fd e =
    ground (arith, is_open-above h fd, ==ℤ_iff r.ret fd, in_pair-total fd r.out)

is_open-new : (h : History) (n : ℕ) → above h ≤ n → is_open h (pos n) ≡ false
is_open-new h n le = elim (Bool-cases (is_open h (pos n))) [
  | inl used ↦ let bound = is_open-above h (pos n) used in absurd (omega arith)
  | inr free ↦ free
]

pub fresh_kernel-IsFresh : IsFresh fresh_kernel
unfolding fresh_kernel
fresh_kernel-IsFresh h c opened good = rw opened (is_open-new h (above h) (omega arith))

pairs-opens : (c : Call) → pairs c ≡ true → opens c ≡ false
pairs-opens Call.pipe two = refl
pairs-opens (Call.pipe2 flags) two = refl
pairs-opens _ two = absurd cc

pub fresh_kernel-IsPiping : IsPiping fresh_kernel
unfolding fresh_kernel
fresh_kernel-IsPiping = record {
  success = λ h c two went.
      let n = above h in
      (
        pos n,
        pos (suc n),
        rw (pairs-opens c two) refl,
        record {
          read_end = refl;
          write_end = refl;
          apart = λ e. ground arith;
          read_free = is_open-new h n (omega arith);
          write_free = is_open-new h (suc n) (omega arith);
        },
      );
  failure = λ h c two failed. let e : true ≡ false = rw (pairs-opens c two) at failed in absurd cc;
}

-- The cancel state as pthread_setcancelstate(3) has left it.
abbrev pub cancel_kernel : Kernel
cancel_kernel h c = record {
  ret = pos 0;
  errno = 0;
  out = (if is_enabled h then cancel_enable else cancel_disable) ∷ [];
}

pub cancel_kernel-HasCancelState : HasCancelState cancel_kernel
cancel_kernel-HasCancelState h state = (refl, refl)

abbrev pub threads : Pthreads
threads = record {
  equal = λ a b. if a ==ℤ b then pos 1 else pos 0;
  wrapper_with = λ method. method + 1000;
  wrapper = λ method. method + 2000;
}

pub threads-IsPthreads : IsPthreads threads
threads-IsPthreads a b = ground arith

-- A mutex that is granted where it is free: the calls answer EBUSY where it is not.
unfoldable pub mutex_kernel : Kernel
unfolding is_held
mutex_kernel h (Call.pthread_mutex_lock m) = record {
  ret = if is_held h m then pos ebusy else pos 0;
  errno = 0;
  out = [];
}
mutex_kernel h (Call.pthread_mutex_trylock m) = record {
  ret = if is_held h m then pos ebusy else pos 0;
  errno = 0;
  out = [];
}
mutex_kernel h c = record { ret = pos 0; errno = 0; out = [] }

granted : (b : Bool) → ((if b then pos ebusy else pos 0) ==ℤ pos 0) ≡ true → b ≡ false
granted true e = absurd cc
granted false e = refl

refused :
    (b : Bool)
    → ((if b then pos ebusy else pos 0) ==ℤ pos 0) ≡ false
    → is_any (if b then pos ebusy else pos 0) lock_errors ≡ true
refused true e = refl
refused false e = absurd cc

pub mutex_kernel-IsMutex : IsMutex mutex_kernel
unfolding mutex_kernel
mutex_kernel-IsMutex = record {
  lock_granted = λ h m free. granted (is_held h m) free;
  trylock_granted = λ h m free. granted (is_held h m) free;
  lock_refused = λ h m busy. refused (is_held h m) busy;
}
