-- ===== src/Custody.antt =====
-- Who has to join or to detach a thread: what the objects of include/metasys/sched/Pthread.hxx that
-- terminate the process when they are dropped, `Thread`, implement together. They fill
-- the interface of Handles.
mod Steps
pub mod Operations
pub mod Programs
pub mod Jthreads
use metasys.Base.{
  ◌≡◌, refl, Bool, true, false, ◌&&◌, Option, none, some, List, [], ◌∷◌, arith, if◌then◌else◌,
  ◌==ℤ◌, ℤ, pos,
}
use metasys.Machine.{
  Addr, History, Kernel, Call, Reply, is_any, M, pure, ◌>>=◌, ◌>>◌, when, get, Machine, esrch,
  einval, edeadlk,
}
use metasys.Handles.{Resource, is_live, IsMatched}
use metasys.Handles.Attempts.{attempted, is_missed, attempted-is_live, is_missed-is_live}
use metasys.Sched.Pthread.{invalid, reset}

abbrev pub starts : Call → Bool
starts (Call.pthread_create attr routine arg) = true
starts c = false

-- pthread_join(3) and pthread_detach(3) end the duty towards a thread, where they succeed.
abbrev pub ends : Call → Option ℤ
ends (Call.pthread_join tid) = some tid
ends (Call.pthread_detach tid) = some tid
ends c = none

abbrev pub first_id : List ℤ → Option ℤ
first_id [] = none
first_id (tid ∷ _) = if tid ==ℤ invalid then none else some tid

abbrev created : Call → Reply → Option ℤ
created c r = if starts c && (r.ret ==ℤ pos 0) then first_id r.out else none

abbrev pub has_ended : Reply → Bool
has_ended r = r.ret ==ℤ pos 0

abbrev pub ended : Call → Reply → Option ℤ
ended c r = if has_ended r then ends c else none

first_id-real : (out : List ℤ) (tid : ℤ) → first_id out ≡ some tid → (tid ==ℤ invalid) ≡ false
first_id-real [] tid e = absurd cc
first_id-real (a ∷ out) tid e = ground (arith, e)

pub created-real :
    (c : Call) (r : Reply) (tid : ℤ) → created c r ≡ some tid → (tid ==ℤ invalid) ≡ false
created-real c r tid e = ground (arith, e, first_id-real r.out tid)

abbrev pub running : Resource
running = record {
  is_none = λ tid. tid ==ℤ invalid;
  empty = invalid;
  gives = created;
  takes = ended;
  names = λ c. ends c;
  empty_none = refl;
  gives_real = created-real;
}

-- The threads that were created and neither joined nor detached since.
abbrev pub is_running : History → ℤ → Bool
is_running = is_live running

-- The same threads, where other calls count as those that end the duty.
abbrev pub taking : (Call → Reply → Option ℤ) → Resource
taking taken = record running { takes = taken }

-- Only pthread_join(3) and pthread_detach(3) count, and they do where they succeed.
pub record IsTaking (taken : Call → Reply → Option ℤ) : Type 0 where
  pub others : (c : Call) (r : Reply) → ends c ≡ none → taken c r ≡ none
  pub successes :
      (c : Call) (r : Reply) (tid : ℤ)
      → ends c ≡ some tid
      → has_ended r ≡ true
      → taken c r ≡ some tid
  pub fewer :
      (h : History) (tid : ℤ) → is_running h tid ≡ false → is_live (taking taken) h tid ≡ false

-- Those calls where they succeed.
pub ended-IsTaking : IsTaking ended
ended-IsTaking = record {
  others = λ c r none_ended. rw none_ended (ground arith);
  successes = λ c r tid over went. rw (went, over) refl;
  fewer = λ h tid gone. gone;
}

-- The threads that were created, and for which no join or detach was tried since.
abbrev pub unjoined : Resource
unjoined = attempted running ends

-- A join or a detach of the thread has failed.
abbrev pub is_abandoned : History → ℤ → Bool
is_abandoned = is_missed ends has_ended

-- Those calls, whatever they return.
abbrev pub attempts : Call → Reply → Option ℤ
attempts c r = ends c

pub attempts-IsTaking : IsTaking attempts
attempts-IsTaking = record {
  others = λ c r none_ended. none_ended;
  successes = λ c r tid over went. over;
  fewer =
      λ h tid gone. ground (arith, attempted-is_live running ends has_ended (λ c r. refl) h tid);
}

-- A thread that somebody tried to join or to detach, without failing, was joined or detached.
pub is_abandoned-is_running :
    (h : History) (tid : ℤ)
    → is_live unjoined h tid ≡ false
    → is_abandoned h tid ≡ false
    → is_running h tid ≡ false
is_abandoned-is_running h tid tried kept =
    ground (arith, is_missed-is_live running ends has_ended (λ c r. refl) h tid)

-- Objects and running threads match one to one.
abbrev pub IsKept : Machine → Type 0
IsKept = IsMatched running

-- Objects and threads for which no join or detach was tried match one to one.
abbrev pub IsTended : Machine → Type 0
IsTended = IsMatched unjoined

-- pthread_create(3) stores the id of a new thread, which is not 0, or, on an error, any one value;
-- pthread_join(3) and pthread_detach(3) have no other errors than those that their manual pages name.
pub record IsThreading (k : Kernel) : Type 0 where
  pub created :
      (h : History) (c : Call)
      → starts c ≡ true
      → ((k h c).ret ==ℤ pos 0) ≡ true
      → (tid : ℤ) × ((k h c).out ≡ tid ∷ [])
        × ((tid ==ℤ invalid) ≡ false)
        × (is_running h tid ≡ false)
  pub not_created :
      (h : History) (c : Call)
      → starts c ≡ true
      → ((k h c).ret ==ℤ pos 0) ≡ false
      → (tid : ℤ) × ((k h c).out ≡ tid ∷ [])
  pub join_errors :
      (h : History) (tid : ℤ)
      → let ret = (k h (Call.pthread_join tid)).ret in
        (ret ==ℤ pos 0) ≡ false → is_any ret (edeadlk ∷ einval ∷ esrch ∷ []) ≡ true
  pub detach_errors :
      (h : History) (tid : ℤ)
      → let ret = (k h (Call.pthread_detach tid)).ret in
        (ret ==ℤ pos 0) ≡ false → is_any ret (einval ∷ esrch ∷ []) ≡ true

-- What is only done where the object has no thread.
abbrev pub when_free : Addr → M (Unit {0}) → M (Unit {0})
when_free this m = do tid ← get this; when (tid ==ℤ invalid) m

-- `this.reset(from.reset())`
unfoldable pub hand_over : (this from : Addr) → M (Unit {0})
unfolding reset
hand_over this from = do tid ← reset invalid from; reset tid this; pure tt
