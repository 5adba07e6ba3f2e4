-- ===== src/Children.antt =====
-- Who has to reap a child: what the objects of include/metasys/sched/Process.hxx whose behaviour waits
-- on destruction implement together, in the parent. They fill the
-- interface of Handles.
pub mod Operations
pub mod Programs
pub mod Interrupted
use metasys.Base.{
  ◌≡◌, refl, Bool, true, false, not, ◌&&◌, Option, none, some, arith, if◌then◌else◌, is_positive,
  ◌==ℤ◌, ℤ, pos,
}
use metasys.Machine.{History, Kernel, Call, Reply, Machine}
use metasys.Handles.{Resource, is_live, IsMatched}
use metasys.Handles.Attempts.{attempted, is_missed, attempted-is_live, is_missed-is_live}

abbrev pub forks : Call → Bool
forks Call.fork = true
forks c = false

-- waitpid(2) returns the child that it has reaped.
abbrev pub reaps : Call → Option ℤ
reaps (Call.waitpid pid wstatus options) = some pid
reaps c = none

-- The process that a call signals or waits for.
abbrev names : Call → Option ℤ
names (Call.waitpid pid wstatus options) = some pid
names (Call.kill pid sig) = some pid
names c = none

abbrev forked : Call → Reply → Option ℤ
forked c r = if forks c && is_positive r.ret then some r.ret else none

abbrev pub has_reaped : Reply → Bool
has_reaped r = is_positive r.ret

abbrev reaped : Call → Reply → Option ℤ
reaped c r = if has_reaped r then reaps c else none

pub forked-real :
    (c : Call) (r : Reply) (pid : ℤ) → forked c r ≡ some pid → not (is_positive pid) ≡ false
forked-real c r pid e = ground (arith, e)

abbrev pub children : Resource
children = record {
  is_none = λ pid. not (is_positive pid);
  empty = pos 0;
  gives = forked;
  takes = reaped;
  names = λ c. names c;
  empty_none = refl;
  gives_real = forked-real;
}

-- The children that were forked and not reaped since.
abbrev pub is_child : History → ℤ → Bool
is_child = is_live children

-- The children that were forked and that no waitpid(2) was called for since, whatever it returned.
abbrev pub unwaited : Resource
unwaited = attempted children reaps

-- A waitpid(2) for the child has returned without reaping it, as where a signal interrupts it.
abbrev pub is_abandoned : History → ℤ → Bool
is_abandoned = is_missed reaps has_reaped

-- Objects and children that were not waited for match one to one.
abbrev pub IsHeld : Machine → Type 0
IsHeld = IsMatched unwaited

-- The parent's side: fork(2) returns a process id that no unreaped child has, or an error, and not the
-- 0 of the child. waitpid(2) may fail at any time.
pub record IsParent (k : Kernel) : Type 0 where
  pub parent_side : (h : History) → ((k h Call.fork).ret ==ℤ pos 0) ≡ false
  pub forked :
      (h : History)
      → is_positive (k h Call.fork).ret ≡ true
      → is_child h (k h Call.fork).ret ≡ false

-- A process id that no unreaped child has is none of a child that was not waited for.
pub unwaited-is_child :
    (h : History) (pid : ℤ) → is_child h pid ≡ false → is_live unwaited h pid ≡ false
unwaited-is_child h pid gone =
    ground (arith, attempted-is_live children reaps has_reaped (λ c r. refl) h pid)

-- A child that was waited for and not abandoned was reaped.
pub is_abandoned-is_child :
    (h : History) (pid : ℤ)
    → is_live unwaited h pid ≡ false
    → is_abandoned h pid ≡ false
    → is_child h pid ≡ false
is_abandoned-is_child h pid waited kept =
    ground (arith, is_missed-is_live children reaps has_reaped (λ c r. refl) h pid)
