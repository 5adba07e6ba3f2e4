-- ===== src/Tests/Kernels/Handles.antt =====
-- Systems whose handles are above all numbers that were ever returned or stored. Nothing fails.
use metasys.Base.{
  ℕ, suc, ◌+◌, ◌≤◌, ◌<◌, ◌≡◌, refl, inl, inr, true, false, some, List, [], ◌∷◌, arith,
  if◌then◌else◌, Bool-cases, ==ℤ_iff, ℤ, pos,
}
use metasys.Machine.{History, Kernel, Call, Reply}
use metasys.Handles.{Resource, is_live}
use metasys.Handles.Directories.{directories, IsOpening}
use metasys.Handles.AddressLists.{lists, first_list, IsResolving}
use metasys.Custody.{starts, first_id, running, IsThreading}
use metasys.Children.{children, IsParent}
use metasys.Tests.Kernels.{to_nat, total, above}

module _ (x : Resource) where
  -- What is given out is in the reply.
  abbrev IsReplied : Type 0
  IsReplied =
      (c : Call) (r : Reply) (v : ℤ) → x.gives c r ≡ some v → to_nat v ≤ to_nat r.ret + total r.out

  is_live-above : IsReplied → (h : History) (v : ℤ) → is_live x h v ≡ true → to_nat v < above h
  unfolding is_live above
  is_live-above replied [] v e = cc
  is_live-above replied ((c, r) ∷ h) v e =
      grind (arith, is_live-above replied h v, replied c r, ==ℤ_iff)

  is_live-new : IsReplied → (h : History) (n : ℕ) → above h ≤ n → is_live x h (pos n) ≡ false
  is_live-new replied h n le = elim (Bool-cases (is_live x h (pos n))) [
    | inl used ↦ let bound = is_live-above replied h (pos n) used in absurd (omega arith)
    | inr free ↦ free
  ]

-- Directories and address lists.
unfoldable pub handle_kernel : Kernel
unfolding above
handle_kernel h (Call.getaddrinfo name service hints) = record {
  ret = pos 0;
  errno = 0;
  out = pos (suc (above h)) ∷ [];
}
handle_kernel h (Call.opendir name) = record { ret = pos (suc (above h)); errno = 0; out = [] }
handle_kernel h (Call.fdopendir fd) = record { ret = pos (suc (above h)); errno = 0; out = [] }
handle_kernel h c = record { ret = pos 0; errno = 0; out = [] }

opened-IsReplied : IsReplied directories
opened-IsReplied c r v e = ground (arith, e)

first_list-IsReplied : (out : List ℤ) (v : ℤ) → first_list out ≡ some v → to_nat v ≤ total out
first_list-IsReplied [] v e = absurd cc
first_list-IsReplied (a ∷ out) v e = ground (arith, e)

stored-IsReplied : IsReplied lists
stored-IsReplied c r v e = ground (arith, e, first_list-IsReplied r.out v)

pub handle_kernel-IsOpening : IsOpening handle_kernel
unfolding handle_kernel
handle_kernel-IsOpening h (Call.opendir name) v e =
    let new = is_live-new directories opened-IsReplied h (suc (above h)) (omega arith) in
    ground (arith, e, new)
handle_kernel-IsOpening h (Call.fdopendir fd) v e =
    let new = is_live-new directories opened-IsReplied h (suc (above h)) (omega arith) in
    ground (arith, e, new)
handle_kernel-IsOpening h _ v e = absurd cc

pub handle_kernel-IsResolving : IsResolving handle_kernel
unfolding handle_kernel
handle_kernel-IsResolving = record {
  found = λ h name service hints went. (
    pos (suc (above h)),
    refl,
    ground arith,
    is_live-new lists stored-IsReplied h (suc (above h)) (omega arith),
  );
  not_found = λ h name service hints failed. absurd cc;
}

-- Threads.
unfoldable pub thread_kernel : Kernel
unfolding above
thread_kernel h c = record {
  ret = pos 0;
  errno = 0;
  out = if starts c then pos (suc (above h)) ∷ [] else [];
}

first_id-IsReplied : (out : List ℤ) (tid : ℤ) → first_id out ≡ some tid → to_nat tid ≤ total out
first_id-IsReplied [] tid e = absurd cc
first_id-IsReplied (a ∷ out) tid e = ground (arith, e)

created-IsReplied : IsReplied running
created-IsReplied c r tid e = ground (arith, e, first_id-IsReplied r.out tid)

pub thread_kernel-IsThreading : IsThreading thread_kernel
unfolding thread_kernel
thread_kernel-IsThreading = record {
  created = λ h c begins went.
      let n = suc (above h) in
      (
        pos n,
        rw begins refl,
        ground arith,
        is_live-new running created-IsReplied h n (omega arith),
      );
  not_created = λ h c begins failed. absurd (cc);
  join_errors = λ h tid failed. absurd (cc);
  detach_errors = λ h tid failed. absurd (cc);
}

-- Processes.
unfoldable pub process_kernel : Kernel
unfolding above
process_kernel h Call.fork = record { ret = pos (suc (above h)); errno = 0; out = [] }
process_kernel h (Call.waitpid pid wstatus options) = record { ret = pid; errno = 0; out = [] }
process_kernel h c = record { ret = pos 0; errno = 0; out = [] }

forked-IsReplied : IsReplied children
forked-IsReplied c r pid e = ground (arith, e)

pub process_kernel-IsParent : IsParent process_kernel
unfolding process_kernel
process_kernel-IsParent = record {
  parent_side = λ h. ground arith;
  forked = λ h positive. is_live-new children forked-IsReplied h (suc (above h)) (omega arith);
}
