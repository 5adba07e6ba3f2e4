-- ===== src/Tests/Handles.antt =====
-- Programs over directories and lists of addresses.
use metasys.Base.{◌≡◌, refl, ◌≢◌, false, List, [], ◌∷◌, arith, minus_one, ℤ, pos}
use metasys.Machine.{Addr, Call, and_then, update, Machine, done}
use metasys.Handles.{is_live, IsMatched, IsNew}
use metasys.Handles.Steps.{IsNew-IsMatched}
use metasys.Handles.Rules.{Safe, run}
use metasys.Handles.Directories
use metasys.Handles.Directories.{directories, path, descriptor}
use metasys.Handles.Directories.Theorems.{run-directories-IsMatched, run-all_closed}
use metasys.Handles.AddressLists
use metasys.Fs.Directory.Laws.{construct_taking-failed}
use metasys.Ownership.{is_open}
use metasys.Tests.Kernels.{constant}
use metasys.Handles.AddressLists.{lists}
use metasys.Handles.AddressLists.Theorems.{run-lists-IsMatched, run-all_freed}
use metasys.Fs.Directory
use metasys.Net.AddressInfo
use metasys.Net.AddressInfo.{Info}
use metasys.Net.TcpAddress
use metasys.Net.TcpAddress.{hints_of}
use metasys.Tests.Kernels.Handles.{
  handle_kernel, handle_kernel-IsOpening, handle_kernel-IsResolving,
}

-- Every object is empty, and nothing was called.
abbrev empty_machine : Machine
empty_machine = record { mem = λ _. pos 0; errno = 0; trace = [] }

empty_machine-directories : IsNew directories empty_machine
empty_machine-directories = (refl, λ a. refl)

empty_machine-lists : IsNew lists empty_machine
empty_machine-lists = (refl, λ a. refl)

abbrev moved_to : Addr
moved_to = 1

abbrev moved_from : Addr
moved_from = 0

one_apart : moved_to ≢ moved_from
one_apart e = cc

other_apart : moved_from ≢ moved_to
other_apart e = cc

-- Two directories: the first is moved, and assigned over the second.
abbrev two_directories : List Directories.Statement
two_directories =
    Directories.construct (path 7) 0
    ∷ Directories.construct (descriptor (pos 5)) 1
    ∷ Directories.read 1
    ∷ Directories.move_assign moved_to moved_from one_apart
    ∷ Directories.destroy 1
    ∷ []

run-directories-IsMatched_example :
    Safe directories
      (λ _. IsMatched directories)
      (run (Directories.execute handle_kernel) two_directories empty_machine)
run-directories-IsMatched_example =
    run-directories-IsMatched handle_kernel handle_kernel-IsOpening two_directories empty_machine
      (IsNew-IsMatched directories empty_machine empty_machine-directories)

-- A directory that is opened and destroyed.
abbrev closed_again : Machine
closed_again = record {
  mem = update (update (update (λ _. pos 0) 0 (pos 0)) 0 (pos 1)) 0 (pos 0);
  errno = 0;
  trace =
      (Call.closedir (pos 1), record { ret = pos 0; errno = 0; out = [] })
      ∷ (Call.opendir 7, record { ret = pos 1; errno = 0; out = [] })
      ∷ [];
}

run-all_closed_example : is_live directories closed_again.trace (pos 1) ≡ false
unfolding run handle_kernel Directories.execute Directory.destroy Directory.construct_or_throw
run-all_closed_example =
    run-all_closed handle_kernel handle_kernel-IsOpening
      (Directories.construct (path 7) 0 ∷ Directories.destroy 0 ∷ []) empty_machine closed_again
      (pos 1) empty_machine-directories refl (λ a. ground arith)

-- The C library's lists all have one element, an address of 127.0.0.1.
abbrev one_element : ℤ → Info
one_element it = record {
  ai_family = pos 2;
  ai_socktype = pos 1;
  ai_protocol = pos 6;
  ai_addrlen = 16;
  ai_addr = record { family = 2; sin_port = 20480; s_addr = 16777343 };
  ai_next = pos 0;
}

-- Two lists: one of a lookup, one that is moved and freed.
abbrev two_lists : List AddressLists.Statement
two_lists =
    AddressLists.resolve 7 8 (hints_of []) 0
    ∷ AddressLists.lookup 7 8 2
    ∷ AddressLists.move_construct moved_to moved_from one_apart
    ∷ AddressLists.free 1
    ∷ AddressLists.destroy 1
    ∷ []

run-lists-IsMatched_example :
    Safe lists
      (λ _. IsMatched lists)
      (run (AddressLists.execute handle_kernel [] one_element) two_lists empty_machine)
run-lists-IsMatched_example =
    run-lists-IsMatched handle_kernel handle_kernel-IsResolving [] one_element two_lists
      empty_machine (IsNew-IsMatched lists empty_machine empty_machine-lists)

-- A lookup, whose list is local.
abbrev looked_up : Machine
looked_up = record {
  mem = update (update (update (update (λ _. pos 0) 2 (pos 0)) 2 (pos 0)) 2 (pos 2)) 2 (pos 0);
  errno = 0;
  trace =
      (Call.freeaddrinfo (pos 2), record { ret = pos 0; errno = 0; out = [] })
      ∷ (Call.getaddrinfo 7 8 (hints_of []), record { ret = pos 0; errno = 0; out = pos 2 ∷ [] })
      ∷ (Call.freeaddrinfo (pos 0), record { ret = pos 0; errno = 0; out = [] })
      ∷ [];
}

run-all_freed_example : is_live lists looked_up.trace (pos 2) ≡ false
unfolding run handle_kernel AddressLists.execute AddressLists.end_of_life AddressLists.look_up
    TcpAddress.instance_of AddressInfo.destroy
run-all_freed_example =
    run-all_freed handle_kernel handle_kernel-IsResolving [] one_element
      (AddressLists.lookup 7 8 2 ∷ []) empty_machine looked_up (pos 2) empty_machine-lists refl
      (λ a. ground arith)

-- The object at 0 holds an open descriptor, with which fdopendir(3) fails.
abbrev taking : Machine
taking = record {
  mem = update (λ _. pos 0) 0 (pos 3);
  errno = 0;
  trace = (Call.socket (pos 2) 1 (pos 0), record { ret = pos 3; errno = 0; out = [] }) ∷ [];
}

construct_taking-failed_example :
    (t : Machine) × (Directory.construct_or_throw_taking (constant (pos 0) []) 0 1 taking
      ≡ and_then (Directory.openthrow {A = Unit {0}} t) (λ _. done tt))
    × (t.mem 0 ≡ minus_one)
    × (t.mem 1 ≡ Directory.null)
    × (is_open t.trace (pos 3) ≡ is_open taking.trace (pos 3))
construct_taking-failed_example =
    construct_taking-failed (constant (pos 0) []) moved_from moved_to taking other_apart refl
