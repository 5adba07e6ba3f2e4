-- ===== src/Handles/AddressLists/Theorems.antt =====
-- Programs over lists of addresses, with the lookups of TcpAddress.hxx.
use metasys.Base.{ℕ, ◌≡◌, refl, inl, inr, false, not, cond, List, ◌==◌, Bool-cases, ◌==ℤ◌, ℤ, pos}
use metasys.Machine.{
  Addr, Kernel, M, pure, and_then, ◌>>=◌, scope_left, update, put, Machine, Outcome, done, thrown,
  stopped, out_of_fuel, eai_service,
}
use metasys.Sys.Safety.{Safe-and_then}
use metasys.Net.AddressInfo
use metasys.Net.AddressInfo.{Info, null, is_list, resolvethrow, cases}
use metasys.Net.InetAddress
use metasys.Net.InetAddress.{InetAddress, af_inet, from_sockaddr}
use metasys.Net.TcpAddress
use metasys.Net.TcpAddress.{sock_stream, ipproto_tcp, hints_of}
use metasys.Handles.{is_live, IsMatched, IsNew}
use metasys.Handles.Steps.{IsMatched-clear}
use metasys.Handles.Rules.{
  Clean, IsEmpty, Safe, Keeps, Fills, Empties-Keeps, Empties-Fills, run, run-Keeps, run-none_live,
}
use metasys.Handles.AddressLists.{
  lists, IsResolving, Statement, end_of_life, look_up, look_up_port, execute, resolve, lookup,
  lookup_port, free, move_construct, move_assign, destroy,
}
use metasys.Handles.AddressLists.Objects.{
  handle, assert_then-Safe, assert-Keeps, handle-Keeps, resolve_with-Fills, resolve-Keeps,
  end_of_life-Empties, free-Keeps, move_construct-Fills, move_assign-Keeps,
}

module _ (k : Kernel) (resolving : IsResolving k) where
  -- The local list is freed however the function is left.
  local_list-Safe :
      {A : Type 0} (local : Addr) (o : Outcome A)
      → Safe lists (λ _. IsMatched lists) o
      → Safe lists
          (λ _. IsMatched lists)
          (scope_left {A = Unit {0}}
            (put local null)
            (and_then (scope_left (AddressInfo.destroy k local) o) λ _. done tt))
  unfolding end_of_life AddressInfo.destroy
  local_list-Safe local (done a s) v = (end_of_life-Empties k resolving local s v).0
  local_list-Safe local (thrown e s) v = (end_of_life-Empties k resolving local s v).0
  local_list-Safe local (stopped c s) v = v
  local_list-Safe local (out_of_fuel s) v = v

  module _ (rest : List ℤ) (node : ℤ → Info) where
    check_info-Keeps :
        (local : Addr) (ai : Info) → Keeps lists (TcpAddress.check_info k rest node local ai)
    unfolding TcpAddress.check_info
    check_info-Keeps local ai s v = assert_then-Safe (ai.ai_family ==ℤ pos af_inet) _ s v (
        assert_then-Safe (ai.ai_socktype ==ℤ pos sock_stream) _ s v (
          assert_then-Safe (ai.ai_protocol ==ℤ pos ipproto_tcp) _ s v
            (assert-Keeps (ai.ai_addrlen == InetAddress.size) s v)))

    fail_with-Safe :
        (local : Addr) (ret : ℤ) (s : Machine)
        → IsMatched lists s
        → Safe lists (λ _. IsMatched lists) (TcpAddress.fail_with k rest node local handle ret s)
    unfolding TcpAddress.fail_with
    fail_with-Safe local ret s v =
        Safe-and_then (IsMatched lists) (Clean lists) (λ _. IsMatched lists) (λ _. IsMatched lists)
          (handle ret s) _ (handle-Keeps ret s v) (λ _ t w. w)

    first_of_list-Safe :
        (local : Addr) (pick : Info → InetAddress) (s : Machine)
        → IsMatched lists s
        → Safe lists
            (λ _. IsMatched lists)
            (TcpAddress.first_of_list k rest node local pick handle s)
    unfolding TcpAddress.first_of_list
    first_of_list-Safe local pick s v = elim (Bool-cases (is_list (s.mem local))) [
      | inr none_found ↦ rw none_found (fail_with-Safe local eai_service s v)
      | inl found ↦
          let ai = node (s.mem local) in
          rw found (
            Safe-and_then (IsMatched lists) (Clean lists) (λ _. IsMatched lists)
              (λ _. IsMatched lists) (TcpAddress.check_info k rest node local ai s)
              (λ _. pure (pick ai)) (check_info-Keeps local ai s v) (λ _ t w. w))
    ]

    -- The function up to its exit, with the local still empty at the start.
    abbrev lookup_body : (Info → InetAddress) → (name service local : Addr) → M InetAddress
    lookup_body pick name service local = do
      ret ← TcpAddress.resolve k rest name service (λ r. pure r) local
      cond (not (ret ==ℤ pos 0)) (TcpAddress.fail_with k rest node local handle ret)
          (TcpAddress.first_of_list k rest node local pick handle)

    lookup_body-Safe :
        (pick : Info → InetAddress) (name service local : Addr) (s : Machine)
        → IsMatched lists s
        → Safe lists (λ _. IsMatched lists) (lookup_body pick name service local s)
    unfolding TcpAddress.resolve
    lookup_body-Safe pick name service local s v =
        Safe-and_then (IsMatched lists) (Clean lists) (λ _. IsMatched lists) (λ _. IsMatched lists)
          (TcpAddress.resolve k rest name service (λ r. pure r) local s) _
          (resolve_with-Fills k resolving name service (hints_of rest) (λ r. pure r) local s
            (λ _ _ w. w) v)
          (λ ret t w. elim (Bool-cases (ret ==ℤ pos 0)) [
            | inl went ↦ rw went (first_of_list-Safe local pick t w)
            | inr failed ↦ rw failed (fail_with-Safe local ret t w)
          ])

    look_up-Fills :
        (name service local : Addr) → Fills lists local (look_up k rest node name service local)
    unfolding look_up TcpAddress.instance_of
    look_up-Fills name service local s v vacant =
        let t = record s { mem = update s.mem local null } in
        local_list-Safe local (lookup_body (λ ai. from_sockaddr ai.ai_addr) name service local t) (
          lookup_body-Safe (λ ai. from_sockaddr ai.ai_addr) name service local t
            (IsMatched-clear lists s v local null vacant refl))

    look_up_port-Fills :
        (htons : ℕ → ℕ) (name : Addr) (port : ℕ) (local : Addr)
        → Fills lists local (look_up_port k rest node htons name port local)
    unfolding look_up_port TcpAddress.instance_port
    look_up_port-Fills htons name port local s v vacant =
        let t = record s { mem = update s.mem local null } in
        let pick : Info → InetAddress =
          λ ai. from_sockaddr (record ai.ai_addr { sin_port = htons port }) in
        local_list-Safe local (lookup_body pick name 0 local t)
          (lookup_body-Safe pick name 0 local t (IsMatched-clear lists s v local null vacant refl))

    execute-Keeps : (c : Statement) → Keeps lists (execute k rest node c)
    unfolding execute
    execute-Keeps (resolve name service hints this) =
        resolve-Keeps k resolving name service hints this
    execute-Keeps (lookup name service local) =
        Empties-Fills lists local (end_of_life k local) (look_up k rest node name service local)
          (end_of_life-Empties k resolving local) (look_up-Fills name service local)
    execute-Keeps (lookup_port htons name port local) =
        Empties-Fills lists local (end_of_life k local)
          (look_up_port k rest node htons name port local) (end_of_life-Empties k resolving local)
          (look_up_port-Fills htons name port local)
    execute-Keeps (free this) = free-Keeps k resolving this
    execute-Keeps (move_construct this from apart) =
        Empties-Fills lists this (end_of_life k this) (AddressInfo.move_construct this from)
          (end_of_life-Empties k resolving this) (move_construct-Fills k resolving this from apart)
    execute-Keeps (move_assign this from apart) = move_assign-Keeps k resolving this from apart
    execute-Keeps (destroy this) =
        Empties-Keeps lists this (end_of_life k this) (end_of_life-Empties k resolving this)

    -- In a program over lists of addresses, of calls of `resolve`, of `TcpAddress::instance` for a
    -- service or a port, without a handler and with its local list, of moves, assignments from another object, `free` and ends of objects, each
    -- followed by a handler of every exception, where getaddrinfo(3) stores one list that is not in
    -- use or fails: from a machine where the objects that hold a list and the lists not yet freed
    -- match one to one, freeaddrinfo(3) is only ever passed a null pointer or a list that was stored
    -- and not freed since, whether the program ends or the process is stopped; where it ends, objects
    -- and lists match again.
    pub run-lists-IsMatched :
        (cs : List Statement) (s : Machine)
        → IsMatched lists s
        → Safe lists (λ _. IsMatched lists) (run (execute k rest node) cs s)
    run-lists-IsMatched = run-Keeps lists (execute k rest node) execute-Keeps

    -- A program over lists of addresses that starts with nothing called and every object empty, and
    -- that ends with every object empty, has freed every list that getaddrinfo(3) stored, the local
    -- lists of `TcpAddress::instance` included, under the same hypothesis.
    pub run-all_freed :
        (cs : List Statement) (s t : Machine) (list : ℤ)
        → IsNew lists s
        → run (execute k rest node) cs s ≡ done tt t
        → ((a : Addr) → IsEmpty lists a t)
        → is_live lists t.trace list ≡ false
    run-all_freed = run-none_live lists (execute k rest node) execute-Keeps
