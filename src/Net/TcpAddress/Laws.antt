-- ===== src/Net/TcpAddress/Laws.antt =====
-- Looking a name up: the address found, and the list freed.
use metasys.Base.{
  ◌≡◌, refl, ◌∙◌, false, not, ◌||◌, List, [], ◌∷◌, arith, if◌then◌else◌, elem, ◌==ℤ◌, ℤ, pos,
}
use metasys.Machine.{
  Addr, Kernel, Call, M, and_then, scope_left, when, update, after, Machine, errno_exception,
  resolve_exception, assertion, aborted, done, thrown, stopped, eai_badflags, eai_socktype,
  eai_service, eai_system,
}
use metasys.Sys.SystemException.{throw_errno}
use metasys.Sys.SystemException
use metasys.Sys.SystemException.Laws.{throw_errno_of_lem}
use metasys.Net.AddressInfo
use metasys.Net.AddressInfo.{Info, cases, resolvethrow}
use metasys.Net.AddressInfo.Laws.{is_case, resolvethrow_lem}
use metasys.Net.InetAddress
use metasys.Net.InetAddress.{InetAddress, af_inet}
use metasys.Net.TcpAddress.{hints_of, instance_of, instance_with, sock_stream, ipproto_tcp}

module _ (k : Kernel) (rest : List ℤ) (node : ℤ → Info) (ais : Addr) where
  -- The machine once the list has been fetched and freed again.
  abbrev pub looked_up : (name service : Addr) → ℤ → Machine → Machine
  looked_up name service list s =
      let c = Call.getaddrinfo name service (hints_of rest) in
      let m = update s.mem ais (pos 0) in
      let s' = record (after s c (k s.trace c)) { mem = update m ais list } in
      after s' (Call.freeaddrinfo list) (k s'.trace (Call.freeaddrinfo list))

  -- `instance` on a name that is found returns the first address of the list, if that is the
  -- IPv4 TCP address it asked for, and frees the list once, whatever the handler is.
  pub instance_with-found :
      {B : Type 0} (name service : Addr) (handler : ℤ → M B) (list : ℤ) (s : Machine)
      → let r = k s.trace (Call.getaddrinfo name service (hints_of rest)) in
        r.ret ≡ pos 0
        → r.out ≡ list ∷ []
        → (list ==ℤ pos 0) ≡ false
        → (node list).ai_family ≡ pos af_inet
        → (node list).ai_socktype ≡ pos sock_stream
        → (node list).ai_protocol ≡ pos ipproto_tcp
        → (node list).ai_addrlen ≡ InetAddress.size
        → instance_with k rest node ais name service handler s
          ≡ done ((node list).ai_addr) (looked_up name service list s)
  unfolding instance_with
  instance_with-found name service handler list s went found nonnull family type protocol size =
      ground (arith, went, found, nonnull, family, type, protocol, size)

  -- The machine when getaddrinfo(3) has failed, and when the list, still null, has been freed.
  abbrev pub not_found : (name service : Addr) → Machine → Machine
  not_found name service s =
      let c = Call.getaddrinfo name service (hints_of rest) in
      record (after s c (k s.trace c)) { mem = update s.mem ais (pos 0) }

  abbrev pub freed : ℤ → Machine → Machine
  freed list s = after s (Call.freeaddrinfo list) (k s.trace (Call.freeaddrinfo list))

  instance_with-failed :
      {B : Type 0} (name service : Addr) (handler : ℤ → M B) (s : Machine)
      → let r = k s.trace (Call.getaddrinfo name service (hints_of rest)) in
        let t = not_found name service s in
        r.out ≡ []
        → (r.ret ==ℤ pos 0) ≡ false
        → instance_with k rest node ais name service handler s
          ≡ scope_left
              (AddressInfo.destroy k ais)
              (and_then (handler r.ret t) λ _. done InetAddress.empty)
  unfolding instance_with
  instance_with-failed name service handler s nothing nonzero = ground (arith, nothing, nonzero)

  -- What `resolvethrow` makes of a code, with `throwErrno` written out.
  abbrev failure : ℤ → M (Unit {0})
  failure ret t =
      if (ret ==ℤ eai_badflags) || (ret ==ℤ eai_socktype)
      then stopped assertion t
      else if is_case ret cases
      then thrown (resolve_exception ret) t
      else if ret ==ℤ eai_system
      then if elem t.errno SystemException.cases
        then thrown (errno_exception t.errno) t
        else stopped aborted t
      else done tt t

  throw_errno_lem :
      (t : Machine)
      → throw_errno {A = Unit {0}} t ≡ (
          if elem t.errno SystemException.cases
          then thrown (errno_exception t.errno) t
          else stopped aborted t)
  unfolding throw_errno
  throw_errno_lem t = throw_errno_of_lem t.errno t

  -- `instance` without a handler where getaddrinfo(3) fails and stores nothing, for each of its
  -- codes: the two codes of a wrong call fail an assertion; the eight codes of the switch are
  -- thrown, after the null list has been freed; EAI_SYSTEM is thrown as the exception of `errno`,
  -- or aborts where there is none; and every other code is swallowed, so that the caller is given
  -- the empty address as if the name had been found.
  pub instance_of-failed :
      (name service : Addr) (s : Machine)
      → let r = k s.trace (Call.getaddrinfo name service (hints_of rest)) in
        let t = not_found name service s in
        r.out ≡ []
        → (r.ret ==ℤ pos 0) ≡ false
        → instance_of k rest node ais name service s ≡ (
            if (r.ret ==ℤ eai_badflags) || (r.ret ==ℤ eai_socktype)
            then stopped assertion t
            else if is_case r.ret cases
            then thrown (resolve_exception r.ret) (freed (pos 0) t)
            else if r.ret ==ℤ eai_system
            then if elem r.errno SystemException.cases
              then thrown (errno_exception r.errno) (freed (pos 0) t)
              else stopped aborted t
            else done InetAddress.empty (freed (pos 0) t))
  unfolding instance_of AddressInfo.destroy
  instance_of-failed name service s nothing nonzero =
      let r = k s.trace (Call.getaddrinfo name service (hints_of rest)) in
      let t = not_found name service s in
      let handled : when (not (r.ret ==ℤ pos 0)) (resolvethrow r.ret) t ≡ failure r.ret t =
        rw nonzero (resolvethrow_lem r.ret t ∙ rw (throw_errno_lem t) refl) in
      instance_with-failed name service (λ ret. when (not (ret ==ℤ pos 0)) (resolvethrow ret)) s
        nothing nonzero
      ∙ rw handled (ground arith)

  -- One on a name whose list is empty throws EAI_SERVICE, after the null list has been freed.
  pub instance_of-none :
      (name service : Addr) (s : Machine)
      → let r = k s.trace (Call.getaddrinfo name service (hints_of rest)) in
        r.ret ≡ pos 0
        → r.out ≡ []
        → instance_of k rest node ais name service s
          ≡ thrown (resolve_exception eai_service) (freed (pos 0) (not_found name service s))
  unfolding instance_of
  instance_of-none name service s went nothing = ground (arith, went, nothing)
