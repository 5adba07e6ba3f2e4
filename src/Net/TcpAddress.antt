-- ===== src/Net/TcpAddress.antt =====
-- include/metasys/net/TcpAddress.hxx: the first address of a host name. The local `AddressInfo ais`
-- stands at the address `ais`; `rest` is what the uninitialised fields of `hints` hold.
pub mod Laws
use metasys.Base.{ℕ, not, cond, List, ◌==◌, ◌==ℤ◌, ℤ, pos}
use metasys.Machine.{Addr, Kernel, Hints, M, pure, ◌>>=◌, ◌>>◌, scoped, when, assert, eai_service}
use metasys.Net.AddressInfo
use metasys.Net.AddressInfo.{Info, deref, resolvethrow}
use metasys.Net.InetAddress
use metasys.Net.InetAddress.{InetAddress, af_inet, from_sockaddr, set_port}

-- SOCK_STREAM and IPPROTO_TCP of <sys/socket.h> and <netinet/in.h>.
abbrev pub sock_stream : ℕ
sock_stream = 1

abbrev pub ipproto_tcp : ℕ
ipproto_tcp = 6

unfoldable pub hints_of : List ℤ → Hints
hints_of rest = record {
  flags = pos 0;
  family = pos af_inet;
  socktype = pos sock_stream;
  protocol = pos ipproto_tcp;
  rest = rest;
}

module _ (k : Kernel) (rest : List ℤ) where
  -- `resolve(dest, node, service, handler)`
  unfoldable pub resolve : {B : Type 0} → (name service : Addr) → (ℤ → M B) → Addr → M B
  unfolding AddressInfo.resolve_with hints_of
  resolve name service handler dest =
      AddressInfo.resolve_with k name service (hints_of rest) handler dest

  module _ (node : ℤ → Info) (ais : Addr) where
    -- The body of the loop, which returns in its first round: the assertions.
    unfoldable pub check_info : Info → M (Unit {0})
    check_info ai = do
      assert (ai.ai_family ==ℤ pos af_inet)
      assert (ai.ai_socktype ==ℤ pos sock_stream)
      assert (ai.ai_protocol ==ℤ pos ipproto_tcp)
      assert (ai.ai_addrlen == InetAddress.size)

    -- The label `err`.
    unfoldable pub fail_with : {B : Type 0} → (ℤ → M B) → ℤ → M InetAddress
    unfolding InetAddress.empty
    fail_with handler ret = do handler ret; pure InetAddress.empty

    -- The loop over `ais`, and what follows it; `pick` is what the loop returns for its element.
    unfoldable pub first_of_list : {B : Type 0} → (Info → InetAddress) → (ℤ → M B) → M InetAddress
    unfolding AddressInfo.begin AddressInfo.end AddressInfo.iterator_ne deref check_info fail_with
    first_of_list pick handler = do
      it ← AddressInfo.begin ais
      stop_at ← AddressInfo.end
      cond (AddressInfo.iterator_ne it stop_at)
          (do check_info (deref node it); pure (pick (deref node it)))
          (fail_with handler eai_service)

    -- Both forms of `instance`.
    unfoldable pub first_address :
        {B : Type 0} → (name service : Addr) → (Info → InetAddress) → (ℤ → M B) → M InetAddress
    unfolding AddressInfo.construct AddressInfo.destroy resolve fail_with first_of_list
    first_address name service pick handler = do
      AddressInfo.construct ais
      scoped (AddressInfo.destroy k ais) (do
        ret ← resolve name service (λ r. pure r) ais
        cond (not (ret ==ℤ pos 0)) (fail_with handler ret) (first_of_list pick handler))

    -- `instance(node, service, handler)`
    unfoldable pub instance_with : {B : Type 0} → (name service : Addr) → (ℤ → M B) → M InetAddress
    unfolding first_address from_sockaddr
    instance_with name service handler =
        first_address name service (λ ai. from_sockaddr ai.ai_addr) handler

    -- `instance(node, port, handler)`: the port is set in the list, which is then copied from.
    unfoldable pub instance_port_with :
        {B : Type 0} → (htons : ℕ → ℕ) → (name : Addr) → (port : ℕ) → (ℤ → M B) → M InetAddress
    unfolding first_address from_sockaddr set_port
    instance_port_with htons name port handler =
        first_address name 0 (λ ai. from_sockaddr (record ai.ai_addr { sin_port = htons port }))
          handler

    -- `instance(node, service)`
    unfoldable pub instance_of : (name service : Addr) → M InetAddress
    unfolding instance_with resolvethrow
    instance_of name service =
        instance_with name service (λ ret. when (not (ret ==ℤ pos 0)) (resolvethrow ret))

    -- `instance(node, port)`
    unfoldable pub instance_port : (htons : ℕ → ℕ) → (name : Addr) → (port : ℕ) → M InetAddress
    unfolding instance_port_with resolvethrow
    instance_port htons name port =
        instance_port_with htons name port (λ ret. when (not (ret ==ℤ pos 0)) (resolvethrow ret))
