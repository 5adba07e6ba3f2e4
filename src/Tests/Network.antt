-- ===== src/Tests/Network.antt =====
-- Byte order, addresses and sockets at concrete inputs.
use metasys.Base.{◌^◌, ◌<◌, ◌≡◌, refl, true, false, [], ◌∷◌, arith, minus_one, ℤ, pos, negsuc}
use metasys.Machine.{Call, M, pure, update, put, done}
use metasys.Net.Bit.{bswap16, bswap32, hton16, hton32, hton64, ntoh16, ntoh32, ntoh64}
use metasys.Net.Bit.Laws.{ntoh-hton}
use metasys.Net.InetAddress
use metasys.Net.InetAddress.{from_octets, from_bytes, localhost, three_way}
use metasys.Net.InetAddress.Laws.{
  constructors-from_octets, Reads, from_octets-Reads, three_way-rank,
}
use metasys.Net.AddressInfo.{Info}
use metasys.Net.TcpAddress.{instance_with}
use metasys.Net.TcpAddress.Laws.{instance_with-found, looked_up}
use metasys.Net.SocketDescriptor.{socket_call}
use metasys.Net.TcpSocketDescriptor.{tcp}
use metasys.Net.TcpServerSocket.{listeninit}
use metasys.Net.TcpServerSocket.Laws.{listeninit-calls, then_call}
use metasys.Tests.Kernels.{constant, holding}
use Prim.Native.Nat.{Ordering}
use metasys.Net.AddressInfo.Iteration.{range_for, range_for-each, each, IsChain}
use metasys.Net.TcpAddress.{instance_of}
use metasys.Net.TcpAddress.Laws.{instance_of-failed, freed, not_found}

ntoh-hton_example :
    (80 < 2 ^ 16 → ntoh16 true (hton16 true 80) ≡ 80)
    × (80 < 2 ^ 32 → ntoh32 true (hton32 true 80) ≡ 80)
    × (80 < 2 ^ 64 → ntoh64 true (hton64 true 80) ≡ 80)
ntoh-hton_example = ntoh-hton true 80

from_octets-Reads_example : Reads true 192 168 0 1 80 (from_octets true 192 168 0 1 80)
from_octets-Reads_example =
    from_octets-Reads true 192 168 0 1 80 (omega arith) (omega arith) (omega arith) (omega arith)
      (omega arith)

-- 127.0.0.1, ports 80 and 443.
three_way-rank_example : three_way true (localhost true 80) (localhost true 443) ≡ Ordering.lt
unfolding InetAddress.port localhost InetAddress.ip bswap16 bswap32
three_way-rank_example =
    three_way-rank true (localhost true 80) (localhost true 443) (omega arith) (omega arith)

-- A list of one address.
abbrev one_info : ℤ → Info
one_info p = record {
  ai_family = pos 2;
  ai_socktype = pos 1;
  ai_protocol = pos 6;
  ai_addrlen = 16;
  ai_addr = record { family = 2; sin_port = 0x5000; s_addr = 0x0100007f };
  ai_next = pos 0;
}

instance_with-found_example :
    instance_with
      (constant (pos 0) (pos 66 ∷ []))
      []
      one_info
      0
      500
      600
      (λ ret. pure ret)
      (holding (pos 3))
    ≡ done ((one_info (pos 66)).ai_addr) (
        looked_up (constant (pos 0) (pos 66 ∷ [])) [] one_info 0 500 600 (pos 66) (holding (pos 3)))
instance_with-found_example =
    instance_with-found (constant (pos 0) (pos 66 ∷ [])) [] one_info 0 500 600 (λ ret. pure ret)
      (pos 66) (holding (pos 3)) refl refl refl refl refl refl refl

-- Every call returns 5, so the socket is 5.
listeninit-calls_example :
    listeninit (constant (pos 5) []) false 300 (pos 10) 0 0 (holding minus_one)
    ≡ done tt (
        then_call (constant (pos 5) []) (Call.listen (pos 5) (pos 10)) (
          then_call
            (constant (pos 5) [])
            (Call.bind (pos 5) 300 16)
            (record (then_call
              (constant (pos 5) [])
              (socket_call tcp (constant (pos 5) []) 0)
              (holding minus_one)) { mem = update (holding minus_one).mem 0 (pos 5) })))
listeninit-calls_example =
    listeninit-calls (constant (pos 5) []) false 300 (pos 10) 0 0 (holding minus_one) (λ h c. refl)

-- The same list, with a body that stores the family of its element.
abbrev store_family : Info → M (Unit {0})
store_family ai = put 9 ai.ai_family

range_for-each_example :
    range_for one_info 2 store_family 0 (holding (pos 66))
    ≡ each store_family (one_info (pos 66) ∷ []) (holding (pos 66))
unfolding IsChain
range_for-each_example =
    range_for-each one_info store_family (one_info (pos 66) ∷ []) 2 0 (holding (pos 66))
      ((λ e. absurd (cc)), refl, refl) (omega arith)

constructors-from_octets_example :
    (InetAddress.empty ≡ from_octets true 0 0 0 0 0)
    × (InetAddress.any_host true 80 ≡ from_octets true 0 0 0 0 80)
    × (localhost true 80 ≡ from_octets true 127 0 0 1 80)
    × (from_bytes true 192 168 0 1 80 ≡ from_octets true 192 168 0 1 80)
constructors-from_octets_example =
    constructors-from_octets true 192 168 0 1 80 (omega arith) (omega arith) (omega arith)
      (omega arith)

-- The code -12 is none of those listed: the empty address comes back.
instance_of-failed_example :
    let k = constant (negsuc 11) [] in
    instance_of k [] one_info 0 500 600 (holding (pos 3))
    ≡ done InetAddress.empty
        (freed k [] one_info 0 (pos 0) (not_found k [] one_info 0 500 600 (holding (pos 3))))
instance_of-failed_example =
    instance_of-failed (constant (negsuc 11) []) [] one_info 0 500 600 (holding (pos 3)) refl refl
