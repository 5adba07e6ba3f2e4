-- ===== src/Tests/Ownership.antt =====
-- Programs over descriptors.
use metasys.Base.{◌≡◌, refl, ◌≢◌, false, none, List, [], ◌∷◌, arith, minus_one, pos}
use metasys.Machine.{Addr, Call, update, Machine}
use metasys.Ownership.{is_open, IsOwned}
use metasys.Ownership.Rules.{Post}
use metasys.Ownership.Scripts.{run-IsOwned, run-not_leaks, initial, initial-IsOwned}
use metasys.Ownership.Statements.{
  Statement, openinit, connectinit, move_assign, construct_pipe, open_pipe, hand_over,
  move_construct, rmove, destroy_pipe, destroy, run,
}
use metasys.Net.TcpSocketDescriptor.{tcp}
use metasys.Sys.ClosingDescriptor
use metasys.Net.SocketDescriptor
use metasys.Tests.Kernels.{fresh_kernel, fresh_kernel-IsFresh, fresh_kernel-IsPiping}

abbrev new_place : Addr
new_place = 2

abbrev old_place : Addr
old_place = 1

places_differ : new_place ≢ old_place
places_differ e = cc

-- Two sockets, one moved over the other and then twice more, and a pipe that is split.
abbrev program : List Statement
program =
    openinit tcp 0 0
    ∷ connectinit 300 0 1
    ∷ move_assign 0 1
    ∷ move_assign 0 0
    ∷ hand_over 1 0
    ∷ move_construct new_place old_place places_differ
    ∷ construct_pipe 10
    ∷ open_pipe none 10
    ∷ rmove 10 20
    ∷ destroy_pipe 10
    ∷ destroy 20
    ∷ []

run-IsOwned_example : Post (λ _. IsOwned) (run fresh_kernel program (initial 0))
run-IsOwned_example =
    run-IsOwned fresh_kernel fresh_kernel-IsFresh fresh_kernel-IsPiping program (initial 0)
      (initial-IsOwned 0)

-- A socket that is opened and destroyed.
abbrev socket_call : Call
socket_call = Call.socket (pos 2) 1 (pos 6)

abbrev closed_again : Machine
closed_again = record {
  mem = update (update (λ _. minus_one) 0 (pos 0)) 0 minus_one;
  errno = 0;
  trace =
      (Call.close (pos 0), record { ret = pos 0; errno = 0; out = pos 1 ∷ pos 2 ∷ [] })
      ∷ (socket_call, record { ret = pos 0; errno = 0; out = [] })
      ∷ [];
}

run-not_leaks_example : is_open closed_again.trace (pos 0) ≡ false
unfolding run fresh_kernel ClosingDescriptor.destroy SocketDescriptor.openinit
run-not_leaks_example =
    run-not_leaks fresh_kernel 0 (openinit tcp 0 0 ∷ destroy 0 ∷ []) closed_again (pos 0)
      fresh_kernel-IsFresh fresh_kernel-IsPiping refl (λ a. ground arith)
