-- ===== src/Tests/Descriptors.antt =====
-- Descriptors, pipes, directories and `stat` at concrete inputs.
use metasys.Base.{
  ℕ, suc, ◌≤◌, ◌≡◌, refl, ◌≢◌, false, [], ◌∷◌, arith, ◌==◌, if◌then◌else◌, minus_one, to_size, pos,
}
use metasys.Machine.{
  Addr, Call, and_then, ◌>>◌, after, Machine, errno_exception, done, thrown, eintr, eio, eagain,
  emfile,
}
use metasys.Sys.ClosingDescriptor
use metasys.Sys.ClosingDescriptor.{lvalue}
use metasys.Sys.ClosingDescriptor.Laws.{destroy-construct_lvalue}
use metasys.Ownership.{is_open}
use metasys.Io.Retry.{RetriesFor, calls}
use metasys.Io.ReadableDescriptor.{read}
use metasys.Io.ReadableDescriptor.Laws.{read-calls}
use metasys.Io.WritableDescriptor.{write}
use metasys.Io.WritableDescriptor.Laws.{write-calls, write-zero, NotDone}
use metasys.Io.Pipe
use metasys.Io.Pipe.Laws.{openinit-failed, close_fd}
use metasys.Tests.Kernels.{constant, failing, interrupted_once, holding}
use metasys.Io.ReadableDescriptor.Laws.{read-ends, answer}
use metasys.Io.Pipe.Laws.{move_assign_pipe-failed}

abbrev after_two : Call → Machine
after_two c =
    after (after (holding (pos 3)) c (interrupted_once eintr [] c)) c
      (interrupted_once eintr ((c, interrupted_once eintr [] c) ∷ []) c)

-- One EINTR, and then 8 bytes.
read-calls_example :
    read (interrupted_once eintr) 2 100 8 0 (holding (pos 3))
    ≡ done 8 (after_two (Call.read (pos 3) 100 8))
unfolding RetriesFor calls to_size
read-calls_example =
    read-calls (interrupted_once eintr) 100 8 1 2 0 (holding (pos 3)) refl (omega arith)
      (refl, refl)

write-calls_example :
    write (interrupted_once eagain) 2 100 8 0 (holding (pos 3))
    ≡ done 8 (
        after
          (after
            (holding (pos 3))
            (Call.write (pos 3) 100 8)
            (interrupted_once eagain [] (Call.write (pos 3) 100 8)))
          (Call.write (pos 3) 100 8)
          (record { ret = pos 8; errno = 0; out = [] }))
unfolding RetriesFor calls to_size
write-calls_example =
    write-calls (interrupted_once eagain) 100 8 1 2 0 (holding (pos 3)) refl (omega arith)
      (refl, refl)

write-zero_example : NotDone (write (constant (pos 0) []) 4 100 0 0 (holding (pos 3)))
write-zero_example = write-zero (constant (pos 0) []) 100 0 4 0 (holding (pos 3)) (λ h. refl)

-- Both ends of a pipe.
abbrev piped : Machine
piped = record {
  mem = λ a. if a == 0 then pos 3 else if a == 1 then pos 4 else minus_one;
  errno = 0;
  trace = [];
}

-- EMFILE, with 3 and 4 in the cells by chance: both are closed.
openinit-failed_example :
    Pipe.openinit (failing emfile) (Call.pipe2 (pos 0)) 0 piped
    ≡ thrown (errno_exception emfile) (
        close_fd (failing emfile) (pos 4) (
          close_fd
            (failing emfile)
            (pos 3)
            (after piped (Call.pipe2 (pos 0)) (failing emfile [] (Call.pipe2 (pos 0))))))
openinit-failed_example = openinit-failed (failing emfile) (pos 0) 0 piped refl refl refl refl

-- The second reply ends the loop.
read-ends_example :
    let k = interrupted_once eintr in
    let c = Call.read (pos 3) 100 8 in
    (m : ℕ) × (m ≤ 1)
    × (read k 2 100 8 0 (holding (pos 3))
        ≡ answer (k (calls k c m (holding (pos 3))).trace c) (calls k c (suc m) (holding (pos 3))))
unfolding calls
read-ends_example = read-ends (interrupted_once eintr) 100 8 1 0 (holding (pos 3)) refl refl

-- The pipe at 0 holds 3, and close(2) fails with EIO.
move_assign_pipe-failed_example :
    let k = failing eio in
    let s = holding (pos 3) in
    let s' = after s (Call.close (pos 3)) (k [] (Call.close (pos 3))) in
    (Pipe.move_assign k 0 2 s ≡ thrown (errno_exception eio) s')
    × (Pipe.destroy k 0 s' ≡ done tt (close_fd k minus_one (close_fd k (pos 3) s')))
move_assign_pipe-failed_example =
    move_assign_pipe-failed (failing eio) 0 2 (holding (pos 3)) refl (λ e. cc) (λ e. cc) refl refl
      refl

abbrev copied : Addr
copied = 1

abbrev original : Addr
original = 0

copied_apart : copied ≢ original
copied_apart e = cc

destroy-construct_lvalue_example :
    let c = Call.close (pos 3) in
    let r = constant (pos 0) [] [] c in
    (t : Machine) × (and_then
        (ClosingDescriptor.construct (lvalue original) copied (holding (pos 3)))
        (λ _.
          ClosingDescriptor.destroy (constant (pos 0) []) original
          >> ClosingDescriptor.destroy (constant (pos 0) []) copied)
      ≡ done tt t)
    × (t.trace ≡ (c, r) ∷ (c, r) ∷ [])
    × (is_open ((c, r) ∷ []) (pos 3) ≡ false)
destroy-construct_lvalue_example =
    destroy-construct_lvalue (constant (pos 0) []) copied original (holding (pos 3)) copied_apart
      refl
