-- ===== src/Sys/FileDescriptor/Laws.antt =====
-- `close` on every branch.
use metasys.Base.{◌≡◌, arith, if◌then◌else◌, minus_one, ℤ}
use metasys.Machine.{Addr, Kernel, Call, M, update, after, Machine, assertion, stopped}
use metasys.Sys.FileDescriptor.{is_valid_fd, close_with}

-- The object has given up its descriptor, and then the descriptor was closed.
abbrev pub released : Kernel → Addr → Machine → Machine
released k this s =
    after (record s { mem = update s.mem this minus_one }) (Call.close (s.mem this))
      (k s.trace (Call.close (s.mem this)))

-- `close(handler)` on an object without a descriptor fails its assertion before any call. Otherwise
-- it makes one close(2), of the descriptor held; the handler gets the result, and runs when the
-- object is already empty, whether or not the call failed.
pub close_with_lem :
    {B : Type 0} (k : Kernel) (handler : ℤ → M B) (this : Addr) (s : Machine)
    → close_with k handler this s ≡ (
        if is_valid_fd (s.mem this)
        then handler ((k s.trace (Call.close (s.mem this))).ret) (released k this s)
        else stopped assertion s)
unfolding close_with
close_with_lem k handler this s = ground arith
