-- ===== src/Sched/PthreadBehavior.antt =====
-- include/metasys/sched/PthreadBehavior.hxx: what the destructor of a thread does, packed in a byte.
pub mod Laws
use metasys.Base.{ℕ, ◌%◌, ◌^◌, bit_and, bit_or, Bool, not, ◌==◌}

abbrev pub base_mask : ℕ
base_mask = 3

abbrev pub nothing : ℕ
nothing = 0

abbrev pub terminate : ℕ
terminate = 1

abbrev pub detach : ℕ
detach = 2

abbrev pub join : ℕ
join = 3

abbrev pub cancel : ℕ
cancel = 4

-- `b | PthreadBehavior::Cancel`, in either order; the cast is to `uint8_t`.
unfoldable pub with_cancel : ℕ → ℕ
with_cancel b = bit_or b cancel % 2 ^ 8

-- `Cancel | b`
unfoldable pub cancel_with : ℕ → ℕ
cancel_with b = bit_or b cancel % 2 ^ 8

-- `PthreadBehaviorImpl(uint8_t)` and `PthreadBehaviorBase(uint8_t)`
unfoldable pub impl_of : ℕ → ℕ
impl_of value = value % 2 ^ 8

unfoldable pub base_of : ℕ → ℕ
base_of value = value % 2 ^ 8

-- `PthreadBehavior(Base)` and `PthreadBehavior(Impl)`: the byte of the base, or of the options.
unfoldable pub from_base : ℕ → ℕ
unfolding impl_of
from_base base = impl_of base

unfoldable pub from_impl : ℕ → ℕ
from_impl impl = impl

-- `operator==(Base base)`
unfoldable pub has_base : ℕ → ℕ → Bool
has_base impl base = bit_and impl base_mask == base

-- `operator&(CancelType)`
unfoldable pub has_cancel : ℕ → Bool
has_cancel impl = not (bit_and impl cancel == 0)
