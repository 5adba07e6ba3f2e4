-- ===== src/Sched/EpollEvent.antt =====
-- include/metasys/sched/EpollDescriptor.hxx, `EpollEvent<T>`: the events to wait for, and one value of
-- the user's in the union `epoll_data`.
pub mod Laws
use metasys.Base.{ℕ, Option, none, some, ℤ}
use metasys.Machine.{Addr}

-- The types that `T` may be: any pointer, `int`, `uint32_t` and `uint64_t`.
pub data DataType : Type 0 where
  pointer int uint32 uint64 : DataType

abbrev pub Value : DataType → Type 0
Value pointer = Addr
Value int = ℤ
Value uint32 = ℕ
Value uint64 = ℕ

-- `union epoll_data`, by the member that was written last.
pub data EpollData : Type 0 where
  ptr : Addr → EpollData
  fd : ℤ → EpollData
  u32 : ℕ → EpollData
  u64 : ℕ → EpollData

pub record EpollEvent : Type 0 where
  pub events : ℕ
  pub data_union : EpollData

-- `EpollEvent(uint32_t events, T data)`
unfoldable pub construct : (t : DataType) → ℕ → Value t → EpollEvent
construct pointer events v = record { events = events; data_union = ptr v }
construct int events v = record { events = events; data_union = fd v }
construct uint32 events v = record { events = events; data_union = u32 v }
construct uint64 events v = record { events = events; data_union = u64 v }

-- `data()`: reads one member; nothing is said about a member that was not written last.
unfoldable pub data_of : (t : DataType) → EpollEvent → Option (Value t)
data_of pointer e = elim e.data_union [ ptr v ↦ some v | _ ↦ none ]
data_of int e = elim e.data_union [ fd v ↦ some v | _ ↦ none ]
data_of uint32 e = elim e.data_union [ u32 v ↦ some v | _ ↦ none ]
data_of uint64 e = elim e.data_union [ u64 v ↦ some v | _ ↦ none ]
