-- ===== src/Sched/EpollEvent/Laws.antt =====
-- An event gives back what it was made of.
use metasys.Base.{ℕ, ◌≡◌, refl, ◌≢◌, none, some}
use metasys.Sched.EpollEvent.{DataType, Value, construct, data_of, pointer, int, uint32, uint64}

data_of-other :
    (t u : DataType) (events : ℕ) (v : Value t) → t ≢ u → data_of u (construct t events v) ≡ none
unfolding construct data_of
data_of-other pointer pointer events v differ = absurd (differ refl)
data_of-other pointer int events v differ = refl
data_of-other pointer uint32 events v differ = refl
data_of-other pointer uint64 events v differ = refl
data_of-other int pointer events v differ = refl
data_of-other int int events v differ = absurd (differ refl)
data_of-other int uint32 events v differ = refl
data_of-other int uint64 events v differ = refl
data_of-other uint32 pointer events v differ = refl
data_of-other uint32 int events v differ = refl
data_of-other uint32 uint32 events v differ = absurd (differ refl)
data_of-other uint32 uint64 events v differ = refl
data_of-other uint64 pointer events v differ = refl
data_of-other uint64 int events v differ = refl
data_of-other uint64 uint32 events v differ = refl
data_of-other uint64 uint64 events v differ = absurd (differ refl)

-- For each type that an event may carry: the events and the value are read back, and a value is not
-- read back as one of another type.
pub data_of-construct :
    (t u : DataType) (events : ℕ) (v : Value t)
    → ((construct t events v).events ≡ events)
      × (data_of t (construct t events v) ≡ some v)
      × (t ≢ u → data_of u (construct t events v) ≡ none)
unfolding construct data_of
data_of-construct pointer u events v = (refl, refl, data_of-other pointer u events v)
data_of-construct int u events v = (refl, refl, data_of-other int u events v)
data_of-construct uint32 u events v = (refl, refl, data_of-other uint32 u events v)
data_of-construct uint64 u events v = (refl, refl, data_of-other uint64 u events v)
