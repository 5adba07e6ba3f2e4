-- ===== src/Handles/AddressLists.antt =====
-- Lists of addresses: what the objects of include/metasys/net/AddressInfo.hxx and the lookups of
-- TcpAddress.hxx implement together.
mod Objects
pub mod Theorems
use metasys.Base.{
  ℕ, ◌≡◌, refl, ◌≢◌, Bool, true, false, not, ◌&&◌, Option, none, some, List, [], ◌∷◌, arith,
  if◌then◌else◌, ◌==ℤ◌, ℤ, pos,
}
use metasys.Machine.{Addr, History, Kernel, Hints, Call, Reply, M, pure, ◌>>=◌, ◌>>◌, scoped, put}
use metasys.Handles.{Resource, is_live}
use metasys.Net.AddressInfo
use metasys.Net.AddressInfo.{Info, null, is_list}
use metasys.Net.TcpAddress

-- getaddrinfo(3) stores a list where it returns 0; freeaddrinfo(3) takes one back, and does nothing
-- with a null pointer.
abbrev is_lookup : Call → Bool
is_lookup (Call.getaddrinfo name service hints) = true
is_lookup c = false

abbrev pub first_list : List ℤ → Option ℤ
first_list [] = none
first_list (v ∷ _) = if is_list v then some v else none

abbrev stored : Call → Reply → Option ℤ
stored c r = if is_lookup c && (r.ret ==ℤ pos 0) then first_list r.out else none

abbrev freed : Call → Option ℤ
freed (Call.freeaddrinfo res) = if is_list res then some res else none
freed c = none

abbrev is_null : ℤ → Bool
is_null ais = not (is_list ais)

first_list-real : (out : List ℤ) (v : ℤ) → first_list out ≡ some v → is_null v ≡ false
first_list-real [] v e = absurd cc
first_list-real (a ∷ out) v e = ground (arith, e)

pub stored-real : (c : Call) (r : Reply) (v : ℤ) → stored c r ≡ some v → is_null v ≡ false
stored-real c r v e = ground (arith, e, first_list-real r.out v)

abbrev pub lists : Resource
lists = record {
  is_none = is_null;
  empty = null;
  gives = stored;
  takes = λ c _. freed c;
  names = freed;
  empty_none = refl;
  gives_real = stored-real;
}

-- getaddrinfo(3) stores one list that is not in use where it returns 0, and nothing elsewhere.
pub record IsResolving (k : Kernel) : Type 0 where
  pub found :
      (h : History) (name service : Addr) (hints : Hints)
      → let r = k h (Call.getaddrinfo name service hints) in
        (r.ret ==ℤ pos 0) ≡ true
        → (list : ℤ) × (r.out ≡ list ∷ []) × (is_null list ≡ false) × (is_live lists h list ≡ false)
  pub not_found :
      (h : History) (name service : Addr) (hints : Hints)
      → let r = k h (Call.getaddrinfo name service hints) in (r.ret ==ℤ pos 0) ≡ false → r.out ≡ []

-- One statement of a program. The statements that make a new object end the life of the one in its
-- place. `lookup` is `TcpAddress::instance(node, service)`, and `lookup_port` the one with a port,
-- without a handler; their local list stands at `local`.
pub data Statement : Type 0 where
  resolve : (name service : Addr) → (hints : Hints) → (this : Addr) → Statement
  lookup : (name service local : Addr) → Statement
  lookup_port : (htons : ℕ → ℕ) → (name : Addr) → (port : ℕ) → (local : Addr) → Statement
  free : (this : Addr) → Statement
  move_construct : (this from : Addr) → this ≢ from → Statement
  move_assign : (this from : Addr) → this ≢ from → Statement
  destroy : (this : Addr) → Statement

module _ (k : Kernel) where
  -- The life of an object ends, and its cell is free.
  unfoldable pub end_of_life : Addr → M (Unit {0})
  end_of_life this = do AddressInfo.destroy k this; put this null

  module _ (rest : List ℤ) (node : ℤ → Info) where
    -- The memory of the local is free when the function has returned or thrown.
    unfoldable pub look_up : (name service local : Addr) → M (Unit {0})
    look_up name service local =
        scoped (put local null) (do TcpAddress.instance_of k rest node local name service; pure tt)

    unfoldable pub look_up_port :
        (htons : ℕ → ℕ) → (name : Addr) → (port : ℕ) → (local : Addr) → M (Unit {0})
    look_up_port htons name port local =
        scoped (put local null)
          (do TcpAddress.instance_port k rest node local htons name port; pure tt)

    unfoldable pub execute : Statement → M (Unit {0})
    unfolding end_of_life look_up look_up_port
    execute (resolve name service hints this) = AddressInfo.resolve k name service hints this
    execute (lookup name service local) = end_of_life local >> look_up name service local
    execute (lookup_port htons name port local) =
        end_of_life local >> look_up_port htons name port local
    execute (free this) = AddressInfo.free k this
    execute (move_construct this from apart) =
        end_of_life this >> AddressInfo.move_construct this from
    execute (move_assign this from apart) = AddressInfo.move_assign k this from
    execute (destroy this) = end_of_life this
