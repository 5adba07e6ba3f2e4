-- ===== src/Net/AddressInfo.antt =====
-- include/metasys/net/AddressInfo.hxx and net/AddressInfo.cxx: the list that getaddrinfo(3) returns.
-- `_ais` of the object at `this` is the cell `this`; NULL is 0. `node` is the C library's memory: what
-- `struct addrinfo` stands at a pointer.
pub mod Laws
pub mod Iteration
use metasys.Base.{ℕ, Bool, not, List, [], ◌∷◌, if◌then◌else◌, ◌==ℤ◌, ℤ, pos}
use metasys.Machine.{
  Addr, Kernel, Hints, Call, M, pure, ◌>>=◌, ◌>>◌, throw, when, assert, get, put, syscall, call,
  store_out, resolve_exception, eai_badflags, eai_noname, eai_again, eai_fail, eai_nodata,
  eai_family, eai_socktype, eai_service, eai_addrfamily, eai_memory, eai_system,
}
use metasys.Sys.SystemException.{throw_errno}
use metasys.Net.InetAddress.{InetAddress}

pub record Info : Type 0 where
  pub ai_family : ℤ
  pub ai_socktype : ℤ
  pub ai_protocol : ℤ
  pub ai_addrlen : ℕ
  pub ai_addr : InetAddress
  pub ai_next : ℤ

abbrev pub null : ℤ
null = pos 0

abbrev pub is_list : ℤ → Bool
is_list ais = not (ais ==ℤ null)

-- `AddressInfo()`
unfoldable pub construct : Addr → M (Unit {0})
construct this = put this null

-- `AddressInfo(struct addrinfo *ais)`
unfoldable pub construct_from : ℤ → Addr → M (Unit {0})
construct_from ais this = put this ais

-- `AddressInfo(AddressInfo &&other)`
unfoldable pub move_construct : (this other : Addr) → M (Unit {0})
move_construct this other = do ais ← get other; put this ais; put other null

unfoldable pub value : Addr → M ℤ
value this = get this

unfoldable pub valid : Addr → M Bool
valid this = do ais ← get this; pure (is_list ais)

unfoldable pub reset : ℤ → Addr → M ℤ
reset ais this = do tmp ← get this; put this ais; pure tmp

-- The cases of the switch in `resolvethrow`; EAI_SYSTEM is the last one.
abbrev pub cases : List ℤ
cases =
    eai_addrfamily ∷ eai_again ∷ eai_fail ∷ eai_family ∷ eai_memory ∷ eai_nodata ∷ eai_noname
    ∷ eai_service ∷ []

-- The switch: it has no default, and falls through to the return.
unfoldable pub switch : ℤ → List ℤ → M (Unit {0})
unfolding throw_errno
switch ret [] = if ret ==ℤ eai_system then throw_errno else pure tt
switch ret (c ∷ cs) = if ret ==ℤ c then throw (resolve_exception c) else switch ret cs

unfoldable pub resolvethrow : ℤ → M (Unit {0})
unfolding switch
resolvethrow ret = do
  assert (not (ret ==ℤ eai_badflags))
  assert (not (ret ==ℤ eai_socktype))
  switch ret cases

-- `Iterator` and `ConstIterator` hold one pointer.
abbrev pub Iterator : Type 0
Iterator = ℤ

-- `Iterator()` and `Iterator(struct addrinfo *)`
unfoldable pub iterator : Iterator
iterator = null

unfoldable pub iterator_at : ℤ → Iterator
iterator_at ais = ais

unfoldable pub begin : Addr → M Iterator
begin this = get this

unfoldable pub end : M Iterator
end = pure null

unfoldable pub iterator_eq : Iterator → Iterator → Bool
iterator_eq a b = a ==ℤ b

unfoldable pub iterator_ne : Iterator → Iterator → Bool
unfolding iterator_eq
iterator_ne a b = not (iterator_eq a b)

module _ (node : ℤ → Info) where
  -- `operator*`
  unfoldable pub deref : Iterator → Info
  deref it = node it

  -- `operator++()`
  unfoldable pub next : Iterator → Iterator
  next it = (node it).ai_next

  -- `operator++(int)`: the value returned, and the new iterator.
  unfoldable pub next_after : Iterator → Iterator × Iterator
  unfolding next
  next_after it = (it, next it)

-- `ConstIterator()` and `ConstIterator(const struct addrinfo *)`
unfoldable pub const_iterator : Iterator
const_iterator = null

unfoldable pub const_iterator_at : ℤ → Iterator
const_iterator_at ais = ais

-- `cbegin`, `cend` and the operators of `ConstIterator`.
unfoldable pub cbegin : Addr → M Iterator
cbegin this = get this

unfoldable pub cend : M Iterator
cend = pure null

unfoldable pub const_eq : Iterator → Iterator → Bool
const_eq a b = a ==ℤ b

unfoldable pub const_ne : Iterator → Iterator → Bool
unfolding const_eq
const_ne a b = not (const_eq a b)

module _ (node : ℤ → Info) where
  unfoldable pub const_deref : Iterator → Info
  const_deref it = node it

  unfoldable pub const_next : Iterator → Iterator
  const_next it = (node it).ai_next

  unfoldable pub const_next_after : Iterator → Iterator × Iterator
  unfolding const_next
  const_next_after it = (it, const_next it)

module _ (k : Kernel) where
  -- `~AddressInfo()`
  unfoldable pub destroy : Addr → M (Unit {0})
  destroy this = do ais ← get this; call k (Call.freeaddrinfo ais); pure tt

  unfoldable pub free : Addr → M (Unit {0})
  free this = do ais ← get this; call k (Call.freeaddrinfo ais); put this null

  -- `operator=(AddressInfo &&other)`
  unfoldable pub move_assign : (this other : Addr) → M (Unit {0})
  unfolding valid free
  move_assign this other = do
    ok ← valid this
    when ok (do theirs ← get other; ours ← get this; when (not (theirs ==ℤ ours)) (free this))
    ais ← get other
    put this ais
    put other null

  -- `resolve(node, service, hints, handler)`
  unfoldable pub resolve_with :
      {B : Type 0} → (name service : Addr) → Hints → (ℤ → M B) → Addr → M B
  unfolding valid
  resolve_with name service hints handler this = do
    ok ← valid this
    assert (not ok)
    reply ← syscall k (Call.getaddrinfo name service hints)
    store_out this reply.out
    handler reply.ret

  -- `resolve(node, service, hints)`
  unfoldable pub resolve : (name service : Addr) → Hints → Addr → M (Unit {0})
  unfolding resolve_with resolvethrow
  resolve name service hints this =
      resolve_with name service hints (λ ret. when (not (ret ==ℤ pos 0)) (resolvethrow ret)) this
