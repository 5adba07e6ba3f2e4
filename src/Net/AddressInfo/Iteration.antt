-- ===== src/Net/AddressInfo/Iteration.antt =====
-- A range-for over the list of getaddrinfo(3).
use metasys.Base.{
  ℕ, zero, suc, ◌<◌, ◌≡◌, refl, ◌≢◌, List, [], ◌∷◌, arith, if◌then◌else◌, length, ==ℤ_false, ℤ,
}
use metasys.Machine.{Addr, M, and_then, ◌>>=◌, Machine, Outcome, done, thrown, stopped, out_of_fuel}
use metasys.Net.AddressInfo.{Info, null, Iterator, begin, end, iterator_ne, deref, next}

module _ (node : ℤ → Info) where
  -- What a compiler makes of `for (auto &ai : ais) body` with the operators of the list, with fuel
  -- for its rounds: from `it` up to `last`.
  unfoldable pub range_loop : ℕ → (Info → M (Unit {0})) → (it last : Iterator) → M (Unit {0})
  unfolding iterator_ne deref next
  range_loop zero body it last s = out_of_fuel s
  range_loop (suc fuel) body it last s =
      if iterator_ne it last
      then and_then (body (deref node it) s) (λ _. range_loop fuel body (next node it) last)
      else done tt s

  unfoldable pub range_for : ℕ → (Info → M (Unit {0})) → Addr → M (Unit {0})
  unfolding begin end range_loop
  range_for fuel body this = do it ← begin this; last ← end; range_loop fuel body it last

-- The elements from the pointer `it` to the end of the list.
unfoldable pub IsChain : (ℤ → Info) → List Info → Iterator → Type 0
IsChain node [] it = it ≡ null
IsChain node (x ∷ xs) it = (it ≢ null) × (node it ≡ x) × IsChain node xs ((node it).ai_next)

-- `body` on each element, in order.
unfoldable pub each : (Info → M (Unit {0})) → List Info → M (Unit {0})
each body [] s = done tt s
each body (x ∷ xs) s = and_then (body x s) (λ _. each body xs)

-- Continuations that agree everywhere may be exchanged.
and_then_cong :
    {A B : Type 0} (o : Outcome A) (f g : A → M B)
    → ((a : A) (s : Machine) → f a s ≡ g a s)
    → and_then o f ≡ and_then o g
and_then_cong (done a s) f g same = same a s
and_then_cong (thrown e s) f g same = refl
and_then_cong (stopped c s) f g same = refl
and_then_cong (out_of_fuel s) f g same = refl

range_loop-each :
    (node : ℤ → Info) (body : Info → M (Unit {0})) (xs : List Info) (fuel : ℕ) (it : Iterator)
    (s : Machine)
    → IsChain node xs it
    → length xs < fuel
    → range_loop node fuel body it null s ≡ each body xs s
unfolding IsChain each range_loop next
range_loop-each node body xs zero it s chain enough = absurd (omega arith)
range_loop-each node body [] (suc fuel) it s chain enough = rw chain refl
range_loop-each node body (x ∷ xs) (suc fuel) it s (nonnull, same, chain) enough =
    rw (==ℤ_false it null nonnull, same)
      (and_then_cong (body x s) (λ _. range_loop node fuel body ((node it).ai_next) null)
        (λ _. each body xs)
        (λ _ t. range_loop-each node body xs fuel ((node it).ai_next) t chain (omega arith)))

-- A range-for over a list that ends runs its body on each element once, in the order of the list,
-- until the body leaves it by an exception or ends the process. One round more than the list has
-- elements is enough.
pub range_for-each :
    (node : ℤ → Info) (body : Info → M (Unit {0})) (xs : List Info) (fuel : ℕ) (this : Addr)
    (s : Machine)
    → IsChain node xs (s.mem this)
    → length xs < fuel
    → range_for node fuel body this s ≡ each body xs s
unfolding range_for
range_for-each node body xs fuel this s chain enough =
    range_loop-each node body xs fuel (s.mem this) s chain enough
