-- ===== src/Ownership/Steps.antt =====
-- The steps of which the operations are made keep `IsOwned`.
use metasys.Base.{
  ◌+◌, ◌≡◌, refl, sym, ◌∙◌, ◌⊎◌, inl, inr, Bool, true, false, not, ◌&&◌, ◌||◌, none, [], ◌∷◌, arith,
  ◌==◌, if◌then◌else◌, Bool-cases, minus_one, is_neg, ◌==ℤ◌, ==ℤ_iff, ==ℤ_refl, ℤ, pos,
}
use metasys.Machine.{Addr, History, Call, Reply, update, after, Machine}
use metasys.Ownership.{
  opens, closes, pairs, has_made, is_open_after, is_open, IsNewPair, other, closing, IsOwned,
}

pub is_open-nonneg : (h : History) (fd : ℤ) → is_open h fd ≡ true → is_neg fd ≡ false
unfolding is_open
is_open-nonneg [] fd q = cc
is_open-nonneg ((c, r) ∷ h) fd q = ground (arith, is_open-nonneg h fd, ==ℤ_iff r.ret fd)

-- What is open after a call that stored two descriptors.
is_open_after-pair :
    (c : Call) (r : Reply) (before : Bool) (a b fd : ℤ)
    → closes c ≡ none
    → opens c ≡ false
    → (pairs c && (r.ret ==ℤ pos 0)) ≡ true
    → r.out ≡ a ∷ b ∷ []
    → is_open_after c r before fd
      ≡ (if not (is_neg fd) && ((a ==ℤ fd) || (b ==ℤ fd)) then true else before)
is_open_after-pair c r before a b fd n o two stored = ground (arith, n, o, two, stored)

module _ (s : Machine) (v : IsOwned s) where
  -- A call that closes nothing, and opens nothing or fails.
  pub IsOwned-benign :
      (c : Call) (r : Reply) → has_made c r ≡ false → closes c ≡ none → IsOwned (after s c r)
  unfolding is_open
  IsOwned-benign c r h n = record {
    sole = v.sole;
    live = λ a p. ground (arith, v.live a);
    kept = λ fd p. v.kept fd (ground arith);
    clean = other n v.clean;
  }

  pub IsOwned-close :
      (this : Addr) (r : Reply)
      → is_neg (s.mem this) ≡ false
      → IsOwned (after (record s { mem = update s.mem this minus_one }) (Call.close (s.mem this)) r)
  unfolding is_open
  IsOwned-close this r p = record {
    sole = λ a b. ground (arith, v.sole a b);
    live = λ a q. ground (arith, v.live a, v.sole a this, ==ℤ_iff (s.mem this) (s.mem a));
    kept = λ fd q.
        let (a, e) = v.kept fd (ground arith) in (a, ground (arith, ==ℤ_iff (s.mem this) fd));
    clean = closing (s.mem this) refl (v.live this p) v.clean;
  }

  -- A call that may open a descriptor, with the result kept in an object that has none.
  pub IsOwned-open :
      (this : Addr) (c : Call) (r : Reply)
      → is_neg (s.mem this) ≡ true
      → opens c ≡ true
      → closes c ≡ none
      → (is_neg r.ret ≡ false → is_open s.trace r.ret ≡ false)
      → IsOwned (record (after s c r) { mem = update s.mem this r.ret })
  unfolding is_open
  IsOwned-open this c r p o n fresh = record {
    sole = λ a b. ground (arith, v.sole a b, fresh, v.live a, v.live b);
    live = λ a q. ground (arith, v.live a, ==ℤ_iff r.ret (s.mem a), ==ℤ_iff r.ret r.ret);
    kept = λ fd q. elim (Bool-cases (not (is_neg r.ret) && (r.ret ==ℤ fd))) [
      | inl new ↦ (this, ground (arith, ==ℤ_iff r.ret fd))
      | inr old ↦
          let q' : is_open s.trace fd ≡ true = ground arith in
          let (a, e) = v.kept fd q' in (a, ground (arith, is_open-nonneg s.trace fd q'))
    ];
    clean = other n v.clean;
  }

  -- A descriptor goes from one object to another that has none, or to itself.
  pub IsOwned-move :
      (this from : Addr)
      → (is_neg (s.mem this) ≡ true) ⊎ (this ≡ from)
      → IsOwned (record s { mem = update (update s.mem from minus_one) this (s.mem from) })
  IsOwned-move this from free = record {
    sole = λ a b. ground (arith, v.sole a b, v.sole from b, v.sole a from);
    live = λ a q. ground (arith, v.live a, v.live from);
    kept = λ fd q.
        let (a, e) = v.kept fd q in
        elim (Bool-cases (a == from)) [
          | inl moved ↦ (this, ground arith)
          | inr stayed ↦ (a, ground (arith, is_open-nonneg s.trace fd q))
        ];
    clean = v.clean;
  }

  -- A call that stores two new descriptors, in two cells that hold none.
  pub IsOwned-pair :
      (this : Addr) (c : Call) (r : Reply) (a b : ℤ)
      → is_neg (s.mem this) ≡ true
      → is_neg (s.mem (this + 1)) ≡ true
      → closes c ≡ none
      → opens c ≡ false
      → (pairs c && (r.ret ==ℤ pos 0)) ≡ true
      → r.out ≡ a ∷ b ∷ []
      → IsNewPair s.trace a b
      → IsOwned (record (after s c r) { mem = update (update s.mem this a) (this + 1) b })
  unfolding is_open
  IsOwned-pair this c r a b p q n o two stored new =
      let mem' = update (update s.mem this a) (this + 1) b in
      record {
        sole = λ x y. ground (arith, v.sole x y, v.live x, v.live y);
        live = λ x h.
            let open_now =
              is_open_after-pair c r (is_open s.trace (mem' x)) a b (mem' x) n o two stored in
            open_now ∙ ground (arith, v.live x, ==ℤ_refl a, ==ℤ_refl b);
        kept = λ fd h. elim (Bool-cases (a ==ℤ fd)) [
          | inl reads ↦ (this, ground (arith, ==ℤ_iff a fd))
          | inr next ↦ elim (Bool-cases (b ==ℤ fd)) [
            | inl writes ↦ (this + 1, ground (arith, ==ℤ_iff b fd))
            | inr old ↦
                let now = is_open_after-pair c r (is_open s.trace fd) a b fd n o two stored in
                let q' : is_open s.trace fd ≡ true = ground (arith, sym now ∙ h) in
                let (x, e) = v.kept fd q' in (x, ground (arith, is_open-nonneg s.trace fd q'))
          ]
        ];
        clean = other n v.clean;
      }
