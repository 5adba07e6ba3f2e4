-- ===== src/Handles/Steps.antt =====
-- The steps of which the operations are made keep `IsMatched`.
use metasys.Base.{
  ◌≡◌, ◌∙◌, ◌≢◌, ◌⊎◌, inl, inr, true, false, none, some, [], ◌∷◌, arith, ◌==◌, Bool-cases, ◌==ℤ◌,
  ==ℤ_iff, ==ℤ_refl, ℤ,
}
use metasys.Machine.{Addr, History, Call, Reply, update, after, Machine}
use metasys.Handles.{Resource, is_live, start, other, naming, IsMatched, IsNew}

module _ (x : Resource) where
  pub is_live-real : (h : History) (v : ℤ) → is_live x h v ≡ true → x.is_none v ≡ false
  unfolding is_live
  is_live-real [] v p = absurd cc
  is_live-real ((c, r) ∷ h) v p = grind (arith, is_live-real h v, x.gives_real c r, ==ℤ_iff)

module _ (x : Resource) (s : Machine) where
  pub IsNew-IsMatched : IsNew x s → IsMatched x s
  unfolding is_live
  IsNew-IsMatched (fresh, empty) = record {
    sole = λ a b p. ground (arith, empty a);
    live = λ a p. ground (arith, empty a);
    kept = λ v p. let e : false ≡ true = rw fresh at p in absurd cc;
    clean = rw fresh start;
  }

module _ (x : Resource) (s : Machine) (v : IsMatched x s) where
  -- The same cells, written in another way.
  pub IsMatched-ext :
      (f : Addr → ℤ) → ((a : Addr) → f a ≡ s.mem a) → IsMatched x (record s { mem = f })
  IsMatched-ext f same = record {
    sole = λ a b p e. v.sole a b (ground (arith, same a)) (ground (arith, same a, same b));
    live = λ a p. rw (same a) (v.live a (ground (arith, same a)));
    kept = λ h p. let (a, e) = v.kept h p in (a, same a ∙ e);
    clean = v.clean;
  }

  -- A call that gives nothing and takes nothing back.
  pub IsMatched-benign :
      (c : Call) (r : Reply)
      → x.gives c r ≡ none
      → x.takes c r ≡ none
      → x.names c ≡ none
      → IsMatched x (after s c r)
  unfolding is_live
  IsMatched-benign c r g t n = record {
    sole = v.sole;
    live = λ a p. ground (arith, g, t, v.live a);
    kept = λ h p. v.kept h (ground (arith, g, t));
    clean = other n v.clean;
  }

  -- One that is about the handle of an object.
  pub IsMatched-use :
      (this : Addr) (c : Call) (r : Reply)
      → x.is_none (s.mem this) ≡ false
      → x.gives c r ≡ none
      → x.takes c r ≡ none
      → x.names c ≡ some (s.mem this)
      → IsMatched x (after s c r)
  unfolding is_live
  IsMatched-use this c r has g t n = record {
    sole = v.sole;
    live = λ a p. ground (arith, g, t, v.live a);
    kept = λ h p. v.kept h (ground (arith, g, t));
    clean = naming (s.mem this) n (v.live this has) v.clean;
  }

  -- An empty object gets another value of an empty object.
  pub IsMatched-clear :
      (this : Addr) (w : ℤ)
      → x.is_none (s.mem this) ≡ true
      → x.is_none w ≡ true
      → IsMatched x (record s { mem = update s.mem this w })
  IsMatched-clear this w free nothing = record {
    sole = λ a b. ground (arith, v.sole a b);
    live = λ a p. ground (arith, v.live a);
    kept = λ h p. let (a, e) = v.kept h p in (a, ground (arith, is_live-real x s.trace h p));
    clean = v.clean;
  }

  -- A new handle, in an object that has none.
  pub IsMatched-gain :
      (this : Addr) (c : Call) (r : Reply) (w : ℤ)
      → x.is_none (s.mem this) ≡ true
      → x.gives c r ≡ some w
      → x.names c ≡ none
      → is_live x s.trace w ≡ false
      → IsMatched x (record (after s c r) { mem = update s.mem this w })
  unfolding is_live
  IsMatched-gain this c r w free g n fresh =
      let real = x.gives_real c r w g in
      record {
        sole = λ a b. ground (arith, v.sole a b, v.live a, v.live b);
        live = λ a p. ground (arith, g, v.live a, ==ℤ_refl w);
        kept = λ h p. elim (Bool-cases (w ==ℤ h)) [
          | inl new ↦ (this, ground (arith, ==ℤ_iff w h))
          | inr old ↦
              let q : is_live x s.trace h ≡ true = ground (arith, g) in
              let (a, e) = v.kept h q in (a, ground (arith, is_live-real x s.trace h q))
        ];
        clean = other n v.clean;
      }

  -- The handle of an object is taken back, and the object is left with a value of an empty one.
  pub IsMatched-drop :
      (this : Addr) (c : Call) (r : Reply) (w : ℤ)
      → x.is_none (s.mem this) ≡ false
      → x.is_none w ≡ true
      → x.gives c r ≡ none
      → x.takes c r ≡ some (s.mem this)
      → x.names c ≡ some (s.mem this)
      → IsMatched x (record (after s c r) { mem = update s.mem this w })
  unfolding is_live
  IsMatched-drop this c r w has nothing g t n = record {
    sole = λ a b. ground (arith, v.sole a b);
    live = λ a p. ground (arith, g, t, v.live a, v.sole this a, ==ℤ_iff (s.mem this) (s.mem a));
    kept = λ h p.
        let (a, e) = v.kept h (ground (arith, g, t)) in
        (a, ground (arith, g, t, ==ℤ_iff (s.mem this) h));
    clean = naming (s.mem this) n (v.live this has) v.clean;
  }

  -- A handle goes from one object to another that has none, or to itself.
  pub IsMatched-move :
      (this from : Addr)
      → (x.is_none (s.mem this) ≡ true) ⊎ (this ≡ from)
      → IsMatched x (record s { mem = update (update s.mem from x.empty) this (s.mem from) })
  IsMatched-move this from free = record {
    sole = λ a b. ground (arith, x.empty_none, v.sole a b, v.sole from b, v.sole a from);
    live = λ a p. ground (arith, x.empty_none, v.live a, v.live from);
    kept = λ h p.
        let (a, e) = v.kept h p in
        elim (Bool-cases (a == from)) [
          | inl moved ↦ (this, ground arith)
          | inr stayed ↦ (a, ground (arith, is_live-real x s.trace h p))
        ];
    clean = v.clean;
  }

  -- The same, written in the order of a move construction.
  pub IsMatched-hand_over :
      (this from : Addr)
      → x.is_none (s.mem this) ≡ true
      → this ≢ from
      → IsMatched x (record s { mem = update (update s.mem this (s.mem from)) from x.empty })
  IsMatched-hand_over this from free apart = record {
    sole = λ a b. ground (arith, x.empty_none, v.sole a b, v.sole from b, v.sole a from);
    live = λ a p. ground (arith, x.empty_none, v.live a, v.live from);
    kept = λ h p.
        let (a, e) = v.kept h p in
        elim (Bool-cases (a == from)) [
          | inl moved ↦ (this, ground arith)
          | inr stayed ↦ (a, ground (arith, is_live-real x s.trace h p))
        ];
    clean = v.clean;
  }
