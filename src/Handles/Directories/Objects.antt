-- ===== src/Handles/Directories/Objects.antt =====
-- What each operation on a directory keeps.
use metasys.Base.{
  ◌≡◌, refl, ◌≢◌, inl, inr, true, false, none, some, [], ◌∷◌, arith, Bool-cases, ◌==ℤ◌, ℤ, pos,
}
use metasys.Machine.{Addr, Kernel, Call, Reply, pure, ◌>>◌, when, update, after, Machine, ebadf}
use metasys.Fs.Directory
use metasys.Fs.Directory.{is_handle, null}
use metasys.Fs.Directory.Laws.{closed_dir}
use metasys.Handles.{naming, IsMatched}
use metasys.Handles.Steps.{
  IsMatched-benign, IsMatched-use, IsMatched-clear, IsMatched-gain, IsMatched-drop,
  IsMatched-hand_over,
}
use metasys.Handles.Rules.{Clean, IsEmpty, Safe, Keeps, Empties, Fills, throw-Safe, pure-Safe}
use metasys.Handles.Directories.{
  directories, IsOpening, Place, place_call, end_of_life, path, descriptor,
}

-- What the two calls that open a directory give.
opened_place :
    (place : Place) (r : Reply)
    → (r.ret ==ℤ null) ≡ false
    → directories.gives (place_call place) r ≡ some r.ret
opened_place (path name) r went = rw went refl
opened_place (descriptor fd) r went = rw went refl

failed_place :
    (place : Place) (r : Reply)
    → (r.ret ==ℤ null) ≡ true
    → directories.gives (place_call place) r ≡ none
failed_place (path name) r failed = rw failed refl
failed_place (descriptor fd) r failed = rw failed refl

takes_place : (place : Place) (r : Reply) → directories.takes (place_call place) r ≡ none
takes_place (path name) r = refl
takes_place (descriptor fd) r = refl

names_place : (place : Place) → directories.names (place_call place) ≡ none
names_place (path name) = refl
names_place (descriptor fd) = refl

module _ (k : Kernel) (opening : IsOpening k) where
  -- The machine after the call, failed or not.
  abbrev opened_at : Place → Addr → Machine → Machine
  opened_at place this s =
      let c = place_call place in
      record (after s c (k s.trace c)) { mem = update s.mem this (k s.trace c).ret }

  place-IsMatched :
      (place : Place) (this : Addr) (s : Machine)
      → IsMatched directories s
      → IsEmpty directories this s
      → IsMatched directories (opened_at place this s)
  place-IsMatched place this s v free =
      let c = place_call place in
      let r = k s.trace c in
      elim (Bool-cases (r.ret ==ℤ null)) [
        | inl failed ↦
            let w =
              IsMatched-benign directories s v c r (failed_place place r failed)
                (takes_place place r) (names_place place) in
            IsMatched-clear directories (after s c r) w this r.ret free (rw failed refl)
        | inr went ↦
            let given = opened_place place r went in
            IsMatched-gain directories s v this c r r.ret free given (names_place place)
              (opening s.trace c r.ret given)
      ]

  -- The handler that follows it.
  openthrow-Safe :
      (ret : ℤ) (s : Machine)
      → IsMatched directories s
      → Safe directories (λ _. IsMatched directories) (when (ret ==ℤ null) Directory.openthrow s)
  unfolding Directory.openthrow
  openthrow-Safe ret s v = elim (Bool-cases (ret ==ℤ null)) [
    | inl failed ↦ rw failed (throw-Safe directories (λ _. IsMatched directories) (ebadf ∷ []) s v)
    | inr went ↦ rw went v
  ]

  pub open_dir-Keeps :
      (place : Place) (this : Addr)
      → Keeps directories (Directory.open_dir k (place_call place) this)
  unfolding Directory.open_dir
  open_dir-Keeps place this s v = elim (Bool-cases (is_handle (s.mem this))) [
    | inl has ↦ rw has v.clean
    | inr free ↦ rw free (
        openthrow-Safe (k s.trace (place_call place)).ret (opened_at place this s)
          (place-IsMatched place this s v (rw free refl)))
  ]

  pub construct-Fills :
      (place : Place) (this : Addr)
      → Fills directories this (Directory.construct_or_throw k (place_call place) this)
  unfolding Directory.construct_or_throw
  construct-Fills place this s v free =
      let t = opened_at place this s in
      let ret = (k s.trace (place_call place)).ret in
      pure-Safe directories (when (ret ==ℤ null) Directory.openthrow t)
        (openthrow-Safe ret t (place-IsMatched place this s v free))

  -- closedir(3) on the handle of an object, which keeps it until it is overwritten.
  pub closed_dir-IsMatched :
      (this : Addr) (s : Machine)
      → IsMatched directories s
      → is_handle (s.mem this) ≡ true
      → IsMatched directories (record (closed_dir k this s) { mem = update s.mem this null })
  closed_dir-IsMatched this s v has =
      let c = Call.closedir (s.mem this) in
      IsMatched-drop directories s v this c (k s.trace c) null (rw has refl) refl refl refl refl

  pub closed_dir-IsClean :
      (this : Addr) (s : Machine)
      → IsMatched directories s
      → is_handle (s.mem this) ≡ true
      → Clean directories (closed_dir k this s)
  closed_dir-IsClean this s v has = naming (s.mem this) refl (v.live this (rw has refl)) v.clean

  pub end_of_life-Empties : (this : Addr) → Empties directories this (end_of_life k this)
  unfolding end_of_life Directory.destroy
  end_of_life-Empties this s v = elim (Bool-cases (is_handle (s.mem this))) [
    | inr free ↦
        rw free (IsMatched-clear directories s v this null (rw free refl) refl, ground arith)
    | inl has ↦ elim (Bool-cases ((k s.trace (Call.closedir (s.mem this))).ret ==ℤ pos 0)) [
      | inl went ↦ rw (has, has, went) (closed_dir-IsMatched this s v has, ground arith)
      | inr failed ↦ rw (has, has, failed) (closed_dir-IsClean this s v has)
    ]
  ]

  pub read-Keeps : (this : Addr) → Keeps directories (do Directory.read k this; pure tt)
  unfolding Directory.read
  read-Keeps this s v = elim (Bool-cases (is_handle (s.mem this))) [
    | inr free ↦ rw free v.clean
    | inl has ↦
        let c = Call.readdir (s.mem this) in
        rw has (IsMatched-use directories s v this c (k s.trace c) (rw has refl) refl refl refl)
  ]

  pub move_construct-Fills :
      (this from : Addr) → this ≢ from → Fills directories this (Directory.move_construct this from)
  unfolding Directory.move_construct
  move_construct-Fills this from apart s v free =
      IsMatched-hand_over directories s v this from free apart
