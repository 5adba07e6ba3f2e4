-- ===== src/Fs/Directory/Laws.antt =====
-- The life of a directory handle.
use metasys.Base.{
  ◌≡◌, refl, ◌≢◌, true, false, not, ◌&&◌, arith, if◌then◌else◌, minus_one, ◌==ℤ◌, ==ℤ_refl, pos,
}
use metasys.Machine.{Addr, Kernel, Call, and_then, update, after, Machine, assertion, done, stopped}
use metasys.Fs.Directory.{
  is_handle, null, close, destroy, move_assign, openthrow, construct_or_throw_taking,
}
use metasys.Ownership.{is_open}

module _ (k : Kernel) where
  abbrev pub closed_dir : Addr → Machine → Machine
  closed_dir this s = after s (Call.closedir (s.mem this)) (k s.trace (Call.closedir (s.mem this)))

  -- `close` on a handle makes one closedir(3), and does not clear the object: the destructor that
  -- follows passes the same handle to closedir(3) again. It is assumed that both calls report
  -- success.
  destroy-close :
      (this : Addr) (s : Machine)
      → is_handle (s.mem this) ≡ true
      → (k s.trace (Call.closedir (s.mem this))).ret ≡ pos 0
      → (k (closed_dir this s).trace (Call.closedir (s.mem this))).ret ≡ pos 0
      → and_then (close k this s) (λ _. destroy k this)
        ≡ done tt (closed_dir this (closed_dir this s))
  unfolding close destroy
  destroy-close this s held went went' = ground (arith, held, went, went')

  -- A directory that is assigned to itself loses its handle, and does not close it.
  pub move_assign_directory_self :
      (this : Addr) (s : Machine)
      → (t : Machine) × (move_assign k this this s ≡ done tt t)
        × (t.mem this ≡ null)
        × (t.trace ≡ s.trace)
  unfolding move_assign
  move_assign_directory_self this s = (
    record s { mem = update (update s.mem this (s.mem this)) this null },
    ground (arith, ==ℤ_refl (s.mem this)),
    ground arith,
    refl,
  )

  -- A move assignment between objects with different handles closes the old handle, where there is
  -- one, and then hands over the new one and clears `other`. If closedir(3) fails, the process
  -- stops before anything is handed over.
  pub move_assign_directory_lem :
      (this other : Addr) (s : Machine)
      → (s.mem other ==ℤ s.mem this) ≡ false
      → let t = if is_handle (s.mem this) then closed_dir this s else s in
        let went = (k s.trace (Call.closedir (s.mem this))).ret ==ℤ pos 0 in
        move_assign k this other s ≡ (
          if is_handle (s.mem this) && not went
          then stopped assertion (closed_dir this s)
          else done tt (record t { mem = update (update s.mem this (s.mem other)) other null }))
  unfolding move_assign
  move_assign_directory_lem this other s differ = ground (arith, differ)

  -- `Directory(FileDescriptor &&)` takes the descriptor out of its object before it calls
  -- fdopendir(3). Where that fails, the usual handler runs on a machine where the object at `other`
  -- is invalid, the directory is empty, and the descriptor is as open as it was before. The
  -- descriptor's object is not the directory.
  pub construct_taking-failed :
      (other this : Addr) (s : Machine)
      → other ≢ this
      → (k s.trace (Call.fdopendir (s.mem other))).ret ≡ null
      → (t : Machine) × (construct_or_throw_taking k other this s
          ≡ and_then (openthrow {A = Unit {0}} t) (λ _. done tt))
        × (t.mem other ≡ minus_one)
        × (t.mem this ≡ null)
        × (is_open t.trace (s.mem other) ≡ is_open s.trace (s.mem other))
  unfolding construct_or_throw_taking openthrow is_open
  construct_taking-failed other this s apart failed =
      let c = Call.fdopendir (s.mem other) in
      (
        record (after s c (k s.trace c)) { mem = update (update s.mem other minus_one) this null },
        ground (arith, failed),
        ground arith,
        ground arith,
        ground arith,
      )
