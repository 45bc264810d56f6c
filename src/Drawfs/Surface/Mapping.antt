-- ===== src/Drawfs/Surface/Mapping.antt =====
-- The backing object of the surface that is selected for `mmap`, under interference by other
-- threads while it is allocated.
use awase.Base.{
  false, ℕ, ◌≤◌, ◌≡◌, ◌≢◌, refl, List, [], ◌∷◌, arith, Option, some, none, ◌==◌, ◌⊎◌, ltb,
}
use awase.Drawfs.Session.{Surface, State, VmCall, references, deallocates}
use awase.Drawfs.Surface.{
  vmobj_lookup, find, fast_path, VmobjResult, install, vmobj_install, allocated, after_lookup,
  get_vmobj,
}

find-id : (xs : List Surface) (id : ℕ) (sf : Surface) → find xs id ≡ some sf → sf.id ≡ id
unfolding find
find-id [] id sf e = absurd (ground arith)
find-id (x ∷ xs) id sf e = ground (arith, find-id xs id sf)

-- A surface of the session carries an object.
abbrev pub Carries : State → ℕ → ℕ → Type 0
Carries st id obj = (sf : Surface) × (find st.session.surfaces id ≡ some sf) × (sf.vmobj ≡ some obj)

-- The outcome of a call: an error with no object, or an object that the surface carries, with a
-- reference taken on it after everything else that the session's threads did but giving back an
-- object that is superfluous.
abbrev pub Mapped : ℕ → VmobjResult → Type 0
Mapped id (status, none, st) = status ≢ 0
Mapped id (status, some obj, st) =
    (status ≡ 0)
    × Carries st id obj
    × ((calls : List VmCall) × ((st.kernel.vm_calls ≡ references obj ∷ calls)
          ⊎ ((other : ℕ) × (st.kernel.vm_calls ≡ deallocates other ∷ (references obj ∷ calls)))))

abbrev pub Selected : State → ℕ → Type 0
Selected st size =
    (sf : Surface) × (st.session.map_surface_id ≢ 0)
    × (find st.session.surfaces st.session.map_surface_id ≡ some sf)
    × (size ≤ sf.bytes_total)

-- A call that gives an object.
abbrev pub Gives : VmobjResult → Type 0
Gives r = (obj : ℕ) × ((st : State) × (r ≡ (0, some obj, st)))

module _ (allocate : ℕ → Option ℕ) (st : State) (size obj : ℕ) (sf : Surface)
    (found : find st.session.surfaces st.session.map_surface_id ≡ some sf)
    (alloc : allocate sf.bytes_total ≡ some obj) where
  fast_path-Gives :
      (old : Option ℕ)
      → sf.vmobj ≡ old
      → Gives (after_lookup allocate (λ x. x) st (fast_path st sf old))
  unfolding fast_path after_lookup allocated vmobj_install install
  fast_path-Gives (some o) held = (o, (_, refl))
  fast_path-Gives none held =
      rw
        (
          alloc,
          find-id st.session.surfaces st.session.map_surface_id sf found,
          found,
          held,
          allocated,
          vmobj_install,
          install,
        )
        (obj, (_, refl))

  -- Undisturbed, with an allocation that succeeds, a selected surface with the bytes gives its object.
  pub get_vmobj-Gives :
      st.session.map_surface_id ≢ 0
      → size ≤ sf.bytes_total
      → Gives (get_vmobj allocate (λ x. x) st size)
  unfolding get_vmobj vmobj_lookup
  get_vmobj-Gives nz fits =
      let chosen : (st.session.map_surface_id == 0) ≡ false = ground arith in
      let enough : ltb sf.bytes_total size ≡ false = ground arith in
      rw (chosen, found, enough, after_lookup) (fast_path-Gives sf.vmobj refl)
