-- ===== src/Drawfs/Surface/Lifetime.antt =====
-- What creating and destroying a surface do to the surfaces that can be found.
use awase.Base.{
  ℕ, ◌+◌, ◌*◌, ◌%◌, ◌^◌, ◌≤◌, ◌<◌, ◌≡◌, ◌≢◌, refl, List, [], ◌∷◌, arith, some, none, ◌==◌, Option,
  Bool-cases, Option-cases, inl, inr, if◌then◌else◌, ◌⊎◌,
}
use awase.Base.Bytes.{u64}
use awase.Drawfs.Session.{Session, Surface, State, Kernel, deallocates, Tunables, einval, enoent}
use awase.Drawfs.Surface.{
  Created, find, lookup, remove, new_surface, create, destroy, release_vmobj,
}
use awase.Drawfs.Surface.Accounting.{SurfaceInv, Ascending, remove_sums}

find-below :
    (lo hi : ℕ) (xs : List Surface) (id : ℕ) → Ascending lo xs hi → id < lo → find xs id ≡ none
unfolding find
find-below lo hi [] id h le = refl
find-below lo hi (x ∷ xs) id h le = ground (arith, find-below (x.id + 1) hi xs id h.1)

find-remove :
    (lo hi : ℕ) (xs : List Surface) (id other : ℕ)
    → Ascending lo xs hi
    → find (remove xs id) other ≡ (if id == other then none else find xs other)
unfolding find remove
find-remove lo hi [] id other h = ground arith
find-remove lo hi (x ∷ xs) id other h =
    ground (arith, find-remove (x.id + 1) hi xs id other h.1, find-below (x.id + 1) hi xs other h.1)

-- The surface that the dimensions call for.
abbrev pub sized_surface : ℕ → ℕ → ℕ → ℕ → Surface
sized_surface id w h format = record {
  id = id;
  width_px = w;
  height_px = h;
  format = format;
  stride_bytes = w * 4;
  bytes_total = w * 4 * h;
  vmobj = none;
}

-- A surface can be created: a display is open, the dimensions and the format are supported, and it is
-- within the limits on the size of one surface, on their number, and on the size of all.
pub record Creatable (t : Tunables) (s : Session) (w h format : ℕ) : Type 0 where
  pub displayed : s.active_display_id ≢ 0
  pub wide : 1 ≤ w
  pub high : 1 ≤ h
  pub supported : format ≡ 1
  pub sized : w * 4 * h ≤ t.max_surface_bytes
  pub counted : s.surfaces_count < t.max_surfaces
  pub totalled : u64 (s.surfaces_bytes + w * 4 * h) ≤ t.max_session_surface_bytes

-- What creating gives: nothing, only where a surface cannot be created, or a surface, only where it can.
abbrev pub Creates : Tunables → Session → ℕ → ℕ → ℕ → Created → Session → Type 0
Creates t s w h format r s' =
    ((r.error ≢ 0)
      × (r.surface_id ≡ 0)
      × (r.bytes_total ≡ 0)
      × (s' ≡ s)
      × (Creatable t s w h format → ⊥))
    ⊎ ((r.error ≡ 0)
        × Creatable t s w h format
        × (r.surface_id ≡ s.next_surface_id)
        × (r.stride_bytes ≡ w * 4)
        × (r.bytes_total ≡ w * 4 * h)
        × ((other : ℕ)
            → lookup s' other ≡ (
                if s.next_surface_id == other
                then some (sized_surface s.next_surface_id w h format)
                else lookup s other)))

-- The size check computes in 64 bits, which two dimensions of 32 bits can exceed: whenever
-- `4 * w * h` passes 2 ^ 64 and its remainder is neither 0 nor above the limits, the surface is
-- created, with fewer bytes than its dimensions need.
pub create_overflows :
    (t : Tunables) (s : Session) (w h : ℕ)
    → w < 2 ^ 32
    → h < 2 ^ 32
    → 2 ^ 64 ≤ w * 4 * h
    → (w * 4 * h) % 2 ^ 64 ≢ 0
    → (w * 4 * h) % 2 ^ 64 ≤ t.max_surface_bytes
    → t.max_surface_bytes < 2 ^ 32
    → s.active_display_id ≢ 0
    → s.surfaces_count < t.max_surfaces
    → s.surfaces_bytes + (w * 4 * h) % 2 ^ 64 ≤ t.max_session_surface_bytes
    → t.max_session_surface_bytes < 2 ^ 63
    → let (r, s') = create t s w h 1 in (r.error ≡ 0) × (r.bytes_total < w * 4 * h)
unfolding create new_surface
create_overflows t s w h wf hf big nz le small disp room bytes mb = ground (arith, size)
  where
    size : u64 (u64 (w * 4) * h) ≡ (w * 4 * h) % 2 ^ 64
    size = let e : u64 (w * 4) ≡ w * 4 = omega arith in rw e

-- A backing object is given back to the virtual-memory system, by one call, which is counted; where
-- there is none, nothing is done.
abbrev pub GivenBack : Kernel → Option ℕ → Kernel → Type 0
GivenBack k none k' = k' ≡ k
GivenBack k (some obj) k' = k' ≡ record k {
  vm_calls = deallocates obj ∷ k.vm_calls;
  vmobj_deallocs = (k.vmobj_deallocs + 1) % 2 ^ 32;
}

release_vmobj-GivenBack : (k : Kernel) (obj : Option ℕ) → GivenBack k obj (release_vmobj k obj)
unfolding release_vmobj
release_vmobj-GivenBack k none = refl
release_vmobj-GivenBack k (some obj) = refl

abbrev pub Destroys : State → ℕ → ℕ → State → Type 0
Destroys st id e st' =
    ((id ≡ 0) × (e ≡ einval) × (st' ≡ st))
    ⊎ ((id ≢ 0) × (lookup st.session id ≡ none) × (e ≡ enoent) × (st' ≡ st))
    ⊎ ((sf : Surface) × (lookup st.session id ≡ some sf)
        × (e ≡ 0)
        × ((other : ℕ)
            → lookup st'.session other ≡ (if id == other then none else lookup st.session other))
        × (st'.session.map_surface_id
            ≡ (if st.session.map_surface_id == id then 0 else st.session.map_surface_id))
        × GivenBack st.kernel sf.vmobj st'.kernel)

-- For a session whose accounts and ids are exact, destroying: id 0 is refused, an id that is not found
-- is reported, and nothing changes; a surface that is found is found no more, every other id finds what
-- it found before, a selection of it for `mmap` is dropped and any other kept, and its backing object,
-- if it has one, is given back, with no other call of the virtual-memory system.
pub destroy_cases :
    (t : Tunables) (st : State) (id : ℕ)
    → SurfaceInv t st.session
    → Destroys st id (destroy st id).0 (destroy st id).1
unfolding destroy lookup
destroy_cases t st id inv = elim (Bool-cases (id == 0)) [
  | inl z ↦ inl (ground arith, rw (z, destroy), rw (z, destroy))
  | inr nz ↦ elim (Option-cases (find st.session.surfaces id)) [
    | inl missing ↦
        inr (inl (ground arith, missing, rw (nz, missing, destroy), rw (nz, missing, destroy)))
    | inr (sf, found) ↦
        let (_, _, same) = remove_sums st.session.surfaces id sf found in
        rw (nz, found, destroy)
          (inr (
            inr (
              sf,
              refl,
              refl,
              λ other. rw same (
                  find-remove 1 st.session.next_surface_id st.session.surfaces id other
                    inv.ids_fresh),
              rw same,
              release_vmobj-GivenBack st.kernel sf.vmobj,
            )))
  ]
]
