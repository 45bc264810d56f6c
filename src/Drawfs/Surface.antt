-- ===== src/Drawfs/Surface.antt =====
-- drawfs_surface.c: the surfaces of a session. Each function that holds the lock throughout is one
-- step; `drawfs_surface_get_vmobj` gives the lock up around the allocation and is two.
pub mod Accounting
pub mod Lifetime
pub mod Mapping
pub mod Freeing
use awase.Base.{
  ℕ, zero, suc, ◌+◌, ◌-◌, ◌*◌, ◌%◌, ◌^◌, ◌≡◌, List, [], ◌∷◌, ◌++◌, Option, none, some, Bool, true,
  false, not, ◌||◌, ltb, leb, ◌==◌, if◌then◌else◌,
}
use awase.Base.Bytes.{u32, u64}
use awase.Drawfs.Proto.{fmt_xrgb8888}
use awase.Drawfs.Session.{
  Session, Surface, Tunables, Kernel, State, VmCall, references, deallocates, enoent, enomem,
  einval, efbig, enospc, eprotonosupport,
}

-- The search of `drawfs_surface_lookup_locked`, which the other functions repeat.
unfoldable pub find : List Surface → ℕ → Option Surface
find [] surface_id = none
find (sf ∷ rest) surface_id = if sf.id == surface_id then some sf else find rest surface_id

-- TAILQ_REMOVE of the surface that the search finds.
unfoldable pub remove : List Surface → ℕ → List Surface
remove [] surface_id = []
remove (sf ∷ rest) surface_id = if sf.id == surface_id then rest else sf ∷ remove rest surface_id

-- A change to the surface that the search finds.
unfoldable pub set_vmobj : List Surface → ℕ → ℕ → List Surface
set_vmobj [] surface_id obj = []
set_vmobj (sf ∷ rest) surface_id obj =
    if sf.id == surface_id
    then record sf { vmobj = some obj } ∷ rest
    else sf ∷ set_vmobj rest surface_id obj

unfoldable pub lookup : Session → ℕ → Option Surface
lookup s surface_id = find s.surfaces surface_id

-- What `drawfs_surface_create` returns: 0 or an errno, and `*out_surface_id`, `*out_stride_bytes`
-- and `*out_bytes_total`.
pub record Created : Type 0 where
  pub error : ℕ
  pub surface_id : ℕ
  pub stride_bytes : ℕ
  pub bytes_total : ℕ

abbrev pub not_created : ℕ → Created
not_created error = record { error = error; surface_id = 0; stride_bytes = 0; bytes_total = 0 }

unfoldable pub new_surface : ℕ → ℕ → ℕ → ℕ → Surface
new_surface id width_px height_px format = record {
  id = id;
  width_px = width_px;
  height_px = height_px;
  format = format;
  stride_bytes = u32 (u64 (width_px * 4));
  bytes_total = u32 (u64 (u64 (width_px * 4) * height_px));
  vmobj = none;
}

insert_surface : Session → Surface → ℕ → Session
insert_surface s sf total64 = record s {
  surfaces = s.surfaces ++ (sf ∷ []);
  next_surface_id = u32 (s.next_surface_id + 1);
  surfaces_count = u32 (s.surfaces_count + 1);
  surfaces_bytes = u64 (s.surfaces_bytes + total64);
}

unfoldable pub create : Tunables → Session → ℕ → ℕ → ℕ → Created × Session
unfolding insert_surface
create t s width_px height_px format =
    if s.active_display_id == 0
    then (not_created einval, s)
    else if width_px == 0 || height_px == 0
    then (not_created einval, s)
    else if not (format == fmt_xrgb8888)
    then (not_created eprotonosupport, s)
    else if stride64 == 0 || total64 == 0 || ltb t.max_surface_bytes total64
    then (not_created efbig, s)
    else if leb t.max_surfaces s.surfaces_count
        || ltb t.max_session_surface_bytes (u64 (s.surfaces_bytes + total64))
    then (not_created enospc, s)
    else (
      record {
        error = 0;
        surface_id = sf.id;
        stride_bytes = sf.stride_bytes;
        bytes_total = sf.bytes_total;
      },
      insert_surface s sf total64,
    )
  where
    stride64 : ℕ
    stride64 = u64 (width_px * 4)

    total64 : ℕ
    total64 = u64 (stride64 * height_px)

    sf : Surface
    sf = new_surface s.next_surface_id width_px height_px format

-- The accounts when a surface leaves the list for `rest`, and the selection for `mmap`.
unfoldable pub detach : Session → Surface → List Surface → Session
detach s sf rest = record s {
  surfaces = rest;
  surfaces_count = if ltb 0 s.surfaces_count then s.surfaces_count - 1 else s.surfaces_count;
  surfaces_bytes =
      if leb sf.bytes_total s.surfaces_bytes then s.surfaces_bytes - sf.bytes_total else 0;
  map_surface_id = if s.map_surface_id == sf.id then 0 else s.map_surface_id;
}

-- The backing object, if there is one, is given back once the lock is free.
unfoldable pub release_vmobj : Kernel → Option ℕ → Kernel
release_vmobj k none = k
release_vmobj k (some obj) = record k {
  vmobj_deallocs = u32 (k.vmobj_deallocs + 1);
  vm_calls = deallocates obj ∷ k.vm_calls;
}

unfoldable pub destroy : State → ℕ → ℕ × State
unfolding detach release_vmobj
destroy st surface_id =
    if surface_id == 0 then (einval, st) else elim (find st.session.surfaces surface_id) [
      | none ↦ (enoent, st)
      | some sf ↦ (
        0,
        record {
          session = detach st.session sf (remove st.session.surfaces sf.id);
          kernel = release_vmobj st.kernel sf.vmobj;
        },
      )
    ]

-- The status, `*out_stride_bytes` and `*out_bytes_total`.
unfoldable pub select_for_mmap : Session → ℕ → (ℕ × ℕ × ℕ) × Session
select_for_mmap s surface_id =
    if surface_id == 0 then ((einval, 0, 0), s) else elim (find s.surfaces surface_id) [
      | none ↦ ((enoent, 0, 0), s)
      | some sf ↦ ((0, sf.stride_bytes, sf.bytes_total), record s { map_surface_id = surface_id })
    ]

-- The first hold of the lock in `drawfs_surface_get_vmobj`: an errno, the object on the fast path,
-- or the pinned id and size with which the lock is given up.
pub data VmobjLookup : Type 0 where
  refused : (status : ℕ) → VmobjLookup
  ready : (obj : ℕ) → State → VmobjLookup
  pinned : (pinned_id pinned_bytes : ℕ) → VmobjLookup

pub reference : Kernel → ℕ → Kernel
reference k obj = record k { vm_calls = references obj ∷ k.vm_calls }

fast_path : State → Surface → Option ℕ → VmobjLookup
unfolding reference
fast_path st sf (some obj) = ready obj (record st { kernel = reference st.kernel obj })
fast_path st sf none = pinned sf.id sf.bytes_total

pub vmobj_lookup : State → ℕ → VmobjLookup
unfolding fast_path
vmobj_lookup st size =
    elim (if st.session.map_surface_id == 0
      then none
      else find st.session.surfaces st.session.map_surface_id) [
        | none ↦ refused enoent
        | some sf ↦ if ltb sf.bytes_total size then refused einval else fast_path st sf sf.vmobj
      ]

-- What `drawfs_surface_get_vmobj` returns: `*status_out` and the object, NULL being `none`.
abbrev pub VmobjResult : Type 0
VmobjResult = ℕ × Option ℕ × State

-- The new object is superfluous: the surface has gone, or another thread was faster.
discard : Kernel → ℕ → Kernel
discard k obj = record k {
  vmobj_deallocs = u32 (k.vmobj_deallocs + 1);
  vm_calls = deallocates obj ∷ k.vm_calls;
}

install : State → Surface → ℕ → Option ℕ → VmobjResult
unfolding reference discard
install st sf new_obj (some obj) =
    let lost = discard (reference st.kernel obj) new_obj in
    let k = record lost { vmobj_install_lost = u32 (lost.vmobj_install_lost + 1) } in
    (0, some obj, record st { kernel = k })
install st sf new_obj none =
    let k = record st.kernel { vmobj_allocs = u32 (st.kernel.vmobj_allocs + 1) } in
    let s = record st.session { surfaces = set_vmobj st.session.surfaces sf.id new_obj } in
    (0, some new_obj, record { session = s; kernel = reference k new_obj })

-- The second hold of the lock, with the object that was allocated meanwhile.
pub vmobj_install : State → ℕ → ℕ → VmobjResult
unfolding install
vmobj_install st pinned_id new_obj = elim (find st.session.surfaces pinned_id) [
  | none ↦ (enoent, none, record st { kernel = discard st.kernel new_obj })
  | some sf ↦ install st sf new_obj sf.vmobj
]

-- What follows the allocation, and what follows the first hold of the lock.
allocated : State → ℕ → Option ℕ → VmobjResult
unfolding vmobj_install
allocated st pinned_id none = (enomem, none, st)
allocated st pinned_id (some new_obj) = vmobj_install st pinned_id new_obj

after_lookup : (ℕ → Option ℕ) → (State → State) → State → VmobjLookup → VmobjResult
unfolding allocated
after_lookup allocate meanwhile st (refused status) = (status, none, st)
after_lookup allocate meanwhile st (ready obj st') = (0, some obj, st')
after_lookup allocate meanwhile st (pinned pinned_id pinned_bytes) =
    allocated (meanwhile st) pinned_id (allocate pinned_bytes)

-- The whole call. `allocate` is `vm_pager_allocate` at a size, and `meanwhile` is what the other
-- threads do to the state while the lock is free.
pub get_vmobj : (ℕ → Option ℕ) → (State → State) → State → ℕ → VmobjResult
unfolding after_lookup vmobj_lookup
get_vmobj allocate meanwhile st size = after_lookup allocate meanwhile st (vmobj_lookup st size)

-- `drawfs_surfaces_free_all`: one surface after the other, each under a hold of the lock, and the
-- accounts set to zero at the end.
free_list : State → List Surface → State
free_list st [] = record st {
  session = record st.session { surfaces_count = 0; surfaces_bytes = 0 };
}
free_list st (sf ∷ rest) =
    free_list
      (record { session = detach st.session sf rest; kernel = release_vmobj st.kernel sf.vmobj })
      rest

pub surfaces_free_all : State → State
unfolding free_list detach release_vmobj
surfaces_free_all st = free_list st st.session.surfaces
