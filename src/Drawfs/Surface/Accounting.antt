-- ===== src/Drawfs/Surface/Accounting.antt =====
-- The surface accounts of a session in drawfs_surface.c, their limits, and the ids.
use awase.Base.{
  ℕ, suc, ◌+◌, ◌^◌, ◌≤◌, ◌<◌, ◌≡◌, refl, List, [], ◌∷◌, ◌++◌, arith, some, length, length-append,
  ◌==◌, Bool-cases, Option-cases, inl, inr,
}
use awase.Drawfs.Session.{Session, Surface, State, Tunables, TunablesFit}
use awase.Drawfs.Surface.{find, remove, new_surface, create, detach, destroy}

-- The bytes of all surfaces, and whether the ids rise along the list from `lo` on, below `hi`.
abbrev pub total_bytes : List Surface → ℕ
total_bytes [] = 0
total_bytes (sf ∷ rest) = sf.bytes_total + total_bytes rest

abbrev pub Ascending : ℕ → List Surface → ℕ → Type 0
Ascending lo [] hi = lo ≤ hi
Ascending lo (sf ∷ rest) hi = (lo ≤ sf.id) × Ascending (sf.id + 1) rest hi

-- The accounts are exact and within the limits.
pub record Accounts (t : Tunables) (s : Session) : Type 0 where
  pub count_exact : s.surfaces_count ≡ length s.surfaces
  pub bytes_exact : s.surfaces_bytes ≡ total_bytes s.surfaces
  pub count_bounded : s.surfaces_count ≤ t.max_surfaces
  pub bytes_bounded : s.surfaces_bytes ≤ t.max_session_surface_bytes

-- Besides, every id is new: from 1 on, below the next.
pub record SurfaceInv (t : Tunables) (s : Session) : Type 0 where
  pub accounts : Accounts t s
  pub ids_fresh : Ascending 1 s.surfaces s.next_surface_id

total_bytes-append :
    (xs : List Surface) (sf : Surface)
    → total_bytes (xs ++ (sf ∷ [])) ≡ total_bytes xs + sf.bytes_total
total_bytes-append [] sf = omega arith
total_bytes-append (x ∷ xs) sf = omega (arith, total_bytes-append xs sf)

Ascending-append :
    (lo hi : ℕ) (xs : List Surface) (sf : Surface)
    → Ascending lo xs hi
    → sf.id ≡ hi
    → Ascending lo (xs ++ (sf ∷ [])) (hi + 1)
Ascending-append lo hi [] sf h e = omega arith
Ascending-append lo hi (x ∷ xs) sf h e = (h.0, Ascending-append (x.id + 1) hi xs sf h.1 e)

Ascending-weaken :
    (lo lo' hi : ℕ) (xs : List Surface) → lo' ≤ lo → Ascending lo xs hi → Ascending lo' xs hi
Ascending-weaken lo lo' hi [] le h = omega arith
Ascending-weaken lo lo' hi (x ∷ xs) le h = (omega arith, h.1)

Ascending-remove :
    (lo hi : ℕ) (xs : List Surface) (id : ℕ) → Ascending lo xs hi → Ascending lo (remove xs id) hi
unfolding remove
Ascending-remove lo hi [] id h = h
Ascending-remove lo hi (x ∷ xs) id h = elim (Bool-cases (x.id == id)) [
  | inl hit ↦ rw hit (Ascending-weaken (x.id + 1) lo hi xs (omega arith) h.1)
  | inr miss ↦ rw miss (h.0, Ascending-remove (x.id + 1) hi xs id h.1)
]

-- Taking out what the search finds.
pub remove_sums :
    (xs : List Surface) (id : ℕ) (sf : Surface)
    → find xs id ≡ some sf
    → (length xs ≡ suc (length (remove xs id)))
      × (total_bytes xs ≡ sf.bytes_total + total_bytes (remove xs id))
      × (sf.id ≡ id)
unfolding find remove
remove_sums [] id sf e = absurd (ground arith)
remove_sums (x ∷ xs) id sf e = ground (arith, remove_sums xs id sf)

-- A limit on one surface that fits into the 32 bits of `bytes_total`.
abbrev pub SmallSurfaces : Tunables → Type 0
SmallSurfaces t = t.max_surface_bytes < 2 ^ 32

pub create-Accounts :
    (t : Tunables) (s : Session) (w h format : ℕ)
    → TunablesFit t
    → SmallSurfaces t
    → Accounts t s
    → Accounts t (create t s w h format).1
unfolding create new_surface
create-Accounts t s w h format fit small inv =
    let sf = new_surface s.next_surface_id w h format in
    ground (arith, length-append s.surfaces (sf ∷ []), total_bytes-append s.surfaces sf)

create-ids :
    (t : Tunables) (s : Session) (w h format : ℕ)
    → s.next_surface_id + 1 < 2 ^ 32
    → Ascending 1 s.surfaces s.next_surface_id
    → let s' = (create t s w h format).1 in Ascending 1 s'.surfaces s'.next_surface_id
unfolding create new_surface
create-ids t s w h format more asc =
    let sf = new_surface s.next_surface_id w h format in
    ground (arith, Ascending-append 1 s.next_surface_id s.surfaces sf asc refl)

pub detach-Accounts :
    (t : Tunables) (s : Session) (id : ℕ) (sf : Surface)
    → find s.surfaces id ≡ some sf
    → Accounts t s
    → Accounts t (detach s sf (remove s.surfaces sf.id))
unfolding detach
detach-Accounts t s id sf found inv =
    let (len, bytes, same) = remove_sums s.surfaces id sf found in
    rw same (ground (arith, len, bytes))

-- A property of the session that holds before a call, and after each way to detach a surface.
pub destroy_keeps {ℓ} :
    (P : Session → Type ℓ) (st : State) (id : ℕ)
    → P st.session
    → ((sf : Surface)
        → find st.session.surfaces id ≡ some sf
        → P (detach st.session sf (remove st.session.surfaces sf.id)))
    → P (destroy st id).1.session
unfolding destroy
destroy_keeps P st id old new = elim (Bool-cases (id == 0)) [
  | inl z ↦ rw z old
  | inr nz ↦ elim (Option-cases (find st.session.surfaces id)) [
    | inl missing ↦ rw (nz, missing, destroy) old
    | inr (sf, found) ↦ rw (nz, found, destroy) (new sf found)
  ]
]

pub destroy-Accounts :
    (t : Tunables) (st : State) (id : ℕ)
    → Accounts t st.session
    → Accounts t (destroy st id).1.session
destroy-Accounts t st id inv =
    destroy_keeps (Accounts t) st id inv (λ sf found. detach-Accounts t st.session id sf found inv)

destroy-ids :
    (st : State) (id : ℕ)
    → Ascending 1 st.session.surfaces st.session.next_surface_id
    → let s' = (destroy st id).1.session in Ascending 1 s'.surfaces s'.next_surface_id
unfolding detach
destroy-ids st id asc =
    destroy_keeps (λ s. Ascending 1 s.surfaces s.next_surface_id) st id asc
      (λ sf found. Ascending-remove 1 st.session.next_surface_id st.session.surfaces sf.id asc)

-- Creating a surface, whatever the outcome, and destroying one keep the accounts exact and within
-- the limits and the ids unique. For creating, the tunables are not negative, the limit on one
-- surface is below 4 GiB, and the id counter has not come round.
pub surface_calls-SurfaceInv :
    (t : Tunables) (st : State) (w h format id : ℕ)
    → TunablesFit t
    → SmallSurfaces t
    → st.session.next_surface_id + 1 < 2 ^ 32
    → SurfaceInv t st.session
    → SurfaceInv t (create t st.session w h format).1 × SurfaceInv t (destroy st id).1.session
surface_calls-SurfaceInv t st w h format id fit small more inv = (
  record {
    accounts = create-Accounts t st.session w h format fit small inv.accounts;
    ids_fresh = create-ids t st.session w h format more inv.ids_fresh;
  },
  record {
    accounts = destroy-Accounts t st id inv.accounts;
    ids_fresh = destroy-ids st id inv.ids_fresh;
  },
)
