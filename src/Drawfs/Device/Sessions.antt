-- ===== src/Drawfs/Device/Sessions.antt =====
-- The registry of sessions: freeing one, and the mapping of a surface that was selected.
use awase.Base.{
  length, ℕ, ◌+◌, ◌≤◌, ◌≡◌, ◌≢◌, refl, List, [], ◌∷◌, arith, Option, some, none, ◌==◌, true, false,
  if◌then◌else◌,
}
use awase.Drawfs.Session.{Session, Surface, State, Tunables}
use awase.Drawfs.Surface.{find, select_for_mmap}
use awase.Drawfs.Surface.Freeing.{given_back, carriers, surfaces_free_all-frees}
use awase.Drawfs.Surface.Mapping.{get_vmobj-Gives}
use awase.Drawfs.Proto.{max_frame_bytes}
use awase.Drawfs.Queue.Accounting.{total_len}
use awase.Drawfs.Surface.Accounting.{total_bytes}
use awase.Drawfs.Invariant.{SessionInv, Limits}
use awase.Drawfs.Device.{
  report_stats, Registry, at_addr, remove_addr, drain, session_free, mmap_single, map_surface,
}

-- No two sessions have the same address.
abbrev pub Absent : ℕ → List (ℕ × Session) → Type 0
Absent addr xs = at_addr xs addr ≡ none

abbrev pub Distinct : List (ℕ × Session) → Type 0
Distinct [] = Unit
Distinct ((a, s) ∷ rest) = Absent a rest × Distinct rest

pub at-remove :
    (xs : List (ℕ × Session)) (addr other : ℕ)
    → Distinct xs
    → at_addr (remove_addr xs addr) other ≡ (if addr == other then none else at_addr xs other)
unfolding at_addr remove_addr
at-remove [] addr other d = ground arith
at-remove ((a, s) ∷ rest) addr other d = ground (arith, at-remove rest addr other d.1)

-- Freeing a session, among sessions with different addresses: its address is free afterwards, every
-- other session stays as it is, and each backing object is given back once more for each surface
-- of the session that carries it.
pub session_free-frees :
    (r : Registry) (addr other obj : ℕ) (s : Session)
    → Distinct r.sessions
    → at_addr r.sessions addr ≡ some s
    → let r' = session_free r addr in
      (at_addr r'.sessions other ≡ (if addr == other then none else at_addr r.sessions other))
      × (given_back obj r'.kernel.vm_calls
          ≡ carriers obj s.surfaces + given_back obj r.kernel.vm_calls)
unfolding session_free drain
session_free-frees r addr other obj s d e =
    let (_, _, _, calls) =
      surfaces_free_all-frees (record { session = drain s; kernel = r.kernel }) obj in
    rw (e, session_free) (at-remove r.sessions addr other d, calls)

-- Selecting a surface that exists and then mapping it, undisturbed, with an allocation that
-- succeeds: both succeed for every size from 1 up to the bytes that the selection returned.
pub map_surface-mmap_single :
    (t : Tunables) (allocate : ℕ → Option ℕ) (st : State) (id size obj : ℕ) (sf : Surface)
    → t.mmap_enabled ≡ true
    → id ≢ 0
    → find st.session.surfaces id ≡ some sf
    → allocate sf.bytes_total ≡ some obj
    → 1 ≤ size
    → size ≤ sf.bytes_total
    → let ((status, _, bytes), s') = map_surface st.session id in
      (status ≡ 0)
      × (bytes ≡ sf.bytes_total)
      × ((mapped : ℕ) × ((st' : State) × (mmap_single t allocate
                (λ x. x)
                (record st { session = s' })
                0
                size
              ≡ (0, some mapped, st'))))
unfolding map_surface mmap_single
map_surface-mmap_single t allocate st id size obj sf on nz found alloc pos fits =
    let s' = record st.session { map_surface_id = id } in
    let st1 : State = record { session = s'; kernel = st.kernel } in
    let chosen : (id == 0) ≡ false = ground arith in
    let selected : select_for_mmap st.session id ≡ ((0, sf.stride_bytes, sf.bytes_total), s') =
      unfold select_for_mmap in rw (chosen, found, select_for_mmap) refl in
    let sized : (size == 0) ≡ false = ground arith in
    rw (selected, on, sized)
      (refl, refl, get_vmobj-Gives allocate st1 size obj sf found alloc nz fits)

-- The statistics that the device reports, for a session whose invariant holds: the bytes that wait,
-- the bytes of the queued events, and the number and the bytes of the surfaces.
pub report_stats-exact :
    (t : Tunables) (s : Session)
    → Limits t
    → SessionInv t max_frame_bytes s
    → let out = report_stats s in
      (out.inbuf_bytes ≡ s.in_len)
      × (out.evq_bytes ≡ total_len s.evq)
      × (out.surfaces_count ≡ length s.surfaces)
      × (out.surfaces_bytes ≡ total_bytes s.surfaces)
unfolding report_stats
report_stats-exact t s l inv = omega arith
