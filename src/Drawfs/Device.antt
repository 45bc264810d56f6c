-- ===== src/Drawfs/Device.antt =====
-- The device and its sessions in drawfs.c: opening and freeing a session, `drawfs_mmap_single`, and
-- the commands of `drawfs_ioctl` that concern sessions.
pub mod Sessions
pub mod Injection
use awase.Base.{
  ℕ, zero, suc, ◌+◌, List, [], ◌∷◌, ◌++◌, Option, none, some, Bool, true, false, not, ◌&&◌, ◌||◌,
  ◌==◌, if◌then◌else◌, map, length, take,
}
use awase.Base.Bytes.{u32}
use awase.Drawfs.Proto.{evt_key, evt_pointer, evt_scroll, evt_touch}
use awase.Drawfs.Session.{
  Session, Stats, Tunables, State, Kernel, Surface, Event, open_session, eperm, einval, enoent,
}
use awase.Drawfs.Surface.{find, get_vmobj, VmobjResult, select_for_mmap, surfaces_free_all}
use awase.Drawfs.Reply.{send_reply}

-- The list `g_sessions`, each session with its address, and the module's counters.
pub record Registry : Type 0 where
  pub sessions : List (ℕ × Session)
  pub kernel : Kernel

-- A surface is found, or not.
unfoldable pub is_found : Option Surface → Bool
is_found none = false
is_found (some sf) = true

-- The first open session that has the surface.
unfoldable pub find_session : List (ℕ × Session) → ℕ → Option ℕ
find_session [] surface_id = none
find_session ((addr, s) ∷ rest) surface_id =
    if not s.closing && is_found (find s.surfaces surface_id)
    then some addr
    else find_session rest surface_id

-- What is at an address, and a change of it.
unfoldable pub at_addr : List (ℕ × Session) → ℕ → Option Session
at_addr [] addr = none
at_addr ((a, s) ∷ rest) addr = if a == addr then some s else at_addr rest addr

unfoldable pub set_addr : List (ℕ × Session) → ℕ → Session → List (ℕ × Session)
set_addr [] addr s' = []
set_addr ((a, s) ∷ rest) addr s' =
    if a == addr then (a, s') ∷ rest else (a, s) ∷ set_addr rest addr s'

unfoldable pub remove_addr : List (ℕ × Session) → ℕ → List (ℕ × Session)
remove_addr [] addr = []
remove_addr ((a, s) ∷ rest) addr = if a == addr then rest else (a, s) ∷ remove_addr rest addr

-- `drawfs_open`, with the address of the new session.
unfoldable pub register : Registry → ℕ → Registry
register r addr = record r { sessions = r.sessions ++ ((addr, open_session) ∷ []) }

-- `drawfs_session_free` under the session's lock, and then the surfaces.
unfoldable pub drain : Session → Session
drain s = record s { closing = true; evq = []; evq_bytes = 0; inbuf = []; in_len = 0; in_cap = 0 }

unfoldable pub session_free : Registry → ℕ → Registry
session_free r addr = elim (at_addr r.sessions addr) [
  | none ↦ r
  | some s ↦ record {
    sessions = remove_addr r.sessions addr;
    kernel = (surfaces_free_all (record { session = drain s; kernel = r.kernel })).kernel;
  }
]

-- `drawfs_mmap_single`, for pointers that are not NULL and a session that is there.
unfoldable pub mmap_single :
    Tunables → (ℕ → Option ℕ) → (State → State) → State → ℕ → ℕ → VmobjResult
mmap_single t allocate meanwhile st offset size =
    if not t.mmap_enabled
    then (eperm, none, st)
    else if not (offset == 0)
    then (einval, none, st)
    else if size == 0
    then (einval, none, st)
    else get_vmobj allocate meanwhile st size

-- DRAWFSGIOC_MAP_SURFACE: the ioctl itself succeeds. The fields `status`, `stride_bytes` and
-- `bytes_total` of its argument are what the selection returns.
unfoldable pub map_surface : Session → ℕ → (ℕ × ℕ × ℕ) × Session
map_surface s surface_id = select_for_mmap s surface_id

-- DRAWFSGIOC_STATS
unfoldable pub report_stats : Session → Stats
report_stats s = record s.stats {
  inbuf_bytes = u32 s.in_len;
  evq_depth = u32 (length s.evq);
  evq_bytes = u32 s.evq_bytes;
  surfaces_count = s.surfaces_count;
  surfaces_bytes = s.surfaces_bytes;
}

-- DRAWFSGIOC_INJECT_INPUT: an errno, or the session that was found has gone by the time that its
-- address is used again.
pub data Injected : Type 0 where
  returns : (error : ℕ) → Registry → Injected
  uses_freed : (addr : ℕ) → Registry → Injected

unfoldable pub is_input_event : ℕ → Bool
is_input_event event_type =
    event_type == evt_key
    || event_type == evt_pointer
    || event_type == evt_scroll
    || event_type == evt_touch

-- The frame is sent once both locks are free.
unfoldable pub send_input : Tunables → Registry → ℕ → ℕ → List ℕ → Option Session → Injected
send_input t r addr event_type payload none = uses_freed addr r
send_input t r addr event_type payload (some s) =
    let (err, s') = send_reply t s event_type 0 payload in
    returns err (record r { sessions = set_addr r.sessions addr s' })

-- `meanwhile` is what other threads do between the search and the sending; `payload` is the array
-- of DRAWFS_INPUT_PAYLOAD_MAX bytes in the argument.
unfoldable pub inject_input :
    Tunables → (Registry → Registry) → Registry → ℕ → ℕ → List ℕ → Injected
inject_input t meanwhile r surface_id event_type payload =
    if not (is_input_event event_type)
    then returns einval r
    else elim (find_session r.sessions surface_id) [
      | none ↦ returns enoent r
      | some addr ↦
          send_input t (meanwhile r) addr event_type payload (at_addr (meanwhile r).sessions addr)
    ]
