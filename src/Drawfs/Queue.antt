-- ===== src/Drawfs/Queue.antt =====
-- The outbound queue of a session in drawfs.c: `drawfs_enqueue_event`,
-- `drawfs_try_coalesce_presented`, `drawfs_read` and `drawfs_poll`.
pub mod Accounting
pub mod Outbox
pub mod Coalescing
use Prim.Native.Nat.{bit_and, bit_or}
use mathlib.Core.Option
use awase.Base.{
  ℕ, ◌+◌, ◌-◌, ◌%◌, ◌^◌, List, [], ◌∷◌, ◌++◌, Option, none, some, Bool, true, false, not, ◌&&◌, ltb,
  ◌==◌, if◌then◌else◌, drop, blit,
}
use awase.Base.Bytes.{u64, put_le, get_u32}
use awase.Drawfs.Proto.{
  read_msg_hdr, frame_hdr_size, msg_hdr_size, evt_surface_presented, max_event_bytes,
}
use awase.Drawfs.Session.{
  Session, Event, Tunables, count_dropped, enoent, enxio, efbig, enospc, ewouldblock,
}

append_event : Session → Event → Session
append_event s ev = record s {
  evq = s.evq ++ (ev ∷ []);
  evq_bytes = u64 (s.evq_bytes + ev.len);
  stats = record s.stats {
    events_enqueued = u64 (s.stats.events_enqueued + 1);
    bytes_out = u64 (s.stats.bytes_out + ev.len);
  };
}

unfoldable pub enqueue_event : Tunables → Session → List ℕ → ℕ → ℕ × Session
unfolding append_event
enqueue_event t s buf len =
    if len == 0
    then (0, s)
    else if ltb max_event_bytes len
    then (efbig, s)
    else if ltb t.max_evq_bytes (u64 (s.evq_bytes + len))
    then (enospc, count_dropped s)
    else if s.closing
    then (enxio, count_dropped s)
    else (0, append_event s (record { len = len; bytes = buf }))

-- Whether the loop of `drawfs_try_coalesce_presented` stops at an event.
unfoldable pub is_presented : Event → ℕ → Bool
is_presented ev surface_id =
    not (ltb ev.len (frame_hdr_size + msg_hdr_size + 16))
    && ((read_msg_hdr (drop frame_hdr_size ev.bytes)).msg_type == evt_surface_presented)
    && (get_u32 (drop (frame_hdr_size + msg_hdr_size) ev.bytes) 0 == surface_id)

-- The `memcpy` of the new cookie.
unfoldable pub set_cookie : Event → ℕ → Event
set_cookie ev cookie = record ev {
  bytes = blit ev.bytes (frame_hdr_size + msg_hdr_size + 8) (put_le 8 cookie);
}

-- The loop over the queue: the queue with the first such event changed, if there is one.
unfoldable pub coalesce_in : List Event → ℕ → ℕ → Option (List Event)
coalesce_in [] surface_id cookie = none
coalesce_in (ev ∷ q) surface_id cookie =
    if is_presented ev surface_id
    then some (set_cookie ev cookie ∷ q)
    else Option.map (◌∷◌ ev) (coalesce_in q surface_id cookie)

unfoldable pub try_coalesce_presented : Tunables → Session → ℕ → ℕ → ℕ × Session
try_coalesce_presented t s surface_id new_cookie =
    if not t.coalesce_events then (enoent, s) else elim (coalesce_in s.evq surface_id new_cookie) [
      | none ↦ (enoent, s)
      | some q ↦ (0, record s { evq = q })
    ]

-- One round of the loop of `drawfs_read` under the lock: an error, a wait for the condition
-- variable, or the event that is taken off the queue. The copy to the reader comes after it.
pub data ReadRound : Type 0 where
  fails : (error : ℕ) → ReadRound
  waits : ReadRound
  takes : Event → Session → ReadRound

read_queue : Session → List Event → Bool → ReadRound
read_queue s [] nonblock = if nonblock then fails ewouldblock else waits
read_queue s (ev ∷ q) nonblock =
    takes ev (record s { evq = q; evq_bytes = (2 ^ 64 + s.evq_bytes - ev.len) % 2 ^ 64 })

unfoldable pub read_round : Session → Bool → ReadRound
unfolding read_queue
read_round s nonblock = if s.closing then fails enxio else read_queue s s.evq nonblock

-- `drawfs_poll`, with the bits of <poll.h> and the mask that is asked for: what it returns, and
-- whether it records the thread to be woken.
abbrev pub pollin_rdnorm : ℕ
pollin_rdnorm = 0x41

abbrev pub pollhup : ℕ
pollhup = 0x10

abbrev pub pollerr_hup : ℕ
pollerr_hup = 0x18

poll_queue : List Event → ℕ → ℕ × Bool
poll_queue [] events = (0, not (bit_and events pollin_rdnorm == 0))
poll_queue (ev ∷ q) events = (bit_and events pollin_rdnorm, false)

pub poll : Session → ℕ → ℕ × Bool
unfolding poll_queue
poll s events =
    if s.closing
    then (if bit_and events pollerr_hup == 0 then pollhup else bit_and events pollerr_hup, false)
    else poll_queue s.evq events
