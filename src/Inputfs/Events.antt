-- ===== src/Inputfs/Events.antt =====
-- The event ring of inputfs.c: `inputfs_events_init_buf` and `inputfs_events_publish`, and the
-- filter by which a kqueue watches it. The buffer has a header of 64 bytes (magic at 0, version 4,
-- valid 5, event size 6, slot count 8, writer_seq 16, earliest_seq 24) and 1024 slots of 64 bytes
-- (seq at 0, ts_ordering 8, ts_sync 16, device slot 24, source role 26, event type 27, flags 28,
-- payload 32). The two clocks that a slot records are arguments.
pub mod Slots
pub mod Window
pub mod Stores
pub mod Publishing
use awase.Base.{
  ℕ, zero, suc, ◌+◌, ◌-◌, ◌*◌, ◌%◌, ◌^◌, ◌≤◌, ◌<◌, Bool, true, false, Option, none, some, List, [],
  ◌∷◌, ◌++◌, length, take, replicate, blit, All, ltb, if◌then◌else◌,
}
use awase.Base.Bytes.{put_le, get_u64, u64}
use awase.Base.Memory.{store_le, clear}

abbrev pub events_slot_size : ℕ
events_slot_size = 64

abbrev pub events_slot_count : ℕ
events_slot_count = 1024

abbrev pub events_size : ℕ
events_size = 64 + events_slot_count * events_slot_size

-- The arguments of a publish. No payload is an empty one.
pub record InputEvent : Type 0 where
  pub source_role : ℕ
  pub event_type : ℕ
  pub device_slot : ℕ
  pub flags : ℕ
  pub payload : List ℕ

-- An event with the clocks at its publish: the uptime in nanoseconds and the audio sample.
pub record Entry : Type 0 where
  pub ts_ordering : ℕ
  pub ts_sync : ℕ
  pub event : InputEvent

-- The ring's globals; `wakes` counts the wakeups of the pollers.
pub record Ring : Type 0 where
  pub buf : List ℕ
  pub writer_seq : ℕ
  pub dirty : Bool
  pub wakes : ℕ

unfoldable pub write_header : List ℕ → List ℕ
write_header b0 =
    let b1 = store_le 4 b0 0 0x494E5645 in
    let b2 = store_le 1 b1 4 1 in
    let b3 = store_le 1 b2 5 0 in
    let b4 = store_le 2 b3 6 events_slot_size in
    let b5 = store_le 4 b4 8 events_slot_count in let b6 = store_le 8 b5 16 0 in store_le 8 b6 24 1

unfoldable pub init_events_buf : List ℕ
unfolding write_header
init_events_buf = write_header (replicate events_size 0)

-- The ring once the module is loaded.
abbrev pub init_ring : Ring
init_ring = record { buf = init_events_buf; writer_seq = 0; dirty = false; wakes = 0 }

unfoldable pub slot_base : ℕ → ℕ
slot_base seq = 64 + seq % events_slot_count * events_slot_size

-- The payload field: cleared, then filled with at most 32 bytes.
unfoldable pub write_payload : List ℕ → ℕ → List ℕ → List ℕ
write_payload buf off payload =
    let len = length payload in
    let b = clear buf off 32 in
    if ltb 0 len then blit b off (take (if ltb 32 len then 32 else len) payload) else b

-- The fields of a slot behind its sequence number.
unfoldable pub write_body : List ℕ → ℕ → Entry → List ℕ
unfolding write_payload
write_body buf base entry =
    let ev = entry.event in
    let b1 = store_le 8 buf (base + 8) entry.ts_ordering in
    let b2 = store_le 8 b1 (base + 16) entry.ts_sync in
    let b3 = store_le 2 b2 (base + 24) ev.device_slot in
    let b4 = store_le 1 b3 (base + 26) ev.source_role in
    let b5 = store_le 1 b4 (base + 27) ev.event_type in
    let b6 = store_le 4 b5 (base + 28) ev.flags in write_payload b6 (base + 32) ev.payload

unfoldable pub advance_header : List ℕ → ℕ → List ℕ
advance_header buf new_seq =
    let b1 = store_le 8 buf 16 new_seq in
    if ltb events_slot_count new_seq then store_le 8 b1 24 (new_seq - events_slot_count + 1) else b1

unfoldable pub publish : Ring → Entry → Ring
unfolding slot_base write_body write_payload advance_header
publish ring entry =
    let new_seq = u64 (ring.writer_seq + 1) in
    let base = slot_base new_seq in
    let b1 = store_le 8 ring.buf base 0 in
    let b2 = write_body b1 base entry in
    let b3 = store_le 8 b2 base new_seq in
    record {
      buf = advance_header b3 new_seq;
      writer_seq = new_seq;
      dirty = true;
      wakes = ring.wakes + 1;
    }

unfoldable pub publish_all : Ring → List Entry → Ring
unfolding publish
publish_all ring [] = ring
publish_all ring (entry ∷ entries) = publish_all (publish ring entry) entries

-- `inputfs_notify_kqfilter` refuses other filters than for reading, and remembers the writer's
-- position; the knote is ready once that has moved.
unfoldable pub kqfilter : Ring → Bool → Option ℕ
kqfilter ring is_evfilt_read = if is_evfilt_read then some (get_u64 ring.buf 16) else none

unfoldable pub filt_event : Ring → ℕ → Bool
filt_event ring kn_data = ltb kn_data (get_u64 ring.buf 16)
