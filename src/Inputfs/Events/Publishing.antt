-- ===== src/Inputfs/Events/Publishing.antt =====
-- The event ring of inputfs.c against the log of what was published.
use awase.Base.{
  some, true, ℕ, suc, ◌+◌, ◌-◌, ◌^◌, ◌≤◌, ◌<◌, ◌≡◌, refl, ◌∙◌, inl, inr, List, [], ◌∷◌, length,
  replicate, arith, ltb, length-replicate,
}
use awase.Base.Bytes.{get_u64, u64}
use awase.Base.Memory.{store_le}
use awase.Base.Within.{Within, length-Within, get_le-Within}
use awase.Inputfs.Events.{
  Entry, Ring, publish, publish_all, init_ring, init_events_buf, write_body, advance_header,
  slot_base, events_size,
}
use awase.Inputfs.Events.Slots.{slot_base-bound}
use awase.Inputfs.Events.Window.{
  Retained, InSlot-Within, Retained-slot, Retained-header, Retained-fewer,
}
use awase.Inputfs.Events.Stores.{
  advance_header-Within, advance_header-fields, write_header-fields, slot-InSlot,
}
use awase.Inputfs.Events.{kqfilter, filt_event}

-- The ring shows a log: how long it is, which entry is the oldest kept, and the newest 1024.
unfoldable pub Shows : List Entry → Ring → Type 0
unfolding Retained
Shows log ring =
    (length ring.buf ≡ events_size)
    × (ring.writer_seq ≡ length log)
    × (get_u64 ring.buf 16 ≡ length log)
    × (get_u64 ring.buf 24 ≡ length log - 1024 + 1)
    × Retained 1024 log ring.buf

-- A publish adds its entry to the log, as long as the sequence numbers do not wrap.
pub publish-Shows :
    (log : List Entry) (ring : Ring) (entry : Entry)
    → length log + 1 < 2 ^ 64
    → Shows log ring
    → Shows (entry ∷ log) (publish ring entry)
unfolding publish Shows get_u64
publish-Shows log ring entry small (room, count, wrote, earliest, kept) =
    let n : ℕ = length log in
    let seq : ℕ = suc n in
    let next : u64 (ring.writer_seq + 1) ≡ seq = omega arith in
    let base : ℕ = slot_base seq in
    let bound : (64 ≤ base) × (base + 64 ≤ events_size) = slot_base-bound seq in
    let b3 : List ℕ = store_le 8 (write_body (store_le 8 ring.buf base 0) base entry) base seq in
    let b4 : List ℕ = advance_header b3 seq in
    let (w3, here) = slot-InSlot ring.buf seq entry room (omega arith) in
    let w4 : Within 0 64 b3 b4 = advance_header-Within b3 seq in
    let l3 : length b3 ≡ length ring.buf = length-Within base (base + 64) ring.buf b3 w3 in
    let l4 : length b4 ≡ length b3 = length-Within 0 64 b3 b4 w4 in
    let old : get_u64 b3 24 ≡ get_u64 ring.buf 24 =
      get_le-Within base (base + 64) 8 24 ring.buf b3 w3 (inl (omega arith)) in
    let (now16, now24) = advance_header-fields b3 n (omega arith) (omega arith) (old ∙ earliest) in
    let others : Retained 1023 log ring.buf = Retained-fewer 1023 log ring.buf kept in
    rw next (
      l4 ∙ l3 ∙ room,
      refl,
      now16,
      now24,
      (
        InSlot-Within 0 64 b3 b4 seq entry (inr bound.0) w4 here,
        Retained-header 1023 log b3 b4 w4
            (Retained-slot 1023 log seq ring.buf b3 (omega arith) (omega arith) w3 others),
      ),
    )

-- The ring after a list of publishes, newest first.
unfoldable pub logged : List Entry → List Entry → List Entry
logged log [] = log
logged log (entry ∷ entries) = logged (entry ∷ log) entries

length-logged :
    (log entries : List Entry) → length (logged log entries) ≡ length log + length entries
unfolding logged
length-logged log [] = omega arith
length-logged log (entry ∷ entries) = omega (arith, length-logged (entry ∷ log) entries)

pub init_ring-Shows : Shows [] init_ring
unfolding Shows init_events_buf
init_ring-Shows =
    let b0 : List ℕ = replicate events_size 0 in
    let room : length b0 ≡ events_size = length-replicate {A = ℕ} events_size 0 in
    let (kept, f16, f24) = write_header-fields b0 (omega arith) in (kept ∙ room, refl, f16, f24, tt)

publish_all-Shows_from :
    (entries log : List Entry) (ring : Ring)
    → length log + length entries < 2 ^ 64
    → Shows log ring
    → Shows (logged log entries) (publish_all ring entries)
unfolding publish_all logged
publish_all-Shows_from [] log ring small h = h
publish_all-Shows_from (entry ∷ entries) log ring small h =
    publish_all-Shows_from entries (entry ∷ log) (publish ring entry) (omega arith)
      (publish-Shows log ring entry (omega arith) h)

-- From the start, any fewer than 2 ^ 64 publishes leave a ring that shows them: its header counts
-- them and names the oldest that is kept, and each of the newest 1024 is in the slot of its number
-- with that number and with the documented bytes of its clocks, its fields and its payload.
pub publish_all-Shows :
    (entries : List Entry)
    → length entries < 2 ^ 64
    → Shows (logged [] entries) (publish_all init_ring entries)
publish_all-Shows entries small =
    publish_all-Shows_from entries [] init_ring (omega arith) init_ring-Shows

moved : (m n : ℕ) → ltb m (m + n) ≡ ltb 0 n
moved m n = ground arith

-- A knote is ready exactly when something was published after it was attached.
pub filt_event-publish_all :
    (log : List Entry) (ring : Ring) (entries : List Entry)
    → length log + length entries < 2 ^ 64
    → Shows log ring
    → (kn_data : ℕ) → kqfilter ring true ≡ some kn_data
    → filt_event (publish_all ring entries) kn_data ≡ ltb 0 (length entries)
unfolding filt_event kqfilter Shows
filt_event-publish_all log ring entries small h kn_data attached =
    let (room0, count0, seen, earliest0, rest0) = h in
    let (room, count, now, earliest, rest) = publish_all-Shows_from entries log ring small h in
    let e : get_u64 (publish_all ring entries).buf 16 ≡ length log + length entries =
      now ∙ length-logged log entries in
    let start : kn_data ≡ length log = ground (arith, attached, seen) in
    rw (start, e) (moved (length log) (length entries))

pub Shows-count : (log : List Entry) (ring : Ring) → Shows log ring → ring.writer_seq ≡ length log
unfolding Shows
Shows-count log ring (room, count, seen, earliest, kept) = count
