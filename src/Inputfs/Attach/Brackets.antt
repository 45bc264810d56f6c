-- ===== src/Inputfs/Attach/Brackets.antt =====
-- What attaching and detaching a device leave in the header of inputfs.c's state region.
use awase.Base.{
  ℕ, ◌+◌, ◌*◌, ◌^◌, ◌≤◌, ◌<◌, ◌≡◌, ◌≢◌, refl, ◌∙◌, inl, inr, false, List, [], ◌∷◌, length, drop,
  length-blit, arith, ◌==◌,
}
use awase.Base.Bytes.{put_le, get_le, get_u16, get_u32, u32, u64, length-put_le}
use awase.Base.Memory.{store_le, get_le-store_le, get_le-blit_disjoint}
use awase.Base.Within.{Within, get_le-Within, length-Within}
use awase.Inputfs.Events.{Entry, Ring}
use awase.Inputfs.Events.Publishing.{Shows, publish-Shows}
use awase.Inputfs.State.{
  seqlock_step, clear_device, release_slot, count_devices, advance_seq, no_state_slot, slot_bit,
}
use awase.Inputfs.State.Inventory.{clear_device-Within}
use awase.Inputfs.Attach.{Region, empty_slot, detach_device, lifecycle_event, stamp}

length-store : (k : ℕ) (buf : List ℕ) (off v : ℕ) → length (store_le k buf off v) ≡ length buf
length-store k buf off v = length-blit buf off (put_le k v)

-- The header after an update of the inventory between two steps of the seqlock.
bracket_header :
    (buf b2 : List ℕ) (slot count seq : ℕ)
    → 64 ≤ length buf
    → Within (64 + slot * 160) (64 + slot * 160 + 160) (seqlock_step buf) b2
    → count < 2 ^ 16
    → seq < 2 ^ 64
    → (let b5 = seqlock_step (store_le 8 (store_le 2 b2 44 count) 16 seq) in
        (get_u32 b5 8 ≡ u32 (get_u32 buf 8 + 2))
        × (get_u16 b5 44 ≡ count)
        × (length b5 ≡ length buf))
unfolding seqlock_step get_u32 get_u16
bracket_header buf b2 slot count seq room w hc hs =
    let s1 : ℕ = u32 (get_u32 buf 8 + 1) in
    let b1 : List ℕ = store_le 4 buf 8 s1 in
    let b3 : List ℕ = store_le 2 b2 44 count in
    let b4 : List ℕ = store_le 8 b3 16 seq in
    let s5 : ℕ = u32 (get_u32 b4 8 + 1) in
    let b5 : List ℕ = store_le 4 b4 8 s5 in
    let l2 : length b2 ≡ length b1 =
      length-Within (64 + slot * 160) (64 + slot * 160 + 160) b1 b2 w in
    let l1 : length b1 ≡ length buf = length-store 4 buf 8 s1 in
    let l3 : length b3 ≡ length b2 = length-store 2 b2 44 count in
    let l4 : length b4 ≡ length b3 = length-store 8 b3 16 seq in
    let l5 : length b5 ≡ length b4 = length-store 4 b4 8 s5 in
    let pc : length (put_le 2 count) ≡ 2 = length-put_le 2 count in
    let ps : length (put_le 8 seq) ≡ 8 = length-put_le 8 seq in
    let p5 : length (put_le 4 s5) ≡ 4 = length-put_le 4 s5 in
    let first : get_le 4 (drop 8 b4) ≡ s1 =
      get_le-blit_disjoint 4 8 b3 16 (put_le 8 seq) (inr (omega arith))
      ∙ get_le-blit_disjoint 4 8 b2 44 (put_le 2 count) (inr (omega arith))
      ∙ get_le-Within (64 + slot * 160) (64 + slot * 160 + 160) 4 8 b1 b2 w (inl (omega arith))
      ∙ get_le-store_le 4 buf 8 s1 (omega arith) (omega arith) in
    let second : get_le 4 (drop 8 b5) ≡ s5 =
      get_le-store_le 4 b4 8 s5 (omega arith) (omega arith) in
    (
      second ∙ omega (arith, first),
      get_le-blit_disjoint 2 44 b4 8 (put_le 4 s5) (inl (omega arith))
          ∙ get_le-blit_disjoint 2 44 b3 16 (put_le 8 seq) (inl (omega arith))
          ∙ get_le-store_le 2 b2 44 count (omega arith) (omega arith),
      l5 ∙ l4 ∙ l3 ∙ l2 ∙ l1,
    )

count_devices-bound : (used : ℕ) → count_devices used < 2 ^ 16
unfolding count_devices
count_devices-bound used = omega arith

-- A device that gets no slot: all are taken, and nothing changes.
pub record Refuses (region region' : Region) (ring ring' : Ring) (slot : ℕ) : Type 0 where
  no_slot : slot ≡ 0xFF
  full : (j : ℕ) → j < 32 → slot_bit region.slot_used j ≡ 1
  buf : region'.buf ≡ region.buf
  used : region'.slot_used ≡ region.slot_used
  same_ring : ring' ≡ ring

-- A device that gets the lowest free slot.
pub record Gives (region region' : Region) (slot : ℕ) : Type 0 where
  below : slot < 32
  free : slot_bit region.slot_used slot ≡ 0
  lowest : (j : ℕ) → j < slot → slot_bit region.slot_used j ≡ 1
  taken : slot_bit region'.slot_used slot ≡ 1
  others : (j : ℕ) → slot ≢ j → slot_bit region'.slot_used j ≡ slot_bit region.slot_used j
  lock : get_u32 region'.buf 8 ≡ u32 (get_u32 region.buf 8 + 2)
  count : get_u16 region'.buf 44 ≡ count_devices region.slot_used + 1
  mark : get_le 1 (drop 5 region'.buf) ≡ 1

-- The event of an attachment: role 6, type 1, the slot, and the roles of the device.
abbrev pub attachment : ℕ × ℕ → ℕ → ℕ → Entry
attachment (ts_ordering, ts_sync) slot roles = record {
  ts_ordering = ts_ordering;
  ts_sync = ts_sync;
  event = record {
    source_role = 6;
    event_type = 1;
    device_slot = slot;
    flags = 0;
    payload = put_le 4 roles;
  };
}

-- Detaching a device moves the seqlock by two as well, counts the devices that are left, and shows an
-- event with the slot that the device had.
pub detach_device_header :
    (clock : ℕ × ℕ) (region : Region) (ring : Ring) (slot : ℕ) (log : List Entry)
    → 64 ≤ length region.buf
    → length log + 1 < 2 ^ 64
    → slot < 32
    → Shows log ring
    → (let (slot', region', ring') = detach_device clock region ring slot in
        (slot' ≡ no_state_slot)
        × (get_u32 region'.buf 8 ≡ u32 (get_u32 region.buf 8 + 2))
        × (get_u16 region'.buf 44 ≡ count_devices (release_slot region.slot_used slot))
        × Shows (stamp clock (lifecycle_event 2 slot []) ∷ log) ring')
unfolding detach_device empty_slot advance_seq
detach_device_header clock region ring slot log room small inside h =
    let used : ℕ = release_slot region.slot_used slot in
    let given : (slot == no_state_slot) ≡ false = ground arith in
    let b1 : List ℕ = seqlock_step region.buf in
    let b2 : List ℕ = clear_device b1 slot in
    let (lock, count, same) =
      bracket_header region.buf b2 slot (count_devices used) (u64 (region.seq + 1)) room
        (clear_device-Within b1 slot) (count_devices-bound used) (omega arith) in
    rw given
      (refl, lock, count, publish-Shows log ring (stamp clock (lifecycle_event 2 slot [])) small h)
