-- ===== src/Inputfs/Attach.antt =====
-- Attaching and detaching a device in inputfs.c, as far as the state region and the event ring show
-- it: the parts of `inputfs_attach` and `inputfs_detach` under the module's lock. The clocks at the
-- publish are an argument.
pub mod Brackets
use awase.Base.{ℕ, ◌+◌, ◌*◌, ◌%◌, Bool, true, false, List, [], ◌∷◌, ◌==◌, if◌then◌else◌}
use awase.Base.Bytes.{put_le}
use awase.Base.Memory.{store_le}
use awase.Inputfs.Events.{InputEvent, Entry, Ring, publish}
use awase.Inputfs.State.{
  DeviceInfo, seqlock_step, put_device, clear_device, alloc_slot, release_slot, count_devices,
  advance_seq, no_state_slot,
}

-- The globals of the state region.
pub record Region : Type 0 where
  pub buf : List ℕ
  pub slot_used : ℕ
  pub seq : ℕ
  pub dirty : Bool

-- An event of the life of a device.
unfoldable pub lifecycle_event : ℕ → ℕ → List ℕ → InputEvent
lifecycle_event event_type slot payload = record {
  source_role = 6;
  event_type = event_type;
  device_slot = slot;
  flags = 0;
  payload = payload;
}

abbrev pub stamp : ℕ × ℕ → InputEvent → Entry
stamp (ts_ordering, ts_sync) ev = record {
  ts_ordering = ts_ordering;
  ts_sync = ts_sync;
  event = ev;
}

-- The update of the buffer for a device in a slot, once the bitmap has it.
unfoldable pub fill_slot : List ℕ → ℕ → ℕ → DeviceInfo → ℕ → ℕ → List ℕ
fill_slot buf used seq dev roles slot =
    let b1 = seqlock_step buf in
    let b2 = put_device b1 slot dev roles in
    let b3 = store_le 2 b2 44 (count_devices used) in
    let b4 = (advance_seq seq b3).1 in let b5 = seqlock_step b4 in store_le 1 b5 5 1

unfoldable pub empty_slot : List ℕ → ℕ → ℕ → ℕ → List ℕ
empty_slot buf used seq slot =
    let b1 = seqlock_step buf in
    let b2 = clear_device b1 slot in
    let b3 = store_le 2 b2 44 (count_devices used) in
    let b4 = (advance_seq seq b3).1 in seqlock_step b4

-- Gives the slot that the device keeps.
unfoldable pub attach_device : ℕ × ℕ → Region → Ring → DeviceInfo → ℕ → ℕ × Region × Ring
unfolding fill_slot lifecycle_event
attach_device clock region ring dev roles =
    let (slot, used) = alloc_slot region.slot_used in
    if slot == no_state_slot then (slot, record region { slot_used = used }, ring) else (
      slot,
      record {
        buf = fill_slot region.buf used region.seq dev roles slot;
        slot_used = used;
        seq = (advance_seq region.seq []).0;
        dirty = true;
      },
      publish ring (stamp clock (lifecycle_event 1 slot (put_le 4 roles))),
    )

unfoldable pub detach_device : ℕ × ℕ → Region → Ring → ℕ → ℕ × Region × Ring
unfolding empty_slot lifecycle_event
detach_device clock region ring slot =
    let used = release_slot region.slot_used slot in
    if slot == no_state_slot then (slot, region, ring) else (
      no_state_slot,
      record {
        buf = empty_slot region.buf used region.seq slot;
        slot_used = used;
        seq = (advance_seq region.seq []).0;
        dirty = true;
      },
      publish ring (stamp clock (lifecycle_event 2 slot [])),
    )
