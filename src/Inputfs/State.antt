-- ===== src/Inputfs/State.antt =====
-- The state region of inputfs.c: the bitmap of device slots, the device inventory and the pointer.
-- The buffer has a header of 64 bytes (magic at 0, version 4, valid 5, slot count 6, seqlock 8,
-- last sequence 16, boot offset 24, pointer x 32, y 36, buttons 40, device count 44, touch count 46,
-- transform active 48), 32 device slots of 160 bytes, 32 keyboard slots of 64 and 32 touch slots of
-- 128. An `int32_t` is its bit pattern.
pub mod Slots
pub mod Pointer
pub mod Inventory
use awase.Base.{
  ℕ, zero, suc, ◌+◌, ◌-◌, ◌*◌, ◌/◌, ◌%◌, ◌^◌, Bool, true, false, not, Option, none, some, List, [],
  ◌∷◌, ◌++◌, length, take, replicate, blit, ltb, leb, ◌==◌, if◌then◌else◌,
}
use awase.Base.Bytes.{get_u32, u16, u32, u64}
use awase.Base.Memory.{store_le, clear}

abbrev pub state_slot_count : ℕ
state_slot_count = 32

abbrev pub dev_slot_size : ℕ
dev_slot_size = 160

abbrev pub state_size : ℕ
state_size = 64 + 32 * 160 + 32 * 64 + 32 * 128

abbrev pub no_state_slot : ℕ
no_state_slot = 0xFF

unfoldable pub init_fields : List ℕ → List ℕ
init_fields b0 =
    let b1 = store_le 4 b0 0 0x494E5354 in
    let b2 = store_le 1 b1 4 1 in
    let b3 = store_le 1 b2 5 0 in
    let b4 = store_le 2 b3 6 state_slot_count in
    let b5 = store_le 4 b4 8 0 in let b6 = store_le 8 b5 16 0 in store_le 8 b6 24 0

unfoldable pub init_state_buf : List ℕ
unfolding init_fields
init_state_buf = init_fields (replicate state_size 0)

-- `inputfs_state_seqlock_begin` and `inputfs_state_seqlock_end`, which are the same.
unfoldable pub seqlock_step : List ℕ → List ℕ
seqlock_step buf = store_le 4 buf 8 (u32 (get_u32 buf 8 + 1))

-- A bit of the bitmap, and the bitmap with a bit set or cleared.
unfoldable pub slot_bit : ℕ → ℕ → ℕ
slot_bit mask zero = mask % 2
slot_bit mask (suc i) = slot_bit (mask / 2) i

unfoldable pub set_slot : ℕ → ℕ → ℕ
unfolding slot_bit
set_slot mask i = if slot_bit mask i == 0 then mask + 2 ^ i else mask

unfoldable pub clear_slot : ℕ → ℕ → ℕ
unfolding slot_bit
clear_slot mask i = if slot_bit mask i == 0 then mask else mask - 2 ^ i

-- The loop from slot `i` on, with `n` slots to go; gives the slot and the bitmap.
unfoldable pub alloc_from : ℕ → ℕ → ℕ → ℕ × ℕ
unfolding slot_bit set_slot
alloc_from used i zero = (no_state_slot, used)
alloc_from used i (suc n) =
    let rest = alloc_from used (i + 1) n in
    if slot_bit used i == 0 then (i, set_slot used i) else rest

unfoldable pub alloc_slot : ℕ → ℕ × ℕ
unfolding alloc_from
alloc_slot used = alloc_from used 0 state_slot_count

unfoldable pub release_slot : ℕ → ℕ → ℕ
unfolding clear_slot
release_slot used slot = if ltb slot state_slot_count then clear_slot used slot else used

-- The loop `while (mask)`, which ends within 32 rounds.
unfoldable pub count_bits : ℕ → ℕ → ℕ
count_bits zero mask = 0
count_bits (suc fuel) mask =
    let rest = count_bits fuel (mask / 2) in if mask == 0 then 0 else mask % 2 + rest

unfoldable pub count_devices : ℕ → ℕ
unfolding count_bits
count_devices used = u16 (count_bits 32 used)

-- What the kernel says of a device: its unit, its ids where it knows them, and its description.
pub record DeviceInfo : Type 0 where
  pub unit : ℕ
  pub usb : Option (ℕ × ℕ)
  pub desc : List ℕ

unfoldable pub ids_or_zero : Option (ℕ × ℕ) → ℕ × ℕ
ids_or_zero none = (0, 0)
ids_or_zero (some ids) = ids

unfoldable pub put_device : List ℕ → ℕ → DeviceInfo → ℕ → List ℕ
unfolding ids_or_zero
put_device buf slot dev roles =
    let base = 64 + slot * dev_slot_size in
    let (vendor, product) = ids_or_zero dev.usb in
    let b1 = clear buf base 16 in
    let b2 = store_le 1 b1 base 1 in
    let b3 = store_le 1 b2 (base + 1) (dev.unit % 256) in
    let b4 = clear b3 (base + 16) 16 in
    let b5 = store_le 4 b4 (base + 32) roles in
    let b6 = store_le 2 b5 (base + 36) vendor in
    let b7 = store_le 2 b6 (base + 38) product in
    let b8 = clear b7 (base + 40) 64 in
    let len = length dev.desc in
    let b9 = blit b8 (base + 40) (take (if ltb 63 len then 63 else len) dev.desc) in
    let b10 = clear b9 (base + 104) 56 in if leb state_slot_count slot then buf else b10

unfoldable pub clear_device : List ℕ → ℕ → List ℕ
clear_device buf slot =
    if leb state_slot_count slot then buf else clear buf (64 + slot * dev_slot_size) dev_slot_size

-- `inputfs_geom_known`, `inputfs_geom_width` and `inputfs_geom_height`.
pub record Geom : Type 0 where
  pub known : Bool
  pub width : ℕ
  pub height : ℕ

-- The sum of a position and a delta, kept on the screen where its size is known.
unfoldable pub clamp : Bool → ℕ → ℕ → ℕ
clamp known size new =
    if not known
    then new
    else if leb (2 ^ 31) new
    then 0
    else if leb size new
    then u32 (size + 2 ^ 32 - 1)
    else new

-- The buffer, and the deltas that took place.
unfoldable pub update_pointer : Geom → List ℕ → ℕ → ℕ → ℕ → List ℕ × ℕ × ℕ
unfolding clamp
update_pointer geom buf dx dy buttons =
    let cur_x = get_u32 buf 32 in
    let cur_y = get_u32 buf 36 in
    let new_x = clamp geom.known geom.width (u32 (cur_x + dx)) in
    let new_y = clamp geom.known geom.height (u32 (cur_y + dy)) in
    let b1 = store_le 4 buf 32 new_x in
    let b2 = store_le 4 b1 36 new_y in
    let b3 = store_le 4 b2 40 buttons in
    (b3, u32 (new_x + 2 ^ 32 - cur_x), u32 (new_y + 2 ^ 32 - cur_y))

unfoldable pub apply_geom : Geom → List ℕ → List ℕ
apply_geom geom buf =
    let b1 = store_le 1 buf 48 1 in
    let b2 = store_le 4 b1 32 (geom.width / 2) in
    let b3 = store_le 4 b2 36 (geom.height / 2) in if geom.known then b3 else store_le 1 buf 48 0

-- `inputfs_state_seq` and the buffer.
unfoldable pub advance_seq : ℕ → List ℕ → ℕ × List ℕ
advance_seq state_seq buf = let seq = u64 (state_seq + 1) in (seq, store_le 8 buf 16 seq)
