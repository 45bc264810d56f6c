-- ===== src/Inputfs/Tests/States.antt =====
-- The state region of inputfs.c at concrete inputs, and the theorems applied there.
use awase.Inputfs.Attach.{Region}
use awase.Base.{
  ℕ, ◌+◌, ◌<◌, ◌≡◌, ◌≢◌, ◌⊎◌, refl, true, false, none, List, replicate, arith, inl, inr,
}
use awase.Base.Bytes.{get_u32, get_le, u32}
use awase.Inputfs.State.{
  state_size, Geom, DeviceInfo, update_pointer, alloc_slot, alloc_from, slot_bit, set_slot,
  release_slot, count_devices, no_state_slot,
}
use awase.Inputfs.State.Pointer.{Moves, Small, update_pointer-Moves}
use awase.Inputfs.State.Slots.{alloc_slot_cases}

-- The lowest slot that is free of those with slots 0, 1 and 3 taken.
allocates : alloc_slot 11 ≡ (2, 15)
unfolding alloc_slot alloc_from slot_bit set_slot
allocates = refl

alloc_slot_cases_example :
    let (slot, used') = alloc_slot 11 in
    (slot ≡ no_state_slot) × (used' ≡ 11) × ((j : ℕ) → j < 32 → slot_bit 11 j ≡ 1)
    ⊎ (slot < 32)
      × (slot_bit 11 slot ≡ 0)
      × ((j : ℕ) → j < slot → slot_bit 11 j ≡ 1)
      × (slot_bit used' slot ≡ 1)
      × ((j : ℕ) → slot ≢ j → slot_bit used' j ≡ slot_bit 11 j)
      × (count_devices used' ≡ count_devices 11 + 1)
      × (release_slot used' slot ≡ 11)
alloc_slot_cases_example = alloc_slot_cases 11

abbrev mouse : DeviceInfo
mouse = record { unit = 1; usb = none; desc = replicate 80 65 }

abbrev screen : Geom
screen = record { known = true; width = 640; height = 480 }

abbrev region : List ℕ
region = replicate 64 0

region-origin : (get_u32 region 32 < 640) × (get_u32 region 36 < 480)
unfolding get_u32 get_le
region-origin = (omega arith, omega arith)

deltas-Small : Small 1000 × Small 4294967291
unfolding Small
deltas-Small = (inl (omega arith), inr (omega arith, omega arith))

-- From the corner, 1000 to the right and 5 up: the pointer stops at the right edge, and stays at the top.
update_pointer-Moves_example :
    let (buf', actual_dx, actual_dy) = update_pointer screen region 1000 4294967291 1 in
    let x = get_u32 buf' 32 in
    let y = get_u32 buf' 36 in
    Moves 640 (get_u32 region 32) 1000 x
    × Moves 480 (get_u32 region 36) 4294967291 y
    × (x < 640)
    × (y < 480)
    × (u32 (get_u32 region 32 + actual_dx) ≡ x)
    × (u32 (get_u32 region 36 + actual_dy) ≡ y)
    × (get_u32 buf' 40 ≡ 1)
update_pointer-Moves_example =
    update_pointer-Moves screen region 1000 4294967291 1 (omega arith) refl (omega arith)
      (omega arith) region-origin.0 region-origin.1 deltas-Small.0 deltas-Small.1 (omega arith)

-- The region as it is when the module is loaded, but for the constants of its header.
abbrev loaded : Region
loaded = record { buf = replicate state_size 0; slot_used = 0; seq = 0; dirty = false }
