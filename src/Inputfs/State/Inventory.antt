-- ===== src/Inputfs/State/Inventory.antt =====
-- The device inventory of inputfs.c's state region: `inputfs_state_put_device` and
-- `inputfs_state_clear_device`.
use awase.Base.{
  ℕ, ◌+◌, ◌*◌, ◌%◌, ◌≤◌, inl, inr, Bool-cases, List, length, take, length-take, blit, arith, ltb,
  leb, if◌then◌else◌,
}
use awase.Base.Memory.{store_le, clear}
use awase.Base.Within.{
  Within, Within-refl, Within-trans, Within-store_le, Within-clear, blit-Within,
}
use awase.Inputfs.State.{DeviceInfo, put_device, clear_device, ids_or_zero}

write_device-Within :
    (buf : List ℕ) (base : ℕ) (dev : DeviceInfo) (roles vendor product : ℕ)
    → (let b1 = clear buf base 16 in
        let b2 = store_le 1 b1 base 1 in
        let b3 = store_le 1 b2 (base + 1) (dev.unit % 256) in
        let b4 = clear b3 (base + 16) 16 in
        let b5 = store_le 4 b4 (base + 32) roles in
        let b6 = store_le 2 b5 (base + 36) vendor in
        let b7 = store_le 2 b6 (base + 38) product in
        let b8 = clear b7 (base + 40) 64 in
        let len = length dev.desc in
        let b9 = blit b8 (base + 40) (take (if ltb 63 len then 63 else len) dev.desc) in
        Within base (base + 160) buf (clear b9 (base + 104) 56))
write_device-Within buf base dev roles vendor product =
    let hi : ℕ = base + 160 in
    let b1 : List ℕ = clear buf base 16 in
    let b2 : List ℕ = store_le 1 b1 base 1 in
    let b3 : List ℕ = store_le 1 b2 (base + 1) (dev.unit % 256) in
    let b4 : List ℕ = clear b3 (base + 16) 16 in
    let b5 : List ℕ = store_le 4 b4 (base + 32) roles in
    let b6 : List ℕ = store_le 2 b5 (base + 36) vendor in
    let b7 : List ℕ = store_le 2 b6 (base + 38) product in
    let b8 : List ℕ = clear b7 (base + 40) 64 in
    let n : ℕ = if ltb 63 (length dev.desc) then 63 else length dev.desc in
    let small : length (take n dev.desc) ≤ 63 = ground (arith, length-take n dev.desc) in
    let b9 : List ℕ = blit b8 (base + 40) (take n dev.desc) in
    let w1 =
      Within-clear base hi buf buf base 16 (omega arith) (omega arith) (Within-refl base hi buf) in
    let w2 = Within-store_le base hi 1 buf b1 base 1 (omega arith) (omega arith) w1 in
    let w3 =
      Within-store_le base hi 1 buf b2 (base + 1) (dev.unit % 256) (omega arith) (omega arith) w2 in
    let w4 = Within-clear base hi buf b3 (base + 16) 16 (omega arith) (omega arith) w3 in
    let w5 = Within-store_le base hi 4 buf b4 (base + 32) roles (omega arith) (omega arith) w4 in
    let w6 = Within-store_le base hi 2 buf b5 (base + 36) vendor (omega arith) (omega arith) w5 in
    let w7 = Within-store_le base hi 2 buf b6 (base + 38) product (omega arith) (omega arith) w6 in
    let w8 = Within-clear base hi buf b7 (base + 40) 64 (omega arith) (omega arith) w7 in
    let w9 =
      Within-trans base hi buf b8 b9 w8
        (blit-Within base hi b8 (base + 40) (take n dev.desc) (omega arith) (omega arith)) in
    Within-clear base hi buf b9 (base + 104) 56 (omega arith) (omega arith) w9

-- Whatever slot is named, describing a device in it touches nothing outside of the 160 bytes of that
-- slot, however long the description is; nor does clearing it.
pub put_device-Within :
    (buf : List ℕ) (slot : ℕ) (dev : DeviceInfo) (roles : ℕ)
    → Within (64 + slot * 160) (64 + slot * 160 + 160) buf (put_device buf slot dev roles)
unfolding put_device
put_device-Within buf slot dev roles =
    let base : ℕ = 64 + slot * 160 in
    elim (Bool-cases (leb 32 slot)) [
      | inl t ↦ rw t (Within-refl base (base + 160) buf)
      | inr f ↦
          rw f
            (write_device-Within buf base dev roles (ids_or_zero dev.usb).0 (ids_or_zero dev.usb).1)
    ]

pub clear_device-Within :
    (buf : List ℕ) (slot : ℕ)
    → Within (64 + slot * 160) (64 + slot * 160 + 160) buf (clear_device buf slot)
unfolding clear_device
clear_device-Within buf slot =
    let base : ℕ = 64 + slot * 160 in
    let hi : ℕ = base + 160 in
    elim (Bool-cases (leb 32 slot)) [
      | inl t ↦ rw t (Within-refl base hi buf)
      | inr f ↦ rw f (
          Within-clear base hi buf buf base 160 (omega arith) (omega arith)
            (Within-refl base hi buf))
    ]
