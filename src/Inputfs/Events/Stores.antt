-- ===== src/Inputfs/Events/Stores.antt =====
-- Where the stores of `inputfs_events_publish` go, and what they leave in the header and in a slot.
use awase.Base.{
  ℕ, suc, ◌+◌, ◌-◌, ◌^◌, ◌≤◌, ◌<◌, ◌≡◌, ◌∙◌, Bool-cases, inl, inr, List, length, take, replicate,
  blit, arith, ltb, length-take, if◌then◌else◌,
}
use awase.Base.Bytes.{put_le, get_u64, length-put_le}
use awase.Base.Memory.{store_le, get_le-store_le, clear, get_le-blit_disjoint, slice-blit_before}
use awase.Base.Within.{
  Within, Within-trans, Within-store_le, length-Within, Within-weaken, blit-Within, store_le-Within,
}
use awase.Inputfs.Events.{
  Entry, write_header, write_body, write_payload, advance_header, slot_base, events_size,
}
use awase.Inputfs.Events.Slots.{slice-write_body, slot_base-bound, length-store_le}
use awase.Inputfs.Events.Window.{InSlot}

-- The stores of a publish, by where they go.
write_payload-Within :
    (buf : List ℕ) (off : ℕ) (payload : List ℕ)
    → Within off (off + 32) buf (write_payload buf off payload)
unfolding write_payload
write_payload-Within buf off payload =
    let b : List ℕ = clear buf off 32 in
    let cleared : Within off (off + 32) buf b =
      blit-Within off (off + 32) buf off (replicate 32 0) (omega arith) (omega arith) in
    elim (Bool-cases (ltb 0 (length payload))) [
      | inr f ↦ rw f cleared
      | inl t ↦
          let n : ℕ = if ltb 32 (length payload) then 32 else length payload in
          let small : length (take n payload) ≤ 32 = ground (arith, length-take n payload) in
          rw t (
            Within-trans off (off + 32) buf b (blit b off (take n payload)) cleared
              (blit-Within off (off + 32) b off (take n payload) (omega arith) (omega arith)))
    ]

pub write_body-Within :
    (buf : List ℕ) (base : ℕ) (entry : Entry)
    → Within (base + 8) (base + 64) buf (write_body buf base entry)
unfolding write_body
write_body-Within buf base entry =
    let lo : ℕ = base + 8 in
    let hi : ℕ = base + 64 in
    let b1 : List ℕ = store_le 8 buf (base + 8) entry.ts_ordering in
    let b2 : List ℕ = store_le 8 b1 (base + 16) entry.ts_sync in
    let b3 : List ℕ = store_le 2 b2 (base + 24) entry.event.device_slot in
    let b4 : List ℕ = store_le 1 b3 (base + 26) entry.event.source_role in
    let b5 : List ℕ = store_le 1 b4 (base + 27) entry.event.event_type in
    let b6 : List ℕ = store_le 4 b5 (base + 28) entry.event.flags in
    let w1 = store_le-Within lo hi 8 buf (base + 8) entry.ts_ordering (omega arith) (omega arith) in
    let w2 =
      Within-store_le lo hi 8 buf b1 (base + 16) entry.ts_sync (omega arith) (omega arith) w1 in
    let w3 =
      Within-store_le lo hi 2 buf b2 (base + 24) entry.event.device_slot (omega arith) (omega arith)
        w2 in
    let w4 =
      Within-store_le lo hi 1 buf b3 (base + 26) entry.event.source_role (omega arith) (omega arith)
        w3 in
    let w5 =
      Within-store_le lo hi 1 buf b4 (base + 27) entry.event.event_type (omega arith) (omega arith)
        w4 in
    let w6 =
      Within-store_le lo hi 4 buf b5 (base + 28) entry.event.flags (omega arith) (omega arith) w5 in
    let b7 : List ℕ = write_payload b6 (base + 32) entry.event.payload in
    Within-trans lo hi buf b6 b7 w6 (
      Within-weaken (base + 32) (base + 32 + 32) lo hi b6 b7 (omega arith) (omega arith)
        (write_payload-Within b6 (base + 32) entry.event.payload))

pub advance_header-Within : (buf : List ℕ) (seq : ℕ) → Within 0 64 buf (advance_header buf seq)
unfolding advance_header
advance_header-Within buf seq =
    let b1 : List ℕ = store_le 8 buf 16 seq in
    let first : Within 0 64 buf b1 =
      store_le-Within 0 64 8 buf 16 seq (omega arith) (omega arith) in
    elim (Bool-cases (ltb 1024 seq)) [
      | inr f ↦ rw f first
      | inl t ↦ rw t (
          Within-trans 0 64 buf b1 (store_le 8 b1 24 (seq - 1024 + 1)) first
            (store_le-Within 0 64 8 b1 24 (seq - 1024 + 1) (omega arith) (omega arith)))
    ]

-- What the header says once the stores of a publish are made.
pub advance_header-fields :
    (buf : List ℕ) (n : ℕ)
    → 64 ≤ length buf
    → n + 1 < 2 ^ 64
    → get_u64 buf 24 ≡ n - 1024 + 1
    → (get_u64 (advance_header buf (suc n)) 16 ≡ suc n)
      × (get_u64 (advance_header buf (suc n)) 24 ≡ (suc n) - 1024 + 1)
unfolding advance_header get_u64
advance_header-fields buf n room small before =
    let b1 : List ℕ = store_le 8 buf 16 (suc n) in
    let l1 : length b1 ≡ length buf = length-store_le 8 buf 16 (suc n) in
    let f16 : get_u64 b1 16 ≡ suc n =
      get_le-store_le 8 buf 16 (suc n) (omega arith) (omega arith) in
    let f24 : get_u64 b1 24 ≡ n - 1024 + 1 =
      get_le-blit_disjoint 8 24 buf 16 (put_le 8 (suc n))
        (inl (omega (arith, length-put_le 8 (suc n))))
      ∙ before in
    elim (Bool-cases (ltb 1024 (suc n))) [
      | inr f ↦ rw f (f16, f24 ∙ ground arith)
      | inl t ↦
          let v : ℕ = (suc n) - 1024 + 1 in
          rw t (
            get_le-blit_disjoint 8 16 b1 24 (put_le 8 v) (inr (omega arith)) ∙ f16,
            get_le-store_le 8 b1 24 v (omega arith) (omega arith),
          )
    ]

pub write_header-fields :
    (b0 : List ℕ)
    → 64 ≤ length b0
    → (length (write_header b0) ≡ length b0)
      × (get_u64 (write_header b0) 16 ≡ 0)
      × (get_u64 (write_header b0) 24 ≡ 1)
unfolding write_header get_u64
write_header-fields b0 room =
    let b1 : List ℕ = store_le 4 b0 0 0x494E5645 in
    let b2 : List ℕ = store_le 1 b1 4 1 in
    let b3 : List ℕ = store_le 1 b2 5 0 in
    let b4 : List ℕ = store_le 2 b3 6 64 in
    let b5 : List ℕ = store_le 4 b4 8 1024 in
    let b6 : List ℕ = store_le 8 b5 16 0 in
    let l1 : length b1 ≡ length b0 = length-store_le 4 b0 0 0x494E5645 in
    let l2 : length b2 ≡ length b1 = length-store_le 1 b1 4 1 in
    let l3 : length b3 ≡ length b2 = length-store_le 1 b2 5 0 in
    let l4 : length b4 ≡ length b3 = length-store_le 2 b3 6 64 in
    let l5 : length b5 ≡ length b4 = length-store_le 4 b4 8 1024 in
    let l6 : length b6 ≡ length b5 = length-store_le 8 b5 16 0 in
    (
      length-store_le 8 b6 24 1 ∙ l6 ∙ l5 ∙ l4 ∙ l3 ∙ l2 ∙ l1,
      get_le-blit_disjoint 8 16 b6 24 (put_le 8 1) (inr (omega arith))
          ∙ get_le-store_le 8 b5 16 0 (omega arith) (omega arith),
      get_le-store_le 8 b6 24 1 (omega arith) (omega arith),
    )

-- The stores to its slot put an entry there.
pub slot-InSlot :
    (buf : List ℕ) (seq : ℕ) (entry : Entry)
    → length buf ≡ events_size
    → seq < 2 ^ 64
    → (let base = slot_base seq in
        let b3 = store_le 8 (write_body (store_le 8 buf base 0) base entry) base seq in
        Within base (base + 64) buf b3 × InSlot b3 seq entry)
unfolding InSlot get_u64 slot_base
slot-InSlot buf seq entry room small =
    let base : ℕ = slot_base seq in
    let bound : (64 ≤ base) × (base + 64 ≤ events_size) = slot_base-bound seq in
    let b1 : List ℕ = store_le 8 buf base 0 in
    let b2 : List ℕ = write_body b1 base entry in
    let w1 : Within base (base + 64) buf b1 =
      store_le-Within base (base + 64) 8 buf base 0 (omega arith) (omega arith) in
    let w2 : Within base (base + 64) buf b2 = Within-trans base (base + 64) buf b1 b2 w1 (
      Within-weaken (base + 8) (base + 64) base (base + 64) b1 b2 (omega arith) (omega arith)
        (write_body-Within b1 base entry)) in
    let l1 : length b1 ≡ length buf = length-Within base (base + 64) buf b1 w1 in
    let l2 : length b2 ≡ length buf = length-Within base (base + 64) buf b2 w2 in
    let lp : length (put_le 8 seq) ≡ 8 = length-put_le 8 seq in
    (
      Within-store_le base (base + 64) 8 buf b2 base seq (omega arith) (omega arith) w2,
      (
        get_le-store_le 8 b2 base seq (omega arith) (omega arith),
        slice-blit_before (base + 8) 56 b2 base (put_le 8 seq) (omega arith)
            ∙ slice-write_body b1 base entry (omega arith),
      ),
    )
