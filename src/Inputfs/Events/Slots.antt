-- ===== src/Inputfs/Events/Slots.antt =====
-- The bytes that `inputfs_events_publish` leaves in a slot, and what its stores leave of the others.
use awase.Base.{
  ℕ, ◌+◌, ◌-◌, ◌%◌, ◌≤◌, ◌<◌, ◌≡◌, refl, ap, sym, ◌∙◌, Bool-cases, ◌⊎◌, inl, inr, true, List, [],
  ◌∷◌, ◌++◌, length, take, replicate, blit, arith, ltb, length-blit, length-take, blit-append,
  blit-replicate, if◌then◌else◌,
}
use awase.Base.Bytes.{put_le, length-put_le}
use awase.Base.Memory.{
  slice, store_le, clear, slice-blit_inside, slice-extend, length-slice, take-all,
}
use awase.Inputfs.Events.{Entry, write_payload, write_body, slot_base, events_size}

-- The documented layout of a slot behind its sequence number.
unfoldable pub encode_body : Entry → List ℕ
encode_body entry =
    let ev = entry.event in
    (((((put_le 8 entry.ts_ordering ++ put_le 8 entry.ts_sync) ++ put_le 2 ev.device_slot)
          ++ put_le 1 ev.source_role)
        ++ put_le 1 ev.event_type)
      ++ put_le 4 ev.flags)
    ++ (take 32 ev.payload ++ replicate (32 - length ev.payload) 0)

pub length-store_le :
    (k : ℕ) (buf : List ℕ) (off v : ℕ) → length (store_le k buf off v) ≡ length buf
length-store_le k buf off v = length-blit buf off (put_le k v)

-- A number stored just behind what is known of a range.
store-extend :
    (base off j k n : ℕ) (buf pre : List ℕ) (v : ℕ)
    → off ≡ base + j
    → n ≡ j + k
    → base + n ≤ length buf
    → slice base j buf ≡ pre
    → slice base n (store_le k buf off v) ≡ pre ++ put_le k v
store-extend base off j k n buf pre v eo en h e =
    slice-extend base off j k n buf pre (put_le k v) eo en (length-put_le k v) h e

take-copied :
    (payload : List ℕ)
    → take (if ltb 32 (length payload) then 32 else length payload) payload ≡ take 32 payload
take-copied payload = elim (Bool-cases (ltb 32 (length payload))) [
  | inl t ↦ rw t refl
  | inr f ↦
      rw f
        (take-all (length payload) payload (omega arith) ∙ sym (take-all 32 payload (ground arith)))
]

payload-extend :
    (base off j n : ℕ) (buf pre payload : List ℕ)
    → off ≡ base + j
    → n ≡ j + 32
    → base + n ≤ length buf
    → slice base j buf ≡ pre
    → slice base n (write_payload buf off payload)
      ≡ pre ++ (take 32 payload ++ replicate (32 - length payload) 0)
unfolding write_payload
payload-extend base off j n buf pre [] eo en h e =
    slice-extend base off j 32 n buf pre (replicate 32 0) eo en refl h e
payload-extend base off j n buf pre (x ∷ xs) eo en h e =
    let zeros : List ℕ = replicate 32 0 in
    let copied = take 32 (x ∷ xs) in
    let cleared : slice base n (clear buf off 32) ≡ pre ++ zeros =
      slice-extend base off j 32 n buf pre zeros eo en refl h e in
    let room : 32 ≡ length copied + (32 - length (x ∷ xs)) =
      omega (arith, length-take 32 (x ∷ xs)) in
    let same : j ≡ length pre = omega (arith, length-slice base j buf (omega arith), ap length e) in
    let fits : j + length copied ≤ n = omega (arith, length-take 32 (x ∷ xs)) in
    let some_bytes : ltb 0 (length (x ∷ xs)) ≡ true = ground arith in
    rw (take-copied (x ∷ xs), some_bytes, eo)
      (slice-blit_inside base n (clear buf (base + j) 32) j copied fits
        ∙ ap (λ s. blit s j copied) (ap (λ m. slice base n (clear buf m 32)) (sym eo) ∙ cleared)
        ∙ ap (λ m. blit (pre ++ zeros) m copied) same
        ∙ blit-append pre zeros copied
        ∙ ap (◌++◌ pre) (blit-replicate 32 (32 - length (x ∷ xs)) 0 copied room))

pub slice-write_body :
    (buf : List ℕ) (base : ℕ) (entry : Entry)
    → base + 64 ≤ length buf
    → slice (base + 8) 56 (write_body buf base entry) ≡ encode_body entry
unfolding write_body encode_body
slice-write_body buf base entry h =
    let b1 : List ℕ = store_le 8 buf (base + 8) entry.ts_ordering in
    let b2 : List ℕ = store_le 8 b1 (base + 16) entry.ts_sync in
    let b3 : List ℕ = store_le 2 b2 (base + 24) entry.event.device_slot in
    let b4 : List ℕ = store_le 1 b3 (base + 26) entry.event.source_role in
    let b5 : List ℕ = store_le 1 b4 (base + 27) entry.event.event_type in
    let b6 : List ℕ = store_le 4 b5 (base + 28) entry.event.flags in
    let l1 : length b1 ≡ length buf = length-store_le 8 buf (base + 8) entry.ts_ordering in
    let l2 : length b2 ≡ length b1 = length-store_le 8 b1 (base + 16) entry.ts_sync in
    let l3 : length b3 ≡ length b2 = length-store_le 2 b2 (base + 24) entry.event.device_slot in
    let l4 : length b4 ≡ length b3 = length-store_le 1 b3 (base + 26) entry.event.source_role in
    let l5 : length b5 ≡ length b4 = length-store_le 1 b4 (base + 27) entry.event.event_type in
    let l6 : length b6 ≡ length b5 = length-store_le 4 b5 (base + 28) entry.event.flags in
    let f1 =
      store-extend (base + 8) (base + 8) 0 8 8 buf [] entry.ts_ordering (omega arith) refl
        (omega arith) refl in
    let f2 =
      store-extend (base + 8) (base + 16) 8 8 16 b1 _ entry.ts_sync (omega arith) refl (omega arith)
        f1 in
    let f3 =
      store-extend (base + 8) (base + 24) 16 2 18 b2 _ entry.event.device_slot (omega arith) refl
        (omega arith) f2 in
    let f4 =
      store-extend (base + 8) (base + 26) 18 1 19 b3 _ entry.event.source_role (omega arith) refl
        (omega arith) f3 in
    let f5 =
      store-extend (base + 8) (base + 27) 19 1 20 b4 _ entry.event.event_type (omega arith) refl
        (omega arith) f4 in
    let f6 =
      store-extend (base + 8) (base + 28) 20 4 24 b5 _ entry.event.flags (omega arith) refl
        (omega arith) f5 in
    payload-extend (base + 8) (base + 32) 24 56 b6 _ entry.event.payload (omega arith) refl
      (omega arith) f6

-- A store into the slot of one sequence number leaves the slot of another within the window.
pub slot_base-apart :
    (m n : ℕ)
    → m < n
    → n < m + 1024
    → (slot_base m + 64 ≤ slot_base n) ⊎ (slot_base n + 64 ≤ slot_base m)
unfolding slot_base
slot_base-apart m n h1 h2 = elim (Bool-cases (ltb (n % 1024) (m % 1024))) [
  | inl t ↦ inr (ground arith)
  | inr f ↦ inl (ground arith)
]

pub slot_base-bound : (n : ℕ) → (64 ≤ slot_base n) × (slot_base n + 64 ≤ events_size)
unfolding slot_base
slot_base-bound n = (omega arith, omega arith)
