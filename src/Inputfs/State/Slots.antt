-- ===== src/Inputfs/State/Slots.antt =====
-- The bitmap of device slots of inputfs.c: `inputfs_state_alloc_slot`, `inputfs_state_release_slot`
-- and `inputfs_state_count_devices`.
use awase.Base.{
  ℕ, zero, suc, ◌+◌, ◌/◌, ◌%◌, ◌^◌, ◌≤◌, ◌<◌, ◌≡◌, ◌≢◌, refl, ap, sym, ◌∙◌, ◌⊎◌, inl, inr,
  Bool-cases, true, false, arith, ltb, ◌==◌,
}
use awase.Inputfs.State.{
  slot_bit, set_slot, clear_slot, alloc_from, alloc_slot, release_slot, count_bits, count_devices,
  no_state_slot,
}

bit_small : (mask i : ℕ) → slot_bit mask i ≤ 1
unfolding slot_bit
bit_small mask zero = omega arith
bit_small mask (suc i) = bit_small (mask / 2) i

half-add : (mask i : ℕ) → (mask + 2 ^ suc i) / 2 ≡ mask / 2 + 2 ^ i
half-add mask i = omega arith

-- Adding the power of a bit that is not set sets that bit alone.
bit-add_same : (mask i : ℕ) → slot_bit mask i ≡ 0 → slot_bit (mask + 2 ^ i) i ≡ 1
unfolding slot_bit
bit-add_same mask zero h = omega arith
bit-add_same mask (suc i) h = ap (λ m. slot_bit m i) (half-add mask i) ∙ bit-add_same (mask / 2) i h

bit-add_other :
    (mask i j : ℕ) → i ≢ j → slot_bit mask i ≡ 0 → slot_bit (mask + 2 ^ i) j ≡ slot_bit mask j
unfolding slot_bit
bit-add_other mask zero zero n h = absurd (n refl)
bit-add_other mask zero (suc j) n h =
    let half : (mask + 2 ^ 0) / 2 ≡ mask / 2 = omega arith in ap (λ m. slot_bit m j) half
bit-add_other mask (suc i) zero n h = omega arith
bit-add_other mask (suc i) (suc j) n h =
    ap (λ m. slot_bit m j) (half-add mask i) ∙ bit-add_other (mask / 2) i j (λ e. n (ap suc e)) h

count_bits-zero : (fuel : ℕ) → count_bits fuel 0 ≡ 0
unfolding count_bits
count_bits-zero zero = refl
count_bits-zero (suc fuel) = refl

count_bits-step :
    (fuel mask : ℕ) → count_bits (suc fuel) mask ≡ mask % 2 + count_bits fuel (mask / 2)
unfolding count_bits
count_bits-step fuel mask = elim (Bool-cases (mask == 0)) [
  | inr f ↦ rw f refl
  | inl t ↦ let e : mask ≡ 0 = ground arith in rw (t, e) (sym (ap (◌+◌ 0) (count_bits-zero fuel)))
]

count-add :
    (fuel mask i : ℕ)
    → i < fuel
    → slot_bit mask i ≡ 0
    → count_bits fuel (mask + 2 ^ i) ≡ count_bits fuel mask + 1
unfolding slot_bit
count-add zero mask i h b = absurd (omega arith)
count-add (suc fuel) mask zero h b =
    let half : (mask + 2 ^ 0) / 2 ≡ mask / 2 = omega arith in
    let same = ap (count_bits fuel) half in
    omega (arith, count_bits-step fuel (mask + 2 ^ 0), count_bits-step fuel mask, same)
count-add (suc fuel) mask (suc i) h b =
    let same = ap (count_bits fuel) (half-add mask i) in
    omega (
      arith,
      count_bits-step fuel (mask + 2 ^ suc i),
      count_bits-step fuel mask,
      same,
      count-add fuel (mask / 2) i (omega arith) b,
    )

count_bits-bound : (fuel mask : ℕ) → count_bits fuel mask ≤ fuel
unfolding count_bits
count_bits-bound zero mask = omega arith
count_bits-bound (suc fuel) mask =
    omega (arith, count_bits-step fuel mask, count_bits-bound fuel (mask / 2))

-- The slots from `i` on are all taken, or the first that is free is set.
Allocates : ℕ → ℕ → ℕ → ℕ × ℕ → Type 0
Allocates used i n (slot, used') =
    (slot ≡ no_state_slot) × (used' ≡ used) × ((j : ℕ) → i ≤ j → j < i + n → slot_bit used j ≡ 1)
    ⊎ (i ≤ slot)
      × (slot < i + n)
      × (slot_bit used slot ≡ 0)
      × (used' ≡ used + 2 ^ slot)
      × ((j : ℕ) → i ≤ j → j < slot → slot_bit used j ≡ 1)

taken-from :
    (used i j : ℕ)
    → slot_bit used i ≡ 1
    → i ≤ j
    → (i + 1 ≤ j → slot_bit used j ≡ 1)
    → slot_bit used j ≡ 1
taken-from used i j here h later = elim (Bool-cases (i == j)) [
  | inl t ↦ let same : j ≡ i = ground arith in ap (slot_bit used) same ∙ here
  | inr f ↦ later (ground arith)
]

alloc_from-Allocates : (used i n : ℕ) → Allocates used i n (alloc_from used i n)
unfolding Allocates alloc_from set_slot
alloc_from-Allocates used i zero = inl (refl, refl, λ j h1 h2. absurd (omega arith))
alloc_from-Allocates used i (suc n) = elim (Bool-cases (slot_bit used i == 0)) [
  | inl t ↦
      let free : slot_bit used i ≡ 0 = ground arith in
      rw t (inr (omega arith, omega arith, free, refl, λ j h1 h2. absurd (omega arith)))
  | inr f ↦
      let taken : slot_bit used i ≡ 1 = ground (arith, bit_small used i) in
      rw f (elim (alloc_from-Allocates used (i + 1) n) [
        | inl (none, same, all) ↦
            inl (none, same, λ j h1 h2. taken-from used i j taken h1 (λ h. all j h (omega arith)))
        | inr (from, below, free, set, all) ↦ inr (
          omega arith,
          omega arith,
          free,
          set,
          λ j h1 h2. taken-from used i j taken h1 (λ h. all j h h2),
        )
      ])
]

slot_set :
    (used slot : ℕ)
    → slot < 32
    → slot_bit used slot ≡ 0
    → (let used' = used + 2 ^ slot in
        (slot_bit used' slot ≡ 1)
        × ((j : ℕ) → slot ≢ j → slot_bit used' j ≡ slot_bit used j)
        × (count_devices used' ≡ count_devices used + 1)
        × (release_slot used' slot ≡ used))
unfolding count_devices release_slot clear_slot
slot_set used slot below free =
    let now : slot_bit (used + 2 ^ slot) slot ≡ 1 = bit-add_same used slot free in
    let inside : ltb slot 32 ≡ true = ground arith in
    let set : (slot_bit (used + 2 ^ slot) slot == 0) ≡ false = ground arith in
    (
      now,
      λ j n. bit-add_other used slot j n free,
      omega (
        arith,
        count-add 32 used slot below free,
        count_bits-bound 32 (used + 2 ^ slot),
        count_bits-bound 32 used,
      ),
      rw (inside, set) (omega arith),
    )

-- Without a free slot none is given and the bitmap stays; else the lowest free slot is given and set,
-- the others stay, there is one device more, and releasing the slot gives the bitmap from before.
pub alloc_slot_cases :
    (used : ℕ)
    → (let (slot, used') = alloc_slot used in
        (slot ≡ no_state_slot) × (used' ≡ used) × ((j : ℕ) → j < 32 → slot_bit used j ≡ 1)
        ⊎ (slot < 32)
          × (slot_bit used slot ≡ 0)
          × ((j : ℕ) → j < slot → slot_bit used j ≡ 1)
          × (slot_bit used' slot ≡ 1)
          × ((j : ℕ) → slot ≢ j → slot_bit used' j ≡ slot_bit used j)
          × (count_devices used' ≡ count_devices used + 1)
          × (release_slot used' slot ≡ used))
unfolding alloc_slot Allocates
alloc_slot_cases used = elim (alloc_from-Allocates used 0 32) [
  | inl (none, same, all) ↦ inl (none, same, λ j h. all j (omega arith) (omega arith))
  | inr (from, below, free, set, all) ↦
      let (now, others, more, back) = slot_set used (alloc_slot used).0 below free in
      inr (
        below,
        free,
        λ j h. all j (omega arith) h,
        ap (λ m. slot_bit m (alloc_slot used).0) set ∙ now,
        λ j n. ap (λ m. slot_bit m j) set ∙ others j n,
        ap count_devices set ∙ more,
        ap (λ m. release_slot m (alloc_slot used).0) set ∙ back,
      )
]
