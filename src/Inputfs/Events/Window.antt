-- ===== src/Inputfs/Events/Window.antt =====
-- The newest entries of the log of inputfs.c's event ring, in their slots.
use awase.Base.{
  ℕ, zero, suc, ◌+◌, ◌*◌, ◌%◌, ◌≤◌, ◌<◌, ◌≡◌, ◌∙◌, inl, inr, ◌⊎◌, List, [], ◌∷◌, length, arith,
}
use awase.Base.Bytes.{get_u64}
use awase.Base.Memory.{slice}
use awase.Base.Within.{Within, get_le-Within}
use awase.Inputfs.Events.{Entry, slot_base}
use awase.Inputfs.Events.Slots.{encode_body, slot_base-apart, slot_base-bound}

-- The documented place of a slot: behind the header, the number's ten lowest bits give the slot.
abbrev pub place_of : ℕ → ℕ
place_of seq = 64 + seq % 1024 * 64

-- The slot of a sequence number holds an entry.
unfoldable pub InSlot : List ℕ → ℕ → Entry → Type 0
InSlot buf seq entry =
    (get_u64 buf (place_of seq) ≡ seq) × (slice (place_of seq + 8) 56 buf ≡ encode_body entry)

-- The newest `k` entries of a log, newest first, are in their slots. The first has number 1.
unfoldable pub Retained : ℕ → List Entry → List ℕ → Type 0
unfolding InSlot
Retained zero log buf = Unit
Retained (suc k) [] buf = Unit
Retained (suc k) (entry ∷ log) buf = InSlot buf (suc (length log)) entry × Retained k log buf

-- Stores outside of a slot leave what it holds.
pub InSlot-Within :
    (lo hi : ℕ) (b1 b2 : List ℕ) (seq : ℕ) (entry : Entry)
    → (slot_base seq + 64 ≤ lo) ⊎ (hi ≤ slot_base seq)
    → Within lo hi b1 b2
    → InSlot b1 seq entry
    → InSlot b2 seq entry
unfolding InSlot get_u64 Within slot_base
InSlot-Within lo hi b1 b2 seq entry o w h = elim o [
  | inl before ↦ (
    get_le-Within lo hi 8 (slot_base seq) b1 b2 w (inl (omega arith)) ∙ h.0,
    w.1 (slot_base seq + 8) 56 (inl (omega arith)) ∙ h.1,
  )
  | inr behind ↦ (
    get_le-Within lo hi 8 (slot_base seq) b1 b2 w (inr behind) ∙ h.0,
    w.1 (slot_base seq + 8) 56 (inr (omega arith)) ∙ h.1,
  )
]

-- A write to the slot of the number that comes next leaves the newest 1023, and a write to the
-- header leaves all.
pub Retained-slot :
    (k : ℕ) (log : List Entry) (seq : ℕ) (b1 b2 : List ℕ)
    → length log < seq
    → seq + k ≤ length log + 1024
    → Within (slot_base seq) (slot_base seq + 64) b1 b2
    → Retained k log b1
    → Retained k log b2
unfolding Retained
Retained-slot zero log seq b1 b2 h1 h2 w r = tt
Retained-slot (suc k) [] seq b1 b2 h1 h2 w r = tt
Retained-slot (suc k) (entry ∷ log) seq b1 b2 h1 h2 w r = (
  InSlot-Within (slot_base seq) (slot_base seq + 64) b1 b2 (suc (length log)) entry
      (slot_base-apart (suc (length log)) seq (omega arith) (omega arith)) w r.0,
  Retained-slot k log seq b1 b2 (omega arith) (omega arith) w r.1,
)

pub Retained-header :
    (k : ℕ) (log : List Entry) (b1 b2 : List ℕ)
    → Within 0 64 b1 b2
    → Retained k log b1
    → Retained k log b2
unfolding Retained
Retained-header zero log b1 b2 w r = tt
Retained-header (suc k) [] b1 b2 w r = tt
Retained-header (suc k) (entry ∷ log) b1 b2 w r = (
  InSlot-Within 0 64 b1 b2 (suc (length log)) entry (inr (slot_base-bound (suc (length log))).0) w
      r.0,
  Retained-header k log b1 b2 w r.1,
)

pub Retained-fewer :
    (k : ℕ) (log : List Entry) (buf : List ℕ) → Retained (suc k) log buf → Retained k log buf
unfolding Retained
Retained-fewer zero log buf r = tt
Retained-fewer (suc k) [] buf r = tt
Retained-fewer (suc k) (entry ∷ log) buf r = (r.0, Retained-fewer k log buf r.1)
