-- ===== src/Inputfs/Parser/Extracting.antt =====
-- What `inputfs_extract_keyboard` of inputfs_parser.c hands to the comparison of reports.
use awase.Base.{
  ℕ, zero, suc, ◌+◌, ◌%◌, ◌<◌, ◌≡◌, refl, ap, ◌∙◌, Bool, true, false, not, List, [], ◌∷◌, length,
  arith, All, ltb, ◌==◌, ◌||◌, Bool-cases, inl, inr, if◌then◌else◌,
}
use awase.Inputfs.Parser.{Location, Hid, is_present}
use awase.Inputfs.Parser.Keys.{KeyboardCache, extract_keyboard, read_keys}

read_keys-Bytes :
    (hid : Hid) (buf : List ℕ) (loc : Location) (i n : ℕ) (out : List ℕ)
    → All (λ k. k < 256) out
    → (length (read_keys hid buf loc i n out) ≡ length out)
      × All (λ k. k < 256) (read_keys hid buf loc i n out)
unfolding read_keys
read_keys-Bytes hid buf loc i zero out h = (refl, h)
read_keys-Bytes hid buf loc i (suc n) [] h = (refl, tt)
read_keys-Bytes hid buf loc i (suc n) (k ∷ out) h =
    let (size, rest) = read_keys-Bytes hid buf loc (i + 1) n out h.1 in
    (ap suc size, (omega arith, rest))

either_byte : (b : Bool) (v w : ℕ) → w < 256 → (if b then v % 256 else w) < 256
either_byte true v w h = omega arith
either_byte false v w h = h

either_keys :
    (b : Bool) (taken keys : List ℕ)
    → length taken ≡ length keys
    → All (λ k. k < 256) taken
    → All (λ k. k < 256) keys
    → (length (if b then taken else keys) ≡ length keys)
      × All (λ k. k < 256) (if b then taken else keys)
either_keys true taken keys same h1 h2 = (same, h1)
either_keys false taken keys same h1 h2 = (refl, h2)

-- Whatever the report, its length and the cached fields are: of a report's six keys and its modifiers
-- there are six and one afterwards, and all are bytes.
pub extract_keyboard-Bytes :
    (hid : Hid) (p : KeyboardCache) (buf : List ℕ) (modifiers : ℕ) (keys : List ℕ)
    → modifiers < 256
    → length keys ≡ 6
    → All (λ k. k < 256) keys
    → (let (extracted, modifiers', keys') = extract_keyboard hid p buf modifiers keys in
        (modifiers' < 256) × (length keys' ≡ 6) × All (λ k. k < 256) keys')
unfolding extract_keyboard
extract_keyboard-Bytes hid p buf modifiers keys hm size bytes =
    let count : ℕ = if ltb 6 p.loc_keys.0.count then 6 else p.loc_keys.0.count in
    let (same, taken) = read_keys-Bytes hid buf p.loc_keys.0 0 count keys bytes in
    let (six, all) =
      either_keys (is_present p.loc_keys buf) (read_keys hid buf p.loc_keys.0 0 count keys) keys
        same taken bytes in
    elim (Bool-cases (not p.locations_valid || (length buf == 0))) [
      | inl t ↦ rw t (hm, size, bytes)
      | inr f ↦ rw f (
        either_byte (is_present p.loc_modifiers buf) (hid.get_udata buf p.loc_modifiers.0) modifiers
            hm,
        six ∙ size,
        all,
      )
    ]
