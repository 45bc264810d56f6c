-- ===== src/Inputfs/Kbdmux/Decoding.antt =====
-- Reading the transitions back from the scancodes of inputfs_kbdmux.c, as a console does.
use awase.Base.{
  ℕ, zero, suc, ◌+◌, ◌*◌, ◌/◌, ◌%◌, ◌≡◌, refl, ap, ◌∙◌, Bool-cases, inl, inr, Bool, true, false,
  not, ◌&&◌, ◌||◌, List, [], ◌∷◌, ◌++◌, arith, ltb, ◌==◌, if◌then◌else◌, All, ◌≤◌, length,
  length-append,
}
use awase.Inputfs.Kbdmux.{Softc, release_bit}
use awase.Inputfs.Kbdmux.Queue.{Holds}
use awase.Inputfs.Kbdmux.Table.{trtab, entry_at}
use awase.Inputfs.Kbdmux.Scancodes.{
  entry_bytes, scan_bytes, scan_all, with_ring, emit_all, read_chars, read_chars-emit_all,
}

-- A byte 0xE0 is a prefix; another ends a scancode, and its high bit says that the key goes up.
unfoldable pub decode : ℕ → List ℕ → List (ℕ × Bool)
decode prefix [] = []
decode prefix (b ∷ bs) =
    let prefixed = decode 0xE0 bs in
    let rest = decode 0 bs in
    if b == 0xE0 then prefixed else (prefix * 256 + b % 128, ltb b 128) ∷ rest

-- The table entries of the transitions that have one.
unfoldable pub entries : List (ℕ × Bool) → List (ℕ × Bool)
entries [] = []
entries ((hid_usage, is_down) ∷ more) =
    let entry = entry_at trtab hid_usage in
    let rest = entries more in if entry == 0 then rest else (entry, is_down) ∷ rest

-- The usages whose entry has the release bit set.
unfoldable pub is_pressable : ℕ → Bool
is_pressable u = not ((u == 0x8C) || (u == 0x90) || (u == 0x91))

sound : ℕ → Bool
sound e =
    (e == 0)
    || (ltb (e % 256) 128 && not ((e % 256) == 0x60) && (((e / 256) == 0) || ((e / 256) == 0xE0)))

all_sound : ℕ → List ℕ → Bool
unfolding is_pressable sound
all_sound i [] = true
all_sound i (e ∷ es) = (not (is_pressable i) || sound e) && all_sound (suc i) es

trtab_sound : all_sound 0 trtab ≡ true
unfolding all_sound
trtab_sound = refl

sound-entry_at :
    (i : ℕ) (es : List ℕ) (u : ℕ)
    → all_sound i es ≡ true
    → is_pressable (i + u) ≡ true
    → sound (entry_at es u) ≡ true
unfolding all_sound
sound-entry_at i [] u h p = refl
sound-entry_at i (e ∷ es) zero h p =
    let same : i ≡ i + 0 = omega arith in
    let here : is_pressable i ≡ true = ap is_pressable same ∙ p in ground arith
sound-entry_at i (e ∷ es) (suc u) h p =
    let same : suc i + u ≡ i + suc u = omega arith in
    sound-entry_at (suc i) es u (ground arith) (ap is_pressable same ∙ p)

byte_sound :
    (entry : ℕ) (is_down : Bool)
    → sound entry ≡ true
    → (entry == 0) ≡ false
    → (let byte = if is_down then entry % 256 else release_bit (entry % 256) in
        ((byte == 0xE0) ≡ false) × (byte % 128 ≡ entry % 256) × (ltb byte 128 ≡ is_down))
unfolding sound
byte_sound entry true h some_entry = (ground arith, ground arith, ground arith)
byte_sound entry false h some_entry = (ground arith, ground arith, ground arith)

decode-plain :
    (prefix b entry : ℕ) (is_down : Bool) (rest : List ℕ)
    → (b == 0xE0) ≡ false
    → prefix * 256 + b % 128 ≡ entry
    → ltb b 128 ≡ is_down
    → decode prefix (b ∷ rest) ≡ (entry, is_down) ∷ decode 0 rest
unfolding decode
decode-plain prefix b entry is_down rest plain e d = rw (plain, e, d) refl

decode-entry_bytes :
    (entry : ℕ) (is_down : Bool) (rest : List ℕ)
    → sound entry ≡ true
    → decode 0 (entry_bytes entry is_down ++ rest)
      ≡ (if entry == 0 then decode 0 rest else (entry, is_down) ∷ decode 0 rest)
unfolding sound entry_bytes decode
decode-entry_bytes entry is_down rest h =
    let byte : ℕ = if is_down then entry % 256 else release_bit (entry % 256) in
    elim (Bool-cases (entry == 0)) [
      | inl silent ↦ rw silent refl
      | inr sounds ↦
          let (last, code, dir) = byte_sound entry is_down h sounds in
          elim (Bool-cases ((entry / 256) == 0)) [
            | inl plain ↦
                rw (sounds, plain) (decode-plain 0 byte entry is_down rest last (ground arith) dir)
            | inr prefixed ↦
                let mark : entry / 256 ≡ 0xE0 = ground arith in
                rw (sounds, prefixed, mark)
                  (decode-plain 0xE0 byte entry is_down rest last (omega arith) dir)
          ]
    ]

decode-scan_all :
    (transitions : List (ℕ × Bool))
    → All (λ t. is_pressable t.0 ≡ true) transitions
    → decode 0 (scan_all transitions) ≡ entries transitions
unfolding scan_all entries scan_bytes decode
decode-scan_all [] h = refl
decode-scan_all ((u, is_down) ∷ more) h =
    let entry : ℕ = entry_at trtab u in
    let same : 0 + u ≡ u = omega arith in
    let good : sound entry ≡ true =
      sound-entry_at 0 trtab u trtab_sound (ap is_pressable same ∙ h.0) in
    rw (decode-entry_bytes entry is_down (scan_all more) good, decode-scan_all more h.1) refl

length-entry_bytes : (entry : ℕ) (is_down : Bool) → length (entry_bytes entry is_down) ≤ 2
unfolding entry_bytes
length-entry_bytes entry is_down = elim (Bool-cases (entry == 0)) [
  | inl silent ↦ rw silent (omega arith)
  | inr sounds ↦ elim (Bool-cases ((entry / 256) == 0)) [
    | inl plain ↦ rw (sounds, plain) (omega arith)
    | inr prefixed ↦ rw (sounds, prefixed) (omega arith)
  ]
]

length-scan_all :
    (transitions : List (ℕ × Bool)) → length (scan_all transitions) ≤ 2 * length transitions
unfolding scan_all scan_bytes
length-scan_all [] = omega arith
length-scan_all ((u, is_down) ∷ more) =
    let bytes : List ℕ = entry_bytes (entry_at trtab u) is_down in
    omega (
      arith,
      length-append bytes (scan_all more),
      length-entry_bytes (entry_at trtab u) is_down,
      length-scan_all more,
    )

-- At most 512 transitions of keys other than those of the usages 0x8C, 0x90 and 0x91, emitted into an
-- empty ring, can be told from the bytes that kbdmux then reads, two reads allowed for each: every
-- transition comes back with its table entry and its direction, in order, but for keys without an
-- entry.
pub decode-read_chars :
    (sc : Softc) (count : ℕ) (transitions : List (ℕ × Bool)) (n : ℕ)
    → Holds [] sc
    → length transitions ≤ 512
    → 2 * length transitions ≤ n
    → All (λ t. is_pressable t.0 ≡ true) transitions
    → decode 0 (read_chars n (with_ring count (emit_all sc transitions))).0 ≡ entries transitions
decode-read_chars sc count transitions n h room enough pressable =
    let size = length-scan_all transitions in
    let read =
      read_chars-emit_all sc count transitions n h (omega (arith, size)) (omega (arith, size)) in
    ap (decode 0) read.0 ∙ decode-scan_all transitions pressable
