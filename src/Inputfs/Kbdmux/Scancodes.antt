-- ===== src/Inputfs/Kbdmux/Scancodes.antt =====
-- What `inputfs_kbd_emit_at` of inputfs_kbdmux.c makes of key transitions, and what kbdmux reads of it.
use awase.Base.{
  ℕ, zero, suc, ◌+◌, ◌/◌, ◌%◌, ◌≤◌, ◌<◌, ◌≡◌, refl, ap, sym, ◌∙◌, Bool-cases, inl, inr, Bool, true,
  ◌&&◌, Option, none, some, List, [], ◌∷◌, ◌++◌, length, arith, ltb, ◌==◌, length-append,
  if◌then◌else◌, append_assoc, append-nil, All, All-append,
}
use awase.Inputfs.Kbdmux.{
  Softc, Keyboard, put_key, get_key, emit_at, release_bit, read_from, sw_read_char,
}
use awase.Inputfs.Kbdmux.Table.{trtab, entry_at}
use awase.Inputfs.Kbdmux.Queue.{Holds, push, pop, put_key-Holds, get_key-Holds}

-- The bytes of a table entry, and of a key transition.
unfoldable pub entry_bytes : ℕ → Bool → List ℕ
entry_bytes entry is_down =
    let byte = if is_down then entry % 256 else release_bit (entry % 256) in
    if entry == 0 then [] else if (entry / 256) == 0 then byte ∷ [] else (entry / 256) ∷ byte ∷ []

unfoldable pub scan_bytes : ℕ → Bool → List ℕ
unfolding entry_bytes
scan_bytes hid_usage is_down = entry_bytes (entry_at trtab hid_usage) is_down

unfoldable pub push_all : List ℕ → List ℕ → List ℕ
unfolding push
push_all keys [] = keys
push_all keys (key ∷ more) = push_all (push keys key) more

emit_at-Holds :
    (keys : List ℕ) (sc : Softc) (hid_usage : ℕ) (is_down : Bool)
    → Holds keys sc
    → Holds (push_all keys (scan_bytes hid_usage is_down)) (emit_at sc hid_usage is_down)
unfolding emit_at scan_bytes entry_bytes push_all
emit_at-Holds keys sc hid_usage is_down h =
    let entry : ℕ = entry_at trtab hid_usage in
    let byte : ℕ = if is_down then entry % 256 else release_bit (entry % 256) in
    elim (Bool-cases (entry == 0)) [
      | inl silent ↦ rw silent h
      | inr sounds ↦ elim (Bool-cases ((entry / 256) == 0)) [
        | inl plain ↦ rw (sounds, plain) (put_key-Holds keys sc byte h)
        | inr prefixed ↦
            rw (sounds, prefixed)
              (put_key-Holds (push keys (entry / 256)) (put_key sc (entry / 256)) byte
                (put_key-Holds keys sc (entry / 256) h))
      ]
    ]

-- A list of transitions, each a HID usage and whether the key goes down.
unfoldable pub emit_all : Softc → List (ℕ × Bool) → Softc
unfolding emit_at
emit_all sc [] = sc
emit_all sc ((hid_usage, is_down) ∷ more) = emit_all (emit_at sc hid_usage is_down) more

unfoldable pub scan_all : List (ℕ × Bool) → List ℕ
unfolding scan_bytes
scan_all [] = []
scan_all ((hid_usage, is_down) ∷ more) = scan_bytes hid_usage is_down ++ scan_all more

push_all-fits :
    (keys more : List ℕ) → length keys + length more ≤ 1024 → push_all keys more ≡ keys ++ more
unfolding push_all push
push_all-fits keys [] h = sym (append-nil keys)
push_all-fits keys (key ∷ more) h =
    let room : ltb (length keys) 1024 ≡ true = ground arith in
    let size : length (keys ++ (key ∷ [])) ≡ length keys + 1 = length-append keys (key ∷ []) in
    rw room
      (push_all-fits (keys ++ (key ∷ [])) more (omega arith) ∙ append_assoc keys (key ∷ []) more)

pub emit_at-fits :
    (keys : List ℕ) (sc : Softc) (hid_usage : ℕ) (is_down : Bool)
    → length keys + length (scan_bytes hid_usage is_down) ≤ 1024
    → Holds keys sc
    → Holds (keys ++ scan_bytes hid_usage is_down) (emit_at sc hid_usage is_down)
emit_at-fits keys sc hid_usage is_down room h =
    rw (← push_all-fits keys (scan_bytes hid_usage is_down) room)
      (emit_at-Holds keys sc hid_usage is_down h)

emit_all-Holds :
    (keys : List ℕ) (sc : Softc) (transitions : List (ℕ × Bool))
    → length keys + length (scan_all transitions) ≤ 1024
    → Holds keys sc
    → Holds (keys ++ scan_all transitions) (emit_all sc transitions)
unfolding emit_all scan_all
emit_all-Holds keys sc [] room h = rw (append-nil keys) h
emit_all-Holds keys sc ((hid_usage, is_down) ∷ more) room h =
    let bytes : List ℕ = scan_bytes hid_usage is_down in
    let size : length (bytes ++ scan_all more) ≡ length bytes + length (scan_all more) =
      length-append bytes (scan_all more) in
    let both : length (keys ++ bytes) ≡ length keys + length bytes = length-append keys bytes in
    let next : Holds (keys ++ bytes) (emit_at sc hid_usage is_down) =
      emit_at-fits keys sc hid_usage is_down (omega arith) h in
    rw (← append_assoc keys bytes (scan_all more))
      (emit_all-Holds (keys ++ bytes) (emit_at sc hid_usage is_down) more (omega arith) next)

-- As many reads as given, until one returns nothing.
unfoldable pub read_chars : ℕ → Keyboard → List ℕ × Keyboard
unfolding sw_read_char
read_chars zero kbd = ([], kbd)
read_chars (suc n) kbd =
    let (key, kbd1) = sw_read_char kbd in
    let rest = read_chars n kbd1 in
    elim key [ none ↦ ([], kbd1) | some byte ↦ (byte ∷ rest.0, rest.1) ]

abbrev pub with_ring : ℕ → Softc → Keyboard
with_ring n sc = record { active = true; kb_count = n; kb_data = some sc }

read_from-some :
    (n : ℕ) (sc0 : Softc) (p : Option ℕ × Softc) (key : ℕ)
    → key < 256
    → p.0 ≡ some key
    → read_from (with_ring n sc0) p ≡ (some key, with_ring (n + 1) p.1)
unfolding read_from
read_from-some n sc0 (none, sc) key small e = absurd (ground arith)
read_from-some n sc0 (some k, sc) key small e =
    let same : k ≡ key = ground arith in
    let byte : k % 256 ≡ key = omega arith in ap (λ m. (some m, with_ring (n + 1) sc)) byte

read_from-none :
    (kbd : Keyboard) (p : Option ℕ × Softc) → p.0 ≡ none → read_from kbd p ≡ (none, kbd)
unfolding read_from
read_from-none kbd (none, sc) e = refl
read_from-none kbd (some k, sc) e = absurd (ground arith)

sw_read_char-cons :
    (n key : ℕ) (keys : List ℕ) (sc : Softc)
    → key < 256
    → Holds (key ∷ keys) sc
    → sw_read_char (with_ring n sc) ≡ (some key, with_ring (n + 1) (get_key sc).1)
unfolding sw_read_char pop
sw_read_char-cons n key keys sc small h =
    read_from-some n sc (get_key sc) key small (get_key-Holds (key ∷ keys) sc h).0

sw_read_char-nil :
    (n : ℕ) (sc : Softc) → Holds [] sc → sw_read_char (with_ring n sc) ≡ (none, with_ring n sc)
unfolding sw_read_char pop
sw_read_char-nil n sc h = read_from-none (with_ring n sc) (get_key sc) (get_key-Holds [] sc h).0

-- Enough reads return what waits, in its order.
read_chars-Holds :
    (n : ℕ) (keys : List ℕ) (count : ℕ) (sc : Softc)
    → length keys ≤ n
    → All (λ key. key < 256) keys
    → Holds keys sc
    → ((read_chars n (with_ring count sc)).0 ≡ keys)
      × ((read_chars n (with_ring count sc)).1.kb_count ≡ count + length keys)
unfolding read_chars pop
read_chars-Holds zero [] count sc fits small h = (refl, omega arith)
read_chars-Holds zero (key ∷ keys) count sc fits small h = absurd (omega arith)
read_chars-Holds (suc n) [] count sc fits small h =
    let e = sw_read_char-nil count sc h in
    let e0 : (sw_read_char (with_ring count sc)).0 ≡ none = ap (λ p. p.0) e in
    let e1 : (sw_read_char (with_ring count sc)).1 ≡ with_ring count sc = ap (λ p. p.1) e in
    rw (read_chars, e0, e1) (refl, omega arith)
read_chars-Holds (suc n) (key ∷ keys) count sc fits small h =
    let sc' : Softc = (get_key sc).1 in
    let (same, after, pending) = get_key-Holds (key ∷ keys) sc h in
    let (bytes, counted) = read_chars-Holds n keys (count + 1) sc' (omega arith) small.1 after in
    let e = sw_read_char-cons count key keys sc small.0 h in
    let e0 : (sw_read_char (with_ring count sc)).0 ≡ some key = ap (λ p. p.0) e in
    let e1 : (sw_read_char (with_ring count sc)).1 ≡ with_ring (count + 1) sc' = ap (λ p. p.1) e in
    rw (read_chars, e0, e1) (ap (◌∷◌ key) bytes, omega arith)

entries_fit : List ℕ → Bool
entries_fit [] = true
entries_fit (e ∷ es) = ltb e 65536 && entries_fit es

entry_at-bound : (es : List ℕ) (u : ℕ) → entries_fit es ≡ true → entry_at es u < 65536
unfolding entries_fit
entry_at-bound [] u h = omega arith
entry_at-bound (e ∷ es) zero h = ground arith
entry_at-bound (e ∷ es) (suc u) h = entry_at-bound es u (ground arith)

trtab-fits : entries_fit trtab ≡ true
unfolding entries_fit
trtab-fits = refl

entry_bytes-bytes :
    (entry : ℕ) (is_down : Bool)
    → entry < 65536
    → All (λ key. key < 256) (entry_bytes entry is_down)
unfolding entry_bytes
entry_bytes-bytes entry is_down small =
    let byte : (if is_down then entry % 256 else release_bit (entry % 256)) < 256 = ground arith in
    elim (Bool-cases (entry == 0)) [
      | inl silent ↦ rw silent tt
      | inr sounds ↦ elim (Bool-cases ((entry / 256) == 0)) [
        | inl plain ↦ rw (sounds, plain) (byte, tt)
        | inr prefixed ↦ rw (sounds, prefixed) (omega arith, (byte, tt))
      ]
    ]

scan_bytes-bytes : (u : ℕ) (is_down : Bool) → All (λ key. key < 256) (scan_bytes u is_down)
unfolding scan_bytes
scan_bytes-bytes u is_down =
    entry_bytes-bytes (entry_at trtab u) is_down (entry_at-bound trtab u trtab-fits)

scan_all-bytes : (transitions : List (ℕ × Bool)) → All (λ key. key < 256) (scan_all transitions)
unfolding scan_all
scan_all-bytes [] = tt
scan_all-bytes ((u, is_down) ∷ more) =
    All-append (λ key. key < 256) (scan_bytes u is_down) (scan_all more)
      (scan_bytes-bytes u is_down) (scan_all-bytes more)

-- Key transitions whose scancodes fit an empty ring are read back by kbdmux as those bytes, in order,
-- and the keyboard counts them.
pub read_chars-emit_all :
    (sc : Softc) (count : ℕ) (transitions : List (ℕ × Bool)) (n : ℕ)
    → Holds [] sc
    → length (scan_all transitions) ≤ 1024
    → length (scan_all transitions) ≤ n
    → (let (bytes, kbd) = read_chars n (with_ring count (emit_all sc transitions)) in
        (bytes ≡ scan_all transitions) × (kbd.kb_count ≡ count + length (scan_all transitions)))
read_chars-emit_all sc count transitions n h room enough =
    read_chars-Holds n (scan_all transitions) count (emit_all sc transitions) enough
      (scan_all-bytes transitions) (emit_all-Holds [] sc transitions (omega arith) h)
