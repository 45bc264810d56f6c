-- ===== src/Inputfs/Kbdmux/Queue.antt =====
-- The ring of inputfs_kbdmux.c against a bounded first-in, first-out queue: `inputfs_kbd_put_key`,
-- `inputfs_kbd_get_key`, `inputfs_kbd_input_pending` and the reads of kbdmux.
use awase.Base.{
  ℕ, ◌+◌, ◌-◌, ◌%◌, ◌^◌, ◌≤◌, ◌<◌, ◌≡◌, refl, ap, ◌∙◌, Bool-cases, inl, inr, true, false, Option,
  none, some, List, [], ◌∷◌, ◌++◌, length, arith, ltb, leb, ◌==◌, length-append, if◌then◌else◌,
}
use awase.Base.Bytes.{u32}
use awase.Inputfs.Kbdmux.{Softc, set_input, put_key, get_key, input_pending}

-- The keys stand in the ring from an index on.
unfoldable pub Items : (ℕ → ℕ) → ℕ → List ℕ → Type 0
Items input at [] = Unit
Items input at (key ∷ keys) = (input (at % 1024) ≡ key) × Items input (u32 (at + 1)) keys

unfoldable pub Holds : List ℕ → Softc → Type 0
unfolding Items
Holds keys sc =
    (sc.head ≡ u32 (sc.tail + length keys))
    × (sc.tail < 2 ^ 32)
    × (length keys ≤ 1024)
    × Items sc.input sc.tail keys

-- The queue's side: a key is added at the end while there are fewer than 1024.
unfoldable pub push : List ℕ → ℕ → List ℕ
push keys key = if ltb (length keys) 1024 then keys ++ (key ∷ []) else keys

unfoldable pub pop : List ℕ → Option ℕ × List ℕ
pop [] = (none, [])
pop (key ∷ keys) = (some key, keys)

-- A write to the index that comes `n` later leaves the keys before it.
Items-set :
    (input : ℕ → ℕ) (at : ℕ) (keys : List ℕ) (n slot key : ℕ)
    → slot ≡ u32 (at + n) % 1024
    → length keys ≤ n
    → n < 1024
    → Items input at keys
    → Items (set_input input slot key) at keys
unfolding Items
Items-set input at [] n slot key e h1 h2 items = tt
Items-set input at (x ∷ xs) n slot key e h1 h2 items =
    let other : ((at % 1024) == slot) ≡ false = ground arith in
    (
      rw other items.0,
      Items-set input (u32 (at + 1)) xs (n - 1) slot key (omega arith) (omega arith) (omega arith)
          items.1,
    )

Items-append :
    (input : ℕ → ℕ) (at : ℕ) (keys : List ℕ) (slot key : ℕ)
    → slot ≡ u32 (at + length keys) % 1024
    → Items input at keys
    → input slot ≡ key
    → Items input at (keys ++ (key ∷ []))
unfolding Items
Items-append input at [] slot key e items h =
    let same : at % 1024 ≡ slot = omega arith in (ap input same ∙ h, tt)
Items-append input at (x ∷ xs) slot key e items h =
    (items.0, Items-append input (u32 (at + 1)) xs slot key (omega arith) items.1 h)

set_input-same : (input : ℕ → ℕ) (at key : ℕ) → set_input input at key at ≡ key
set_input-same input at key = let same : (at == at) ≡ true = ground arith in rw same refl

-- A key that is put goes to the end of the queue, or is dropped where 1024 keys wait.
pub put_key-Holds :
    (keys : List ℕ) (sc : Softc) (key : ℕ) → Holds keys sc → Holds (push keys key) (put_key sc key)
unfolding Holds push put_key
put_key-Holds keys sc key (at_head, tail32, fits, items) =
    elim (Bool-cases (ltb (length keys) 1024)) [
      | inl room ↦
          let free : leb 1024 (u32 (sc.head + 2 ^ 32 - sc.tail)) ≡ false = ground arith in
          let slot : ℕ = sc.head % 1024 in
          let input' : ℕ → ℕ = set_input sc.input slot key in
          let here : slot ≡ u32 (sc.tail + length keys) % 1024 = omega arith in
          let size : length (keys ++ (key ∷ [])) ≡ length keys + 1 =
            length-append keys (key ∷ []) in
          rw (room, free)
            (
              omega arith,
              tail32,
              ground arith,
              Items-append input' sc.tail keys slot key here
                  (Items-set sc.input sc.tail keys (length keys) slot key here (omega arith)
                    (ground arith) items)
                  (set_input-same sc.input slot key),
            )
      | inr full ↦
          let closed : leb 1024 (u32 (sc.head + 2 ^ 32 - sc.tail)) ≡ true = ground arith in
          rw (full, closed) (at_head, tail32, fits, items)
    ]

-- A key that is taken is the oldest one, and one waits exactly where the queue is not empty.
pub get_key-Holds :
    (keys : List ℕ) (sc : Softc)
    → Holds keys sc
    → ((get_key sc).0 ≡ (pop keys).0)
      × Holds (pop keys).1 (get_key sc).1
      × (input_pending sc ≡ ltb 0 (length keys))
unfolding Holds get_key input_pending pop
get_key-Holds [] sc (at_head, tail32, fits, items) =
    let empty : (sc.tail == sc.head) ≡ true = ground arith in
    (rw empty refl, rw empty (at_head, tail32, fits, items), rw empty refl)
get_key-Holds (key ∷ keys) sc (at_head, tail32, fits, items) =
    let waits : (sc.tail == sc.head) ≡ false = ground arith in
    (
      rw waits (ap some items.0),
      rw waits (omega arith, omega arith, omega arith, items.1),
      rw waits (ground arith),
    )
