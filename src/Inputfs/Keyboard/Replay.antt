-- ===== src/Inputfs/Keyboard/Replay.antt =====
-- The transitions of `inputfs_keyboard_diff_emit` of inputfs.c against the sets of keys held down.
use awase.Base.{
  ℕ, ◌+◌, ◌-◌, ◌≤◌, ◌<◌, ◌≡◌, refl, ap, ◌∙◌, Bool-cases, inl, inr, Bool, true, false, not, ◌&&◌,
  ◌||◌, List, [], ◌∷◌, ◌++◌, arith, leb, ◌==◌, if◌then◌else◌, All,
}
use awase.Inputfs.Keyboard.{
  Device, key_in_set, has_bit, bits, changed, modifier_changes, key_changes, diff,
}

-- Whether a key is down after transitions, from whether it was before.
unfoldable pub replay : ℕ → Bool → List (ℕ × Bool) → Bool
replay u held [] = held
replay u held ((usage, is_down) ∷ more) = replay u (if usage == u then is_down else held) more

unfoldable pub among : ℕ → List ℕ → Bool
among u [] = false
among u (k ∷ keys) = let rest = among u keys in (k == u) || rest

-- The keys that a report says are down: the modifiers 0xE0 to 0xE7, and the keys of its array but
-- for 0 and the codes of errors.
unfoldable pub held : ℕ → List ℕ → ℕ → Bool
unfolding among has_bit
held modifiers keys u =
    if leb 0xE0 u && leb u 0xE7 then has_bit modifiers (u - 0xE0) else not (leb u 3) && among u keys

replay-append :
    (u : ℕ) (b : Bool) (ts more : List (ℕ × Bool))
    → replay u b (ts ++ more) ≡ replay u (replay u b ts) more
unfolding replay
replay-append u b [] more = refl
replay-append u b ((usage, is_down) ∷ ts) more =
    replay-append u (if usage == u then is_down else b) ts more

key_in_set-among : (u : ℕ) (keys : List ℕ) → key_in_set u keys ≡ leb u 3 || among u keys
unfolding key_in_set among
key_in_set-among u [] = ground arith
key_in_set-among u (k ∷ keys) = ground (arith, key_in_set-among u keys)

-- A loop decides on the keys that it visits and passes its test.
replay-key_changes :
    (u : ℕ) (b is_down : Bool) (other keys : List ℕ)
    → replay u b (key_changes other is_down keys)
      ≡ (if not (leb u 3) && among u keys && not (among u other) then is_down else b)
unfolding replay key_changes among
replay-key_changes u b is_down other [] = ground arith
replay-key_changes u b is_down other (k ∷ keys) =
    let set = key_in_set-among k other in
    elim (Bool-cases (k == u)) [
      | inl here ↦
          let same : among k other ≡ among u other = ap (λ (m : ℕ). among m other) (ground arith) in
          elim (Bool-cases ((k == 0) || leb k 3 || key_in_set k other)) [
            | inl skip ↦ rw (here, skip) (replay-key_changes u b is_down other keys ∙ ground arith)
            | inr go ↦
                rw (here, go, replay, here)
                  (replay-key_changes u is_down is_down other keys ∙ ground arith)
          ]
      | inr there ↦ elim (Bool-cases ((k == 0) || leb k 3 || key_in_set k other)) [
        | inl skip ↦ rw (there, skip) (replay-key_changes u b is_down other keys)
        | inr go ↦ rw (there, go, replay, there) (replay-key_changes u b is_down other keys)
      ]
    ]

-- The same for the modifier bits, each of which stands for its own key.
replay-modifier_changes :
    (u prev new has : ℕ) (b is_down : Bool) (visited : List ℕ)
    → replay u b (modifier_changes prev new has is_down visited) ≡ (
        if leb 0xE0 u
          && among (u - 0xE0) visited
          && changed prev new (u - 0xE0)
          && has_bit has (u - 0xE0)
        then is_down
        else b)
unfolding replay modifier_changes among
replay-modifier_changes u prev new has b is_down [] = ground arith
replay-modifier_changes u prev new has b is_down (bit ∷ more) =
    elim (Bool-cases ((0xE0 + bit) == u)) [
      | inl here ↦
          let at : u - 0xE0 ≡ bit = ground arith in
          let same : (bit == (u - 0xE0)) ≡ true = ground arith in
          let changed_at : changed prev new (u - 0xE0) ≡ changed prev new bit =
            ap (changed prev new) at in
          let has_at : has_bit has (u - 0xE0) ≡ has_bit has bit = ap (has_bit has) at in
          elim (Bool-cases (not (changed prev new bit) || not (has_bit has bit))) [
            | inl skip ↦
                rw skip (replay-modifier_changes u prev new has b is_down more ∙ ground arith)
            | inr go ↦
                rw (go, replay, here)
                  (replay-modifier_changes u prev new has is_down is_down more ∙ ground arith)
          ]
      | inr there ↦
          let other : leb 0xE0 u && (bit == (u - 0xE0)) ≡ false = ground arith in
          elim (Bool-cases (not (changed prev new bit) || not (has_bit has bit))) [
            | inl skip ↦
                rw skip (replay-modifier_changes u prev new has b is_down more ∙ ground arith)
            | inr go ↦
                rw (go, replay, there)
                  (replay-modifier_changes u prev new has b is_down more ∙ ground arith)
          ]
    ]

among-bound : (n u : ℕ) (keys : List ℕ) → n ≤ u → All (λ k. k < n) keys → among u keys ≡ false
unfolding among
among-bound n u [] h all = refl
among-bound n u (k ∷ keys) h all = ground (arith, among-bound n u keys h all.1, all.0)

among-bits : (v : ℕ) → among v bits ≡ leb v 7
unfolding among
among-bits v = ground arith

-- The array loops on a key that is no modifier.
key_settles :
    (l p n : Bool)
    → (if not l && n && not p then true else if not l && p && not n then false else not l && p)
      ≡ not l && n
key_settles true p n = refl
key_settles false true true = refl
key_settles false true false = refl
key_settles false false true = refl
key_settles false false false = refl

-- What the four loops make of one key, from whether it was down.
abbrev after_loops : Bool → Bool → Bool → Bool → Bool → Bool → Bool → Bool → Bool
after_loops g c p m l x y b =
    if not l && y && not x
    then true
    else if g && c && m
    then true
    else if not l && x && not y
    then false
    else if g && c && p
    then false
    else b

after_loops-settles :
    (g p m l x y : Bool)
    → (g ≡ true → (x ≡ false) × (y ≡ false))
    → after_loops g ((p && not m) || (not p && m)) p m l x y (if g then p else not l && x)
      ≡ (if g then m else not l && y)
after_loops-settles true p m l x y h = let (no_x, no_y) = h refl in rw (no_x, no_y) (no_keys p m l)
  where
    no_keys :
        (p m l : Bool) → after_loops true ((p && not m) || (not p && m)) p m l false false p ≡ m
    no_keys true true true = refl
    no_keys true true false = refl
    no_keys true false true = refl
    no_keys true false false = refl
    no_keys false true true = refl
    no_keys false true false = refl
    no_keys false false true = refl
    no_keys false false false = refl
after_loops-settles false p m l x y h = key_settles l x y

modifier_range : (u : ℕ) → leb 0xE0 u && among (u - 0xE0) bits ≡ leb 0xE0 u && leb u 0xE7
modifier_range u = rw (among-bits (u - 0xE0)) (ground arith)

-- The loops over all modifier bits.
replay-bits :
    (u prev new has : ℕ) (b is_down : Bool)
    → replay u b (modifier_changes prev new has is_down bits) ≡ (
        if (leb 0xE0 u && leb u 0xE7) && changed prev new (u - 0xE0) && has_bit has (u - 0xE0)
        then is_down
        else b)
replay-bits u prev new has b is_down =
    replay-modifier_changes u prev new has b is_down bits
    ∙ ap (λ g. if g && changed prev new (u - 0xE0) && has_bit has (u - 0xE0) then is_down else b)
        (modifier_range u)

not_in_array :
    (u : ℕ) (keys : List ℕ)
    → All (λ k. k < 0xE0) keys
    → leb 0xE0 u && leb u 0xE7 ≡ true
    → among u keys ≡ false
not_in_array u keys h t = among-bound 0xE0 u keys (ground arith) h

-- Replaying the transitions of a report on the keys that were held gives the keys that the report
-- holds, for reports whose arrays have no usage from 0xE0 on: the modifiers are in the byte for them.
pub replay-diff :
    (sc : Device) (modifiers : ℕ) (keys : List ℕ) (u : ℕ)
    → All (λ k. k < 0xE0) sc.prev_keys
    → All (λ k. k < 0xE0) keys
    → replay u (held sc.prev_modifiers sc.prev_keys u) (diff sc modifiers keys)
      ≡ held modifiers keys u
unfolding held diff changed
replay-diff sc modifiers keys u h1 h2 =
    let prev : ℕ = sc.prev_modifiers in
    let b0 : Bool = held prev sc.prev_keys u in
    let l1 : List (ℕ × Bool) = modifier_changes prev modifiers prev false bits in
    let l2 : List (ℕ × Bool) = key_changes keys false sc.prev_keys in
    let l3 : List (ℕ × Bool) = modifier_changes prev modifiers modifiers true bits in
    let l4 : List (ℕ × Bool) = key_changes sc.prev_keys true keys in
    let b1 : Bool = replay u b0 l1 in
    let b2 : Bool = replay u b1 l2 in
    let b3 : Bool = replay u b2 l3 in
    let e1 = replay-bits u prev modifiers prev b0 false in
    let e2 = replay-key_changes u b1 false keys sc.prev_keys in
    let e3 = replay-bits u prev modifiers modifiers b2 true in
    let e4 = replay-key_changes u b3 true sc.prev_keys keys in
    let l : Bool = leb u 3 in
    let x : Bool = among u sc.prev_keys in
    let y : Bool = among u keys in
    let g : Bool = leb 0xE0 u && leb u 0xE7 in
    let c : Bool = changed prev modifiers (u - 0xE0) in
    let p : Bool = has_bit prev (u - 0xE0) in
    let m : Bool = has_bit modifiers (u - 0xE0) in
    let none : g ≡ true → (x ≡ false) × (y ≡ false) =
      λ t. (not_in_array u sc.prev_keys h1 t, not_in_array u keys h2 t) in
    replay-append u b0 l1 (l2 ++ (l3 ++ l4))
    ∙ replay-append u b1 l2 (l3 ++ l4)
    ∙ replay-append u b2 l3 l4
    ∙ e4
    ∙ ap (λ b. if not l && y && not x then true else b) e3
    ∙ ap (λ b. if not l && y && not x then true else if g && c && m then true else b) e2
    ∙ ap
        (λ b.
          if not l && y && not x
          then true
          else if g && c && m
          then true
          else if not l && x && not y
          then false
          else b)
        e1
    ∙ after_loops-settles g p m l x y none
