-- ===== src/Base/Memory.antt =====
-- Reading and writing a buffer at an offset: what a store leaves of the bytes around it.
use Prim.Native.Nat.{ℕ, zero, suc, ◌+◌, ◌-◌, ◌*◌, ◌^◌, ◌≤◌, ◌<◌}
use mathlib.Core.Path.{◌≡◌, refl, ap, ◌∙◌, sym}
use mathlib.Core.Logic.{◌⊎◌, inl, inr}
use mathlib.Core.List.{List, [], ◌∷◌, ◌++◌, append_assoc}
use native.Mathlib.Omega.{arith}
use awase.Base.Lists.{
  length, take, drop, blit, replicate, blit-append, take-prefix, length-take, length-drop,
}
use awase.Base.Bytes.{put_le, get_le, length-put_le, get_le-put_le}

-- The `n` bytes of a buffer from an offset on.
abbrev pub slice : ℕ → ℕ → List ℕ → List ℕ
slice off n buf = take n (drop off buf)

-- The stores of the kernel's helpers: a little-endian number of `k` bytes, and a `memset` to 0.
abbrev pub store_le : ℕ → List ℕ → ℕ → ℕ → List ℕ
store_le k buf off v = blit buf off (put_le k v)

abbrev pub clear : List ℕ → ℕ → ℕ → List ℕ
clear buf off n = blit buf off (replicate n 0)

module _ {ℓ} {A : Type ℓ} where
  pub length-slice :
      (off n : ℕ) (xs : List A) → off + n ≤ length xs → length (take n (drop off xs)) ≡ n
  length-slice off n xs h = omega (arith, length-take n (drop off xs), length-drop off xs)

  blit-nothing : (xs : List A) (off : ℕ) → blit xs off [] ≡ xs
  unfolding blit
  blit-nothing [] off = refl
  blit-nothing (x ∷ xs) zero = refl
  blit-nothing (x ∷ xs) (suc off) = ap (◌∷◌ x) (blit-nothing xs off)

  -- What a store into a range that holds it makes of the range.
  take-blit :
      (n : ℕ) (xs : List A) (off : ℕ) (src : List A)
      → off + length src ≤ n
      → take n (blit xs off src) ≡ blit (take n xs) off src
  unfolding blit
  take-blit zero xs zero [] h = sym (blit-nothing [] zero)
  take-blit zero xs zero (b ∷ bs) h = absurd (omega arith)
  take-blit zero xs (suc off) src h = absurd (omega arith)
  take-blit (suc n) [] off src h = refl
  take-blit (suc n) (x ∷ xs) zero [] h = refl
  take-blit (suc n) (x ∷ xs) zero (b ∷ bs) h = ap (◌∷◌ b) (take-blit n xs zero bs (omega arith))
  take-blit (suc n) (x ∷ xs) (suc off) src h = ap (◌∷◌ x) (take-blit n xs off src (omega arith))

  pub take-all : (n : ℕ) (xs : List A) → length xs ≤ n → take n xs ≡ xs
  take-all zero [] h = refl
  take-all zero (x ∷ xs) h = absurd (omega arith)
  take-all (suc n) [] h = refl
  take-all (suc n) (x ∷ xs) h = ap (◌∷◌ x) (take-all n xs (omega arith))

  -- A store from an offset on leaves what is before it.
  take-blit_behind :
      (n : ℕ) (xs : List A) (off : ℕ) (src : List A)
      → n ≤ off
      → take n (blit xs off src) ≡ take n xs
  unfolding blit
  take-blit_behind zero xs off src h = refl
  take-blit_behind (suc n) [] off src h = refl
  take-blit_behind (suc n) (x ∷ xs) zero src h = absurd (omega arith)
  take-blit_behind (suc n) (x ∷ xs) (suc off) src h =
      ap (◌∷◌ x) (take-blit_behind n xs off src (omega arith))

  drop-blit_inside :
      (k : ℕ) (xs : List A) (off : ℕ) (src : List A)
      → drop k (blit xs (k + off) src) ≡ blit (drop k xs) off src
  unfolding blit
  drop-blit_inside zero xs off src = let e : 0 + off ≡ off = omega arith in rw e refl
  drop-blit_inside (suc k) [] off src = refl
  drop-blit_inside (suc k) (x ∷ xs) off src =
      let e : suc k + off ≡ suc (k + off) = omega arith in rw e (drop-blit_inside k xs off src)

  -- A store before an offset, or from it on, leaves what is behind, or before.
  pub drop-blit_before :
      (k : ℕ) (xs : List A) (off : ℕ) (src : List A)
      → off + length src ≤ k
      → drop k (blit xs off src) ≡ drop k xs
  unfolding blit
  drop-blit_before k [] off src h = refl
  drop-blit_before k (x ∷ xs) zero [] h = refl
  drop-blit_before zero (x ∷ xs) zero (b ∷ bs) h = absurd (omega arith)
  drop-blit_before (suc k) (x ∷ xs) zero (b ∷ bs) h = drop-blit_before k xs zero bs (omega arith)
  drop-blit_before zero (x ∷ xs) (suc off) src h = absurd (omega arith)
  drop-blit_before (suc k) (x ∷ xs) (suc off) src h = drop-blit_before k xs off src (omega arith)

  -- A store into a slice, behind it, and before it.
  pub slice-blit_inside :
      (base n : ℕ) (xs : List A) (off : ℕ) (src : List A)
      → off + length src ≤ n
      → take n (drop base (blit xs (base + off) src)) ≡ blit (take n (drop base xs)) off src
  slice-blit_inside base n xs off src h =
      rw (drop-blit_inside base xs off src) (take-blit n (drop base xs) off src h)

  pub slice-blit_behind :
      (base n : ℕ) (xs : List A) (off : ℕ) (src : List A)
      → base + n ≤ off
      → take n (drop base (blit xs off src)) ≡ take n (drop base xs)
  slice-blit_behind base n xs off src h =
      let e : off ≡ base + (off - base) = omega arith in
      rw (e, drop-blit_inside base xs (off - base) src)
        (take-blit_behind n (drop base xs) (off - base) src (omega arith))

  pub slice-blit_before :
      (base n : ℕ) (xs : List A) (off : ℕ) (src : List A)
      → off + length src ≤ base
      → take n (drop base (blit xs off src)) ≡ take n (drop base xs)
  slice-blit_before base n xs off src h = ap (take n) (drop-blit_before base xs off src h)

  -- A store at the start, and one just behind what is known of the bytes before it.
  pub blit-start :
      (xs src : List A) → length src ≤ length xs → blit xs 0 src ≡ src ++ drop (length src) xs
  unfolding blit
  blit-start [] [] h = refl
  blit-start [] (b ∷ bs) h = absurd (omega arith)
  blit-start (x ∷ xs) [] h = refl
  blit-start (x ∷ xs) (b ∷ bs) h = ap (◌∷◌ b) (blit-start xs bs (omega arith))

  pub blit-fill :
      (pre xs src : List A)
      → length src ≤ length xs
      → blit (pre ++ xs) (length pre) src ≡ (pre ++ src) ++ drop (length src) xs
  blit-fill pre xs src h =
      rw (blit-append pre xs src, blit-start xs src h)
        (sym (append_assoc pre src (drop (length src) xs)))

  -- A store just behind a part of a slice that is known.
  take-blit_next :
      (j k : ℕ) (xs src : List A)
      → length src ≡ k
      → j + k ≤ length xs
      → take (j + k) (blit xs j src) ≡ take j xs ++ src
  unfolding blit
  take-blit_next zero k xs src e h =
      let same : 0 + k ≡ length src = omega arith in
      rw (same, blit-start xs src (omega arith))
        (take-prefix (length src) src (drop (length src) xs) refl)
  take-blit_next (suc j) k [] src e h = absurd (omega arith)
  take-blit_next (suc j) k (x ∷ xs) src e h =
      let same : suc j + k ≡ suc (j + k) = omega arith in
      rw same (ap (◌∷◌ x) (take-blit_next j k xs src e (omega arith)))

  pub slice-extend :
      (base off j k n : ℕ) (buf pre src : List A)
      → off ≡ base + j
      → n ≡ j + k
      → length src ≡ k
      → base + n ≤ length buf
      → take j (drop base buf) ≡ pre
      → take n (drop base (blit buf off src)) ≡ pre ++ src
  slice-extend base off j k n buf pre src eo en es h e =
      rw (eo, en, drop-blit_inside base buf j src)
        (take-blit_next j k (drop base buf) src es (omega (arith, length-drop base buf))
          ∙ ap (λ p. p ++ src) e)

  -- A store of the whole slice.
  pub slice-blit_same :
      (base : ℕ) (xs src : List A)
      → base + length src ≤ length xs
      → take (length src) (drop base (blit xs base src)) ≡ src
  slice-blit_same base xs src h =
      let e : base ≡ base + 0 = omega arith in
      ap (λ (m : ℕ). take (length src) (drop base (blit xs m src))) e
      ∙ ap (take (length src)) (drop-blit_inside base xs 0 src)
      ∙ ap (take (length src)) (blit-start (drop base xs) src (omega (arith, length-drop base xs)))
      ∙ take-prefix (length src) src (drop (length src) (drop base xs)) refl

-- The number in a slice of the buffer.
pub get_le-take : (n m : ℕ) (xs : List ℕ) → n ≤ m → get_le n (take m xs) ≡ get_le n xs
unfolding get_le
get_le-take zero m xs h = refl
get_le-take (suc n) zero xs h = absurd (omega arith)
get_le-take (suc n) (suc m) [] h = refl
get_le-take (suc n) (suc m) (x ∷ xs) h =
    ap (λ (k : ℕ). x + 256 * k) (get_le-take n m xs (omega arith))

pub get_le-slice :
    (n off : ℕ) (xs ys : List ℕ)
    → slice off n xs ≡ slice off n ys
    → get_le n (drop off xs) ≡ get_le n (drop off ys)
get_le-slice n off xs ys e =
    sym (get_le-take n n (drop off xs) (omega arith))
    ∙ ap (get_le n) e
    ∙ get_le-take n n (drop off ys) (omega arith)

drop-store :
    (xs : List ℕ) (off : ℕ) (src : List ℕ) (k : ℕ)
    → length src ≡ k
    → off + k ≤ length xs
    → drop off (blit xs off src) ≡ src ++ drop k (drop off xs)
drop-store xs off src k e h =
    let same : off ≡ off + 0 = omega arith in
    ap (λ (m : ℕ). drop off (blit xs m src)) same
    ∙ drop-blit_inside off xs 0 src
    ∙ blit-start (drop off xs) src (omega (arith, length-drop off xs))
    ∙ ap (λ (m : ℕ). src ++ drop m (drop off xs)) e

-- What was stored in a field that the buffer has is read from it.
pub get_le-store_le :
    (k : ℕ) (buf : List ℕ) (off v : ℕ)
    → off + k ≤ length buf
    → v < 256 ^ k
    → get_le k (drop off (store_le k buf off v)) ≡ v
get_le-store_le k buf off v h hv =
    let e : length (put_le k v) ≡ k = length-put_le k v in
    let same : drop off (store_le k buf off v) ≡ put_le k v ++ drop k (drop off buf) =
      drop-store buf off (put_le k v) k e h in
    rw same (get_le-put_le k v (drop k (drop off buf)) hv)

-- A store elsewhere leaves a field.
pub get_le-blit_disjoint :
    (k at : ℕ) (buf : List ℕ) (off : ℕ) (src : List ℕ)
    → (off + length src ≤ at) ⊎ (at + k ≤ off)
    → get_le k (drop at (blit buf off src)) ≡ get_le k (drop at buf)
get_le-blit_disjoint k at buf off src (inl h) =
    get_le-slice k at (blit buf off src) buf (slice-blit_before at k buf off src h)
get_le-blit_disjoint k at buf off src (inr h) =
    get_le-slice k at (blit buf off src) buf (slice-blit_behind at k buf off src h)
