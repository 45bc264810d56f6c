-- ===== src/Base/Indexed.antt =====
-- The entry at an index of a list, and of the lists that a store or a copy makes.
use Prim.Native.Nat.{ℕ, zero, suc, ◌+◌, ◌-◌, ◌≤◌, ◌<◌}
use mathlib.Core.Path.{◌≡◌, refl, ap, ◌∙◌, sym}
use mathlib.Core.Logic.{◌⊎◌, inl, inr}
use mathlib.Core.Option.{Option, none, some}
use mathlib.Core.List.{List, [], ◌∷◌, ◌++◌}
use native.Mathlib.Omega.{arith}
use awase.Base.Lists.{length, take, drop, blit}

module _ {ℓ} {A : Type ℓ} where
  abbrev pub get_elem? : List A → ℕ → Option A
  get_elem? [] i = none
  get_elem? (x ∷ xs) zero = some x
  get_elem? (x ∷ xs) (suc i) = get_elem? xs i

  pub get_elem?-blit_inside :
      (xs : List A) (off : ℕ) (src : List A) (j : ℕ)
      → off ≤ j
      → j < off + length src
      → off + length src ≤ length xs
      → get_elem? (blit xs off src) j ≡ get_elem? src (j - off)
  unfolding blit
  get_elem?-blit_inside [] off src j h1 h2 h3 = absurd (omega arith)
  get_elem?-blit_inside (x ∷ xs) zero [] j h1 h2 h3 = absurd (omega arith)
  get_elem?-blit_inside (x ∷ xs) zero (b ∷ bs) zero h1 h2 h3 = refl
  get_elem?-blit_inside (x ∷ xs) zero (b ∷ bs) (suc j) h1 h2 h3 =
      let e : suc j - 0 ≡ suc j = omega arith in
      let e' : j - 0 ≡ j = omega arith in
      get_elem?-blit_inside xs zero bs j (omega arith) (omega arith) (omega arith)
      ∙ ap (get_elem? bs) e'
      ∙ sym (ap (get_elem? (b ∷ bs)) e)
  get_elem?-blit_inside (x ∷ xs) (suc off) src zero h1 h2 h3 = absurd (omega arith)
  get_elem?-blit_inside (x ∷ xs) (suc off) src (suc j) h1 h2 h3 =
      let e : suc j - suc off ≡ j - off = omega arith in
      rw e (get_elem?-blit_inside xs off src j (omega arith) (omega arith) (omega arith))

  pub get_elem?-blit_outside :
      (xs : List A) (off : ℕ) (src : List A) (j : ℕ)
      → (j < off) ⊎ (off + length src ≤ j)
      → get_elem? (blit xs off src) j ≡ get_elem? xs j
  unfolding blit
  get_elem?-blit_outside [] off src j o = refl
  get_elem?-blit_outside (x ∷ xs) zero [] j o = refl
  get_elem?-blit_outside (x ∷ xs) zero (b ∷ bs) zero o = elim o [
    | inl h ↦ absurd (omega arith)
    | inr h ↦ absurd (omega arith)
  ]
  get_elem?-blit_outside (x ∷ xs) zero (b ∷ bs) (suc j) o = elim o [
    | inl h ↦ absurd (omega arith)
    | inr h ↦ get_elem?-blit_outside xs zero bs j (inr (omega arith))
  ]
  get_elem?-blit_outside (x ∷ xs) (suc off) src zero o = refl
  get_elem?-blit_outside (x ∷ xs) (suc off) src (suc j) o = elim o [
    | inl h ↦ get_elem?-blit_outside xs off src j (inl (omega arith))
    | inr h ↦ get_elem?-blit_outside xs off src j (inr (omega arith))
  ]

  pub get_elem?-drop :
      (n : ℕ) (xs : List A) (i : ℕ) → get_elem? (drop n xs) i ≡ get_elem? xs (n + i)
  get_elem?-drop zero xs i = let e : 0 + i ≡ i = omega arith in rw e
  get_elem?-drop (suc n) [] i = refl
  get_elem?-drop (suc n) (x ∷ xs) i =
      let e : suc n + i ≡ suc (n + i) = omega arith in rw e (get_elem?-drop n xs i)

  pub get_elem?-take :
      (n : ℕ) (xs : List A) (i : ℕ) → i < n → get_elem? (take n xs) i ≡ get_elem? xs i
  get_elem?-take zero xs i h = absurd (omega arith)
  get_elem?-take (suc n) [] i h = refl
  get_elem?-take (suc n) (x ∷ xs) zero h = refl
  get_elem?-take (suc n) (x ∷ xs) (suc i) h = get_elem?-take n xs i (omega arith)

  pub get_elem?-append_left :
      (xs ys : List A) (i : ℕ) → i < length xs → get_elem? (xs ++ ys) i ≡ get_elem? xs i
  get_elem?-append_left [] ys i h = absurd (omega arith)
  get_elem?-append_left (x ∷ xs) ys zero h = refl
  get_elem?-append_left (x ∷ xs) ys (suc i) h = get_elem?-append_left xs ys i (omega arith)

  pub get_elem?-append_right :
      (xs ys : List A) (i : ℕ)
      → length xs ≤ i
      → get_elem? (xs ++ ys) i ≡ get_elem? ys (i - length xs)
  get_elem?-append_right [] ys i h = let e : i - 0 ≡ i = omega arith in rw e
  get_elem?-append_right (x ∷ xs) ys zero h = absurd (omega arith)
  get_elem?-append_right (x ∷ xs) ys (suc i) h =
      let e : suc i - suc (length xs) ≡ i - length xs = omega arith in
      rw e (get_elem?-append_right xs ys i (omega arith))

  -- Lists of a length that have the same entries.
  pub list_ext :
      (xs ys : List A)
      → length xs ≡ length ys
      → ((i : ℕ) → i < length xs → get_elem? xs i ≡ get_elem? ys i)
      → xs ≡ ys
  list_ext [] [] e h = refl
  list_ext [] (y ∷ ys) e h = absurd (omega arith)
  list_ext (x ∷ xs) [] e h = absurd (omega arith)
  list_ext (x ∷ xs) (y ∷ ys) e h =
      let heads : some x ≡ some y = h 0 (omega arith) in
      let tails : xs ≡ ys = list_ext xs ys (omega arith) (λ i below. h (suc i) (omega arith)) in
      let same : x ≡ y = cc in λ i. same i ∷ tails i
