-- ===== src/Base/Lists.antt =====
-- Lists measured and indexed by native numbers, under the library's names, and memory as a list
-- of bytes: a `memcpy` into it is `blit`.
use Prim.Native.Nat.{ℕ, zero, suc, ◌+◌, ◌-◌, ◌≤◌, min}
use mathlib.Core.Path.{◌≡◌, refl, ap}
use mathlib.Core.List.{List, [], ◌∷◌, ◌++◌}
use native.Mathlib.Omega.{arith}

module _ {ℓ} {A : Type ℓ} where
  abbrev pub length : List A → ℕ
  length [] = 0
  length (x ∷ xs) = suc (length xs)

  abbrev pub take : ℕ → List A → List A
  take zero xs = []
  take (suc n) [] = []
  take (suc n) (x ∷ xs) = x ∷ take n xs

  abbrev pub drop : ℕ → List A → List A
  drop zero xs = xs
  drop (suc n) [] = []
  drop (suc n) (x ∷ xs) = drop n xs

  abbrev pub replicate : ℕ → A → List A
  replicate zero a = []
  replicate (suc n) a = a ∷ replicate n a

  -- A predicate on every entry, which computes to a tuple.
  abbrev pub All {κ} : (A → Type κ) → List A → Type κ
  All P [] = Unit
  All P (x ∷ xs) = P x × All P xs

  -- Overwrites the entries from an offset on; what lies past the end is not written.
  unfoldable pub blit : List A → ℕ → List A → List A
  blit [] off src = []
  blit (x ∷ xs) zero [] = x ∷ xs
  blit (x ∷ xs) zero (b ∷ bs) = b ∷ blit xs zero bs
  blit (x ∷ xs) (suc off) src = x ∷ blit xs off src

  pub length-append : (xs ys : List A) → length (xs ++ ys) ≡ length xs + length ys
  length-append [] ys = omega arith
  length-append (x ∷ xs) ys = omega (arith, length-append xs ys)

  pub length-take : (n : ℕ) (xs : List A) → length (take n xs) ≡ min n (length xs)
  length-take zero xs = omega arith
  length-take (suc n) [] = omega arith
  length-take (suc n) (x ∷ xs) = omega (arith, length-take n xs)

  pub length-drop : (n : ℕ) (xs : List A) → length (drop n xs) ≡ length xs - n
  length-drop zero xs = omega arith
  length-drop (suc n) [] = omega arith
  length-drop (suc n) (x ∷ xs) = omega (arith, length-drop n xs)

  pub length-replicate : (n : ℕ) (a : A) → length (replicate n a) ≡ n
  length-replicate zero a = refl
  length-replicate (suc n) a = ap suc (length-replicate n a)

  pub take-append : (xs ys : List A) → take (length xs) (xs ++ ys) ≡ xs
  take-append [] ys = refl
  take-append (x ∷ xs) ys = ap (◌∷◌ x) (take-append xs ys)

  pub drop-append : (xs ys : List A) → drop (length xs) (xs ++ ys) ≡ ys
  drop-append [] ys = refl
  drop-append (x ∷ xs) ys = drop-append xs ys

  pub length-blit : (xs : List A) (off : ℕ) (src : List A) → length (blit xs off src) ≡ length xs
  unfolding blit
  length-blit [] off src = refl
  length-blit (x ∷ xs) zero [] = refl
  length-blit (x ∷ xs) zero (b ∷ bs) = ap suc (length-blit xs zero bs)
  length-blit (x ∷ xs) (suc off) src = ap suc (length-blit xs off src)

  -- A write just past a prefix leaves the prefix.
  pub blit-append : (pre xs src : List A) → blit (pre ++ xs) (length pre) src ≡ pre ++ blit xs 0 src
  unfolding blit
  blit-append [] xs src = refl
  blit-append (p ∷ pre) xs src = ap (◌∷◌ p) (blit-append pre xs src)

  -- A write into fresh memory that has room leaves the rest as it was allocated.
  pub blit-replicate :
      (n k : ℕ) (a : A) (src : List A)
      → n ≡ length src + k
      → blit (replicate n a) 0 src ≡ src ++ replicate k a
  unfolding blit
  blit-replicate zero k a [] h = let e : 0 ≡ k = omega arith in ap (λ (m : ℕ). replicate m a) e
  blit-replicate zero k a (b ∷ bs) h = absurd (omega arith)
  blit-replicate (suc n) zero a [] h = absurd (omega arith)
  blit-replicate (suc n) (suc k) a [] h =
      let e : n ≡ k = omega arith in ap (λ (m : ℕ). a ∷ replicate m a) e
  blit-replicate (suc n) k a (b ∷ bs) h = ap (◌∷◌ b) (blit-replicate n k a bs (omega arith))

  -- A write within the list splits it in three: before, the bytes written, and behind.
  pub blit-take-drop :
      (xs : List A) (off : ℕ) (src : List A)
      → off + length src ≤ length xs
      → blit xs off src ≡ take off xs ++ (src ++ drop (off + length src) xs)
  unfolding blit
  blit-take-drop [] zero [] h = refl
  blit-take-drop [] zero (b ∷ bs) h = absurd (omega arith)
  blit-take-drop [] (suc off) src h = absurd (omega arith)
  blit-take-drop (x ∷ xs) zero [] h = refl
  blit-take-drop (x ∷ xs) zero (b ∷ bs) h =
      let e : 0 + suc (length bs) ≡ suc (0 + length bs) = omega arith in
      rw e (ap (◌∷◌ b) (blit-take-drop xs zero bs (omega arith)))
  blit-take-drop (x ∷ xs) (suc off) src h =
      let e : suc off + length src ≡ suc (off + length src) = omega arith in
      rw e (ap (◌∷◌ x) (blit-take-drop xs off src (omega arith)))

  pub take-prefix : (n : ℕ) (pre ys : List A) → length pre ≡ n → take n (pre ++ ys) ≡ pre
  take-prefix n pre ys e = rw (← e) (take-append pre ys)

  pub drop-prefix : (n : ℕ) (pre ys : List A) → length pre ≡ n → drop n (pre ++ ys) ≡ ys
  drop-prefix n pre ys e = rw (← e) (drop-append pre ys)

  pub drop-drop : (m n : ℕ) (xs : List A) → drop m (drop n xs) ≡ drop (n + m) xs
  drop-drop m zero xs = let e : 0 + m ≡ m = omega arith in rw e
  drop-drop m (suc n) [] = let e : suc n + m ≡ suc (n + m) = omega arith in rw e (drop-nil m)
    where
      drop-nil : (k : ℕ) → drop k [] ≡ []
      drop-nil zero = refl
      drop-nil (suc k) = refl
  drop-drop m (suc n) (x ∷ xs) =
      let e : suc n + m ≡ suc (n + m) = omega arith in rw e (drop-drop m n xs)

  pub All-append {κ} : (P : A → Type κ) (xs ys : List A) → All P xs → All P ys → All P (xs ++ ys)
  All-append P [] ys p q = q
  All-append P (x ∷ xs) ys p q = (p.0, All-append P xs ys p.1 q)
