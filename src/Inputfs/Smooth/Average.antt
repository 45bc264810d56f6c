-- ===== src/Inputfs/Smooth/Average.antt =====
-- inputfs_smooth.c: where the exponential moving average goes.
use awase.Base.{
  ℕ, zero, suc, ◌+◌, ◌-◌, ◌*◌, ◌/◌, ◌^◌, ◌≤◌, ◌<◌, ◌≡◌, refl, arith, ◌⊎◌, inl, inr, true, ltb, leb,
  Bool-cases, ap, sym, ◌∙◌,
}
use awase.Inputfs.Smooth.{
  ℤ, pos, negsuc, ◌+ℤ◌, difference, scale, shift16, to_i32, ema_q16, apply_ema, clamp_alpha,
  EmaState,
}

abbrev pub IsI32 : ℤ → Type 0
IsI32 (pos n) = n < 2 ^ 31
IsI32 (negsuc n) = n < 2 ^ 31

abbrev pub Le : ℤ → ℤ → Type 0
Le (pos m) (pos n) = m ≤ n
Le (pos m) (negsuc n) = ⊥
Le (negsuc m) (pos n) = Unit
Le (negsuc m) (negsuc n) = n ≤ m

-- A number lies between two others, whichever is the lower.
abbrev pub Between : ℤ → ℤ → ℤ → Type 0
Between x y z = (Le x z × Le z y) ⊎ (Le y z × Le z x)

products :
    (a b m n : ℕ)
    → a + b ≡ 65536
    → m ≤ n
    → (65536 * m ≤ a * m + b * n)
      × (a * m + b * n ≤ 65536 * n)
      × (65536 * m ≤ a * n + b * m)
      × (a * n + b * m ≤ 65536 * n)
products a b m n rest le =
    let low : (a + b) * m ≡ a * m + b * m = grind arith in
    let high : (a + b) * n ≡ a * n + b * n = grind arith in
    let first : a * m ≤ a * n = grind arith in
    let second : b * m ≤ b * n = grind arith in
    let low' : 65536 * m ≡ a * m + b * m = ap (λ (k : ℕ). k * m) (sym rest) ∙ low in
    let high' : 65536 * n ≡ a * n + b * n = ap (λ (k : ℕ). k * n) (sym rest) ∙ high in
    (omega arith, omega arith, omega arith, omega arith)

below : (a b m : ℕ) → a + b ≡ 65536 → a * m ≤ 65536 * m × b * m ≤ 65536 * m
below a b m rest = (grind arith, grind arith)

-- The halves of the average, of the same sign and of different signs.
same_sign :
    (a b m n : ℕ)
    → a + b ≡ 65536
    → m < 2 ^ 31
    → n < 2 ^ 31
    → Between (pos m) (pos n) (to_i32 (shift16 (pos (a * m + b * n))))
unfolding shift16 to_i32
same_sign a b m n rest fm fn = elim (Bool-cases (leb m n)) [
  | inl le ↦ ground (arith, products a b m n rest)
  | inr gt ↦ ground (arith, products b a n m)
]

mixed :
    (a b m n : ℕ)
    → a + b ≡ 65536
    → m < 2 ^ 31
    → n < 2 ^ 31
    → Le (negsuc n) (to_i32 (shift16 (difference (a * m) (b * (n + 1)))))
      × Le (to_i32 (shift16 (difference (a * m) (b * (n + 1))))) (pos m)
unfolding shift16 to_i32 difference
mixed a b m n rest fm fn = ground (arith, below a b m rest, below a b (n + 1) rest)

both_negative :
    (a b m n k : ℕ)
    → a + b ≡ 65536
    → m < 2 ^ 31
    → n < 2 ^ 31
    → k + 1 ≡ a * (m + 1) + b * (n + 1)
    → Between (negsuc m) (negsuc n) (to_i32 (shift16 (negsuc k)))
unfolding shift16 to_i32
both_negative a b m n k rest fm fn e = elim (Bool-cases (leb m n)) [
  | inl le ↦ ground (arith, products a b (m + 1) (n + 1) rest)
  | inr gt ↦ ground (arith, products b a (n + 1) (m + 1))
]

add_pos_neg : (x y : ℕ) → pos x +ℤ difference 0 y ≡ difference x y
unfolding ◌+ℤ◌ difference
add_pos_neg x zero = ground arith
add_pos_neg x (suc y) = ground arith

add_neg_pos : (x y : ℕ) → difference 0 x +ℤ pos y ≡ difference y x
unfolding ◌+ℤ◌ difference
add_neg_pos zero y = ground arith
add_neg_pos (suc x) y = ground arith

add_neg_neg : (x y k : ℕ) → k + 1 ≡ x + y → difference 0 x +ℤ difference 0 y ≡ negsuc k
unfolding ◌+ℤ◌ difference
add_neg_neg zero zero k e = absurd (omega arith)
add_neg_neg zero (suc y) k e = ground arith
add_neg_neg (suc x) zero k e = ground arith
add_neg_neg (suc x) (suc y) k e = ground arith

-- One step of the average, with a factor of at most one and numbers of 32 bits, lies between the
-- input and the previous output: it neither overshoots nor wraps.
pub ema_q16-Between :
    (a : ℕ) (x y : ℤ) → a ≤ 65536 → IsI32 x → IsI32 y → Between x y (ema_q16 a x y)
unfolding ema_q16 scale
ema_q16-Between a (pos m) (pos n) h fx fy =
    unfold ◌+ℤ◌ in same_sign a (65536 - a) m n (omega arith) fx fy
ema_q16-Between a (pos m) (negsuc n) h fx fy =
    rw (add_pos_neg (a * m) ((65536 - a) * (n + 1)))
      (inr (mixed a (65536 - a) m n (omega arith) fx fy))
ema_q16-Between a (negsuc m) (pos n) h fx fy =
    let (low, high) = mixed (65536 - a) a n m (omega arith) fy fx in
    rw (add_neg_pos (a * (m + 1)) ((65536 - a) * n)) (inl (low, high))
ema_q16-Between a (negsuc m) (negsuc n) h fx fy =
    let x = a * (m + 1) in
    let y = (65536 - a) * (n + 1) in
    let some' : 1 ≤ x + y = elim (Bool-cases (leb m n)) [
      | inl le ↦ ground (arith, products a (65536 - a) (m + 1) (n + 1))
      | inr gt ↦ ground (arith, products (65536 - a) a (n + 1) (m + 1))
    ] in
    let k = x + y - 1 in
    let e : k + 1 ≡ x + y = omega arith in
    rw (add_neg_neg x y k e) (both_negative a (65536 - a) m n k (omega arith) fx fy e)

-- An average that has been started.
abbrev pub started : ℤ → EmaState
started z = record { prev = z; initialised = true }

clamp_alpha-small : (z : ℤ) → clamp_alpha z ≤ 65536
unfolding clamp_alpha
clamp_alpha-small (pos n) = ground arith
clamp_alpha-small (negsuc n) = omega arith

-- The whole of one sample, with an average that has been started and numbers of 32 bits: the output
-- lies between the input and the previous output, whatever factor was published, and is kept.
pub apply_ema-Between :
    (alpha x y : ℤ)
    → IsI32 x
    → IsI32 y
    → let (out, state) = apply_ema alpha x (started y) in Between x y out × (state ≡ started out)
unfolding apply_ema
apply_ema-Between alpha x y fx fy =
    (ema_q16-Between (clamp_alpha alpha) x y (clamp_alpha-small alpha) fx fy, refl)

ema_q16-stalls :
    (a b p d : ℕ)
    → a + b ≡ 65536
    → a * d < 65536
    → p + d < 2 ^ 31
    → ema_q16 a (pos (p + d)) (pos p) ≡ pos p
unfolding ema_q16 scale ◌+ℤ◌ shift16 to_i32
ema_q16-stalls a b p d rest close fits =
    let b' : 65536 - a ≡ b = omega arith in
    let parts : a * (p + d) + b * p ≡ (a + b) * p + a * d = grind arith in
    let whole : (a + b) * p ≡ 65536 * p = ap (λ (k : ℕ). k * p) rest in
    let quotient : (a * (p + d) + (65536 - a) * p) / 2 ^ 16 ≡ p = rw b' (omega arith) in
    rw quotient (ground arith)

-- An input that lies above the average by less than 65536 / a, a being the clamped factor, does not
-- move it at all: the average of a pointer that moves to larger coordinates and rests stays short
-- of it for ever. This is for coordinates that are not negative and fit into 32 bits.
pub apply_ema-stalls :
    (alpha : ℤ) (p d : ℕ)
    → clamp_alpha alpha * d < 65536
    → p + d < 2 ^ 31
    → apply_ema alpha (pos (p + d)) (started (pos p)) ≡ (pos p, started (pos p))
unfolding apply_ema
apply_ema-stalls alpha p d close fits =
    let a = clamp_alpha alpha in
    let rest : a + (65536 - a) ≡ 65536 = omega (arith, clamp_alpha-small alpha) in
    ap (λ (z : ℤ). (z, started z)) (ema_q16-stalls a (65536 - a) p d rest close fits)

-- The average after a number of samples of the same input.
abbrev pub after_samples : ℕ → ℕ → ℤ → ℤ → ℤ
after_samples zero a x y = y
after_samples (suc n) a x y = after_samples n a x (ema_q16 a x y)

strict : (a b p q : ℕ) → a + b ≡ 65536 → 1 ≤ a → p < q → a * p + b * q < 65536 * q
strict a b p q rest one less =
    let both : (a + b) * q ≡ a * q + b * q = grind arith in
    let whole : (a + b) * q ≡ 65536 * q = ap (λ (k : ℕ). k * q) rest in
    let more : a * p + a ≤ a * q = grind arith in omega arith

step_down :
    (a p q : ℕ)
    → 1 ≤ a
    → a ≤ 65536
    → p ≤ q
    → q < 2 ^ 31
    → (r : ℕ) × (ema_q16 a (pos p) (pos q) ≡ pos r) × (p ≤ r) × ((r ≤ p) ⊎ (r < q))
unfolding ema_q16 scale ◌+ℤ◌ shift16 to_i32
step_down a p q one h le fits =
    let b = 65536 - a in
    let rest : a + b ≡ 65536 = omega arith in
    let (low, high, _, _) = products a b p q rest le in
    let gap : (p < q) → a * p + b * q < 65536 * q = λ less. strict a b p q rest one less in
    let r = (a * p + b * q) / 2 ^ 16 in
    (
      r,
      ground arith,
      omega arith,
      elim (Bool-cases (ltb p q)) [
        | inl less ↦ inr (omega (arith, gap (ground arith)))
        | inr same ↦ inl (ground arith)
      ],
    )

-- From above the average arrives: at the latest after as many samples as it has pixels to go.
pub ema_q16-arrives :
    (n a p q : ℕ)
    → 1 ≤ a
    → a ≤ 65536
    → p ≤ q
    → q ≤ p + n
    → q < 2 ^ 31
    → after_samples n a (pos p) (pos q) ≡ pos p
ema_q16-arrives zero a p q one h le close fits = let e : q ≡ p = omega arith in ap pos e
ema_q16-arrives (suc n) a p q one h le close fits =
    let (r, stepped, low, high) = step_down a p q one h le fits in
    rw stepped (
      ema_q16-arrives n a p r one h low
        (elim high [ inl there ↦ omega arith | inr less ↦ omega arith ])
        (elim high [ inl there ↦ omega arith | inr less ↦ omega arith ]))
