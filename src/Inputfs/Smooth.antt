-- ===== src/Inputfs/Smooth.antt =====
-- inputfs_smooth.c of inputfs/sys/dev/inputfs: the exponential moving average that smooths pointer
-- coordinates.
pub mod Average
use awase.Base.{
  ℕ, zero, suc, ◌+◌, ◌-◌, ◌*◌, ◌/◌, ◌%◌, ◌^◌, Bool, true, false, not, ltb, leb, if◌then◌else◌,
}

-- Signed numbers: `negsuc n` is `-(n + 1)`.
pub data ℤ : Type 0 where
  pos : ℕ → ℤ
  negsuc : ℕ → ℤ

unfoldable pub difference : ℕ → ℕ → ℤ
difference m n = if leb n m then pos (m - n) else negsuc (n - m - 1)

infixl 65 ◌+ℤ◌
unfoldable pub ◌+ℤ◌ : ℤ → ℤ → ℤ
unfolding difference
pos m +ℤ pos n = pos (m + n)
pos m +ℤ negsuc n = difference m (n + 1)
negsuc m +ℤ pos n = difference n (m + 1)
negsuc m +ℤ negsuc n = negsuc (m + n + 1)

-- A product with a factor that is not negative.
unfoldable pub scale : ℕ → ℤ → ℤ
unfolding difference
scale a (pos n) = pos (a * n)
scale a (negsuc n) = difference 0 (a * (n + 1))

-- `>> 16` on a signed number.
unfoldable pub shift16 : ℤ → ℤ
shift16 (pos n) = pos (n / 2 ^ 16)
shift16 (negsuc n) = negsuc (n / 2 ^ 16)

-- `(int32_t)`
unfoldable pub to_i32 : ℤ → ℤ
to_i32 (pos n) = let r = n % 2 ^ 32 in if ltb r (2 ^ 31) then pos r else negsuc (2 ^ 32 - 1 - r)
to_i32 (negsuc n) = let r = n % 2 ^ 32 in if ltb r (2 ^ 31) then negsuc r else pos (2 ^ 32 - 1 - r)

abbrev pub q16_one : ℕ
q16_one = 0x10000

abbrev pub alpha_min : ℕ
alpha_min = 0xCC

abbrev pub alpha_max : ℕ
alpha_max = 0xFF34

-- struct inputfs_smooth_ema_state
pub record EmaState : Type 0 where
  pub prev : ℤ
  pub initialised : Bool

unfoldable pub ema_reset : EmaState → EmaState
ema_reset s = record { prev = pos 0; initialised = false }

-- The result is not negative, so it is kept without a sign.
unfoldable pub clamp_alpha : ℤ → ℕ
clamp_alpha (negsuc n) = alpha_min
clamp_alpha (pos n) =
    if ltb n alpha_min then alpha_min else if ltb alpha_max n then alpha_max else n

unfoldable pub ema_q16 : ℕ → ℤ → ℤ → ℤ
ema_q16 alpha in_px prev_px =
    to_i32 (shift16 (scale alpha in_px +ℤ scale (q16_one - alpha) prev_px))

unfoldable pub apply_ema : ℤ → ℤ → EmaState → ℤ × EmaState
apply_ema alpha in_px state =
    if not state.initialised
    then (in_px, record { prev = in_px; initialised = true })
    else let out_px = ema_q16 (clamp_alpha alpha) in_px state.prev in
      (out_px, record state { prev = out_px })
