-- ===== src/Inputfs/Tests.antt =====
-- Runs of the pointer smoothing at concrete inputs, and the theorems applied at such inputs.
mod Rings
mod Keyboards
mod Digitizers
mod States
mod Reports
use awase.Base.{◌+◌, ◌≡◌, refl, arith}
use awase.Inputfs.Smooth.{
  pos, negsuc, scale, shift16, to_i32, difference, ◌+ℤ◌, ema_q16, apply_ema, clamp_alpha,
}
use awase.Inputfs.Smooth.Average.{
  Between, started, after_samples, apply_ema-Between, apply_ema-stalls, ema_q16-arrives,
}

-- Half way from -10 to 21, rounded down.
averages : ema_q16 32768 (pos 21) (negsuc 9) ≡ pos 5
unfolding ema_q16 scale shift16 to_i32 difference ◌+ℤ◌
averages = refl

apply_ema-Between_example :
    let (out, state) = apply_ema (pos 40000) (pos 21) (started (negsuc 9)) in
    Between (pos 21) (negsuc 9) out × (state ≡ started out)
apply_ema-Between_example =
    apply_ema-Between (pos 40000) (pos 21) (negsuc 9) (omega arith) (omega arith)

ema_q16-arrives_example : after_samples 321 204 (pos 100) (pos 421) ≡ pos 100
ema_q16-arrives_example =
    ema_q16-arrives 321 204 100 421 (omega arith) (omega arith) (omega arith) (omega arith)
      (omega arith)
