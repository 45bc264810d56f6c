-- ===== src/Audiofs/Format.antt =====
-- The formats of audiofs.c: the word that the hardware takes for a rate, and the rates that a
-- converter advertises. `Masks` are the bits of HDA_PARAM_SUPP_PCM_SIZE_RATE of the kernel's header.
use awase.Base.{ℕ, ◌+◌, Bool, false, not, Option, none, some, ◌==◌, if◌then◌else◌}
use Prim.Native.Nat.{bit_and}

pub record Masks : Type 0 where
  pub khz32 : ℕ
  pub khz44 : ℕ
  pub khz48 : ℕ

abbrev pub fmt_48khz_16bit_stereo : ℕ
fmt_48khz_16bit_stereo = 0x0011

-- Sixteen bits and two channels; none is EINVAL.
unfoldable pub rate_to_format_word : ℕ → Option ℕ
rate_to_format_word rate_hz =
    if rate_hz == 48000
    then some 0x0011
    else if rate_hz == 44100
    then some 0x4011
    else if rate_hz == 32000
    then some 0x0A11
    else none

abbrev pub has_bits : ℕ → ℕ → Bool
has_bits psr mask = not (bit_and psr mask == 0)

unfoldable pub psr_has_rate : Masks → ℕ → ℕ → Bool
psr_has_rate masks psr rate_hz =
    if rate_hz == 48000
    then has_bits psr masks.khz48
    else if rate_hz == 44100
    then has_bits psr masks.khz44
    else if rate_hz == 32000
    then has_bits psr masks.khz32
    else false

-- The mask of AUDIOFS_RATE_32000, _44100 and _48000.
unfoldable pub psr_rate_mask : Masks → ℕ → ℕ
psr_rate_mask masks psr =
    (if has_bits psr masks.khz32 then 1 else 0)
    + (if has_bits psr masks.khz44 then 2 else 0)
    + (if has_bits psr masks.khz48 then 4 else 0)
