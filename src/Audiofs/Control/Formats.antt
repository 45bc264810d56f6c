-- ===== src/Audiofs/Control/Formats.antt =====
-- Setting a format in audiofs.c, for the rates that asking for the format lists.
use awase.Base.{ℕ, ◌+◌, ◌/◌, ◌%◌, ◌≡◌, Bool, true, false, some, ◌==◌, if◌then◌else◌}
use awase.Audiofs.Format.{Masks, rate_to_format_word, psr_has_rate}
use awase.Audiofs.Softc.{Softc}
use awase.Audiofs.Control.{AudioFormat}

-- Whether a format lists a rate: the bits are those of 32000, 44100 and 48000 Hz, from the least on.
abbrev pub is_listed : AudioFormat → ℕ → Bool
is_listed f rate_hz =
    if rate_hz == 32000
    then f.supported_rates % 2 == 1
    else if rate_hz == 44100
    then f.supported_rates / 2 % 2 == 1
    else if rate_hz == 48000
    then f.supported_rates / 4 % 2 == 1
    else false

-- The word of a rate, and that the converter has it.
abbrev pub Known : Masks → ℕ → ℕ → Type 0
Known masks psr rate_hz =
    (word : ℕ) × (rate_to_format_word rate_hz ≡ some word) × (psr_has_rate masks psr rate_hz ≡ true)

rate_mask : Bool → Bool → Bool → ℕ
rate_mask a b c = (if a then 1 else 0) + (if b then 2 else 0) + (if c then 4 else 0)
