-- ===== src/Audiofs/Control.antt =====
-- Further calls on a stream in audiofs.c: the ioctls of /dev/audiofs<N> that ask for and set the
-- format, the sysctl of the test tone, and what detaching a controller does to a stream. The state
-- file, which `audiofs_state_republish` writes, is not part of the model.
pub mod Lifecycle
pub mod Interrupts
pub mod Calls
pub mod Restart
pub mod Formats
use awase.Base.{
  ℕ, zero, suc, ◌+◌, ◌-◌, ◌*◌, ◌/◌, ◌%◌, ◌^◌, Bool, true, false, not, ◌&&◌, ◌||◌, Option, none,
  some, List, [], ◌∷◌, ◌++◌, map, ltb, leb, ◌==◌, if◌then◌else◌,
}
use awase.Base.Bytes.{put_le}
use awase.Audiofs.Ring.{UserRing}
use awase.Audiofs.Format.{
  Masks, rate_to_format_word, psr_has_rate, psr_rate_mask, fmt_48khz_16bit_stereo,
}
use awase.Audiofs.Softc.{Softc, AudioEvent, publish_event}
use awase.Audiofs.Stream.{
  Answers, Result, einval, output_dac_psr, stream_begin, stream_end, dma_free,
}

abbrev pub enotty : ℕ
enotty = 25

-- `struct audiofs_format`
pub record AudioFormat : Type 0 where
  pub rate_hz : ℕ
  pub format_word : ℕ
  pub bits : ℕ
  pub channels : ℕ
  pub supported_rates : ℕ

unfoldable pub get_format : Masks → Softc → AudioFormat
unfolding psr_rate_mask output_dac_psr
get_format masks sc = record {
  rate_hz = sc.rate_hz;
  format_word = sc.format_word;
  bits = 16;
  channels = 2;
  supported_rates = psr_rate_mask masks (output_dac_psr sc);
}

unfoldable pub format_change_event : ℕ → ℕ → ℕ → ℕ → AudioEvent
format_change_event stream_id old_format new_format new_rate_hz = record {
  source_role = 1;
  event_type = 4;
  endpoint_slot = 0xffff;
  flags = 0;
  payload =
      put_le 4 stream_id ++ (put_le 2 old_format ++ (put_le 2 new_format ++ put_le 4 new_rate_hz));
}

abbrev pub flush : Softc → Softc
flush sc = record sc { ring = record sc.ring { head = sc.ring.tail } }

-- The stream at the new rate, or, where that fails, at the one from before.
unfoldable pub restart : Masks → Answers → Answers → ℕ → ℕ → Softc → Result
unfolding stream_begin publish_event format_change_event
restart masks answers again new_word rate_hz sc =
    let (err, sc') = stream_begin masks answers new_word 2 rate_hz sc in
    if err == 0
    then (0, publish_event (format_change_event sc'.stream_id sc.format_word new_word rate_hz) sc')
    else (err, (stream_begin masks again sc.format_word 2 sc.rate_hz sc').1)

unfoldable pub reconfigure : Masks → Answers → Answers → ℕ → ℕ → ℕ → Softc → Result
unfolding restart stream_end
reconfigure masks answers again final_lpib new_word rate_hz sc =
    let (err, sc') = stream_end final_lpib sc.stream_id (flush sc) in
    if err == 0 then restart masks answers again new_word rate_hz sc' else (err, sc')

unfoldable pub set_format : Masks → Answers → Answers → ℕ → AudioFormat → Softc → Result
unfolding reconfigure rate_to_format_word psr_has_rate output_dac_psr
set_format masks answers again final_lpib f sc =
    if not ((f.bits == 16) && (f.channels == 2))
    then (einval, sc)
    else elim (rate_to_format_word f.rate_hz) [
      | none ↦ (einval, sc)
      | some new_word ↦
          if not (psr_has_rate masks (output_dac_psr sc) f.rate_hz)
          then (einval, sc)
          else if f.rate_hz == sc.rate_hz
          then (0, sc)
          else reconfigure masks answers again final_lpib new_word f.rate_hz sc
    ]

-- One controller follows the test tone, unless a consumer has its device open.
unfoldable pub toggle : Masks → Answers → ℕ → ℕ → Softc → Softc
unfolding stream_begin stream_end
toggle masks answers final_lpib newval sc =
    if sc.cdev_open
    then sc
    else if not (newval == 0) && not sc.active
    then (stream_begin masks answers fmt_48khz_16bit_stereo 2 48000 sc).1
    else if (newval == 0) && sc.active
    then (stream_end final_lpib sc.stream_id sc).1
    else sc

unfoldable pub toggle_all : Masks → ℕ → List (Answers × ℕ × Softc) → List Softc
unfolding toggle
toggle_all masks newval [] = []
toggle_all masks newval ((answers, lpib, sc) ∷ rest) =
    toggle masks answers lpib newval sc ∷ toggle_all masks newval rest

-- The tone's variable, of the controllers with what a begin and an end on them meet; they follow where
-- the tone goes on or off.
unfoldable pub sysctl_test_tone : Masks → ℕ → ℕ → List (Answers × ℕ × Softc) → ℕ × List Softc
unfolding toggle_all
sysctl_test_tone masks prev newval controllers =
    let same = if prev == 0 then newval == 0 else not (newval == 0) in
    (newval, if same then map (λ c. c.2) controllers else toggle_all masks newval controllers)

-- `audiofs_detach`, as far as the stream goes: it is ended, and its memory is freed.
unfoldable pub free_stream : Softc → Softc
unfolding dma_free
free_stream sc =
    if sc.configured
    then record sc {
      live = dma_free sc.bdl_dma (dma_free sc.buf_dma sc.live);
      buf_dma = none;
      bdl_dma = none;
      configured = false;
    }
    else sc

unfoldable pub detach_stream : ℕ → Softc → Softc
unfolding stream_end free_stream
detach_stream final_lpib sc =
    free_stream (if sc.active then (stream_end final_lpib sc.stream_id sc).1 else sc)
