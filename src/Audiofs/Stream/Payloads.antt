-- ===== src/Audiofs/Stream/Payloads.antt =====
-- The events of a stream that audiofs.c publishes, by the offsets that shared/AUDIO_EVENTS.md gives.
use awase.Base.{ℕ, ◌%◌, ◌≡◌, refl, List, [], ◌∷◌, arith, length}
use awase.Base.Bytes.{get_u32, get_u64, get_u16, put_le, get_le, u16, u32, u64}
use awase.Audiofs.Softc.{AudioEvent}
use awase.Audiofs.Stream.{begin_event, end_event}
use awase.Audiofs.Control.{format_change_event}

-- The newest event has this property.
abbrev pub Newest : (AudioEvent → Type 0) → List AudioEvent → Type 0
Newest P [] = ⊥
Newest P (ev ∷ evs) = P ev

-- A `stream_end`: the id of the stream at 0, the frames played at 8, 16 bytes in all.
pub record IsEnd (id frames : ℕ) (ev : AudioEvent) : Type 0 where
  role : ev.source_role ≡ 1
  named : ev.event_type ≡ 2
  stream : get_u32 ev.payload 0 ≡ u32 id
  played : get_u64 ev.payload 8 ≡ u64 frames
  size : length ev.payload ≡ 16

-- A `stream_begin`: the id of the stream at 0, the format at 4, the channels in the byte at 6, the rate
-- at 8, 12 bytes in all.
pub record IsBegin (id format channels rate_hz : ℕ) (ev : AudioEvent) : Type 0 where
  role : ev.source_role ≡ 1
  named : ev.event_type ≡ 1
  stream : get_u32 ev.payload 0 ≡ u32 id
  word : get_u16 ev.payload 4 ≡ u16 format
  count : get_u16 ev.payload 6 ≡ channels % 256
  rate : get_u32 ev.payload 8 ≡ u32 rate_hz
  size : length ev.payload ≡ 12

-- A `format_change`: the id of the stream at 0, the old format at 4, the new one at 6, the new rate at
-- 8, 12 bytes in all.
pub record IsFormatChange (id old_format new_format rate_hz : ℕ) (ev : AudioEvent) : Type 0 where
  role : ev.source_role ≡ 1
  named : ev.event_type ≡ 4
  stream : get_u32 ev.payload 0 ≡ u32 id
  old : get_u16 ev.payload 4 ≡ u16 old_format
  new : get_u16 ev.payload 6 ≡ u16 new_format
  rate : get_u32 ev.payload 8 ≡ u32 rate_hz
  size : length ev.payload ≡ 12

pub end_event-IsEnd :
    (id slot frames n : ℕ) → n ≡ u64 frames → IsEnd id frames (end_event id slot n)
unfolding end_event get_u32 get_u64 put_le get_le
end_event-IsEnd id slot frames n counted = record {
  role = refl;
  named = refl;
  stream = omega arith;
  played = omega arith;
  size = refl;
}

pub begin_event-IsBegin :
    (id format channels rate_hz : ℕ)
    → IsBegin id format channels rate_hz (begin_event id format channels rate_hz)
unfolding begin_event get_u16 get_u32 put_le get_le
begin_event-IsBegin id format channels rate_hz = record {
  role = refl;
  named = refl;
  stream = omega arith;
  word = omega arith;
  count = omega arith;
  rate = omega arith;
  size = refl;
}

pub format_change_event-IsFormatChange :
    (id old_format new_format rate_hz : ℕ)
    → IsFormatChange id old_format new_format rate_hz
        (format_change_event id old_format new_format rate_hz)
unfolding format_change_event get_u16 get_u32 put_le get_le
format_change_event-IsFormatChange id old_format new_format rate_hz = record {
  role = refl;
  named = refl;
  stream = omega arith;
  old = omega arith;
  new = omega arith;
  rate = omega arith;
  size = refl;
}
