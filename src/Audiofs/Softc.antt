-- ===== src/Audiofs/Softc.antt =====
-- The state of a controller in audiofs.c (`struct audiofs_softc`), as far as playback needs it, with
-- what playback changes outside of it: the events that were published, the commands that were sent
-- to the codecs, the clock's page, and the bits of the hardware's registers that the driver sets.
use awase.Base.{
  ℕ, ◌+◌, ◌-◌, ◌/◌, ◌^◌, Bool, true, false, Option, none, some, List, ◌∷◌, leb, if◌then◌else◌,
}
use awase.Base.Bytes.{u32, u64}
use awase.Audiofs.Ring.{UserRing}
use awase.Audiofs.Codec.{Codec}

abbrev pub buf_bytes : ℕ
buf_bytes = 16384

abbrev pub bdl_entries : ℕ
bdl_entries = 4

-- An event of a stream, as it is handed to `audiofs_events_publish`.
pub record AudioEvent : Type 0 where
  pub source_role : ℕ
  pub event_type : ℕ
  pub endpoint_slot : ℕ
  pub flags : ℕ
  pub payload : List ℕ

pub data Command : Type 0 where
  set_conv_fmt : ℕ → ℕ → ℕ → Command
  set_conv_stream_chan : ℕ → ℕ → ℕ → Command

-- The bits of SDnSTS that the driver reads.
pub record Status : Type 0 where
  pub bcis : Bool
  pub fifoe : Bool
  pub dese : Bool

abbrev pub no_status : Status
no_status = record { bcis = false; fifoe = false; dese = false }

-- The clock's page: rate, valid, samples.
pub record ClockPage : Type 0 where
  pub rate : ℕ
  pub valid : Bool
  pub samples : ℕ

pub data Source : Type 0 where
  sine : Source
  user : Source

-- The frames of underruns that wait to be published, where the first was, and how many they are.
pub record Xruns : Type 0 where
  pub pending_frames : ℕ
  pub gap_pos : ℕ
  pub coalesced : ℕ

abbrev pub no_xruns : Xruns
no_xruns = record { pending_frames = 0; gap_pos = 0; coalesced = 0 }

-- The registers: the stream's interrupt in INTCTL with the global enables, and RUN with the
-- stream's own enables in SDnCTL, which are always written together.
pub record Regs : Type 0 where
  pub stream_interrupt : Bool
  pub running : Bool

-- The names are those of the source, without the prefix `output_stream_`. `live` has the addresses
-- of the DMA memory that was allocated and not freed, `dma` the bytes of the audio buffer.
pub record Softc : Type 0 where
  pub num_oss : ℕ
  pub codecs : List Codec
  pub configured : Bool
  pub stream_id : ℕ
  pub dac_cad : ℕ
  pub dac_nid : ℕ
  pub format_word : ℕ
  pub rate_hz : ℕ
  pub bdl_dma : Option ℕ
  pub buf_dma : Option ℕ
  pub live : List ℕ
  pub dma : List ℕ
  pub active : Bool
  pub last_sdsts : Status
  pub prev_lpib : ℕ
  pub next_refill_fragment : ℕ
  pub frames_played : ℕ
  pub clock_samples_total : ℕ
  pub endpoint_slot : ℕ
  pub source : Source
  pub ring : UserRing
  pub cdev_open : Bool
  pub underflow_count : ℕ
  pub refill_miss_count : ℕ
  pub refill_multi_count : ℕ
  pub xruns : Xruns
  pub regs : Regs
  pub clock : Option ClockPage
  pub events : List AudioEvent
  pub commands : List Command

-- Newest first.
unfoldable pub publish_event : AudioEvent → Softc → Softc
publish_event ev sc = record sc { events = ev ∷ sc.events }

unfoldable pub send_command : Command → Softc → Softc
send_command c sc = record sc { commands = c ∷ sc.commands }

-- Nothing is written where the page is not mapped.
unfoldable pub map_clock : (ClockPage → ClockPage) → Option ClockPage → Option ClockPage
map_clock f none = none
map_clock f (some page) = some (f page)

unfoldable pub clock_stream_begin : ℕ → Softc → Softc
unfolding map_clock
clock_stream_begin sample_rate sc = record sc {
  clock = map_clock (λ page. record page { rate = sample_rate; valid = true }) sc.clock;
}

unfoldable pub clock_update : Softc → Softc
unfolding map_clock
clock_update sc = record sc {
  clock = map_clock (λ page. record page { samples = sc.clock_samples_total }) sc.clock;
}

-- The bytes between two positions in the buffer, around its end.
unfoldable pub lpib_delta : ℕ → ℕ → ℕ
lpib_delta prev curr =
    if leb prev curr then curr - prev else u64 (u32 (buf_bytes + (2 ^ 32 - prev)) + curr)

-- The frames of such a move are added to both counters, and the clock is published.
unfoldable pub advance : ℕ → Softc → Softc
unfolding lpib_delta clock_update
advance curr_lpib sc =
    let frames = lpib_delta sc.prev_lpib curr_lpib / 4 in
    clock_update (record sc {
      frames_played = u64 (sc.frames_played + frames);
      clock_samples_total = u64 (sc.clock_samples_total + frames);
    })

-- Frames are added to the underruns that wait; the first keeps its position.
unfoldable pub add_xrun : ℕ → ℕ → Xruns → Xruns
add_xrun frames_played frames x = record {
  pending_frames = u32 (x.pending_frames + frames);
  gap_pos = (if leb 1 x.pending_frames then x.gap_pos else frames_played);
  coalesced = u32 (x.coalesced + 1);
}
