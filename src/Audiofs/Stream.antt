-- ===== src/Audiofs/Stream.antt =====
-- The life of a stream in audiofs.c: `audiofs_configure_output_stream`, `audiofs_stream_begin` and
-- `_end`, and the calls of /dev/audiofs<N> and of the test tone that make use of them. The addresses
-- that the allocations of DMA memory give are arguments, and so is the position that is read from
-- the hardware at the end. The state file is not part of the model.
pub mod Payloads
pub mod Position
pub mod Gaps
use awase.Base.{
  ℕ, zero, suc, ◌+◌, ◌-◌, ◌*◌, ◌/◌, ◌%◌, ◌^◌, Bool, true, false, not, ◌&&◌, ◌||◌, Option, none,
  some, List, [], ◌∷◌, ◌++◌, length, replicate, ltb, leb, ◌==◌, if◌then◌else◌,
}
use awase.Base.Bytes.{put_le, u32, u64}
use awase.Base.Indexed.{get_elem?}
use awase.Audiofs.Ring.{UserRing}
use awase.Audiofs.Format.{
  Masks, rate_to_format_word, psr_has_rate, psr_rate_mask, fmt_48khz_16bit_stereo,
}
use awase.Audiofs.Codec.{Codec, Choice, choose_dac}
use awase.Audiofs.Softc.{
  Softc, no_status, Source, sine, user, Xruns, no_xruns, AudioEvent, Command, set_conv_fmt,
  set_conv_stream_chan, publish_event, send_command, clock_stream_begin, advance,
}
use awase.Audiofs.Interrupt.{sine_frames, publish_xruns}

abbrev pub einval : ℕ
einval = 22

abbrev pub ebusy : ℕ
ebusy = 16

abbrev pub enxio : ℕ
enxio = 6

abbrev pub enomem : ℕ
enomem = 12

-- The addresses of a descriptor list and of a buffer, where the allocations succeed.
pub record Answers : Type 0 where
  pub bdl : Option ℕ
  pub buf : Option ℕ

-- An error, 0 for none, and the state.
abbrev pub Result : Type 0
Result = ℕ × Softc

unfoldable pub remove : ℕ → List ℕ → List ℕ
remove a [] = []
remove a (x ∷ xs) = if x == a then xs else x ∷ remove a xs

-- `audiofs_dma_free`, on what is live.
unfoldable pub dma_free : Option ℕ → List ℕ → List ℕ
unfolding remove
dma_free none live = live
dma_free (some a) live = remove a live

unfoldable pub allocate_buf : Option ℕ → ℕ → Softc → Result
unfolding dma_free sine_frames
allocate_buf none bdl sc =
    (enomem, record sc { buf_dma = none; bdl_dma = none; live = dma_free (some bdl) sc.live })
allocate_buf (some a) bdl sc = (
  0,
  record sc {
    buf_dma = some a;
    live = a ∷ sc.live;
    dma = sine_frames 4096 0;
    regs = record { stream_interrupt = sc.regs.stream_interrupt; running = false };
    configured = true;
    stream_id = 1;
  },
)

unfoldable pub allocate_bdl : Answers → Softc → Result
unfolding allocate_buf
allocate_bdl answers sc = elim answers.bdl [
  | none ↦ (enomem, record sc { bdl_dma = none })
  | some a ↦ allocate_buf answers.buf a (record sc { bdl_dma = some a; live = a ∷ sc.live })
]

unfoldable pub configure_output_stream : Answers → Softc → Result
unfolding allocate_bdl choose_dac
configure_output_stream answers sc =
    if ltb sc.num_oss 1 then (enxio, sc) else elim (choose_dac sc.codecs) [
      | none ↦ (enxio, sc)
      | some c ↦ allocate_bdl answers (record sc { dac_cad = c.cad; dac_nid = c.dac })
    ]

-- The rates of the codec of the converter in use. The address is 0 before one was chosen.
unfoldable pub output_dac_psr : Softc → ℕ
output_dac_psr sc = elim (get_elem? sc.codecs sc.dac_cad) [
  | none ↦ 0
  | some c ↦ c.supp_pcm_size_rate
]

unfoldable pub is_format : Masks → Softc → ℕ → ℕ → ℕ → Bool
unfolding rate_to_format_word psr_has_rate output_dac_psr
is_format masks sc format channels rate_hz =
    (channels == 2)
    && (elim (rate_to_format_word rate_hz) [ none ↦ false | some word ↦ format == word ]
        && psr_has_rate masks (output_dac_psr sc) rate_hz)

unfoldable pub begin_event : ℕ → ℕ → ℕ → ℕ → AudioEvent
begin_event stream_id format channels rate_hz = record {
  source_role = 1;
  event_type = 1;
  endpoint_slot = 0xffff;
  flags = 0;
  payload =
      put_le 4 stream_id
      ++ (put_le 2 format ++ (put_le 1 channels ++ (put_le 1 0 ++ put_le 4 rate_hz)));
}

-- What a stream's begin does once the stream is configured.
unfoldable pub start : ℕ → ℕ → ℕ → Softc → Softc
unfolding send_command publish_event clock_stream_begin begin_event
start format channels rate_hz sc =
    let sc1 = send_command (set_conv_fmt sc.dac_cad sc.dac_nid sc.format_word) sc in
    let sc2 = send_command (set_conv_stream_chan sc.dac_cad sc.dac_nid (sc.stream_id * 16)) sc1 in
    let sc3 = record sc2 {
      prev_lpib = 0;
      next_refill_fragment = 0;
      frames_played = 0;
      last_sdsts = no_status;
      endpoint_slot = 0xffff;
    } in
    let sc4 = publish_event (begin_event sc.stream_id format channels rate_hz) sc3 in
    let sc5 = clock_stream_begin rate_hz sc4 in
    record sc5 { active = true; regs = record { stream_interrupt = true; running = true } }

unfoldable pub stream_begin : Masks → Answers → ℕ → ℕ → ℕ → Softc → Result
unfolding is_format configure_output_stream start
stream_begin masks answers format channels rate_hz sc =
    let (err, sc') =
      configure_output_stream answers (record sc { format_word = format; rate_hz = rate_hz }) in
    if not (is_format masks sc format channels rate_hz)
    then (einval, sc)
    else if sc.active
    then (ebusy, sc)
    else if err == 0
    then (0, start format channels rate_hz sc')
    else (err, sc')

unfoldable pub end_event : ℕ → ℕ → ℕ → AudioEvent
end_event stream_id endpoint_slot frames_total = record {
  source_role = 1;
  event_type = 2;
  endpoint_slot = endpoint_slot;
  flags = 0;
  payload = put_le 4 stream_id ++ (put_le 4 0 ++ put_le 8 frames_total);
}

-- What the end of an active stream does: the underruns that wait are published, the interrupt and
-- the DMA are stopped, the frames up to the last position are counted, and the end is published.
unfoldable pub stop : ℕ → Softc → Softc
unfolding publish_xruns advance send_command publish_event end_event
stop final_lpib sc =
    let sc1 = publish_xruns sc.xruns (record sc { xruns = no_xruns; active = false }) in
    let sc2 = record sc1 { regs = record { stream_interrupt = false; running = false } } in
    let sc3 = advance final_lpib sc2 in
    let sc4 = send_command (set_conv_stream_chan sc.dac_cad sc.dac_nid 0) sc3 in
    publish_event (end_event sc.stream_id sc.endpoint_slot sc3.frames_played) sc4

unfoldable pub stream_end : ℕ → ℕ → Softc → Result
unfolding stop
stream_end final_lpib stream_id sc =
    if not sc.active
    then (enxio, sc)
    else if stream_id == sc.stream_id
    then (0, stop final_lpib sc)
    else (einval, sc)

unfoldable pub source_set : Source → Softc → Softc
source_set user sc = record sc {
  ring = record sc.ring { head = 0; tail = 0 };
  underflow_count = 0;
  refill_miss_count = 0;
  refill_multi_count = 0;
  source = user;
}
source_set sine sc = record sc { source = sine }

unfoldable pub cdev_open : Masks → Answers → Softc → Result
unfolding source_set stream_begin
cdev_open masks answers sc =
    let opened = source_set user (record sc { cdev_open = true }) in
    let (err, sc') = stream_begin masks answers fmt_48khz_16bit_stereo 2 48000 opened in
    if sc.cdev_open
    then (ebusy, sc)
    else if sc.active
    then (0, opened)
    else if err == 0
    then (0, sc')
    else (err, source_set sine (record sc' { cdev_open = false }))

-- The test tone takes over, or the stream ends.
unfoldable pub cdev_close : ℕ → ℕ → Softc → Result
unfolding source_set stream_end
cdev_close test_tone final_lpib sc =
    let closed = record sc { cdev_open = false } in
    if test_tone == 0
    then (0, (stream_end final_lpib sc.stream_id closed).1)
    else (0, source_set sine closed)
