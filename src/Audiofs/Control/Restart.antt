-- ===== src/Audiofs/Control/Restart.antt =====
-- Ending a stream of audiofs.c and beginning it anew, where its allocations succeed.
use awase.Base.{
  ℕ, ◌+◌, ◌/◌, ◌≤◌, ◌≡◌, refl, ap, inl, inr, true, false, not, none, some, List, ◌∷◌, ltb, ◌==◌,
  if◌then◌else◌, if_split, Bool-cases, arith, ◌⊎◌,
}
use awase.Base.Indexed.{get_elem?}
use awase.Audiofs.Codec.{Choice, choose_dac}
use awase.Audiofs.Format.{Masks, rate_to_format_word, psr_has_rate}
use awase.Audiofs.Softc.{
  Softc, Xruns, no_xruns, AudioEvent, publish_event, send_command, clock_stream_begin, advance,
  clock_update, lpib_delta,
}
use awase.Audiofs.Interrupt.{publish_xruns}
use awase.Audiofs.Stream.{
  Answers, allocate_buf, allocate_bdl, configure_output_stream, is_format, start, begin_event,
  stream_begin, stop, stream_end, output_dac_psr,
}
use awase.Audiofs.Stream.Payloads.{
  IsBegin, IsEnd, IsFormatChange, begin_event-IsBegin, end_event-IsEnd,
  format_change_event-IsFormatChange,
}
use awase.Audiofs.Control.{format_change_event, flush, restart, reconfigure}

-- What configuring leaves as it was, where the allocations succeed.
record Configures (sc : Softc) (r : ℕ × Softc) : Type 0 where
  done : r.0 ≡ 0
  format_word : r.1.format_word ≡ sc.format_word
  rate_hz : r.1.rate_hz ≡ sc.rate_hz
  events : r.1.events ≡ sc.events

configure-Configures :
    (bdl buf : ℕ) (sc : Softc) (c : Choice)
    → 1 ≤ sc.num_oss
    → choose_dac sc.codecs ≡ some c
    → Configures sc (configure_output_stream (record { bdl = some bdl; buf = some buf }) sc)
unfolding configure_output_stream allocate_bdl allocate_buf
configure-Configures bdl buf sc c has_stream chosen =
    let enough : ltb sc.num_oss 1 ≡ false = ground arith in
    rw (enough, chosen) (record { done = refl; format_word = refl; rate_hz = refl; events = refl })

-- What stopping leaves as it was.
pub record Stopped (sc sc' : Softc) : Type 0 where
  pub num_oss : sc'.num_oss ≡ sc.num_oss
  pub codecs : sc'.codecs ≡ sc.codecs
  pub dac_cad : sc'.dac_cad ≡ sc.dac_cad
  pub format_word : sc'.format_word ≡ sc.format_word
  pub active : sc'.active ≡ false

publish-Stopped :
    (x : Xruns) (sc : Softc)
    → Stopped sc (publish_xruns x (record sc { xruns = no_xruns; active = false }))
unfolding publish_xruns publish_event
publish-Stopped x sc =
    if_split (Stopped sc) (x.pending_frames == 0) _ _
      (λ t. record {
        num_oss = refl;
        codecs = refl;
        dac_cad = refl;
        format_word = refl;
        active = refl;
      })
      (λ f. record {
        num_oss = refl;
        codecs = refl;
        dac_cad = refl;
        format_word = refl;
        active = refl;
      })

pub stop-Stopped : (lpib : ℕ) (sc : Softc) → Stopped sc (stop lpib sc)
unfolding stop publish_event send_command advance clock_update
stop-Stopped lpib sc =
    let p = publish-Stopped sc.xruns sc in
    record {
      num_oss = p.num_oss;
      codecs = p.codecs;
      dac_cad = p.dac_cad;
      format_word = p.format_word;
      active = p.active;
    }

is_format_ok :
    (masks : Masks) (word rate_hz : ℕ) (sc : Softc)
    → rate_to_format_word rate_hz ≡ some word
    → psr_has_rate masks (output_dac_psr sc) rate_hz ≡ true
    → not (is_format masks sc word 2 rate_hz) ≡ false
unfolding is_format
is_format_ok masks word rate_hz sc has_word has_rate =
    let same : (word == word) ≡ true = ground arith in rw (has_word, has_rate, same) refl

-- A stream that has begun at a rate, behind these events.
record Begun (word rate_hz : ℕ) (events : List AudioEvent) (r : ℕ × Softc) : Type 0 where
  done : r.0 ≡ 0
  active : r.1.active ≡ true
  format_word : r.1.format_word ≡ word
  rate : r.1.rate_hz ≡ rate_hz
  logged :
      (begun : AudioEvent) × (r.1.events ≡ begun ∷ events)
      × IsBegin r.1.stream_id word 2 rate_hz begun

-- A begin with a known rate and allocations that succeed starts the stream.
stream_begin-Begun :
    (masks : Masks) (bdl buf word rate_hz : ℕ) (c : Choice) (sc : Softc)
    → rate_to_format_word rate_hz ≡ some word
    → psr_has_rate masks (output_dac_psr sc) rate_hz ≡ true
    → sc.active ≡ false
    → 1 ≤ sc.num_oss
    → choose_dac sc.codecs ≡ some c
    → Begun word rate_hz sc.events
        (stream_begin masks (record { bdl = some bdl; buf = some buf }) word 2 rate_hz sc)
unfolding stream_begin start publish_event send_command clock_stream_begin
stream_begin-Begun masks bdl buf word rate_hz c sc has_word has_rate off has_stream chosen =
    let answers : Answers = record { bdl = some bdl; buf = some buf } in
    let named : Softc = record sc { format_word = word; rate_hz = rate_hz } in
    let k = configure-Configures bdl buf named c has_stream chosen in
    let id : ℕ = (configure_output_stream answers named).1.stream_id in
    let good = is_format_ok masks word rate_hz sc has_word has_rate in
    if_split (Begun word rate_hz sc.events) (not (is_format masks sc word 2 rate_hz)) _ _
      (λ t. absurd (ground arith))
      (λ t.
        if_split (Begun word rate_hz sc.events) sc.active _ _ (λ on. absurd (ground arith))
          (λ f.
            if_split (Begun word rate_hz sc.events) ((configure_output_stream answers named).0 == 0)
              _ _
              (λ z. record {
                done = refl;
                active = refl;
                format_word = k.format_word;
                rate = k.rate_hz;
                logged = (
                  begin_event id word 2 rate_hz,
                  ap (λ (evs : List AudioEvent). begin_event id word 2 rate_hz ∷ evs) k.events,
                  begin_event-IsBegin id word 2 rate_hz,
                );
              })
              (λ failed. let d = k.done in absurd (ground arith))))

-- The begin of a stream and then the change of its format, newest first, behind these events.
pub record Changes (id old_word word rate_hz : ℕ) (events log : List AudioEvent) : Type 0 where
  pub change : AudioEvent
  pub begun : AudioEvent
  pub newest : log ≡ change ∷ begun ∷ events
  pub changes : IsFormatChange id old_word word rate_hz change
  pub begins : IsBegin id word 2 rate_hz begun

-- A change of the rate, behind these events.
pub record Switched (old_word word rate_hz : ℕ) (events : List AudioEvent) (r : ℕ × Softc)
    : Type 0 where
  pub done : r.0 ≡ 0
  pub active : r.1.active ≡ true
  pub format_word : r.1.format_word ≡ word
  pub rate : r.1.rate_hz ≡ rate_hz
  pub logged : Changes r.1.stream_id old_word word rate_hz events r.1.events

pub restart-Switched :
    (masks : Masks) (again : Answers) (bdl buf word rate_hz : ℕ) (c : Choice) (sc : Softc)
    → rate_to_format_word rate_hz ≡ some word
    → psr_has_rate masks (output_dac_psr sc) rate_hz ≡ true
    → sc.active ≡ false
    → 1 ≤ sc.num_oss
    → choose_dac sc.codecs ≡ some c
    → Switched sc.format_word word rate_hz sc.events
        (restart masks (record { bdl = some bdl; buf = some buf }) again word rate_hz sc)
unfolding restart publish_event
restart-Switched masks again bdl buf word rate_hz c sc has_word has_rate off has_stream chosen =
    let answers : Answers = record { bdl = some bdl; buf = some buf } in
    let r : ℕ × Softc = stream_begin masks answers word 2 rate_hz sc in
    let b =
      stream_begin-Begun masks bdl buf word rate_hz c sc has_word has_rate off has_stream chosen in
    let changed : AudioEvent = format_change_event r.1.stream_id sc.format_word word rate_hz in
    if_split (Switched sc.format_word word rate_hz sc.events) (r.0 == 0) _ _
      (λ z. record {
        done = refl;
        active = b.active;
        format_word = b.format_word;
        rate = b.rate;
        logged = record {
          change = changed;
          begun = b.logged.0;
          newest = ap (λ (evs : List AudioEvent). changed ∷ evs) b.logged.1;
          changes = format_change_event-IsFormatChange r.1.stream_id sc.format_word word rate_hz;
          begins = b.logged.2;
        };
      })
      (λ failed. let d = b.done in absurd (ground arith))

pub Stopped-psr : (sc sc' : Softc) → Stopped sc sc' → output_dac_psr sc' ≡ output_dac_psr sc
unfolding output_dac_psr
Stopped-psr sc sc' p i = elim (get_elem? (p.codecs i) (p.dac_cad i)) [
  | none ↦ 0
  | some c ↦ c.supp_pcm_size_rate
]

stream_end-stops :
    (lpib : ℕ) (sc : Softc) → sc.active ≡ true → stream_end lpib sc.stream_id sc ≡ (0, stop lpib sc)
unfolding stream_end
stream_end-stops lpib sc on =
    if_split (λ (r : ℕ × Softc). r ≡ (0, stop lpib sc)) (not sc.active) _ _
      (λ t. absurd (ground arith))
      (λ t.
        if_split (λ (r : ℕ × Softc). r ≡ (0, stop lpib sc)) (sc.stream_id == sc.stream_id) _ _
          (λ e. refl) (λ e. absurd (ground arith)))

pub reconfigure-stops :
    (masks : Masks) (answers again : Answers) (lpib word rate_hz : ℕ) (sc : Softc)
    → sc.active ≡ true
    → reconfigure masks answers again lpib word rate_hz sc
      ≡ restart masks answers again word rate_hz (stop lpib (flush sc))
unfolding reconfigure
reconfigure-stops masks answers again lpib word rate_hz sc on =
    ap (λ (r : ℕ × Softc). if r.0 == 0 then restart masks answers again word rate_hz r.1 else r)
      (stream_end-stops lpib (flush sc) on)

-- Ending a stream, newest first: the end with its frames, behind an underrun that waited, if one did.
pub record Ends (id frames : ℕ) (events log : List AudioEvent) : Type 0 where
  pub ended : AudioEvent
  pub before : List AudioEvent
  pub newest : log ≡ ended ∷ before
  pub ends : IsEnd id frames ended
  pub rest : (before ≡ events) ⊎ ((xrun : AudioEvent) × (before ≡ xrun ∷ events))

pub stop-Ends :
    (lpib : ℕ) (sc : Softc)
    → Ends sc.stream_id
        (sc.frames_played + lpib_delta sc.prev_lpib lpib / 4)
        sc.events
        (stop lpib sc).events
unfolding stop publish_event send_command advance clock_update publish_xruns
stop-Ends lpib sc = elim (Bool-cases (sc.xruns.pending_frames == 0)) [
  | inl t ↦ rw t (record {
    ended = _;
    before = _;
    newest = refl;
    ends = end_event-IsEnd sc.stream_id sc.endpoint_slot _ _ refl;
    rest = inl refl;
  })
  | inr f ↦ rw f (record {
    ended = _;
    before = _;
    newest = refl;
    ends = end_event-IsEnd sc.stream_id sc.endpoint_slot _ _ refl;
    rest = inr (_, refl);
  })
]
