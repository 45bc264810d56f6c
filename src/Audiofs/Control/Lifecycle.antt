-- ===== src/Audiofs/Control/Lifecycle.antt =====
-- What holds of a stream of audiofs.c between two calls: its flag, its registers and the events that
-- were published agree.
use awase.Base.{
  ℕ, ◌≡◌, ◌<◌, refl, ap, sym, ◌∙◌, Bool, true, false, not, Option, none, some, List, [], ◌∷◌, ltb,
  ◌==◌, if◌then◌else◌, if_split, arith,
}
use mathlib.Core.Path.{subst}
use awase.Audiofs.Codec.{Choice, choose_dac}
use awase.Audiofs.Format.{Masks}
use awase.Audiofs.Softc.{
  Softc, Source, sine, user, Xruns, no_xruns, Regs, AudioEvent, publish_event, send_command,
  clock_stream_begin, advance, clock_update,
}
use awase.Audiofs.Interrupt.{publish_xruns, xrun_event}
use awase.Audiofs.Stream.{
  Answers, allocate_buf, allocate_bdl, configure_output_stream, is_format, start, begin_event,
  stream_begin, stop, end_event, stream_end, source_set, cdev_open, cdev_close,
}
use awase.Audiofs.Stream.Gaps.{publish_xruns-keeps}

-- The type of an event of a stream, 0 for another.
abbrev pub stream_type : AudioEvent → ℕ
stream_type ev = if ev.source_role == 1 then ev.event_type else 0

-- Whether a log, newest first, ends within a stream.
unfoldable pub is_within : List AudioEvent → Bool
is_within [] = false
is_within (ev ∷ evs) =
    if stream_type ev == 1 then true else if stream_type ev == 2 then false else is_within evs

-- A stream begins outside of one, and all else that is published of it is within.
unfoldable pub Bracketed : List AudioEvent → Type 0
unfolding is_within
Bracketed [] = Unit
Bracketed (ev ∷ evs) = (is_within evs ≡ not (stream_type ev == 1)) × Bracketed evs

pub record Coherent (sc : Softc) : Type 0 where
  pub running : sc.regs.running ≡ sc.active
  pub interrupt : sc.regs.stream_interrupt ≡ sc.active
  pub within : is_within sc.events ≡ sc.active
  pub bracketed : Bracketed sc.events
  pub cursor : sc.next_refill_fragment < 4

-- Coherence is a matter of these fields.
pub record SameStream (a b : Softc) : Type 0 where
  pub regs_kept : b.regs ≡ a.regs
  pub active_kept : b.active ≡ a.active
  pub events_kept : b.events ≡ a.events
  pub cursor_fits : b.next_refill_fragment < 4

pub Coherent-SameStream : (a b : Softc) → SameStream a b → Coherent a → Coherent b
Coherent-SameStream a b s c = record {
  running = ap (λ (r : Regs). r.running) s.regs_kept ∙ c.running ∙ sym s.active_kept;
  interrupt = ap (λ (r : Regs). r.stream_interrupt) s.regs_kept ∙ c.interrupt ∙ sym s.active_kept;
  within = ap is_within s.events_kept ∙ c.within ∙ sym s.active_kept;
  bracketed = subst Bracketed (sym s.events_kept) c.bracketed;
  cursor = s.cursor_fits;
}

-- Configuring leaves an inactive stream inactive and coherent.
configure-Coherent :
    (answers : Answers) (sc : Softc)
    → Coherent sc
    → sc.active ≡ false
    → Coherent (configure_output_stream answers sc).1
      × ((configure_output_stream answers sc).1.active ≡ false)
unfolding configure_output_stream allocate_bdl allocate_buf
configure-Coherent answers sc c off =
    if_split (λ (r : ℕ × Softc). Coherent r.1 × (r.1.active ≡ false)) (ltb sc.num_oss 1) _ _
      (λ t. (c, off)) (λ f. by_choice (choose_dac sc.codecs))
  where
    by_buf :
        (buf : Option ℕ) (a : ℕ) (s : Softc)
        → Coherent s
        → s.active ≡ false
        → Coherent (allocate_buf buf a s).1 × ((allocate_buf buf a s).1.active ≡ false)
    by_buf none a s c' off' = (
      record {
        running = c'.running;
        interrupt = c'.interrupt;
        within = c'.within;
        bracketed = c'.bracketed;
        cursor = c'.cursor;
      },
      off',
    )
    by_buf (some b) a s c' off' = (
      record {
        running = sym off';
        interrupt = c'.interrupt;
        within = c'.within;
        bracketed = c'.bracketed;
        cursor = c'.cursor;
      },
      off',
    )

    by_bdl :
        (bdl buf : Option ℕ) (s : Softc)
        → Coherent s
        → s.active ≡ false
        → (let r = allocate_bdl (record { bdl = bdl; buf = buf }) s in
            Coherent r.1 × (r.1.active ≡ false))
    by_bdl none buf s c' off' = (
      record {
        running = c'.running;
        interrupt = c'.interrupt;
        within = c'.within;
        bracketed = c'.bracketed;
        cursor = c'.cursor;
      },
      off',
    )
    by_bdl (some a) buf s c' off' =
        by_buf buf a _
          (record {
            running = c'.running;
            interrupt = c'.interrupt;
            within = c'.within;
            bracketed = c'.bracketed;
            cursor = c'.cursor;
          })
          off'

    by_choice :
        (choice : Option Choice)
        → (let r : ℕ × Softc = elim choice [
          | none ↦ (6, sc)
          | some ch ↦ allocate_bdl answers (record sc { dac_cad = ch.cad; dac_nid = ch.dac })
        ] in
            Coherent r.1 × (r.1.active ≡ false))
    by_choice none = (c, off)
    by_choice (some ch) =
        by_bdl answers.bdl answers.buf (record sc { dac_cad = ch.cad; dac_nid = ch.dac })
          (record {
            running = c.running;
            interrupt = c.interrupt;
            within = c.within;
            bracketed = c.bracketed;
            cursor = c.cursor;
          })
          off

start-Coherent :
    (format channels rate_hz : ℕ) (sc : Softc)
    → Coherent sc
    → sc.active ≡ false
    → Coherent (start format channels rate_hz sc)
unfolding start publish_event send_command clock_stream_begin begin_event is_within Bracketed
start-Coherent format channels rate_hz sc c off = record {
  running = refl;
  interrupt = refl;
  within = refl;
  bracketed = (c.within ∙ off, c.bracketed);
  cursor = omega arith;
}

pub stream_begin-Coherent :
    (masks : Masks) (answers : Answers) (format channels rate_hz : ℕ) (sc : Softc)
    → Coherent sc
    → Coherent (stream_begin masks answers format channels rate_hz sc).1
unfolding stream_begin
stream_begin-Coherent masks answers format channels rate_hz sc c =
    let named : Softc = record sc { format_word = format; rate_hz = rate_hz } in
    let c' : Coherent named = record {
      running = c.running;
      interrupt = c.interrupt;
      within = c.within;
      bracketed = c.bracketed;
      cursor = c.cursor;
    } in
    if_split (λ (r : ℕ × Softc). Coherent r.1) (not (is_format masks sc format channels rate_hz)) _
      _ (λ t. c)
      (λ t.
        if_split (λ (r : ℕ × Softc). Coherent r.1) sc.active _ _ (λ on. c)
          (λ off.
            let (k, still) = configure-Coherent answers named c' off in
            if_split (λ (r : ℕ × Softc). Coherent r.1)
              ((configure_output_stream answers named).0 == 0) _ _
              (λ done.
                start-Coherent format channels rate_hz (configure_output_stream answers named).1 k
                  still)
              (λ failed. k)))

-- The underruns that wait are published within the stream.
pub publish_xruns-Bracketed :
    (x : Xruns) (sc : Softc)
    → is_within sc.events ≡ true
    → Bracketed sc.events
    → (is_within (publish_xruns x sc).events ≡ true) × Bracketed (publish_xruns x sc).events
unfolding publish_xruns publish_event xrun_event is_within Bracketed
publish_xruns-Bracketed x sc w b =
    if_split (λ (r : Softc). (is_within r.events ≡ true) × Bracketed r.events)
      (x.pending_frames == 0) _ _ (λ t. (w, b)) (λ f. (w, (w, b)))

stop-Coherent : (lpib : ℕ) (sc : Softc) → Coherent sc → sc.active ≡ true → Coherent (stop lpib sc)
unfolding stop publish_event send_command advance clock_update end_event is_within Bracketed
stop-Coherent lpib sc c on =
    let quiet : Softc = record sc { xruns = no_xruns; active = false } in
    let (w, b) = publish_xruns-Bracketed sc.xruns quiet (c.within ∙ on) c.bracketed in
    let off : (publish_xruns sc.xruns quiet).active ≡ false =
      (publish_xruns-keeps sc.xruns quiet).1 in
    record {
      running = sym off;
      interrupt = sym off;
      within = sym off;
      bracketed = (w, b);
      cursor = omega (arith, (publish_xruns-keeps sc.xruns quiet).3, c.cursor);
    }

pub stream_end-Coherent :
    (lpib id : ℕ) (sc : Softc) → Coherent sc → Coherent (stream_end lpib id sc).1
unfolding stream_end
stream_end-Coherent lpib id sc c =
    if_split (λ (r : ℕ × Softc). Coherent r.1) (not sc.active) _ _ (λ t. c)
      (λ f.
        if_split (λ (r : ℕ × Softc). Coherent r.1) (id == sc.stream_id) _ _
          (λ e. stop-Coherent lpib sc c (not-false sc.active f)) (λ ne. c))
  where
    not-false : (b : Bool) → not b ≡ false → b ≡ true
    not-false true e = refl
    not-false false e = cc

source_set-Coherent : (s : Source) (sc : Softc) → Coherent sc → Coherent (source_set s sc)
unfolding source_set
source_set-Coherent user sc c = record {
  running = c.running;
  interrupt = c.interrupt;
  within = c.within;
  bracketed = c.bracketed;
  cursor = c.cursor;
}
source_set-Coherent sine sc c = record {
  running = c.running;
  interrupt = c.interrupt;
  within = c.within;
  bracketed = c.bracketed;
  cursor = c.cursor;
}

flag-Coherent : (b : Bool) (sc : Softc) → Coherent sc → Coherent (record sc { cdev_open = b })
flag-Coherent b sc c = record {
  running = c.running;
  interrupt = c.interrupt;
  within = c.within;
  bracketed = c.bracketed;
  cursor = c.cursor;
}

pub cdev_open-Coherent :
    (masks : Masks) (answers : Answers) (sc : Softc)
    → Coherent sc
    → Coherent (cdev_open masks answers sc).1
unfolding cdev_open
cdev_open-Coherent masks answers sc c =
    let opened : Softc = source_set user (record sc { cdev_open = true }) in
    let c1 : Coherent opened = source_set-Coherent user _ (flag-Coherent true sc c) in
    let k = stream_begin-Coherent masks answers 0x0011 2 48000 opened c1 in
    let begun : ℕ × Softc = stream_begin masks answers 0x0011 2 48000 opened in
    if_split (λ (r : ℕ × Softc). Coherent r.1) sc.cdev_open _ _ (λ busy. c)
      (λ free.
        if_split (λ (r : ℕ × Softc). Coherent r.1) sc.active _ _ (λ on. c1)
          (λ off.
            if_split (λ (r : ℕ × Softc). Coherent r.1) (begun.0 == 0) _ _ (λ done. k)
              (λ failed. source_set-Coherent sine _ (flag-Coherent false begun.1 k))))

pub cdev_close-Coherent :
    (tone lpib : ℕ) (sc : Softc) → Coherent sc → Coherent (cdev_close tone lpib sc).1
unfolding cdev_close
cdev_close-Coherent tone lpib sc c =
    if_split (λ (r : ℕ × Softc). Coherent r.1) (tone == 0) _ _
      (λ quiet. stream_end-Coherent lpib sc.stream_id _ (flag-Coherent false sc c))
      (λ tone_on. source_set-Coherent sine _ (flag-Coherent false sc c))
