-- ===== src/Audiofs/Control/Calls.antt =====
-- Coherence through all calls on a stream of audiofs.c, in any order.
use awase.Base.{
  ℕ, ◌≡◌, ◌<◌, refl, ap, sym, ◌∙◌, true, not, ◌&&◌, Option, none, some, List, [], ◌∷◌, ◌==◌,
  if◌then◌else◌, if_split, arith,
}
use awase.Audiofs.Format.{Masks, rate_to_format_word, psr_has_rate}
use awase.Audiofs.Softc.{Softc, Xruns, Regs, Status, no_xruns, publish_event}
use awase.Audiofs.Interrupt.{intr_thread, intr_filter, publish_xruns, xrun_task}
use awase.Audiofs.Stream.{
  Answers, configure_output_stream, is_format, start, stream_begin, stream_end, cdev_open,
  cdev_close, output_dac_psr,
}
use awase.Audiofs.Stream.Position.{and_then}
use awase.Audiofs.Stream.Gaps.{publish_xruns-keeps}
use awase.Audiofs.Control.{
  AudioFormat, format_change_event, flush, restart, reconfigure, set_format, toggle,
}
use awase.Audiofs.Control.Interrupts.{interrupt-Coherent}
use awase.Audiofs.Control.Lifecycle.{
  Coherent, is_within, Bracketed, stream_begin-Coherent, stream_end-Coherent, cdev_open-Coherent,
  cdev_close-Coherent, publish_xruns-Bracketed,
}

-- A begin that returns 0 leaves the stream active.
pub stream_begin-active :
    (masks : Masks) (answers : Answers) (format channels rate_hz : ℕ) (sc : Softc)
    → (stream_begin masks answers format channels rate_hz sc).0 ≡ 0
    → (stream_begin masks answers format channels rate_hz sc).1.active ≡ true
unfolding stream_begin start
stream_begin-active masks answers format channels rate_hz sc =
    let named : Softc = record sc { format_word = format; rate_hz = rate_hz } in
    if_split (λ (r : ℕ × Softc). r.0 ≡ 0 → r.1.active ≡ true)
      (not (is_format masks sc format channels rate_hz)) _ _ (λ t e. absurd (omega arith))
      (λ t.
        if_split (λ (r : ℕ × Softc). r.0 ≡ 0 → r.1.active ≡ true) sc.active _ _
          (λ on e. absurd (omega arith))
          (λ off.
            if_split (λ (r : ℕ × Softc). r.0 ≡ 0 → r.1.active ≡ true)
              ((configure_output_stream answers named).0 == 0) _ _ (λ done e. refl)
              (λ failed e. absurd (ground arith))))

restart-Coherent :
    (masks : Masks) (answers again : Answers) (word rate : ℕ) (sc : Softc)
    → Coherent sc
    → Coherent (restart masks answers again word rate sc).1
unfolding restart publish_event format_change_event is_within Bracketed
restart-Coherent masks answers again word rate sc c =
    let r : ℕ × Softc = stream_begin masks answers word 2 rate sc in
    let k = stream_begin-Coherent masks answers word 2 rate sc c in
    if_split (λ (x : ℕ × Softc). Coherent x.1) (r.0 == 0) _ _
      (λ done.
        let on : r.1.active ≡ true =
          stream_begin-active masks answers word 2 rate sc (ground arith) in
        record {
          running = k.running;
          interrupt = k.interrupt;
          within = k.within;
          bracketed = (k.within ∙ on, k.bracketed);
          cursor = k.cursor;
        })
      (λ failed. stream_begin-Coherent masks again sc.format_word 2 sc.rate_hz r.1 k)

set_format-Coherent :
    (masks : Masks) (answers again : Answers) (lpib : ℕ) (f : AudioFormat) (sc : Softc)
    → Coherent sc
    → Coherent (set_format masks answers again lpib f sc).1
unfolding set_format reconfigure
set_format-Coherent masks answers again lpib f sc c =
    if_split (λ (x : ℕ × Softc). Coherent x.1) (not ((f.bits == 16) && (f.channels == 2))) _ _
      (λ t. c) (λ t. by_word (rate_to_format_word f.rate_hz))
  where
    by_word :
        (word : Option ℕ)
        → (let r : ℕ × Softc = elim word [
          | none ↦ (22, sc)
          | some new_word ↦
              if not (psr_has_rate masks (output_dac_psr sc) f.rate_hz)
              then (22, sc)
              else if f.rate_hz == sc.rate_hz
              then (0, sc)
              else reconfigure masks answers again lpib new_word f.rate_hz sc
        ] in
            Coherent r.1)
    by_word none = c
    by_word (some word) =
        let c1 : Coherent (flush sc) = record {
          running = c.running;
          interrupt = c.interrupt;
          within = c.within;
          bracketed = c.bracketed;
          cursor = c.cursor;
        } in
        let k = stream_end-Coherent lpib sc.stream_id (flush sc) c1 in
        let r : ℕ × Softc = stream_end lpib sc.stream_id (flush sc) in
        if_split (λ (x : ℕ × Softc). Coherent x.1)
          (not (psr_has_rate masks (output_dac_psr sc) f.rate_hz)) _ _ (λ t. c)
          (λ t.
            if_split (λ (x : ℕ × Softc). Coherent x.1) (f.rate_hz == sc.rate_hz) _ _ (λ e. c)
              (λ e.
                if_split (λ (x : ℕ × Softc). Coherent x.1) (r.0 == 0) _ _
                  (λ done. restart-Coherent masks answers again word f.rate_hz r.1 k)
                  (λ failed. k)))

toggle-Coherent :
    (masks : Masks) (answers : Answers) (lpib newval : ℕ) (sc : Softc)
    → Coherent sc
    → Coherent (toggle masks answers lpib newval sc)
unfolding toggle
toggle-Coherent masks answers lpib newval sc c =
    if_split Coherent sc.cdev_open _ _ (λ t. c)
      (λ t.
        if_split Coherent (not (newval == 0) && not sc.active) _ _
          (λ on. stream_begin-Coherent masks answers 0x0011 2 48000 sc c)
          (λ n.
            if_split Coherent ((newval == 0) && sc.active) _ _
              (λ off. stream_end-Coherent lpib sc.stream_id sc c) (λ m. c)))

publish_xruns-regs : (x : Xruns) (sc : Softc) → (publish_xruns x sc).regs ≡ sc.regs
unfolding publish_xruns publish_event
publish_xruns-regs x sc =
    if_split (λ (b : Softc). b.regs ≡ sc.regs) (x.pending_frames == 0) _ _ (λ t. refl) (λ f. refl)

xrun_task-Coherent : (sc : Softc) → Coherent sc → Coherent (xrun_task sc)
unfolding xrun_task
xrun_task-Coherent sc c =
    let cleared : Softc = record sc { xruns = no_xruns } in
    if_split Coherent sc.active _ _
      (λ on.
        let k = publish_xruns-keeps sc.xruns cleared in
        let (w, b) = publish_xruns-Bracketed sc.xruns cleared (c.within ∙ on) c.bracketed in
        record {
          running =
              ap (λ (r : Regs). r.running) (publish_xruns-regs sc.xruns cleared)
              ∙ c.running
              ∙ sym k.1;
          interrupt =
              ap (λ (r : Regs). r.stream_interrupt) (publish_xruns-regs sc.xruns cleared)
              ∙ c.interrupt
              ∙ sym k.1;
          within = w ∙ sym on ∙ sym k.1;
          bracketed = b;
          cursor = omega (arith, k.3, c.cursor);
        })
      (λ off. c)

-- The calls on a stream. An interrupt comes with its status and the position of the hardware.
pub data Call : Type 0 where
  open_device : Answers → Call
  close_device : ℕ → ℕ → Call
  change_format : Answers → Answers → ℕ → AudioFormat → Call
  test_tone : Answers → ℕ → ℕ → Call
  interrupt : Status → ℕ → Call
  publish_task : Call

-- An interrupt whose refills do not end has no state behind it.
unfoldable pub call : Masks → Call → Softc → Option Softc
call masks (open_device answers) sc = some (cdev_open masks answers sc).1
call masks (close_device tone lpib) sc = some (cdev_close tone lpib sc).1
call masks (change_format answers again lpib f) sc =
    some (set_format masks answers again lpib f sc).1
call masks (test_tone answers lpib newval) sc = some (toggle masks answers lpib newval sc)
call masks (interrupt st lpib) sc = intr_thread (λ s. s) 4 lpib (intr_filter true st sc).1
call masks publish_task sc = some (xrun_task sc)

unfoldable pub calls : Masks → List Call → Softc → Option Softc
unfolding call
calls masks [] sc = some sc
calls masks (c ∷ cs) sc = and_then (call masks c sc) (calls masks cs)

-- The positions that the interrupts of some calls read lie in the buffer.
abbrev pub WithinBuffer : Call → Type 0
WithinBuffer (interrupt st lpib) = lpib < 16384
WithinBuffer (open_device answers) = Unit
WithinBuffer (close_device tone lpib) = Unit
WithinBuffer (change_format answers again lpib f) = Unit
WithinBuffer (test_tone answers lpib newval) = Unit
WithinBuffer publish_task = Unit

abbrev pub AllWithin : List Call → Type 0
AllWithin [] = Unit
AllWithin (c ∷ cs) = WithinBuffer c × AllWithin cs

call-Coherent :
    (masks : Masks) (c : Call) (sc : Softc)
    → WithinBuffer c
    → Coherent sc
    → (sc' : Softc) × (call masks c sc ≡ some sc') × Coherent sc'
unfolding call
call-Coherent masks (open_device answers) sc w k = (_, refl, cdev_open-Coherent masks answers sc k)
call-Coherent masks (close_device tone lpib) sc w k = (_, refl, cdev_close-Coherent tone lpib sc k)
call-Coherent masks (change_format answers again lpib f) sc w k =
    (_, refl, set_format-Coherent masks answers again lpib f sc k)
call-Coherent masks (test_tone answers lpib newval) sc w k =
    (_, refl, toggle-Coherent masks answers lpib newval sc k)
call-Coherent masks (interrupt st lpib) sc w k = interrupt-Coherent st lpib sc w k
call-Coherent masks publish_task sc w k = (_, refl, xrun_task-Coherent sc k)

-- From a coherent state, any calls in any order, whatever their arguments and the allocations are,
-- as long as the positions that the interrupts read lie in the buffer: every call ends, and then the
-- stream's interrupt and its DMA are on exactly while it is active, in the log of events every stream
-- begins outside of one and all else lies between a begin and its end, which is still to come exactly
-- while the stream is active, and the cursor of the refills is among the fragments.
pub calls-Coherent :
    (masks : Masks) (cs : List Call) (sc : Softc)
    → Coherent sc
    → AllWithin cs
    → (sc' : Softc) × (calls masks cs sc ≡ some sc') × Coherent sc'
unfolding calls
calls-Coherent masks [] sc k w = (sc, refl, k)
calls-Coherent masks (c ∷ cs) sc k w =
    let (sc1, went, k1) = call-Coherent masks c sc w.0 k in
    let (sc2, on, k2) = calls-Coherent masks cs sc1 k1 w.1 in
    (sc2, ap (λ (o : Option Softc). and_then o (calls masks cs)) went ∙ on, k2)
