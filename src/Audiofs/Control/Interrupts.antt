-- ===== src/Audiofs/Control/Interrupts.antt =====
-- Coherence through an interrupt of audiofs.c.
use awase.Base.{ℕ, ◌≡◌, ◌<◌, refl, ap, ◌∙◌, true, some, Bool-cases, inl, inr, if_true, arith}
use awase.Audiofs.Softc.{Softc, Status, no_status, advance, clock_update}
use awase.Audiofs.Interrupt.{on_fifoe, after_bcis, intr_body, intr_thread, intr_filter}
use awase.Audiofs.Stream.Position.{on_bcis-Place, on_fifoe-SamePlace, on_fifoe-cursor}
use awase.Audiofs.Control.Lifecycle.{Coherent, SameStream, Coherent-SameStream}

pub interrupt-Coherent :
    (st : Status) (lpib : ℕ) (sc : Softc)
    → lpib < 16384
    → Coherent sc
    → (sc' : Softc) × (intr_thread (λ s. s) 4 lpib (intr_filter true st sc).1 ≡ some sc')
      × Coherent sc'
unfolding intr_thread intr_filter intr_body advance clock_update
interrupt-Coherent st lpib sc small c =
    let seen : Softc = (intr_filter true st sc).1 in
    let sdsts : Status = seen.last_sdsts in
    let moved : Softc = record (advance lpib (record seen { last_sdsts = no_status })) {
      prev_lpib = lpib;
    } in
    let (sc1, went, cursor, place) = on_bcis-Place sdsts.bcis lpib moved small c.cursor in
    let f = on_fifoe-SamePlace sdsts.fifoe sc1 in
    let sc2 : Softc = on_fifoe sdsts.fifoe sc1 in
    let handled : SameStream sc sc2 = record {
      regs_kept = f.regs ∙ place.regs;
      active_kept = f.active ∙ place.active;
      events_kept = f.events ∙ place.events;
      cursor_fits = omega (arith, on_fifoe-cursor sdsts.fifoe sc1, cursor);
    } in
    let unhandled : SameStream sc seen = record {
      regs_kept = refl;
      active_kept = refl;
      events_kept = refl;
      cursor_fits = c.cursor;
    } in
    elim (Bool-cases sc.active) [
      | inl on ↦ (
        sc2,
        if_true sc.active _ _ on ∙ ap (after_bcis sdsts.fifoe) went,
        Coherent-SameStream sc sc2 handled c,
      )
      | inr off ↦ (seen, rw off refl, Coherent-SameStream sc seen unhandled c)
    ]
