-- ===== src/Audiofs/Interrupt/Cursor.antt =====
-- The loop of audiofs.c's interrupt thread over the fragments that were played: that it ends, and on
-- what it does not.
use awase.Base.{
  ℕ, zero, suc, ◌+◌, ◌-◌, ◌*◌, ◌%◌, ◌≤◌, ◌<◌, ◌≡◌, ◌≢◌, refl, ap, ◌∙◌, inl, inr, Bool-cases, false,
  none, some, ltb, leb, ◌==◌, if_split, arith,
}
use awase.Audiofs.Softc.{Softc, Source, sine, user}
use awase.Audiofs.Interrupt.{
  refill_user_fragment, refill_sine_fragment, fill_gap, refill_fragment, refill_from, refill_loop,
}

-- What refills leave alone: the position in the stream, and whether it is active.
pub record SamePlace (a b : Softc) : Type 0 where
  pub frames : b.frames_played ≡ a.frames_played
  pub lpib : b.prev_lpib ≡ a.prev_lpib
  pub total : b.clock_samples_total ≡ a.clock_samples_total
  pub active : b.active ≡ a.active
  pub events : b.events ≡ a.events
  pub regs : b.regs ≡ a.regs

abbrev pub same : (sc : Softc) → SamePlace sc sc
same sc = record {
  frames = refl;
  lpib = refl;
  total = refl;
  active = refl;
  events = refl;
  regs = refl;
}

pub SamePlace-trans : (a b c : Softc) → SamePlace a b → SamePlace b c → SamePlace a c
SamePlace-trans a b c h k = record {
  frames = k.frames ∙ h.frames;
  lpib = k.lpib ∙ h.lpib;
  total = k.total ∙ h.total;
  active = k.active ∙ h.active;
  events = k.events ∙ h.events;
  regs = k.regs ∙ h.regs;
}

-- The same, and the cursor.
abbrev Aside : Softc → Softc → Type 0
Aside a b = SamePlace a b × (b.next_refill_fragment ≡ a.next_refill_fragment)

fill_gap-Aside : (dst n : ℕ) (sc : Softc) → Aside sc (fill_gap dst n sc)
unfolding fill_gap
fill_gap-Aside dst n sc =
    if_split (Aside sc) (ltb n 4096) _ _
      (λ t. (
        record {
          frames = refl;
          lpib = refl;
          total = refl;
          active = refl;
          events = refl;
          regs = refl;
        },
        refl,
      ))
      (λ f. (same sc, refl))

refill_from-Aside : (source : Source) (idx : ℕ) (sc : Softc) → Aside sc (refill_from source idx sc)
unfolding refill_from refill_user_fragment refill_sine_fragment
refill_from-Aside user idx sc =
    if_split (Aside sc) (leb 4 idx) _ _ (λ t. (same sc, refl))
      (λ f.
        let g = fill_gap-Aside (idx * 4096) _ _ in
        (
          record {
            frames = g.0.frames;
            lpib = g.0.lpib;
            total = g.0.total;
            active = g.0.active;
            events = g.0.events;
            regs = g.0.regs;
          },
          g.1,
        ))
refill_from-Aside sine idx sc =
    if_split (Aside sc) (leb 4 idx) _ _ (λ t. (same sc, refl))
      (λ f. (
        record {
          frames = refl;
          lpib = refl;
          total = refl;
          active = refl;
          events = refl;
          regs = refl;
        },
        refl,
      ))

-- One round of the loop.
abbrev pub round : Softc → Softc
round sc = record (refill_fragment sc.next_refill_fragment sc) {
  next_refill_fragment = (sc.next_refill_fragment + 1) % 4;
}

pub round-SamePlace : (sc : Softc) → SamePlace sc (round sc)
round-SamePlace sc =
    let a = (refill_from-Aside sc.source sc.next_refill_fragment sc).0 in
    record {
      frames = a.frames;
      lpib = a.lpib;
      total = a.total;
      active = a.active;
      events = a.events;
      regs = a.regs;
    }

-- With the cursor and the position's fragment among the four, the loop ends within three rounds, as
-- many as it takes to go around from the one to the other.
pub refill_loop-ends :
    (fuel curr k : ℕ) (sc : Softc)
    → curr < 4
    → sc.next_refill_fragment < 4
    → (curr + 4 - sc.next_refill_fragment) % 4 ≡ k
    → k < fuel
    → (sc' : Softc) × (refill_loop fuel curr sc ≡ some (sc', k))
      × (sc'.next_refill_fragment ≡ curr)
      × SamePlace sc sc'
unfolding refill_loop
refill_loop-ends zero curr k sc hc hn e enough = absurd (omega arith)
refill_loop-ends (suc fuel) curr k sc hc hn e enough =
    elim (Bool-cases (sc.next_refill_fragment == curr)) [
      | inl there ↦
          let at : sc.next_refill_fragment ≡ curr = ground arith in
          let none_left : 0 ≡ k = omega arith in
          (sc, rw there (ap (λ (n : ℕ). some (sc, n)) none_left), at, same sc)
      | inr on ↦
          let off : sc.next_refill_fragment ≢ curr = ground arith in
          let (sc', went, at, place) =
            refill_loop-ends fuel curr (k - 1) (round sc) hc (omega arith) (omega arith)
              (omega arith) in
          let total : k - 1 + 1 ≡ k = omega arith in
          (
            sc',
            rw (on, went, total) refl,
            at,
            SamePlace-trans sc (round sc) sc' (round-SamePlace sc) place,
          )
    ]

-- Behind the buffer's end there is no fragment, and the loop does not end.
pub refill_loop-stuck :
    (fuel curr : ℕ) (sc : Softc)
    → 4 ≤ curr
    → sc.next_refill_fragment < 4
    → refill_loop fuel curr sc ≡ none
unfolding refill_loop
refill_loop-stuck zero curr sc hc hn = refl
refill_loop-stuck (suc fuel) curr sc hc hn =
    let off : (sc.next_refill_fragment == curr) ≡ false = ground arith in
    rw (off, refill_loop-stuck fuel curr (round sc) hc (omega arith)) refl
