-- ===== src/Audiofs/Stream/Position.antt =====
-- The frames that audiofs.c counts, against the position of the hardware in the stream.
use awase.Base.{
  ℕ, ◌+◌, ◌-◌, ◌/◌, ◌%◌, ◌^◌, ◌≤◌, ◌<◌, ◌≡◌, refl, ap, ◌∙◌, Bool, true, false, Option, none, some,
  List, [], ◌∷◌, leb, ◌==◌, if_split, if_true, arith,
}
use awase.Base.Bytes.{u64}
use awase.Audiofs.Softc.{
  Softc, Xruns, no_xruns, publish_event, send_command, Status, no_status, clock_update, lpib_delta,
  advance,
}
use awase.Audiofs.Interrupt.{
  after_refills, after_bcis, on_bcis, on_fifoe, count_refills, intr_body, intr_thread, intr_filter,
  publish_xruns,
}
use awase.Audiofs.Interrupt.Cursor.{SamePlace, same, SamePlace-trans, refill_loop-ends}
use awase.Audiofs.Stream.{start, stop}
use awase.Audiofs.Stream.Payloads.{Newest, IsEnd, end_event-IsEnd}

-- The move between two positions of the hardware, each the position in the stream reduced to the
-- buffer, if it is less than the buffer.
lpib_delta-exact :
    (p p' : ℕ) → p ≤ p' → p' < p + 16384 → lpib_delta (p % 16384) (p' % 16384) ≡ p' - p
unfolding lpib_delta
lpib_delta-exact p p' le lt = ground arith

-- A stream that has counted the frames up to a position, its clock having started at `base`.
pub record Counted (base p : ℕ) (sc : Softc) : Type 0 where
  pub live : sc.active ≡ true
  pub cursor : sc.next_refill_fragment < 4
  pub at : sc.prev_lpib ≡ p % 16384
  pub frames : sc.frames_played ≡ u64 (p / 4)
  pub clock : sc.clock_samples_total ≡ u64 (base + p / 4)
  pub whole : p % 4 ≡ 0

pub on_fifoe-SamePlace : (b : Bool) (sc : Softc) → SamePlace sc (on_fifoe b sc)
unfolding on_fifoe
on_fifoe-SamePlace false sc = same sc
on_fifoe-SamePlace true sc = record {
  frames = refl;
  lpib = refl;
  total = refl;
  active = refl;
  events = refl;
  regs = refl;
}

pub on_fifoe-cursor :
    (b : Bool) (sc : Softc) → (on_fifoe b sc).next_refill_fragment ≡ sc.next_refill_fragment
unfolding on_fifoe
on_fifoe-cursor false sc = refl
on_fifoe-cursor true sc = refl

count_refills-Place :
    (n : ℕ) (sc : Softc)
    → SamePlace sc (count_refills n sc)
      × ((count_refills n sc).next_refill_fragment ≡ sc.next_refill_fragment)
unfolding count_refills
count_refills-Place n sc =
    if_split (λ b. SamePlace sc b × (b.next_refill_fragment ≡ sc.next_refill_fragment)) (n == 0) _ _
      (λ t. (
        record {
          frames = refl;
          lpib = refl;
          total = refl;
          active = refl;
          events = refl;
          regs = refl;
        },
        refl,
      ))
      (λ f.
        if_split (λ b. SamePlace sc b × (b.next_refill_fragment ≡ sc.next_refill_fragment))
          (leb 2 n) _ _
          (λ t. (
            record {
              frames = refl;
              lpib = refl;
              total = refl;
              active = refl;
              events = refl;
              regs = refl;
            },
            refl,
          ))
          (λ f'. (same sc, refl)))

pub on_bcis-Place :
    (b : Bool) (lpib : ℕ) (sc : Softc)
    → lpib < 16384
    → sc.next_refill_fragment < 4
    → (sc' : Softc) × (on_bcis 4 b lpib sc ≡ some sc')
      × (sc'.next_refill_fragment < 4)
      × SamePlace sc sc'
unfolding on_bcis after_refills
on_bcis-Place false lpib sc h hn = (sc, refl, hn, same sc)
on_bcis-Place true lpib sc h hn =
    let curr : ℕ = lpib / 4096 in
    let k : ℕ = (curr + 4 - sc.next_refill_fragment) % 4 in
    let (sc', went, at, place) = refill_loop-ends 4 curr k sc (omega arith) hn refl (omega arith) in
    let c = count_refills-Place k sc' in
    (
      count_refills k sc',
      ap after_refills went,
      omega (arith, c.1, at),
      SamePlace-trans sc sc' (count_refills k sc') place c.0,
    )

-- One interrupt at a position of the stream.
abbrev pub interrupt : Status → ℕ → Softc → Option Softc
interrupt st p sc = intr_thread (λ s. s) 4 (p % 16384) (intr_filter true st sc).1

advance-eq :
    (lpib : ℕ) (sc : Softc)
    → ((advance lpib sc).frames_played ≡ u64 (sc.frames_played + lpib_delta sc.prev_lpib lpib / 4))
      × ((advance lpib sc).clock_samples_total
          ≡ u64 (sc.clock_samples_total + lpib_delta sc.prev_lpib lpib / 4))
      × ((advance lpib sc).active ≡ sc.active)
      × ((advance lpib sc).next_refill_fragment ≡ sc.next_refill_fragment)
unfolding advance clock_update
advance-eq lpib sc = (refl, refl, refl, refl)

-- An interrupt counts the frames up to its position, if that is less than a buffer further.
interrupt-Counted :
    (base p p' : ℕ) (st : Status) (sc : Softc)
    → Counted base p sc
    → p ≤ p'
    → p' < p + 16384
    → p' % 4 ≡ 0
    → (sc' : Softc) × (interrupt st p' sc ≡ some sc') × Counted base p' sc'
unfolding intr_thread intr_filter intr_body
interrupt-Counted base p p' st sc c le lt whole =
    let lpib : ℕ = p' % 16384 in
    let entered : Softc = record (intr_filter true st sc).1 { last_sdsts = no_status } in
    let moved : Softc = record (advance lpib entered) { prev_lpib = lpib } in
    let a = advance-eq lpib entered in
    let at = c.at in
    let near : lpib_delta sc.prev_lpib lpib ≡ p' - p = rw at (lpib_delta-exact p p' le lt) in
    let sdsts : Status = (intr_filter true st sc).1.last_sdsts in
    let (sc1, went, cursor, place) =
      on_bcis-Place sdsts.bcis lpib moved (omega arith) (omega (arith, a.3, c.cursor)) in
    let f = on_fifoe-SamePlace sdsts.fifoe sc1 in
    let frames = c.frames in
    let clock = c.clock in
    let old = c.whole in
    (
      on_fifoe sdsts.fifoe sc1,
      if_true sc.active _ _ c.live ∙ ap (after_bcis sdsts.fifoe) went,
      record {
        live = f.active ∙ place.active ∙ a.2 ∙ c.live;
        cursor = omega (arith, on_fifoe-cursor sdsts.fifoe sc1, cursor);
        at = f.lpib ∙ place.lpib;
        frames = f.frames ∙ place.frames ∙ a.0 ∙ omega arith;
        clock = f.total ∙ place.total ∙ a.1 ∙ omega arith;
        whole = whole;
      },
    )

abbrev pub and_then : Option Softc → (Softc → Option Softc) → Option Softc
and_then none next = none
and_then (some sc) next = next sc

-- Interrupts, each with its status and its position in the stream.
unfoldable pub interrupts : List (Status × ℕ) → Softc → Option Softc
interrupts [] sc = some sc
interrupts ((st, p) ∷ later) sc = and_then (interrupt st p sc) (interrupts later)

-- Positions of whole frames, each less than a buffer behind the one before.
abbrev pub Advances : ℕ → List (Status × ℕ) → Type 0
Advances p [] = Unit
Advances p ((st, p') ∷ later) = ((p ≤ p') × (p' < p + 16384) × (p' % 4 ≡ 0)) × Advances p' later

abbrev pub last_position : ℕ → List (Status × ℕ) → ℕ
last_position p [] = p
last_position p ((st, p') ∷ later) = last_position p' later

interrupts-Counted :
    (ps : List (Status × ℕ)) (base p : ℕ) (sc : Softc)
    → Counted base p sc
    → Advances p ps
    → (sc' : Softc) × (interrupts ps sc ≡ some sc') × Counted base (last_position p ps) sc'
unfolding interrupts
interrupts-Counted [] base p sc c a = (sc, refl, c)
interrupts-Counted ((st, p') ∷ later) base p sc c ((le, lt, whole), a) =
    let (sc1, went, c1) = interrupt-Counted base p p' st sc c le lt whole in
    let (sc2, on, c2) = interrupts-Counted later base p' sc1 c1 a in
    (sc2, ap (λ o. and_then o (interrupts later)) went ∙ on, c2)

start-Counted :
    (format channels rate_hz : ℕ) (sc : Softc)
    → sc.clock_samples_total < 2 ^ 64
    → Counted sc.clock_samples_total 0 (start format channels rate_hz sc)
unfolding start
start-Counted format channels rate_hz sc fits = record {
  live = refl;
  cursor = omega arith;
  at = refl;
  frames = refl;
  clock = omega arith;
  whole = refl;
}

publish_xruns-SamePlace :
    (x : Xruns) (sc : Softc)
    → ((publish_xruns x sc).frames_played ≡ sc.frames_played)
      × ((publish_xruns x sc).clock_samples_total ≡ sc.clock_samples_total)
      × ((publish_xruns x sc).prev_lpib ≡ sc.prev_lpib)
      × ((publish_xruns x sc).active ≡ sc.active)
unfolding publish_xruns publish_event
publish_xruns-SamePlace x sc =
    if_split
      (λ (b : Softc).
        (b.frames_played ≡ sc.frames_played)
        × (b.clock_samples_total ≡ sc.clock_samples_total)
        × (b.prev_lpib ≡ sc.prev_lpib)
        × (b.active ≡ sc.active))
      (x.pending_frames == 0) _ _ (λ t. (refl, refl, refl, refl)) (λ f. (refl, refl, refl, refl))

-- From its start on, a stream counts what is played: for interrupts at positions of whole frames,
-- each less than a buffer behind the one before, and an end at such a position, however far the
-- positions go round in the buffer and whatever statuses come with them: every interrupt is handled,
-- the newest event is the end of the stream in its documented bytes, with the frames up to the last
-- position at offset 8, and the clock has moved on by them.
pub stream_counts :
    (format channels rate_hz : ℕ) (sc : Softc) (ps : List (Status × ℕ)) (end : ℕ)
    → sc.clock_samples_total < 2 ^ 64
    → Advances 0 ps
    → last_position 0 ps ≤ end
    → end < last_position 0 ps + 16384
    → end % 4 ≡ 0
    → (sc' : Softc) × (interrupts ps (start format channels rate_hz sc) ≡ some sc')
      × (let ended = stop (end % 16384) sc' in
          (ended.active ≡ false)
          × Newest (IsEnd sc'.stream_id (end / 4)) ended.events
          × (ended.clock_samples_total ≡ u64 (sc.clock_samples_total + end / 4)))
unfolding stop publish_event send_command
stream_counts format channels rate_hz sc ps end fits adv le lt whole =
    let base : ℕ = sc.clock_samples_total in
    let p : ℕ = last_position 0 ps in
    let (sc', went, c) =
      interrupts-Counted ps base 0 (start format channels rate_hz sc)
        (start-Counted format channels rate_hz sc fits) adv in
    let quiet : Softc = record sc' { xruns = no_xruns; active = false } in
    let x = publish_xruns-SamePlace sc'.xruns quiet in
    let off : Softc = record (publish_xruns sc'.xruns quiet) {
      regs = record { stream_interrupt = false; running = false };
    } in
    let a = advance-eq (end % 16384) off in
    let at : off.prev_lpib ≡ p % 16384 = x.2 ∙ c.at in
    let near : lpib_delta off.prev_lpib (end % 16384) ≡ end - p =
      rw at (lpib_delta-exact p end le lt) in
    let f0 : off.frames_played ≡ u64 (p / 4) = x.0 ∙ c.frames in
    let t0 : off.clock_samples_total ≡ u64 (base + p / 4) = x.1 ∙ c.clock in
    let old = c.whole in
    let frames : (advance (end % 16384) off).frames_played ≡ u64 (end / 4) = a.0 ∙ omega arith in
    let e = end_event-IsEnd sc'.stream_id sc'.endpoint_slot (end / 4) _ frames in
    (sc', went, (a.2 ∙ x.3, e, a.1 ∙ omega arith))
