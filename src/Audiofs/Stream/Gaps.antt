-- ===== src/Audiofs/Stream/Gaps.antt =====
-- The silence that audiofs.c puts into the buffer, against the underruns that it reports.
use awase.Base.{
  ℕ, ◌+◌, ◌-◌, ◌/◌, ◌^◌, ◌≤◌, ◌<◌, ◌≡◌, refl, ap, sym, ◌∙◌, true, false, List, [], ◌∷◌, drop,
  Bool-cases, inl, inr, ltb, leb, ◌==◌, ◌&&◌, if◌then◌else◌, if_split, if_true, arith,
}
use mathlib.Core.Path.{subst}
use awase.Base.Bytes.{put_le, get_u32, u32}
use awase.Audiofs.Ring.Queue.{
  Ready, front, front-le, copy_size-Ready, drain-eq, skip-Ready, skip, front-mod,
}
use awase.Audiofs.Ring.{copy_size}
use awase.Audiofs.Softc.{
  Softc, Xruns, no_xruns, AudioEvent, add_xrun, publish_event, send_command, advance, clock_update,
}
use awase.Audiofs.Interrupt.{
  refill_user_fragment, fill_gap, on_fifoe, xrun_task, xrun_event, publish_xruns,
}
use awase.Audiofs.Stream.{stop, end_event}

-- The frames that the underruns of a log report: those at offset 16 of the payloads.
abbrev gap_frames : AudioEvent → ℕ
gap_frames ev = if ev.source_role == 1 && ev.event_type == 3 then get_u32 ev.payload 16 else 0

unfoldable pub reported : List AudioEvent → ℕ
reported [] = 0
reported (ev ∷ evs) = gap_frames ev + reported evs

abbrev pub accounted : Softc → ℕ
accounted sc = reported sc.events + sc.xruns.pending_frames

-- What happens to a stream that plays what is written: a refill of a fragment, an underrun of the
-- hardware, the task that publishes.
pub data Act : Type 0 where
  refill : ℕ → Act
  underrun : Act
  task : Act

unfoldable pub run : List Act → Softc → Softc
run [] sc = sc
run (refill idx ∷ acts) sc = run acts (refill_user_fragment idx sc)
run (underrun ∷ acts) sc = run acts (on_fifoe true sc)
run (task ∷ acts) sc = run acts (xrun_task sc)

-- The frames of silence that these acts put in after a queue, and a fragment for each underrun of
-- the hardware.
unfoldable pub silent : List Act → List ℕ → ℕ
silent [] q = 0
silent (refill idx ∷ acts) q = (4096 - front q) / 4 + silent acts (drop (front q) q)
silent (underrun ∷ acts) q = 1024 + silent acts q
silent (task ∷ acts) q = silent acts q

abbrev pub InBuffer : List Act → Type 0
InBuffer [] = Unit
InBuffer (refill idx ∷ acts) = (idx < 4) × InBuffer acts
InBuffer (underrun ∷ acts) = InBuffer acts
InBuffer (task ∷ acts) = InBuffer acts

xrun_event-frames :
    (id slot : ℕ) (x : Xruns)
    → x.pending_frames < 2 ^ 32
    → gap_frames (xrun_event id slot x) ≡ x.pending_frames
unfolding xrun_event get_u32 put_le
xrun_event-frames id slot x small = omega arith

publish_xruns-accounted :
    (x : Xruns) (sc : Softc)
    → x.pending_frames < 2 ^ 32
    → reported (publish_xruns x sc).events ≡ reported sc.events + x.pending_frames
unfolding publish_xruns publish_event reported
publish_xruns-accounted x sc small = elim (Bool-cases (x.pending_frames == 0)) [
  | inl t ↦ let none : x.pending_frames ≡ 0 = ground arith in rw t (omega arith)
  | inr f ↦ rw f (omega (arith, xrun_event-frames sc.stream_id sc.endpoint_slot x small))
]

-- What a step of a stream does to the account.
abbrev Adds : ℕ → List ℕ → Softc → Softc → Type 0
Adds n q sc sc' = (accounted sc' ≡ accounted sc + n) × Ready sc'.ring q × (sc'.active ≡ sc.active)

refill-Adds :
    (idx : ℕ) (sc : Softc) (q : List ℕ)
    → idx < 4
    → Ready sc.ring q
    → sc.xruns.pending_frames + (4096 - front q) / 4 < 2 ^ 32
    → Adds ((4096 - front q) / 4) (drop (front q) q) sc (refill_user_fragment idx sc)
unfolding refill_user_fragment fill_gap add_xrun
refill-Adds idx sc q small r room =
    let e : copy_size sc.ring ≡ front q = copy_size-Ready sc.ring q r in
    let inside : leb 4 idx ≡ false = ground arith in
    let few : front q ≤ 4096 = ground arith in
    let ready' : Ready (skip (front q) sc.ring) (drop (front q) q) =
      skip-Ready (front q) sc.ring q (front-le q) (front-mod q r.frames) r in
    let n : ℕ = (4096 - front q) / 4 in
    rw (inside, e, drain-eq sc.ring q r)
      (elim (Bool-cases (ltb (front q) 4096)) [
        | inl t ↦
            let short : front q < 4096 = ground arith in
            let wide : u32 (sc.xruns.pending_frames + u32 (4096 - front q) / 4)
                ≡ sc.xruns.pending_frames + n =
              omega arith in
            rw t (omega (arith, wide), ready', refl)
        | inr f ↦ let full : front q ≡ 4096 = ground arith in rw f (omega arith, ready', refl)
      ])

on_fifoe-Adds :
    (sc : Softc) (q : List ℕ)
    → Ready sc.ring q
    → sc.xruns.pending_frames + 1024 < 2 ^ 32
    → Adds 1024 q sc (on_fifoe true sc)
unfolding on_fifoe add_xrun
on_fifoe-Adds sc q r room = (omega arith, r, refl)

pub publish_xruns-keeps :
    (x : Xruns) (sc : Softc)
    → ((publish_xruns x sc).ring ≡ sc.ring)
      × ((publish_xruns x sc).active ≡ sc.active)
      × ((publish_xruns x sc).xruns ≡ sc.xruns)
      × ((publish_xruns x sc).next_refill_fragment ≡ sc.next_refill_fragment)
unfolding publish_xruns publish_event
publish_xruns-keeps x sc =
    if_split
      (λ (b : Softc).
        (b.ring ≡ sc.ring)
        × (b.active ≡ sc.active)
        × (b.xruns ≡ sc.xruns)
        × (b.next_refill_fragment ≡ sc.next_refill_fragment))
      (x.pending_frames == 0) _ _ (λ t. (refl, refl, refl, refl)) (λ f. (refl, refl, refl, refl))

xrun_task-Adds :
    (sc : Softc) (q : List ℕ)
    → sc.active ≡ true
    → Ready sc.ring q
    → sc.xruns.pending_frames < 2 ^ 32
    → Adds 0 q sc (xrun_task sc)
unfolding xrun_task
xrun_task-Adds sc q live r room =
    let cleared : Softc = record sc { xruns = no_xruns } in
    let p = publish_xruns-accounted sc.xruns cleared room in
    let k = publish_xruns-keeps sc.xruns cleared in
    let e : xrun_task sc ≡ publish_xruns sc.xruns cleared = if_true sc.active _ _ live in
    let none_left : (publish_xruns sc.xruns cleared).xruns.pending_frames ≡ 0 =
      ap (λ (x : Xruns). x.pending_frames) k.2 in
    rw e (omega (arith, p, none_left), subst (λ ring. Ready ring q) (sym k.0) r, k.1)

run-accounted :
    (acts : List Act) (sc : Softc) (q : List ℕ)
    → InBuffer acts
    → sc.active ≡ true
    → Ready sc.ring q
    → accounted sc + silent acts q < 2 ^ 32
    → accounted (run acts sc) ≡ accounted sc + silent acts q
unfolding run silent
run-accounted [] sc q i live r room = omega arith
run-accounted (refill idx ∷ acts) sc q i live r room =
    let (more, ready, same) = refill-Adds idx sc q i.0 r (omega arith) in
    let rest =
      run-accounted acts (refill_user_fragment idx sc) (drop (front q) q) i.1 (same ∙ live) ready
        (omega arith) in
    omega (arith, rest, more)
run-accounted (underrun ∷ acts) sc q i live r room =
    let (more, ready, same) = on_fifoe-Adds sc q r (omega arith) in
    let rest = run-accounted acts (on_fifoe true sc) q i (same ∙ live) ready (omega arith) in
    omega (arith, rest, more)
run-accounted (task ∷ acts) sc q i live r room =
    let (more, ready, same) = xrun_task-Adds sc q live r (omega arith) in
    let rest = run-accounted acts (xrun_task sc) q i (same ∙ live) ready (omega arith) in
    omega (arith, rest, more)

stop-reported :
    (lpib : ℕ) (sc : Softc)
    → sc.xruns.pending_frames < 2 ^ 32
    → reported (stop lpib sc).events ≡ accounted sc
unfolding stop send_command publish_event advance clock_update reported end_event
stop-reported lpib sc small =
    omega (
      arith,
      publish_xruns-accounted sc.xruns (record sc { xruns = no_xruns; active = false }) small,
    )

-- For an active stream whose ring holds a queue of whole frames, and any refills, underruns of the
-- hardware and runs of the task, followed by the end of the stream: the log reports, beyond what it
-- reported and what was waiting before, exactly the frames of silence that the refills put in and a
-- fragment for each underrun of the hardware, as long as all that fits into 32 bits.
pub silence_reported :
    (acts : List Act) (sc : Softc) (q : List ℕ) (lpib : ℕ)
    → InBuffer acts
    → sc.active ≡ true
    → Ready sc.ring q
    → accounted sc + silent acts q < 2 ^ 32
    → reported (stop lpib (run acts sc)).events ≡ accounted sc + silent acts q
silence_reported acts sc q lpib i live r room =
    let all = run-accounted acts sc q i live r room in
    stop-reported lpib (run acts sc) (omega arith) ∙ all
