-- ===== src/Audiofs/Ring/Delivery.antt =====
-- What is written to /dev/audiofs<N> reaches the fragments in order: `audiofs_cdev_write` against
-- the refills of the interrupt thread.
use awase.Base.{
  ℕ, zero, suc, ◌+◌, ◌-◌, ◌*◌, ◌/◌, ◌%◌, ◌≤◌, ◌<◌, ◌≡◌, ◌≢◌, refl, ap, sym, ◌∙◌, inl, inr,
  Bool-cases, Bool, false, List, [], ◌∷◌, ◌++◌, length, take, drop, length-append, length-take,
  length-drop, ltb, leb, ◌==◌, if◌then◌else◌, if_split, append_assoc, append-nil, arith,
}
use awase.Audiofs.Ring.{
  UserRing, eagain, space, drain_times, Window, quiet, Written, returned, asleep, out_of_fuel,
  after, sleep_round, copy_want, copy_next, copy_round, cdev_write,
}
use awase.Audiofs.Ring.Queue.{
  Ready, space-Ready, take-drop, drained, drain_times-Drained, enqueue-Ready, scribble-Ready,
}

-- What becomes of a write: of the caller's bytes it has taken a front into the queue, and lost some
-- behind that only if an error ended it; what the refills took and what the ring holds now are, in
-- order, what it held before and what was taken.
pub record Delivers (q uio : List ℕ) (w : Written) : Type 0 where
  pub taken : List ℕ
  pub lost : List ℕ
  pub held : List ℕ
  pub from_caller : uio ≡ taken ++ (lost ++ w.uio)
  pub in_order : w.delivered ++ held ≡ q ++ taken
  pub ready : Ready w.ring held
  pub ended : w.outcome ≢ out_of_fuel
  pub complete : w.outcome ≡ returned 0 → (lost ≡ []) × (length w.uio < 4)
  pub blocked : w.outcome ≡ asleep → (lost ≡ []) × (length held ≡ 32768)

Delivers-after :
    (got q q' uio : List ℕ) (w : Written)
    → got ++ q' ≡ q
    → Delivers q' uio w
    → Delivers q uio (after got w)
Delivers-after got q q' uio w split d = record {
  taken = d.taken;
  lost = d.lost;
  held = d.held;
  from_caller = d.from_caller;
  in_order =
      append_assoc got w.delivered d.held
      ∙ ap (◌++◌ got) d.in_order
      ∙ sym (append_assoc got q' d.taken)
      ∙ ap (λ l. l ++ d.taken) split;
  ready = d.ready;
  ended = d.ended;
  complete = d.complete;
  blocked = d.blocked;
}

Delivers-chunk :
    (q uio chunk rest : List ℕ) (w : Written)
    → chunk ++ rest ≡ uio
    → Delivers (q ++ chunk) rest w
    → Delivers q uio w
Delivers-chunk q uio chunk rest w split d = record {
  taken = chunk ++ d.taken;
  lost = d.lost;
  held = d.held;
  from_caller =
      sym split
      ∙ ap (◌++◌ chunk) d.from_caller
      ∙ sym (append_assoc chunk d.taken (d.lost ++ w.uio));
  in_order = d.in_order ∙ append_assoc q chunk d.taken;
  ready = d.ready;
  ended = d.ended;
  complete = d.complete;
  blocked = d.blocked;
}

-- The write that ends here, with nothing taken.
Delivers-returned :
    (q uio : List ℕ) (ring : UserRing) (err : ℕ)
    → Ready ring q
    → (err ≡ 0 → length uio < 4)
    → Delivers q uio (record { ring = ring; uio = uio; delivered = []; outcome = returned err })
Delivers-returned q uio ring err r h = record {
  taken = [];
  lost = [];
  held = q;
  from_caller = refl;
  in_order = sym (append-nil q);
  ready = r;
  ended = λ e. cc;
  complete = λ e. (refl, h (ground arith));
  blocked = λ e. absurd (ground arith);
}

Delivers-lost :
    (q uio lost rest : List ℕ) (ring : UserRing) (err : ℕ)
    → Ready ring q
    → err ≢ 0
    → lost ++ rest ≡ uio
    → Delivers q uio (record { ring = ring; uio = rest; delivered = []; outcome = returned err })
Delivers-lost q uio lost rest ring err r bad split = record {
  taken = [];
  lost = lost;
  held = q;
  from_caller = sym split;
  in_order = sym (append-nil q);
  ready = r;
  ended = λ e. cc;
  complete = λ e. absurd (bad (ground arith));
  blocked = λ e. absurd (ground arith);
}

-- The rest of a loop does what it should, from every state that it is given.
abbrev Continues : ℕ → (List Window → UserRing → List ℕ → Written) → Type 0
Continues fuel next =
    (ws : List Window) (ring : UserRing) (uio q : List ℕ)
    → Ready ring q
    → length uio + length ws < fuel
    → Delivers q uio (next ws ring uio)

sleep_round-Delivers :
    (fuel : ℕ) (next : List Window → UserRing → List ℕ → Written)
    → Continues fuel next
    → (ws : List Window) (ring : UserRing) (uio q : List ℕ) → Ready ring q
    → length uio + length ws < suc fuel
    → length q ≡ 32768
    → Delivers q uio (sleep_round next ws ring uio)
unfolding sleep_round
sleep_round-Delivers fuel next ih [] ring uio q r enough full = record {
  taken = [];
  lost = [];
  held = q;
  from_caller = refl;
  in_order = sym (append-nil q);
  ready = r;
  ended = λ e. cc;
  complete = λ e. absurd (ground arith);
  blocked = λ e. (refl, full);
}
sleep_round-Delivers fuel next ih (w ∷ ws) ring uio q r enough full =
    let d = drain_times-Drained w.refills ring q r in
    let ring' = (drain_times w.refills ring).0 in
    let got = (drain_times w.refills ring).1 in
    elim (Bool-cases (w.error == 0)) [
      | inl good ↦ rw good (
          Delivers-after got q (drained w.refills q) uio (next ws ring' uio) d.split
            (ih ws ring' uio (drained w.refills q) d.ready (omega arith)))
      | inr bad ↦ rw bad (
          Delivers-after got q (drained w.refills q) uio
            (record { ring = ring'; uio = uio; delivered = []; outcome = returned w.error }) d.split
            (Delivers-returned (drained w.refills q) uio ring' w.error d.ready
              (λ e. absurd (ground arith))))
    ]

copy_want-Delivers :
    (fuel : ℕ) (next : List Window → UserRing → List ℕ → Written)
    → Continues fuel next
    → (w : Window) (ws : List Window) (want : ℕ) (ring : UserRing) (uio q : List ℕ) → Ready ring q
    → length uio + length ws < suc fuel
    → 0 < want
    → want ≤ length uio
    → want % 4 ≡ 0
    → length q + want ≤ 32768
    → Delivers q uio (copy_want next w ws want ring uio)
unfolding copy_want
copy_want-Delivers fuel next ih w ws want ring uio q r enough pos part four room =
    let d = drain_times-Drained w.refills ring q r in
    let ring' : UserRing = (drain_times w.refills ring).0 in
    let got : List ℕ = (drain_times w.refills ring).1 in
    let q' : List ℕ = drained w.refills q in
    let place : ℕ = ring.head % 32768 in
    let shorter : length q' ≤ length q = omega (arith, length-append got q', ap length d.split) in
    let ready' : Ready ring' q' = d.ready in
    let same : ring'.head ≡ ring.head = d.head_kept in
    let at_head = ready'.head_at in
    let at : place ≡ (ring'.tail + length q') % 32768 = omega arith in
    elim (Bool-cases (w.error == 0)) [
      | inl good ↦
          let chunk : List ℕ = take want uio in
          let whole : length chunk ≡ want = omega (arith, length-take want uio) in
          let left : length (drop want uio) ≡ length uio - want = length-drop want uio in
          rw good (
            Delivers-after got q q' uio _ d.split (
              Delivers-chunk q' uio chunk (drop want uio) _ (take-drop want uio) (
                ih ws _ (drop want uio) (q' ++ chunk)
                  (enqueue-Ready ring' q' chunk place want at whole four (omega arith) ready')
                  (omega arith))))
      | inr bad ↦
          let moved : ℕ = if ltb want w.moved then want else w.moved in
          let few : moved ≤ want = ground arith in
          rw bad (
            Delivers-after got q q' uio _ d.split (
              Delivers-lost q' uio (take moved uio) (drop moved uio) _ w.error
                (scribble-Ready ring' q' (take moved uio) place want at
                  (omega (arith, length-take moved uio)) (omega arith) ready')
                (λ e. absurd (ground arith)) (take-drop moved uio)))
    ]

copy_next-Delivers :
    (fuel : ℕ) (next : List Window → UserRing → List ℕ → Written)
    → Continues fuel next
    → (ws : List Window) (want : ℕ) (ring : UserRing) (uio q : List ℕ) → Ready ring q
    → length uio + length ws < suc fuel
    → 0 < want
    → want ≤ length uio
    → want % 4 ≡ 0
    → length q + want ≤ 32768
    → Delivers q uio (copy_next next ws want ring uio)
unfolding copy_next
copy_next-Delivers fuel next ih [] want ring uio q r few pos part four room =
    copy_want-Delivers fuel next ih quiet [] want ring uio q r few pos part four room
copy_next-Delivers fuel next ih (w ∷ ws) want ring uio q r few pos part four room =
    copy_want-Delivers fuel next ih w ws want ring uio q r (omega arith) pos part four room

copy_round-Delivers :
    (fuel : ℕ) (next : List Window → UserRing → List ℕ → Written)
    → Continues fuel next
    → (ws : List Window) (ring : UserRing) (uio q : List ℕ) → Ready ring q
    → length uio + length ws < suc fuel
    → 4 ≤ length uio
    → length q < 32768
    → Delivers q uio (copy_round next ws ring uio)
unfolding copy_round
copy_round-Delivers fuel next ih ws ring uio q r enough long room =
    let e : space ring ≡ 32768 - length q = space-Ready ring q r in
    let four = r.frames in
    let n : ℕ = (if ltb (space ring) (length uio) then space ring else length uio) in
    let n4 : 4 ≤ n = ground arith in
    let nu : n ≤ length uio = ground arith in
    let nq : length q + n ≤ 32768 = ground arith in
    let more : (n / 4 * 4 == 0) ≡ false = ground arith in
    rw more (
      copy_next-Delivers fuel next ih ws (n / 4 * 4) ring uio q r enough (omega arith) (omega arith)
        (omega arith) (omega arith))

-- A write to a ring that holds a queue of whole frames, with any refills and errors in the windows
-- where it has given up the lock, and fuel for the bytes and the windows: it ends, and what the
-- refills took, followed by what the ring holds then, is what the ring held before followed by a
-- front of the caller's bytes, all of them but less than a frame if it returned 0. Bytes behind that
-- front are lost only if an error ended it. It sleeps for ever only on a ring that is full.
pub cdev_write-Delivers :
    (fuel : ℕ) (ndelay : Bool) (ws : List Window) (ring : UserRing) (uio q : List ℕ)
    → Ready ring q
    → length uio + length ws < fuel
    → Delivers q uio (cdev_write fuel ndelay ws ring uio)
unfolding cdev_write
cdev_write-Delivers zero ndelay ws ring uio q r enough = absurd (omega arith)
cdev_write-Delivers (suc fuel) ndelay ws ring uio q r enough =
    let next : List Window → UserRing → List ℕ → Written =
      λ ws' ring' uio'. cdev_write fuel ndelay ws' ring' uio' in
    let ih : Continues fuel next =
      λ ws' ring' uio' q' r' few. cdev_write-Delivers fuel ndelay ws' ring' uio' q' r' few in
    let e : space ring ≡ 32768 - length q = space-Ready ring q r in
    let four = r.frames in
    let small = r.fits in
    if_split (Delivers q uio) (ltb (length uio) 4) _ _
      (λ short. Delivers-returned q uio ring 0 r (λ z. ground arith))
      (λ long.
        if_split (Delivers q uio) (leb 4 (space ring)) _ _
          (λ room.
            copy_round-Delivers fuel next ih ws ring uio q r enough (ground arith) (ground arith))
          (λ full.
            if_split (Delivers q uio) ndelay _ _
              (λ now. Delivers-returned q uio ring eagain r (λ z. absurd (omega arith)))
              (λ wait. sleep_round-Delivers fuel next ih ws ring uio q r enough (ground arith))))
