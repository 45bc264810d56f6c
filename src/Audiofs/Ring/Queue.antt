-- ===== src/Audiofs/Ring/Queue.antt =====
-- The ring of audiofs.c as a queue of whole frames: what refills take and what copies put in.
use awase.Base.{
  ℕ, zero, suc, ◌+◌, ◌-◌, ◌%◌, ◌^◌, ◌≤◌, ◌<◌, ◌≡◌, refl, ap, ◌∙◌, inl, inr, Bool-cases, List, [],
  ◌∷◌, ◌++◌, length, take, drop, length-append, length-drop, ltb, if◌then◌else◌, append_assoc,
  arith,
}
use awase.Base.Bytes.{u64}
use awase.Audiofs.Ring.{UserRing, used, space, copy_size, drain, drain_times, write_ring}
use awase.Audiofs.Ring.Contents.{
  Holds, length-write_ring, Holds-write_ring, Holds-write_ring_free, read_ring-Holds, Holds-drop,
}

-- The ring holds a queue of whole frames.
pub record Ready (ring : UserRing) (q : List ℕ) : Type 0 where
  pub size : length ring.bytes ≡ 32768
  pub tail_fits : ring.tail < 2 ^ 64
  pub head_at : ring.head ≡ u64 (ring.tail + length q)
  pub fits : length q ≤ 32768
  pub frames : length q % 4 ≡ 0
  pub holds : Holds ring.bytes ring.tail q

pub used-Ready : (ring : UserRing) (q : List ℕ) → Ready ring q → used ring ≡ length q
unfolding used
used-Ready ring q r =
    let open_head = r.head_at in let small = r.tail_fits in let f = r.fits in omega arith

pub space-Ready : (ring : UserRing) (q : List ℕ) → Ready ring q → space ring ≡ 32768 - length q
unfolding space
space-Ready ring q r =
    let e : used ring ≡ length q = used-Ready ring q r in let f = r.fits in omega arith

take-nothing : (q : List ℕ) → length q ≡ 0 → q ≡ []
take-nothing [] e = refl
take-nothing (b ∷ bs) e = absurd (omega arith)

-- The ring behind a number of bytes.
abbrev pub skip : ℕ → UserRing → UserRing
skip n ring = record ring { tail = u64 (ring.tail + n) }

pub skip-Ready :
    (n : ℕ) (ring : UserRing) (q : List ℕ)
    → n ≤ length q
    → n % 4 ≡ 0
    → Ready ring q
    → Ready (skip n ring) (drop n q)
skip-Ready n ring q le whole r =
    let ld : length (drop n q) ≡ length q - n = length-drop n q in
    let h = r.head_at in
    let small = r.tail_fits in
    let room = r.fits in
    let four = r.frames in
    record {
      size = r.size;
      tail_fits = omega arith;
      head_at = omega arith;
      fits = omega arith;
      frames = omega arith;
      holds = Holds-drop ring.bytes ring.tail (u64 (ring.tail + n)) n q (omega arith) r.holds;
    }

-- A refill takes the front of the queue, of the length of a fragment, or all.
abbrev pub front : List ℕ → ℕ
front q = if ltb 4096 (length q) then 4096 else length q

pub front-le : (q : List ℕ) → front q ≤ length q
front-le q = ground arith

pub front-mod : (q : List ℕ) → length q % 4 ≡ 0 → front q % 4 ≡ 0
front-mod q h = ground arith

pub copy_size-Ready : (ring : UserRing) (q : List ℕ) → Ready ring q → copy_size ring ≡ front q
unfolding copy_size
copy_size-Ready ring q r = rw (used-Ready ring q r) refl

pub drain-eq :
    (ring : UserRing) (q : List ℕ)
    → Ready ring q
    → drain ring ≡ (skip (front q) ring, take (front q) q)
unfolding drain
drain-eq ring q r =
    let e : copy_size ring ≡ front q = copy_size-Ready ring q r in
    let small = r.tail_fits in
    elim (Bool-cases (ltb 0 (front q))) [
      | inl t ↦
          rw (e, t)
            (λ i. (
              skip (front q) ring,
              read_ring-Holds ring.bytes ring.tail (front q) q r.size (front-le q) r.fits r.holds i,
            ))
      | inr f ↦
          let none : front q ≡ 0 = ground arith in
          let same : ring.tail ≡ u64 (ring.tail + 0) = omega arith in
          rw (e, f, none) (λ i. (record ring { tail = same i }, []))
    ]

pub drain-Ready :
    (ring : UserRing) (q : List ℕ)
    → Ready ring q
    → ((drain ring).1 ≡ take (front q) q) × Ready (drain ring).0 (drop (front q) q)
drain-Ready ring q r =
    rw (drain-eq ring q r) (refl, skip-Ready (front q) ring q (front-le q) (front-mod q r.frames) r)

-- What the ring holds after refills, and that they only move the tail.
pub record Drained (ring ring' : UserRing) (q got q' : List ℕ) : Type 0 where
  pub split : got ++ q' ≡ q
  pub ready : Ready ring' q'
  pub bytes_kept : ring'.bytes ≡ ring.bytes
  pub head_kept : ring'.head ≡ ring.head

pub take-drop : (n : ℕ) (q : List ℕ) → take n q ++ drop n q ≡ q
take-drop zero q = refl
take-drop (suc n) [] = refl
take-drop (suc n) (b ∷ bs) = ap (◌∷◌ b) (take-drop n bs)

pub drained : ℕ → List ℕ → List ℕ
drained zero q = q
drained (suc k) q = drained k (drop (front q) q)

pub drain_times-Drained :
    (k : ℕ) (ring : UserRing) (q : List ℕ)
    → Ready ring q
    → Drained ring (drain_times k ring).0 q (drain_times k ring).1 (drained k q)
unfolding drain_times drained
drain_times-Drained zero ring q r = record {
  split = refl;
  ready = r;
  bytes_kept = refl;
  head_kept = refl;
}
drain_times-Drained (suc k) ring q r =
    let e : drain ring ≡ (skip (front q) ring, take (front q) q) = drain-eq ring q r in
    let d =
      drain_times-Drained k (skip (front q) ring) (drop (front q) q)
        (skip-Ready (front q) ring q (front-le q) (front-mod q r.frames) r) in
    rw e (record {
      split =
          append_assoc (take (front q) q) (drain_times k (skip (front q) ring)).1
            (drained k (drop (front q) q))
          ∙ ap (◌++◌ (take (front q) q)) d.split
          ∙ take-drop (front q) q;
      ready = d.ready;
      bytes_kept = d.bytes_kept;
      head_kept = d.head_kept;
    })

-- Bytes that are copied in behind the queue.
pub enqueue-Ready :
    (ring : UserRing) (q chunk : List ℕ) (place want : ℕ)
    → place ≡ (ring.tail + length q) % 32768
    → length chunk ≡ want
    → want % 4 ≡ 0
    → length q + want ≤ 32768
    → Ready ring q
    → Ready
        (record ring {
          bytes = write_ring ring.bytes place want chunk;
          head = u64 (ring.head + want);
        })
        (q ++ chunk)
enqueue-Ready ring q chunk place want at whole four room r =
    let h = r.head_at in
    let small = r.tail_fits in
    let fr = r.frames in
    let total : length (q ++ chunk) ≡ length q + length chunk = length-append q chunk in
    record {
      size = length-write_ring ring.bytes place want chunk ∙ r.size;
      tail_fits = r.tail_fits;
      head_at = omega arith;
      fits = omega arith;
      frames = omega arith;
      holds = rw at (Holds-write_ring ring.bytes ring.tail want q chunk r.size whole room r.holds);
    }

-- Bytes that are copied into the free part, the cursor staying.
pub scribble-Ready :
    (ring : UserRing) (q chunk : List ℕ) (place want : ℕ)
    → place ≡ (ring.tail + length q) % 32768
    → length chunk ≤ want
    → length q + want ≤ 32768
    → Ready ring q
    → Ready (record ring { bytes = write_ring ring.bytes place want chunk }) q
scribble-Ready ring q chunk place want at part room r = record {
  size = length-write_ring ring.bytes place want chunk ∙ r.size;
  tail_fits = r.tail_fits;
  head_at = r.head_at;
  fits = r.fits;
  frames = r.frames;
  holds = rw at (Holds-write_ring_free ring.bytes ring.tail want q chunk r.size part room r.holds);
}
