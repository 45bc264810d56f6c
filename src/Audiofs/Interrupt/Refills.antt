-- ===== src/Audiofs/Interrupt/Refills.antt =====
-- What the refills of audiofs.c put into the fragments of the audio buffer.
use awase.Base.{
  ℕ, ◌+◌, ◌-◌, ◌*◌, ◌/◌, ◌≤◌, ◌<◌, ◌≡◌, refl, ap, sym, ◌∙◌, inl, inr, Bool-cases, true, false, List,
  ◌++◌, length, take, drop, replicate, blit, length-take, length-blit, length-replicate, append-nil,
  ltb, leb, if◌then◌else◌, arith,
}
use awase.Base.Bytes.{u32}
use awase.Base.Memory.{slice, slice-blit_same, slice-extend}
use awase.Base.Within.{Within, blit-Within, Within-clear}
use awase.Audiofs.Ring.{copy_size}
use awase.Audiofs.Ring.Queue.{
  Ready, front, front-le, front-mod, skip, skip-Ready, drain-eq, copy_size-Ready,
}
use awase.Audiofs.Softc.{Softc, Xruns, add_xrun}
use awase.Audiofs.Interrupt.{refill_user_fragment, fill_gap}

-- What a fragment gets from a queue: its front, and silence for the rest.
abbrev pub fragment : List ℕ → List ℕ
fragment q = take (front q) q ++ replicate (4096 - front q) 0

-- The underruns of a refill: the frames of silence, if there are any.
unfoldable pub gap_after : ℕ → List ℕ → Xruns → Xruns
gap_after frames_played q x =
    if ltb (length q) 4096 then add_xrun frames_played ((4096 - length q) / 4) x else x

-- For a ring that holds a queue, and a buffer of its size: the fragment gets the front of the queue
-- and silence for what is missing, the other fragments stay, the ring holds the rest, and exactly the
-- frames of silence are counted as an underrun.
pub refill_user_fragment-Fills :
    (idx : ℕ) (sc : Softc) (q : List ℕ)
    → idx < 4
    → length sc.dma ≡ 16384
    → Ready sc.ring q
    → (let sc' = refill_user_fragment idx sc in
        (slice (idx * 4096) 4096 sc'.dma ≡ fragment q)
        × Within (idx * 4096) (idx * 4096 + 4096) sc.dma sc'.dma
        × Ready sc'.ring (drop (front q) q)
        × (sc'.xruns ≡ gap_after sc.frames_played q sc.xruns))
unfolding refill_user_fragment fill_gap gap_after
refill_user_fragment-Fills idx sc q small room r =
    let e : copy_size sc.ring ≡ front q = copy_size-Ready sc.ring q r in
    let inside : leb 4 idx ≡ false = ground arith in
    let got : List ℕ = take (front q) q in
    let le : front q ≤ length q = front-le q in
    let few : front q ≤ 4096 = ground arith in
    let lg : length got ≡ front q = omega (arith, length-take (front q) q) in
    let dst : ℕ = idx * 4096 in
    let b1 : List ℕ = blit sc.dma dst got in
    let w1 : Within dst (dst + 4096) sc.dma b1 =
      blit-Within dst (dst + 4096) sc.dma dst got (omega arith) (omega arith) in
    let ready' : Ready (skip (front q) sc.ring) (drop (front q) q) =
      skip-Ready (front q) sc.ring q le (front-mod q r.frames) r in
    let copied : slice dst (front q) b1 ≡ got =
      ap (λ (n : ℕ). slice dst n b1) (sym lg) ∙ slice-blit_same dst sc.dma got (omega arith) in
    rw (inside, e, drain-eq sc.ring q r)
      (elim (Bool-cases (ltb (front q) 4096)) [
        | inl t ↦
            let short : ltb (length q) 4096 ≡ true = ground arith in
            let all : front q ≡ length q = ground arith in
            let frames : u32 (4096 - front q) / 4 ≡ (4096 - length q) / 4 = omega arith in
            rw (t, short)
              (
                slice-extend dst (dst + front q) (front q) (4096 - front q) 4096 b1 got
                    (replicate (4096 - front q) 0) refl (omega arith)
                    (length-replicate {A = ℕ} (4096 - front q) 0)
                    (omega (arith, length-blit sc.dma dst got)) copied,
                Within-clear dst (dst + 4096) sc.dma b1 (dst + front q) (4096 - front q)
                    (omega arith) (omega arith) w1,
                ready',
                ap (λ (n : ℕ). add_xrun sc.frames_played n sc.xruns) frames,
              )
        | inr f ↦
            let long : ltb (length q) 4096 ≡ false = ground arith in
            let all : front q ≡ 4096 = ground arith in
            let nothing : 0 ≡ 4096 - front q = omega arith in
            rw (f, long)
              (
                ap (λ (n : ℕ). slice dst n b1) (sym all)
                    ∙ copied
                    ∙ sym (append-nil got)
                    ∙ ap (λ (n : ℕ). got ++ replicate n 0) nothing,
                w1,
                ready',
                refl,
              )
      ])
