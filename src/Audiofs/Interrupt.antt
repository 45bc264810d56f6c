-- ===== src/Audiofs/Interrupt.antt =====
-- The interrupt of a stream in audiofs.c: `audiofs_intr_filter`, `audiofs_intr_thread` with the
-- refills that it makes, and `audiofs_xrun_task`. The position that the thread reads from the
-- hardware is an argument, and so is what other threads do once it has passed its guard.
pub mod Refills
pub mod Cursor
use awase.Base.{
  ℕ, zero, suc, ◌+◌, ◌-◌, ◌*◌, ◌/◌, ◌%◌, ◌^◌, Bool, true, false, not, ◌&&◌, ◌||◌, Option, none,
  some, List, [], ◌∷◌, ◌++◌, length, replicate, blit, ltb, leb, ◌==◌, if◌then◌else◌,
}
use awase.Base.Bytes.{put_le, u32, u64}
use awase.Base.Memory.{clear}
use awase.Base.Indexed.{get_elem?}
use awase.Audiofs.Ring.{UserRing, copy_size, drain, frag_bytes}
use awase.Audiofs.Softc.{
  Softc, Status, no_status, Source, sine, user, Xruns, no_xruns, AudioEvent, bdl_entries,
  publish_event, advance, add_xrun,
}

-- The samples of one period, as bit patterns of 16 bits.
abbrev pub sine_table : List ℕ
sine_table =
    0 ∷ 16 ∷ 32 ∷ 48 ∷ 63 ∷ 77 ∷ 91 ∷ 104 ∷ 116 ∷ 127 ∷ 136 ∷ 145 ∷ 152 ∷ 157 ∷ 161 ∷ 163 ∷ 164
    ∷ 163 ∷ 161 ∷ 157 ∷ 152 ∷ 145 ∷ 136 ∷ 127 ∷ 116 ∷ 104 ∷ 91 ∷ 77 ∷ 63 ∷ 48 ∷ 32 ∷ 16 ∷ 0 ∷ 65520
    ∷ 65504 ∷ 65488 ∷ 65473 ∷ 65459 ∷ 65445 ∷ 65432 ∷ 65420 ∷ 65409 ∷ 65400 ∷ 65391 ∷ 65384 ∷ 65379
    ∷ 65375 ∷ 65373 ∷ 65372 ∷ 65373 ∷ 65375 ∷ 65379 ∷ 65384 ∷ 65391 ∷ 65400 ∷ 65409 ∷ 65420 ∷ 65432
    ∷ 65445 ∷ 65459 ∷ 65473 ∷ 65488 ∷ 65504 ∷ 65520 ∷ []

abbrev pub sample_at : ℕ → ℕ
sample_at f = elim (get_elem? sine_table (f % 64)) [ none ↦ 0 | some v ↦ v ]

-- The bytes of `n` stereo frames from a frame on.
unfoldable pub sine_frames : ℕ → ℕ → List ℕ
sine_frames zero f = []
sine_frames (suc n) f = put_le 2 (sample_at f) ++ (put_le 2 (sample_at f) ++ sine_frames n (f + 1))

unfoldable pub refill_sine_fragment : ℕ → Softc → Softc
unfolding sine_frames
refill_sine_fragment idx sc =
    if leb bdl_entries idx
    then sc
    else record sc { dma = blit sc.dma (idx * frag_bytes) (sine_frames 1024 (idx * 1024)) }

-- A fragment that the ring does not fill has zeros behind, and is an underrun.
unfoldable pub fill_gap : ℕ → ℕ → Softc → Softc
unfolding add_xrun
fill_gap dst copy_bytes sc =
    if ltb copy_bytes frag_bytes
    then record sc {
      dma = clear sc.dma (dst + copy_bytes) (frag_bytes - copy_bytes);
      underflow_count = u64 (sc.underflow_count + 1);
      xruns = add_xrun sc.frames_played (u32 (frag_bytes - copy_bytes) / 4) sc.xruns;
    }
    else sc

unfoldable pub refill_user_fragment : ℕ → Softc → Softc
unfolding fill_gap
refill_user_fragment idx sc =
    let dst = idx * frag_bytes in
    let (ring, got) = drain sc.ring in
    if leb bdl_entries idx
    then sc
    else fill_gap dst (copy_size sc.ring) (record sc { ring = ring; dma = blit sc.dma dst got })

unfoldable pub refill_from : Source → ℕ → Softc → Softc
unfolding refill_user_fragment refill_sine_fragment
refill_from user idx sc = refill_user_fragment idx sc
refill_from sine idx sc = refill_sine_fragment idx sc

abbrev pub refill_fragment : ℕ → Softc → Softc
refill_fragment idx sc = refill_from sc.source idx sc

-- The fragments from the cursor up to the one that is played, with their number; `none` is the
-- model's, when the fuel is used up.
unfoldable pub refill_loop : ℕ → ℕ → Softc → Option (Softc × ℕ)
unfolding refill_from
refill_loop zero curr sc = none
refill_loop (suc fuel) curr sc =
    let cursor = sc.next_refill_fragment in
    let rest : Option (Softc × ℕ) =
      elim (refill_loop fuel curr (record (refill_fragment cursor sc) {
        next_refill_fragment = (cursor + 1) % bdl_entries;
      })) [ none ↦ none | some (sc', n) ↦ some (sc', n + 1) ] in
    if cursor == curr then some (sc, 0) else rest

unfoldable pub count_refills : ℕ → Softc → Softc
count_refills n sc =
    if n == 0
    then record sc { refill_miss_count = u64 (sc.refill_miss_count + 1) }
    else if leb 2 n
    then record sc { refill_multi_count = u64 (sc.refill_multi_count + 1) }
    else sc

unfoldable pub after_refills : Option (Softc × ℕ) → Option Softc
unfolding count_refills
after_refills none = none
after_refills (some (sc, n)) = some (count_refills n sc)

unfoldable pub on_bcis : ℕ → Bool → ℕ → Softc → Option Softc
unfolding refill_loop after_refills
on_bcis fuel false lpib sc = some sc
on_bcis fuel true lpib sc = after_refills (refill_loop fuel (lpib / frag_bytes) sc)

-- An underrun of the hardware counts as a fragment.
unfoldable pub on_fifoe : Bool → Softc → Softc
unfolding add_xrun
on_fifoe false sc = sc
on_fifoe true sc = record sc {
  underflow_count = u64 (sc.underflow_count + 1);
  xruns = add_xrun sc.frames_played (frag_bytes / 4) sc.xruns;
}

unfoldable pub after_bcis : Bool → Option Softc → Option Softc
unfolding on_fifoe
after_bcis fifoe none = none
after_bcis fifoe (some sc) = some (on_fifoe fifoe sc)

-- What the thread does behind its guard. A descriptor error is only reported on the console.
unfoldable pub intr_body : ℕ → Status → ℕ → Softc → Option Softc
unfolding advance on_bcis after_bcis
intr_body fuel sdsts lpib sc =
    after_bcis sdsts.fifoe
      (on_bcis fuel sdsts.bcis lpib (record (advance lpib sc) { prev_lpib = lpib }))

unfoldable pub intr_thread : (Softc → Softc) → ℕ → ℕ → Softc → Option Softc
unfolding intr_body
intr_thread meanwhile fuel lpib sc =
    if sc.active
    then intr_body fuel sc.last_sdsts lpib (meanwhile (record sc { last_sdsts = no_status }))
    else some sc

-- Whether the thread is to run. The bits are cleared in the hardware, and kept for the thread.
unfoldable pub intr_filter : Bool → Status → Softc → Bool × Softc
intr_filter ours sdsts sc =
    let last = sc.last_sdsts in
    if not ours then (false, sc) else (
      true,
      record sc {
        last_sdsts = record {
          bcis = last.bcis || sdsts.bcis;
          fifoe = last.fifoe || sdsts.fifoe;
          dese = last.dese || sdsts.dese;
        };
      },
    )

-- The event of underruns that were gathered: the stream, the kind, where the gap is, and its frames.
unfoldable pub xrun_event : ℕ → ℕ → Xruns → AudioEvent
xrun_event stream_id endpoint_slot x = record {
  source_role = 1;
  event_type = 3;
  endpoint_slot = endpoint_slot;
  flags = (if ltb 1 x.coalesced then 2 else 0);
  payload =
      put_le 4 stream_id
      ++ (put_le 1 0 ++ (replicate 3 0 ++ (put_le 8 x.gap_pos ++ put_le 4 x.pending_frames)));
}

unfoldable pub publish_xruns : Xruns → Softc → Softc
unfolding publish_event xrun_event
publish_xruns x sc =
    if x.pending_frames == 0
    then sc
    else publish_event (xrun_event sc.stream_id sc.endpoint_slot x) sc

unfoldable pub xrun_task : Softc → Softc
unfolding publish_xruns
xrun_task sc = if sc.active then publish_xruns sc.xruns (record sc { xruns = no_xruns }) else sc
