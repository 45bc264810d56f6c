-- ===== src/Drawfs/Frame/Building.antt =====
-- What `drawfs_frame_build` of drawfs_frame.c builds, before the validator and the readers.
use awase.Base.{
  ℕ, ◌+◌, ◌-◌, ◌*◌, ◌/◌, ◌^◌, ◌<◌, ◌≡◌, refl, sym, List, ◌++◌, append_assoc, arith, length,
  replicate, take, drop, blit, length-append, length-replicate, blit-append, blit-replicate,
  take-append, drop-append,
}
use awase.Drawfs.Proto.{
  FrameHdr, MsgHdr, FrameHdrFits, MsgHdrFits, write_frame_hdr, write_msg_hdr, read_frame_hdr,
  read_msg_hdr, read_frame_hdr-write, read_msg_hdr-write,
}
use awase.Drawfs.Frame.{
  valid, frame_validate, frame_build, build_frame_hdr, build_msg_hdr, build_frame_bytes,
  build_msg_bytes,
}
use awase.Drawfs.Frame.Headers.{IsFrame, frame_validate-IsFrame}

length-write_frame_hdr : (h : FrameHdr) → length (write_frame_hdr h) ≡ 16
unfolding write_frame_hdr
length-write_frame_hdr h = refl

length-write_msg_hdr : (h : MsgHdr) → length (write_msg_hdr h) ≡ 16
unfolding write_msg_hdr
length-write_msg_hdr h = refl

-- Writing a block just past a prefix of known length, into memory that is still zero.
blit_next :
    (pre src : List ℕ) (off n k : ℕ)
    → length pre ≡ off
    → n ≡ length src + k
    → blit (pre ++ replicate n 0) off src ≡ (pre ++ src) ++ replicate k 0
blit_next pre src off n k e h =
    rw (← e, blit-append pre (replicate n 0) src, blit-replicate n k 0 src h)
      (sym (append_assoc pre src (replicate k 0)))

drop_prefix : (pre ys : List ℕ) (n : ℕ) → length pre ≡ n → drop n (pre ++ ys) ≡ ys
drop_prefix pre ys n e = rw (← e) (drop-append pre ys)

-- A payload for which no size wraps.
abbrev pub FitsFrame : List ℕ → Type 0
FitsFrame payload = length payload + 36 < 2 ^ 32

-- The sizes, with the padding to a multiple of 4.
pub build_sizes :
    (payload : List ℕ)
    → FitsFrame payload
    → (build_msg_bytes (length payload) ≡ 16 + length payload)
      × (build_frame_bytes (length payload) ≡ 32 + (length payload + 3) / 4 * 4)
unfolding build_msg_bytes build_frame_bytes
build_sizes payload h = omega arith

module _ (frame_id msg_type msg_id : ℕ) (payload : List ℕ) (fits : FitsFrame payload) where
  abbrev the_frame_hdr : FrameHdr
  the_frame_hdr = build_frame_hdr frame_id (build_frame_bytes (length payload))

  abbrev the_msg_hdr : MsgHdr
  the_msg_hdr = build_msg_hdr msg_type msg_id (build_msg_bytes (length payload))

  abbrev padding : ℕ
  padding = build_frame_bytes (length payload) - (32 + length payload)

  -- The frame is the two headers, the payload and zeros.
  pub frame_build_lem : frame_build frame_id msg_type msg_id payload ≡ (
    ((write_frame_hdr the_frame_hdr ++ write_msg_hdr the_msg_hdr) ++ payload)
        ++ replicate padding 0,
    build_frame_bytes (length payload),
  )
  unfolding frame_build
  frame_build_lem = rw (
    blit-replicate (build_frame_bytes (length payload)) (build_frame_bytes (length payload) - 16) 0
        (write_frame_hdr the_frame_hdr)
        (omega (arith, build_sizes payload fits, length-write_frame_hdr the_frame_hdr)),
    blit_next (write_frame_hdr the_frame_hdr) (write_msg_hdr the_msg_hdr) 16
        (build_frame_bytes (length payload) - 16) (build_frame_bytes (length payload) - 32)
        (length-write_frame_hdr the_frame_hdr)
        (omega (arith, build_sizes payload fits, length-write_msg_hdr the_msg_hdr)),
    blit_next (write_frame_hdr the_frame_hdr ++ write_msg_hdr the_msg_hdr) payload 32
        (build_frame_bytes (length payload) - 32) padding
        (omega (
          arith,
          length-append (write_frame_hdr the_frame_hdr) (write_msg_hdr the_msg_hdr),
          length-write_frame_hdr the_frame_hdr,
          length-write_msg_hdr the_msg_hdr,
        ))
        (omega (arith, build_sizes payload fits)),
  )

  -- The validator takes a built frame, in a buffer of its length, with the header that was written.
  pub frame_validate-build :
      frame_id < 2 ^ 32
      → let (frame, n) = frame_build frame_id msg_type msg_id payload in
        frame_validate frame n ≡ valid the_frame_hdr
  frame_validate-build hi =
      rw frame_build_lem ((frame_validate-IsFrame _ _ the_frame_hdr).1 (hdr, isf))
    where
      sizes :
          (build_msg_bytes (length payload) ≡ 16 + length payload)
          × (build_frame_bytes (length payload) ≡ 32 + (length payload + 3) / 4 * 4)
      sizes = build_sizes payload fits

      fits_hdr : FrameHdrFits the_frame_hdr
      fits_hdr = unfold build_frame_hdr in omega (arith, sizes)

      wf : List ℕ
      wf = write_frame_hdr the_frame_hdr

      wm : List ℕ
      wm = write_msg_hdr the_msg_hdr

      zs : List ℕ
      zs = replicate padding 0

      hdr : read_frame_hdr (((wf ++ wm) ++ payload) ++ zs) ≡ the_frame_hdr
      hdr =
          rw (append_assoc (wf ++ wm) payload zs, append_assoc wf wm (payload ++ zs))
            (read_frame_hdr-write the_frame_hdr (wm ++ (payload ++ zs)) fits_hdr)

      isf : IsFrame the_frame_hdr (build_frame_bytes (length payload))
      isf = unfold build_frame_hdr in omega (arith, sizes)

  -- Its message reads back: the header behind the frame's, and the payload behind both.
  pub read_msg-build :
      msg_type < 2 ^ 16
      → msg_id < 2 ^ 32
      → let (frame, n) = frame_build frame_id msg_type msg_id payload in
        (read_msg_hdr (drop 16 frame) ≡ the_msg_hdr)
        × (take (length payload) (drop 32 frame) ≡ payload)
        × (length frame ≡ n)
  read_msg-build ht hm = rw frame_build_lem (hdr, body, len)
    where
      sizes :
          (build_msg_bytes (length payload) ≡ 16 + length payload)
          × (build_frame_bytes (length payload) ≡ 32 + (length payload + 3) / 4 * 4)
      sizes = build_sizes payload fits

      wf : List ℕ
      wf = write_frame_hdr the_frame_hdr

      wm : List ℕ
      wm = write_msg_hdr the_msg_hdr

      zs : List ℕ
      zs = replicate padding 0

      fits_hdr : MsgHdrFits the_msg_hdr
      fits_hdr = unfold build_msg_hdr in omega (arith, sizes)

      hdr : read_msg_hdr (drop 16 (((wf ++ wm) ++ payload) ++ zs)) ≡ the_msg_hdr
      hdr =
          rw
            (
              append_assoc (wf ++ wm) payload zs,
              append_assoc wf wm (payload ++ zs),
              drop_prefix wf (wm ++ (payload ++ zs)) 16 (length-write_frame_hdr the_frame_hdr),
            )
            (read_msg_hdr-write the_msg_hdr _ fits_hdr)

      both : length (wf ++ wm) ≡ 32
      both = omega (
        arith,
        length-append wf wm,
        length-write_frame_hdr the_frame_hdr,
        length-write_msg_hdr the_msg_hdr,
      )

      body : take (length payload) (drop 32 (((wf ++ wm) ++ payload) ++ zs)) ≡ payload
      body =
          rw (append_assoc (wf ++ wm) payload zs, drop_prefix (wf ++ wm) (payload ++ zs) 32 both)
            (take-append payload zs)

      len : length (((wf ++ wm) ++ payload) ++ zs) ≡ build_frame_bytes (length payload)
      len = omega (
        arith,
        length-append ((wf ++ wm) ++ payload) zs,
        length-append (wf ++ wm) payload,
        both,
        sizes,
        length-replicate {A = ℕ} padding 0,
      )
