-- ===== src/Drawfs/Invariant/Input.antt =====
-- The invariant of the session in the steps of `drawfs_try_process_inbuf`.
use awase.Base.{
  ℕ, ◌+◌, ◌-◌, ◌≤◌, ◌%◌, ◌≡◌, List, [], ◌∷◌, arith, Bool, Bool-cases, if_keeps, inl, inr, ltb, ◌==◌,
  ◌||◌, not, drop, take, length-blit, All, Option-cases,
}
use awase.Drawfs.Proto.{
  FrameHdr, read_frame_hdr, max_frame_bytes, err_invalid_frame, magic, frame_hdr_size,
}
use awase.Drawfs.Frame.{FrameCheck, valid, invalid}
use awase.Drawfs.Session.{Session, State, Tunables, enxio}
use awase.Drawfs.Reply.{Display}
use awase.Drawfs.Inbuf.{
  HeadCheck, finished, extract, drop_input, check_head, inspect_head, Extraction, closes, lost,
  taken, take_frame, Windows, pass, later, after_processing, handle_frame, count_received,
  count_invalid,
}
use awase.Drawfs.Dispatch.{process_frame}
use awase.Drawfs.Invariant.{SessionInv, Limits, reply_error-SessionInv}
use awase.Drawfs.Invariant.Messages.{Kept, process_frame-Kept}

-- What other threads do keeps the invariant.
abbrev pub Keeping : Tunables → ℕ → Windows → Type 0
Keeping t k ws =
    All
      (λ (w : State → State).
        (st : State) → SessionInv t k st.session → SessionInv t k (w st).session)
      ws

pub pass-SessionInv :
    (t : Tunables) (k : ℕ) (ws : Windows) (st : State)
    → Keeping t k ws
    → SessionInv t k st.session
    → SessionInv t k (pass ws st).session
pass-SessionInv t k [] st ks inv = inv
pass-SessionInv t k (w ∷ ws) st ks inv = ks.0 st inv

pub later-Keeping : (t : Tunables) (k : ℕ) (ws : Windows) → Keeping t k ws → Keeping t k (later ws)
later-Keeping t k [] ks = tt
later-Keeping t k (w ∷ ws) ks = ks.1

abbrev pub HeadKept : Tunables → ℕ → Session → HeadCheck → Type 0
HeadKept t k s (finished e s') = SessionInv t k s'
HeadKept t k s (extract fh hdr) =
    (1 ≤ fh.frame_bytes) × (fh.frame_bytes ≤ s.in_len) × (fh.frame_bytes ≤ max_frame_bytes)

abbrev pub TakenKept : Tunables → Session → ℕ → Extraction → Type 0
TakenKept t s n closes = Unit
TakenKept t s n lost = Unit
TakenKept t s n (taken frame s') = SessionInv t s'.in_len s' × (s'.in_len + n ≡ s.in_len)

-- Taking a frame leaves that much less in the buffer.
pub take_frame-kept :
    (t : Tunables) (k : ℕ) (s : Session) (n : ℕ) (hdr : List ℕ)
    → SessionInv t k s
    → TakenKept t s n (take_frame s n hdr)
unfolding take_frame
take_frame-kept t k s n hdr inv =
    ground (arith, length-blit s.inbuf 0 (take (s.in_len - n) (drop n s.inbuf)))

module _ (t : Tunables) (k : ℕ) (l : Limits t) where
  drop_input-SessionInv :
      (s s0 : Session) (off : ℕ) → SessionInv t k s → HeadKept t k s0 (drop_input t s off)
  unfolding drop_input
  drop_input-SessionInv s s0 off inv =
      reply_error-SessionInv t k l (record s { in_len = 0 }) 0 err_invalid_frame off (omega arith)

  bad_frame_bytes : FrameHdr → Bool
  bad_frame_bytes fh =
      fh.frame_bytes == 0 || ltb max_frame_bytes fh.frame_bytes || not (fh.frame_bytes % 4 == 0)

  check_head-kept :
      (s : Session) (fh : FrameHdr) → SessionInv t k s → HeadKept t k s (check_head t s fh)
  unfolding check_head bad_frame_bytes
  check_head-kept s fh inv = elim (Bool-cases (not (fh.magic == magic))) [
    | inl a ↦ rw a (drop_input-SessionInv (count_invalid (count_received s)) s 0 (omega arith))
    | inr a' ↦ elim (Bool-cases (not (fh.header_bytes == frame_hdr_size))) [
      | inl b ↦ rw (a', b) (drop_input-SessionInv (count_received s) s 6 (omega arith))
      | inr b' ↦ elim (Bool-cases (bad_frame_bytes fh)) [
        | inl c ↦ rw (a', b', c) (drop_input-SessionInv (count_received s) s 8 (omega arith))
        | inr c' ↦ elim (Bool-cases (ltb s.in_len fh.frame_bytes)) [
          | inl d ↦ rw (a', b', c', d) inv
          | inr d' ↦ rw (a', b', c', d') (ground arith, ground arith, ground arith)
        ]
      ]
    ]
  ]

  pub inspect_head-kept : (s : Session) → SessionInv t k s → HeadKept t k s (inspect_head t s)
  unfolding inspect_head
  inspect_head-kept s inv = if_keeps (HeadKept t k s) s.closing (finished enxio s) _ inv (
      if_keeps (HeadKept t k s) (ltb s.in_len frame_hdr_size) (finished 0 s) _ inv
        (check_head-kept s (read_frame_hdr s.inbuf) inv))

  pub handle_frame-Kept :
      (d : Display) (st : State) (frame : List ℕ) (c : FrameCheck) (n : ℕ)
      → SessionInv t k st.session
      → Kept t k (handle_frame t d st frame c n)
  unfolding handle_frame after_processing
  handle_frame-Kept d st frame (invalid code off) n inv =
      reply_error-SessionInv t k l (count_invalid st.session) 0 code off (omega arith)
  handle_frame-Kept d st frame (valid fh) n inv =
      elim (Option-cases (process_frame t d st frame n)) [
        | inl stuck ↦ rw (stuck, Kept) tt
        | inr ((v, st'), done) ↦
            let inv' : SessionInv t k st'.session =
              rw done at (process_frame-Kept t k l d st frame n inv) in
            rw (done, Kept) (omega arith)
      ]
