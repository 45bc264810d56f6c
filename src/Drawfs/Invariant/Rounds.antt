-- ===== src/Drawfs/Invariant/Rounds.antt =====
-- The loop of `drawfs_try_process_inbuf`: its end, and the invariant of the session.
use awase.Base.{
  ℕ, zero, suc, ◌+◌, ◌*◌, ◌≤◌, ◌<◌, ◌≡◌, ◌≢◌, ◌⊎◌, refl, List, [], ◌∷◌, arith, Option, some, true,
  Bool-cases, inl, inr, ◌==◌, take, length,
}
use awase.Drawfs.Proto.{FrameHdr, max_frame_bytes}
use awase.Drawfs.Frame.{FrameCheck, valid, invalid, frame_validate}
use awase.Drawfs.Session.{Session, State, Tunables, enxio}
use awase.Drawfs.Reply.{Display}
use awase.Drawfs.Inbuf.{
  HeadCheck, finished, extract, inspect_head, check_head, drop_input, Extraction, closes, lost,
  taken, take_frame, same_bytes, Windows, pass, later, count_lost, after_processing, handle_frame,
  process_inbuf,
}
use awase.Drawfs.Dispatch.Progress.{process_frame-total}
use awase.Drawfs.Invariant.{SessionInv, Limits}
use awase.Drawfs.Invariant.Input.{
  Keeping, pass-SessionInv, later-Keeping, HeadKept, inspect_head-kept, take_frame-kept,
  handle_frame-Kept,
}

HeadCheck-cases :
    (h : HeadCheck)
    → ((e : ℕ) × (s : Session) × (h ≡ finished e s))
      ⊎ ((fh : FrameHdr) × (hdr : List ℕ) × (h ≡ extract fh hdr))
HeadCheck-cases (finished e s) = inl (e, s, refl)
HeadCheck-cases (extract fh hdr) = inr (fh, hdr, refl)

Extraction-cases :
    (x : Extraction) → (x ≡ closes) ⊎ (x ≡ lost) ⊎ ((f : List ℕ) × (s : Session) × (x ≡ taken f s))
Extraction-cases closes = inl refl
Extraction-cases lost = inr (inl refl)
Extraction-cases (taken f s) = inr (inr (f, s, refl))

same_bytes_self : (xs : List ℕ) → same_bytes xs xs ≡ true
unfolding same_bytes
same_bytes_self [] = refl
same_bytes_self (x ∷ xs) = ground (arith, same_bytes_self xs)

-- With no one else at work, the frame that was seen is still there.
not_lost :
    (t : Tunables) (s : Session) (fh : FrameHdr) (hdr : List ℕ)
    → inspect_head t s ≡ extract fh hdr
    → take_frame s fh.frame_bytes hdr ≢ lost
unfolding inspect_head take_frame check_head drop_input
not_lost t s fh hdr e = ground (arith, same_bytes_self (take 16 s.inbuf))

-- A round that passes a window has one less to come; the bytes that wait are at most a frame.
abbrev pub measure : Windows → State → ℕ
measure ws st = length ws * suc max_frame_bytes + st.session.in_len

pass-measure :
    (t : Tunables) (ws : Windows) (st : State)
    → Keeping t max_frame_bytes ws
    → SessionInv t max_frame_bytes st.session
    → (measure (later ws) (pass ws st) ≤ measure ws st)
      × ((ws ≢ []) → measure (later ws) (pass ws st) < measure ws st)
pass-measure t [] st ks inv = (omega arith, λ h. absurd (h refl))
pass-measure t (w ∷ ws) st ks inv = let inv' = ks.0 st inv in (omega arith, λ h. omega arith)

handle_frame-total :
    (t : Tunables) (d : Display) (st : State) (frame : List ℕ) (c : FrameCheck) (n : ℕ)
    → n ≤ max_frame_bytes
    → (r : ℕ × State) × (handle_frame t d st frame c n ≡ some r)
unfolding handle_frame
handle_frame-total t d st frame (invalid code off) n small = (_, refl)
handle_frame-total t d st frame (valid fh) n small =
    let (r, done) = process_frame-total t d st frame n small in
    (after_processing r, rw (done, handle_frame) refl)

module _ (t : Tunables) (l : Limits t) (d : Display) where
  abbrev pub Ends : Option (ℕ × State) → Type 0
  Ends r = (out : ℕ × State) × (r ≡ some out) × SessionInv t max_frame_bytes out.1.session

  extract_sizes :
      (s : Session) (fh : FrameHdr) (hdr : List ℕ)
      → SessionInv t max_frame_bytes s
      → inspect_head t s ≡ extract fh hdr
      → (1 ≤ fh.frame_bytes) × (fh.frame_bytes ≤ max_frame_bytes)
  extract_sizes s fh hdr inv e =
      let kept : HeadKept t max_frame_bytes s (extract fh hdr) =
        rw e at (inspect_head-kept t max_frame_bytes l s inv) in
      (kept.0, kept.2)

  taken_sizes :
      (s s' : Session) (n : ℕ) (hdr frame : List ℕ)
      → SessionInv t max_frame_bytes s
      → take_frame s n hdr ≡ taken frame s'
      → SessionInv t s'.in_len s' × (s'.in_len + n ≡ s.in_len)
  taken_sizes s s' n hdr frame inv e = rw e at (take_frame-kept t max_frame_bytes s n hdr inv)

  handled :
      (st st' : State) (frame : List ℕ) (c : FrameCheck) (n v : ℕ)
      → SessionInv t st.session.in_len st.session
      → handle_frame t d st frame c n ≡ some (v, st')
      → SessionInv t st.session.in_len st'.session
  handled st st' frame c n v inv e =
      rw e at (handle_frame-Kept t st.session.in_len l d st frame c n inv)

  lost_window :
      (ws : Windows) (st : State) (fh : FrameHdr) (hdr : List ℕ)
      → inspect_head t st.session ≡ extract fh hdr
      → take_frame (pass ws st).session fh.frame_bytes hdr ≡ lost
      → ws ≢ []
  lost_window [] st fh hdr head missed = absurd (not_lost t st.session fh hdr head missed)
  lost_window (w ∷ ws) st fh hdr head missed = λ e. cc

  pub process_inbuf-Ends :
      (fuel : ℕ) (ws : Windows) (st : State)
      → Keeping t max_frame_bytes ws
      → SessionInv t max_frame_bytes st.session
      → measure ws st < fuel
      → Ends (process_inbuf fuel t d ws st)
  unfolding process_inbuf count_lost
  process_inbuf-Ends zero ws st ks inv h = absurd (omega arith)
  process_inbuf-Ends (suc fuel) ws st ks inv h =
      elim (HeadCheck-cases (inspect_head t st.session)) [
        | inl (e, s, head) ↦
            let inv' : SessionInv t max_frame_bytes s =
              rw head at (inspect_head-kept t max_frame_bytes l st.session inv) in
            ((e, record st { session = s }), rw (head, process_inbuf), inv')
        | inr (fh, hdr, head) ↦
            let passed = pass-SessionInv t max_frame_bytes ws st ks inv in
            let (down, strictly) = pass-measure t ws st ks inv in
            let (some_bytes, small) = extract_sizes st.session fh hdr inv head in
            elim (Extraction-cases (take_frame (pass ws st).session fh.frame_bytes hdr)) [
              | inl gone ↦
                  ((enxio, pass ws st), rw (head, process_inbuf) (rw (gone, process_inbuf)), passed)
              | inr (inl missed) ↦
                  let (out, done, inv') =
                    process_inbuf-Ends fuel (later ws) (count_lost (pass ws st))
                      (later-Keeping t max_frame_bytes ws ks) passed
                      (omega (arith, strictly (lost_window ws st fh hdr head missed))) in
                  (out, rw (head, process_inbuf) (rw (missed, process_inbuf) done), inv')
              | inr (inr (frame, s, took)) ↦
                  let n = fh.frame_bytes in
                  let st1 : State = record (pass ws st) { session = s } in
                  let (inv1, less) = taken_sizes (pass ws st).session s n hdr frame passed took in
                  let ((v, st2), done) =
                    handle_frame-total t d st1 frame (frame_validate frame n) n small in
                  let inv2 = handled st1 st2 frame (frame_validate frame n) n v inv1 done in
                  let inv3 : SessionInv t max_frame_bytes st2.session = omega arith in
                  elim (Bool-cases (v == 0)) [
                    | inr stop ↦ (
                      (v, st2),
                      rw (head, process_inbuf)
                          (rw (took, process_inbuf) (rw (done, process_inbuf) (rw stop))),
                      inv3,
                    )
                    | inl go ↦
                        let (out, ended, inv') =
                          process_inbuf-Ends fuel (later ws) st2
                            (later-Keeping t max_frame_bytes ws ks) inv3 (omega arith) in
                        (
                          out,
                          rw (head, process_inbuf)
                              (rw (took, process_inbuf) (rw (done, process_inbuf) (rw go ended))),
                          inv',
                        )
                  ]
            ]
      ]
