-- ===== src/Drawfs/Invariant/Messages.antt =====
-- The invariant of the session in `drawfs_process_frame`.
use awase.Base.{
  ℕ, zero, suc, ◌+◌, ◌-◌, List, arith, Option, some, none, Bool-cases, inl, inr, ltb, ◌==◌, not,
  drop,
}
use awase.Base.Bytes.{align4, u32}
use awase.Drawfs.Proto.{
  MsgHdr, read_msg_hdr, msg_hdr_size, err_invalid_arg, err_unsupported_cap, err_invalid_msg,
}
use awase.Drawfs.Frame.{FrameCheck, valid, invalid, frame_validate}
use awase.Drawfs.Session.{Session, State, Tunables}
use awase.Drawfs.Reply.{Display, reply_hello, reply_display_list}
use awase.Drawfs.Dispatch.{
  dispatch, is_bad_msg, bad_msg, one_msg, process_msgs, checked_frame, process_frame, count_message,
  count_unsupported,
}
use awase.Drawfs.Invariant.{
  SessionInv, Limits, send_reply-SessionInv, reply_error-SessionInv, reply_display_open-SessionInv,
  reply_surface_create-SessionInv, reply_surface_destroy-SessionInv,
  reply_surface_present-SessionInv,
}

-- A result, if there is one, keeps the invariant.
abbrev pub Kept : Tunables → ℕ → Option (ℕ × State) → Type 0
Kept t k none = Unit
Kept t k (some (e, st)) = SessionInv t k st.session

module _ (t : Tunables) (k : ℕ) (l : Limits t) where
  reply_hello-SessionInv :
      (s : Session) (msg_id : ℕ) → SessionInv t k s → SessionInv t k (reply_hello t s msg_id).1
  unfolding reply_hello
  reply_hello-SessionInv s msg_id inv = send_reply-SessionInv t k l s _ msg_id _ inv

  reply_display_list-SessionInv :
      (d : Display) (s : Session) (msg_id : ℕ)
      → SessionInv t k s
      → SessionInv t k (reply_display_list t d s msg_id).1
  unfolding reply_display_list
  reply_display_list-SessionInv d s msg_id inv = send_reply-SessionInv t k l s _ msg_id _ inv

  -- Whatever a message is, handling it keeps the invariant.
  pub dispatch-SessionInv :
      (d : Display) (st : State) (mh : MsgHdr) (payload : List ℕ) (n pos : ℕ)
      → SessionInv t k st.session
      → SessionInv t k (dispatch t d st mh payload n pos).1.session
  unfolding dispatch
  dispatch-SessionInv d st mh payload n pos inv =
      let s = st.session in
      let unsupported : SessionInv t k (count_unsupported s) = omega arith in
      ground (
        arith,
        reply_error-SessionInv t k l s mh.msg_id err_invalid_arg pos inv,
        reply_hello-SessionInv s mh.msg_id inv,
        reply_display_list-SessionInv d s mh.msg_id inv,
        reply_display_open-SessionInv t k l s mh.msg_id payload n inv,
        reply_surface_create-SessionInv t k l s mh.msg_id payload n inv,
        reply_surface_destroy-SessionInv t k l st mh.msg_id payload n inv,
        reply_surface_present-SessionInv t k l s mh.msg_id payload n inv,
        reply_error-SessionInv t k l (count_unsupported s) mh.msg_id err_unsupported_cap pos
            unsupported,
      )

  one_msg-SessionInv :
      (d : Display) (st : State) (buf : List ℕ) (mh : MsgHdr) (pos : ℕ)
      → SessionInv t k st.session
      → SessionInv t k (one_msg t d st buf mh pos).1.session
  unfolding one_msg
  one_msg-SessionInv d st buf mh pos inv =
      dispatch-SessionInv d (count_message st) mh _ (mh.msg_bytes - msg_hdr_size) pos (omega arith)

  process_msgs-Kept :
      (fuel : ℕ) (d : Display) (st : State) (buf : List ℕ) (pos frame_end : ℕ)
      → SessionInv t k st.session
      → Kept t k (process_msgs fuel t d st buf pos frame_end)
  unfolding process_msgs
  process_msgs-Kept zero d st buf pos frame_end inv = tt
  process_msgs-Kept (suc fuel) d st buf pos frame_end inv =
      let mh = read_msg_hdr (drop pos buf) in
      let inv' = one_msg-SessionInv d st buf mh pos inv in
      elim (Bool-cases (ltb frame_end (pos + msg_hdr_size))) [
        | inl ended ↦ rw ended inv
        | inr within ↦ elim (Bool-cases (is_bad_msg mh pos frame_end)) [
          | inl bad ↦
              rw (within, bad)
                (unfold bad_msg in
                  reply_error-SessionInv t k l st.session mh.msg_id err_invalid_msg pos inv)
          | inr good ↦ elim (Bool-cases (not ((one_msg t d st buf mh pos).0 == 0))) [
            | inl failed ↦ rw (within, good, failed) inv'
            | inr fine ↦
                rw (within, good, fine)
                  (process_msgs-Kept fuel d (one_msg t d st buf mh pos).1 buf
                    (align4 (u32 (pos + mh.msg_bytes))) frame_end inv')
          ]
        ]
      ]

  checked_frame-Kept :
      (d : Display) (st : State) (buf : List ℕ) (c : FrameCheck)
      → SessionInv t k st.session
      → Kept t k (checked_frame t d st buf c)
  unfolding checked_frame
  checked_frame-Kept d st buf (invalid code off) inv =
      reply_error-SessionInv t k l st.session 0 code off inv
  checked_frame-Kept d st buf (valid fh) inv =
      process_msgs-Kept (suc fh.frame_bytes) d st buf 16 fh.frame_bytes inv

  pub process_frame-Kept :
      (d : Display) (st : State) (buf : List ℕ) (n : ℕ)
      → SessionInv t k st.session
      → Kept t k (process_frame t d st buf n)
  unfolding process_frame
  process_frame-Kept d st buf n inv = checked_frame-Kept d st buf (frame_validate buf n) inv
