-- ===== src/Drawfs/Dispatch.antt =====
-- `drawfs_process_frame` of drawfs.c: the messages of a frame, one after the other.
pub mod Progress
use awase.Base.{
  ℕ, zero, suc, ◌+◌, ◌-◌, List, Bool, ltb, leb, ◌==◌, not, if◌then◌else◌, Option, none, some, drop,
}
use awase.Base.Bytes.{u32, u64, align4}
use awase.Drawfs.Proto.{
  MsgHdr, read_msg_hdr, frame_hdr_size, msg_hdr_size, max_msg_bytes, req_hello, req_display_list,
  req_display_open, req_surface_create, req_surface_destroy, req_surface_present, err_invalid_msg,
  err_invalid_arg, err_unsupported_cap,
}
use awase.Drawfs.Frame.{FrameCheck, valid, invalid, frame_validate}
use awase.Drawfs.Session.{Session, Tunables, State}
use awase.Drawfs.Reply.{
  Display, with_session, reply_error, reply_hello, reply_display_list, reply_display_open,
  reply_surface_create, reply_surface_destroy, reply_surface_present,
}

abbrev pub count_message : State → State
count_message st = record st {
  session = record st.session {
    stats = record st.session.stats {
      messages_processed = u64 (st.session.stats.messages_processed + 1);
    };
  };
}

abbrev pub count_unsupported : Session → Session
count_unsupported s = record s {
  stats = record s.stats { messages_unsupported = u64 (s.stats.messages_unsupported + 1) };
}

-- A reply whose failure is not passed on.
abbrev pub ignore_error : ℕ × State → ℕ × State
ignore_error (e, st) = (0, st)

-- The switch over the message type. Only a failed SURFACE_PRESENT stops the frame.
unfoldable pub dispatch : Tunables → Display → State → MsgHdr → List ℕ → ℕ → ℕ → ℕ × State
dispatch t d st mh payload payload_len pos =
    if mh.msg_type == req_hello
    then ignore_error (
        with_session st (
          if ltb payload_len 12
          then reply_error t st.session mh.msg_id err_invalid_arg pos
          else reply_hello t st.session mh.msg_id))
    else if mh.msg_type == req_display_list
    then ignore_error (with_session st (reply_display_list t d st.session mh.msg_id))
    else if mh.msg_type == req_display_open
    then ignore_error
        (with_session st (reply_display_open t st.session mh.msg_id payload payload_len))
    else if mh.msg_type == req_surface_create
    then ignore_error
        (with_session st (reply_surface_create t st.session mh.msg_id payload payload_len))
    else if mh.msg_type == req_surface_destroy
    then ignore_error (reply_surface_destroy t st mh.msg_id payload payload_len)
    else if mh.msg_type == req_surface_present
    then with_session st (reply_surface_present t st.session mh.msg_id payload payload_len)
    else ignore_error (
        with_session st
          (reply_error t (count_unsupported st.session) mh.msg_id err_unsupported_cap pos))

-- Whether the loop gives up at a message header at `pos`, in a frame that ends at `end`.
unfoldable pub is_bad_msg : MsgHdr → ℕ → ℕ → Bool
is_bad_msg mh pos frame_end =
    if ltb mh.msg_bytes msg_hdr_size
    then Bool.true
    else if ltb max_msg_bytes mh.msg_bytes
    then Bool.true
    else ltb frame_end (u32 (pos + mh.msg_bytes))

unfoldable pub bad_msg : Tunables → State → MsgHdr → ℕ → ℕ × State
bad_msg t st mh pos =
    ignore_error (with_session st (reply_error t st.session mh.msg_id err_invalid_msg pos))

-- One message: the header, the payload behind it, and its length.
unfoldable pub one_msg : Tunables → Display → State → List ℕ → MsgHdr → ℕ → ℕ × State
one_msg t d st buf mh pos =
    dispatch t d (count_message st) mh (drop (pos + msg_hdr_size) buf) (mh.msg_bytes - msg_hdr_size)
      pos

-- The `while` loop, from `pos` on; `none` if the fuel runs out.
unfoldable pub process_msgs : ℕ → Tunables → Display → State → List ℕ → ℕ → ℕ → Option (ℕ × State)
unfolding bad_msg one_msg
process_msgs zero t d st buf pos frame_end = none
process_msgs (suc fuel) t d st buf pos frame_end =
    let mh = read_msg_hdr (drop pos buf) in
    let (e, st') = one_msg t d st buf mh pos in
    let rest = process_msgs fuel t d st' buf (align4 (u32 (pos + mh.msg_bytes))) frame_end in
    if ltb frame_end (pos + msg_hdr_size)
    then some (0, st)
    else if is_bad_msg mh pos frame_end
    then some (bad_msg t st mh pos)
    else if not (e == 0)
    then some (e, st')
    else rest

unfoldable pub checked_frame : Tunables → Display → State → List ℕ → FrameCheck → Option (ℕ × State)
unfolding process_msgs
checked_frame t d st buf (invalid code err_offset) =
    some (ignore_error (with_session st (reply_error t st.session 0 code err_offset)))
checked_frame t d st buf (valid fh) =
    process_msgs (suc fh.frame_bytes) t d st buf frame_hdr_size fh.frame_bytes

unfoldable pub process_frame : Tunables → Display → State → List ℕ → ℕ → Option (ℕ × State)
unfolding checked_frame
process_frame t d st buf n = checked_frame t d st buf (frame_validate buf n)
