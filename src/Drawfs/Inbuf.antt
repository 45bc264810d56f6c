-- ===== src/Drawfs/Inbuf.antt =====
-- `drawfs_try_process_inbuf` of drawfs.c: taking frames out of the input buffer. The lock is given
-- up once in each round, while the buffer for the frame is allocated.
use awase.Base.{
  ℕ, zero, suc, ◌+◌, ◌-◌, ◌%◌, List, [], ◌∷◌, Bool, true, false, ltb, ◌==◌, ◌&&◌, ◌||◌, not,
  if◌then◌else◌, Option, none, some, take, drop, blit,
}
use awase.Base.Bytes.{u32, u64}
use awase.Drawfs.Proto.{
  FrameHdr, read_frame_hdr, magic, frame_hdr_size, max_frame_bytes, err_invalid_frame,
}
use awase.Drawfs.Frame.{FrameCheck, valid, invalid, frame_validate}
use awase.Drawfs.Session.{Session, Tunables, State, enxio}
use awase.Drawfs.Reply.{Display, with_session, reply_error}
use awase.Drawfs.Dispatch.{process_frame, ignore_error}

abbrev pub count_received : Session → Session
count_received s = record s {
  stats = record s.stats { frames_received = u64 (s.stats.frames_received + 1) };
}

abbrev pub count_invalid : Session → Session
count_invalid s = record s {
  stats = record s.stats { frames_invalid = u64 (s.stats.frames_invalid + 1) };
}

abbrev pub count_processed : Session → Session
count_processed s = record s {
  stats = record s.stats { frames_processed = u64 (s.stats.frames_processed + 1) };
}

-- The first hold of the lock: a result, or the header of the frame to extract with its 16 bytes.
pub data HeadCheck : Type 0 where
  finished : ℕ → Session → HeadCheck
  extract : FrameHdr → List ℕ → HeadCheck

-- The buffer is emptied, and the error is reported.
unfoldable pub drop_input : Tunables → Session → ℕ → HeadCheck
drop_input t s err_offset =
    finished 0 (reply_error t (record s { in_len = 0 }) 0 err_invalid_frame err_offset).1

unfoldable pub check_head : Tunables → Session → FrameHdr → HeadCheck
unfolding drop_input
check_head t s fh =
    if not (fh.magic == magic)
    then drop_input t (count_invalid (count_received s)) 0
    else if not (fh.header_bytes == frame_hdr_size)
    then drop_input t (count_received s) 6
    else if fh.frame_bytes == 0
        || ltb max_frame_bytes fh.frame_bytes
        || not (fh.frame_bytes % 4 == 0)
    then drop_input t (count_received s) 8
    else if ltb s.in_len fh.frame_bytes
    then finished 0 s
    else extract fh (take frame_hdr_size s.inbuf)

unfoldable pub inspect_head : Tunables → Session → HeadCheck
unfolding check_head
inspect_head t s =
    if s.closing
    then finished enxio s
    else if ltb s.in_len frame_hdr_size
    then finished 0 s
    else check_head t s (read_frame_hdr s.inbuf)

-- `memcmp`
unfoldable pub same_bytes : List ℕ → List ℕ → Bool
same_bytes [] [] = true
same_bytes [] (b ∷ bs) = false
same_bytes (a ∷ as') [] = false
same_bytes (a ∷ as') (b ∷ bs) = a == b && same_bytes as' bs

-- The second hold of the lock: the session is closing, the frame is no longer at the head, or it
-- is taken, what follows it moving to the front.
pub data Extraction : Type 0 where
  closes : Extraction
  lost : Extraction
  taken : List ℕ → Session → Extraction

unfoldable pub remove_frame : Session → ℕ → Session
remove_frame s frame_bytes =
    let remain = s.in_len - frame_bytes in
    record s {
      inbuf =
          if ltb 0 remain then blit s.inbuf 0 (take remain (drop frame_bytes s.inbuf)) else s.inbuf;
      in_len = remain;
    }

unfoldable pub take_frame : Session → ℕ → List ℕ → Extraction
unfolding remove_frame
take_frame s frame_bytes hdr =
    if s.closing
    then closes
    else if ltb s.in_len frame_bytes || not (same_bytes (take frame_hdr_size s.inbuf) hdr)
    then lost
    else taken (take frame_bytes s.inbuf) (remove_frame (count_received s) frame_bytes)

-- What other threads do in one unlocked window; when there are no more, they do nothing.
abbrev pub Windows : Type 0
Windows = List (State → State)

abbrev pub pass : Windows → State → State
pass [] st = st
pass (w ∷ ws) st = w st

abbrev pub later : Windows → Windows
later [] = []
later (w ∷ ws) = ws

unfoldable pub count_lost : State → State
count_lost st = record st {
  kernel = record st.kernel {
    frame_extract_race_lost = u32 (st.kernel.frame_extract_race_lost + 1);
  };
}

-- A frame that was taken: invalid or processed. The code decides whether the loop goes on.
unfoldable pub after_processing : ℕ × State → ℕ × State
after_processing (v, st) = (v, record st { session = count_processed st.session })

unfoldable pub handle_frame :
    Tunables → Display → State → List ℕ → FrameCheck → ℕ → Option (ℕ × State)
unfolding after_processing
handle_frame t d st frame (invalid code err_offset) n =
    some
      (ignore_error (with_session st (reply_error t (count_invalid st.session) 0 code err_offset)))
handle_frame t d st frame (valid fh) n = elim (process_frame t d st frame n) [
  | none ↦ none
  | some r ↦ some (after_processing r)
]

-- The loop, each round of which ends with a result or goes on; `none` if the fuel runs out.
unfoldable pub process_inbuf : ℕ → Tunables → Display → Windows → State → Option (ℕ × State)
unfolding count_lost
process_inbuf zero t d ws st = none
process_inbuf (suc fuel) t d ws st = elim (inspect_head t st.session) [
  | finished e s ↦ some (e, record st { session = s })
  | extract fh hdr ↦ elim (take_frame (pass ws st).session fh.frame_bytes hdr) [
    | closes ↦ some (enxio, pass ws st)
    | lost ↦ process_inbuf fuel t d (later ws) (count_lost (pass ws st))
    | taken frame s ↦
        elim (handle_frame t d (record (pass ws st) { session = s }) frame
          (frame_validate frame fh.frame_bytes) fh.frame_bytes) [
            | none ↦ none
            | some (v, st') ↦
                let rest = process_inbuf fuel t d (later ws) st' in
                if v == 0 then rest else some (v, st')
          ]
  ]
]

unfoldable pub try_process_inbuf : ℕ → Tunables → Display → Windows → State → Option (ℕ × State)
unfolding process_inbuf
try_process_inbuf fuel t d ws st = process_inbuf fuel t d ws st
