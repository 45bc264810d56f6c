-- ===== src/Drawfs/Tests/Writes.antt =====
-- Writes to a fresh session: a hello request.
use awase.Base.{
  ℕ, Option, none, ◌+◌, ◌≡◌, ◌≢◌, ◌⊎◌, refl, List, [], ◌∷◌, ◌++◌, arith, some, take, false,
}
use awase.Drawfs.Proto.{max_frame_bytes, read_frame_hdr, read_msg_hdr}
use awase.Drawfs.Session.{Session, Event, State, open_session}
use awase.Base.Bytes.{u32, put_le}
use awase.Drawfs.Reply.{Display, send_reply, hello_payload, reply_hello}
use awase.Drawfs.Reply.Framing.{CarriesReply, send_reply_cases}
use awase.Drawfs.Queue.Outbox.{frames}
use awase.Drawfs.Frame.{frame_build, frame_validate, build_frame_bytes}
use awase.Drawfs.Queue.{enqueue_event}
use awase.Drawfs.Dispatch.{process_frame, is_bad_msg, dispatch}
use awase.Drawfs.Dispatch.Progress.{process_frame-total}
use awase.Drawfs.Inbuf.{
  handle_frame, try_process_inbuf, inspect_head, Windows, take_frame, taken, remove_frame,
  same_bytes, count_received,
}
use awase.Drawfs.Ingest.{ingest_bytes, ingest_round, count_in, write, append_input}
use awase.Drawfs.Invariant.{SessionInv, Limits}
use awase.Drawfs.Invariant.Input.{Keeping}
use awase.Drawfs.Invariant.Writes.{write-Ends}
use awase.Drawfs.Tests.Queues.{limits}
use awase.Drawfs.Tests.Surfaces.{limits-fit, idle}

abbrev no_display : Display
no_display = record { available = false; width = 0; height = 0 }

abbrev pub fresh : State
fresh = record { session = open_session; kernel = idle }

-- A frame with one HELLO message of twelve bytes of payload.
abbrev hello_frame : List ℕ
hello_frame =
    0x44 ∷ 0x52 ∷ 0x57 ∷ 0x31 ∷ 0 ∷ 1 ∷ 16 ∷ 0 ∷ 44 ∷ 0 ∷ 0 ∷ 0 ∷ 7 ∷ 0 ∷ 0 ∷ 0 ∷ 1 ∷ 0 ∷ 0 ∷ 0 ∷ 28
    ∷ 0 ∷ 0 ∷ 0 ∷ 9 ∷ 0 ∷ 0 ∷ 0 ∷ 0 ∷ 0 ∷ 0 ∷ 0 ∷ 1 ∷ 0 ∷ 0 ∷ 0 ∷ 0 ∷ 0 ∷ 0 ∷ 0 ∷ 0 ∷ 0 ∷ 0 ∷ 0 ∷ []

process_frame-total_example :
    (r : ℕ × State) × (process_frame limits no_display fresh hello_frame 44 ≡ some r)
process_frame-total_example =
    process_frame-total limits no_display fresh hello_frame 44 (omega arith)

pub limits-Limits : Limits limits
limits-Limits = record { fit = limits-fit; small = omega arith }

pub fresh-SessionInv : SessionInv limits max_frame_bytes fresh.session
unfolding open_session
fresh-SessionInv = record {
  queue = record { exact = refl; bounded = omega arith };
  accounts = record {
    count_exact = refl;
    bytes_exact = refl;
    count_bounded = omega arith;
    bytes_bounded = omega arith;
  };
  inbuf = omega arith;
}

-- Another thread that does nothing in the one window.
abbrev quiet_window : Windows
quiet_window = (λ (st : State). st) ∷ []

quiet_window-Keeping : Keeping limits max_frame_bytes quiet_window
quiet_window-Keeping = (λ st inv. inv, tt)

write-Ends_example :
    (out : ℕ × State) × (write 2097158 limits no_display quiet_window fresh hello_frame ≡ some out)
    × SessionInv limits max_frame_bytes out.1.session
write-Ends_example =
    write-Ends limits limits-Limits no_display 2097158 quiet_window fresh hello_frame
      quiet_window-Keeping fresh-SessionInv (omega arith)

send_reply_cases_example :
    let (e, s') = send_reply limits open_session 0x8001 9 (1 ∷ 2 ∷ 3 ∷ []) in
    ((e ≢ 0) × (s'.evq ≡ []))
    ⊎ ((e ≡ 0)
        × (s'.next_out_frame_id ≡ u32 (1 + 1))
        × ((ev : Event) × (s'.evq ≡ [] ++ (ev ∷ [])) × CarriesReply ev 1 0x8001 9 (1 ∷ 2 ∷ 3 ∷ [])))
unfolding open_session
send_reply_cases_example =
    send_reply_cases limits open_session 0x8001 9 (1 ∷ 2 ∷ 3 ∷ []) (omega arith) (omega arith)
      (omega arith) (omega arith)

abbrev received : Session
received = record open_session { inbuf = hello_frame ++ (1 ∷ 2 ∷ []); in_len = 46 }

takes_hello :
    take_frame received 44 (take 16 hello_frame)
    ≡ taken hello_frame (remove_frame (count_received received) 44)
unfolding take_frame same_bytes open_session
takes_hello = refl

-- The code and the queue that a write leaves.
abbrev answer : Option (ℕ × State) → ℕ × List (List ℕ)
answer none = (1, [])
answer (some (e, st)) = (e, frames st.session.evq)

hello_answered :
    answer (write 8 limits no_display [] fresh hello_frame)
    ≡ (0, (frame_build 1 0x8001 9 hello_payload).0 ∷ [])
unfolding write ingest_bytes ingest_round count_in append_input try_process_inbuf inspect_head
    open_session read_frame_hdr take_frame same_bytes handle_frame frame_validate process_frame
    is_bad_msg read_msg_hdr dispatch reply_hello send_reply enqueue_event frame_build
    build_frame_bytes hello_payload put_le
hello_answered = refl
