-- ===== src/Drawfs/Reply/Framing.antt =====
-- The replies of drawfs.c on the wire.
use awase.Base.{
  ℕ, ◌+◌, ◌<◌, ◌^◌, ◌≡◌, ◌≢◌, ◌⊎◌, List, [], ◌∷◌, ◌++◌, arith, length, take, drop, inl, inr, ap,
  ◌∙◌,
}
use awase.Base.Bytes.{u32}
use awase.Drawfs.Proto.{MsgHdr, read_msg_hdr}
use awase.Drawfs.Frame.{valid, frame_validate, frame_build, build_frame_hdr, build_msg_hdr}
use awase.Drawfs.Frame.Building.{FitsFrame, build_sizes, frame_validate-build, read_msg-build}
use awase.Drawfs.Session.{Session, Event, Tunables}
use awase.Drawfs.Queue.{enqueue_event}
use awase.Drawfs.Reply.{send_reply}

-- Nothing is queued, and the error says so; or one event is, at the end.
enqueue_event-appends :
    (t : Tunables) (s : Session) (buf : List ℕ) (len : ℕ)
    → len ≢ 0
    → let (e, s') = enqueue_event t s buf len in
      ((e ≢ 0) × (s'.evq ≡ s.evq))
      ⊎ ((e ≡ 0) × (s'.evq ≡ s.evq ++ (record { len = len; bytes = buf } ∷ [])))
unfolding enqueue_event
enqueue_event-appends t s buf len nz = ground arith

enqueue_event-numbers :
    (t : Tunables) (s : Session) (buf : List ℕ) (len : ℕ)
    → (enqueue_event t s buf len).1.next_out_frame_id ≡ s.next_out_frame_id
unfolding enqueue_event
enqueue_event-numbers t s buf len = ground arith

framed-nonempty :
    (frame_id msg_type msg_id : ℕ) (payload : List ℕ)
    → FitsFrame payload
    → (frame_build frame_id msg_type msg_id payload).1 ≢ 0
unfolding frame_build
framed-nonempty frame_id msg_type msg_id payload fits = omega (arith, build_sizes payload fits)

-- The event is a frame with number `frame_id` and one message, of that type, id and payload.
pub record CarriesReply (ev : Event) (frame_id msg_type msg_id : ℕ) (payload : List ℕ)
    : Type 0 where
  pub is_valid :
      frame_validate ev.bytes ev.len
      ≡ valid (record {
        magic = 0x31575244;
        version = 0x0100;
        header_bytes = 16;
        frame_bytes = ev.len;
        frame_id = frame_id;
      })
  pub header : read_msg_hdr (drop 16 ev.bytes) ≡ record {
    msg_type = msg_type;
    msg_flags = 0;
    msg_bytes = 16 + length payload;
    msg_id = msg_id;
    reserved = 0;
  }
  pub body : take (length payload) (drop 32 ev.bytes) ≡ payload
  pub sized : length ev.bytes ≡ ev.len

-- A reply is queued behind the others, as a frame that the validation accepts, with the documented
-- header, the session's frame number and one message with the type, the id and the payload of the
-- reply; or an error is returned, and the queue is what it was. This is for numbers of the width of
-- their fields, and a payload for which no size wraps.
pub send_reply_cases :
    (t : Tunables) (s : Session) (msg_type msg_id : ℕ) (payload : List ℕ)
    → msg_type < 2 ^ 16
    → msg_id < 2 ^ 32
    → s.next_out_frame_id < 2 ^ 32
    → FitsFrame payload
    → let (e, s') = send_reply t s msg_type msg_id payload in
      ((e ≢ 0) × (s'.evq ≡ s.evq))
      ⊎ ((e ≡ 0)
          × (s'.next_out_frame_id ≡ u32 (s.next_out_frame_id + 1))
          × ((ev : Event) × (s'.evq ≡ s.evq ++ (ev ∷ []))
              × CarriesReply ev s.next_out_frame_id msg_type msg_id payload))
unfolding send_reply frame_build
send_reply_cases t s msg_type msg_id payload ty id num fits =
    let (frame, n) = frame_build s.next_out_frame_id msg_type msg_id payload in
    let s1 = record s { next_out_frame_id = u32 (s.next_out_frame_id + 1) } in
    elim (enqueue_event-appends t s1 frame n
      (framed-nonempty s.next_out_frame_id msg_type msg_id payload fits)) [
        | inl failed ↦ inl failed
        | inr (done, queued) ↦
            let (hdr, body, len) =
              read_msg-build s.next_out_frame_id msg_type msg_id payload fits ty id in
            inr (
              done,
              enqueue_event-numbers t s1 frame n,
              (
                record { len = n; bytes = frame },
                queued,
                record {
                  is_valid =
                      unfold build_frame_hdr in
                      frame_validate-build s.next_out_frame_id msg_type msg_id payload fits num;
                  header =
                      unfold build_msg_hdr in
                      hdr
                      ∙ ap {B = MsgHdr}
                          (λ (size : ℕ). record {
                            msg_type = msg_type;
                            msg_flags = 0;
                            msg_bytes = size;
                            msg_id = msg_id;
                            reserved = 0;
                          })
                          (build_sizes payload fits).0;
                  body = body;
                  sized = len;
                },
              ),
            )
      ]
