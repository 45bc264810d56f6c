-- ===== src/Drawfs/Invariant.antt =====
-- The invariant of a session of drawfs.c, under the handlers of messages.
pub mod Messages
pub mod Input
pub mod Rounds
pub mod Appending
pub mod Writes
use awase.Base.{
  ℕ, zero, suc, ◌+◌, ◌-◌, ◌*◌, ◌^◌, ◌≤◌, ◌<◌, ◌≡◌, refl, List, [], ◌∷◌, arith, Option, some, none,
  Bool, true, false, Bool-cases, Option-cases, if_keeps, inl, inr, ltb, ◌==◌, not, length, drop,
}
use awase.Base.Bytes.{align4, u32, get_u32}
use awase.Drawfs.Proto.{
  MsgHdr, FrameHdr, read_msg_hdr, max_frame_bytes, rpl_surface_present, err_invalid_arg,
  err_unsupported_cap, err_invalid_msg,
}
use awase.Drawfs.Frame.{FrameCheck, valid, invalid, frame_validate, frame_build}
use awase.Drawfs.Session.{Session, Surface, State, Tunables, TunablesFit}
use awase.Drawfs.Queue.{enqueue_event, try_coalesce_presented}
use awase.Drawfs.Queue.Accounting.{QueueInv, total_len, enqueue_event-QueueInv}
use awase.Drawfs.Queue.Coalescing.{try_coalesce_presented-splits}
use awase.Drawfs.Surface.{find, remove, create, destroy, detach}
use awase.Drawfs.Surface.Accounting.{
  Accounts, SmallSurfaces, create-Accounts, detach-Accounts, destroy_keeps, total_bytes,
}
use awase.Drawfs.Reply.{
  Display, send_reply, reply_error, reply_hello, reply_display_list, reply_display_open,
  reply_surface_create, reply_surface_destroy, reply_surface_present, bind_display,
  notify_presented, answer_present, read_present_req, present_status, surface_present_payload,
}
use awase.Drawfs.Dispatch.{dispatch, is_bad_msg, process_frame, count_message, count_unsupported}

-- The input buffer: reads and writes of its first `in_len` bytes stay inside, it does not grow beyond
-- a frame, and at most `k` bytes wait in it.
pub record InbufInv (k : ℕ) (s : Session) : Type 0 where
  pub within_cap : s.in_len ≤ s.in_cap
  pub cap_bounded : s.in_cap ≤ max_frame_bytes
  pub cap_pos : 1 ≤ s.in_cap
  pub below : s.in_len ≤ k
  pub written : s.in_len ≤ length s.inbuf

pub record SessionInv (t : Tunables) (k : ℕ) (s : Session) : Type 0 where
  pub queue : QueueInv t s
  pub accounts : Accounts t s
  pub inbuf : InbufInv k s

-- Tunables for which no account wraps.
pub record Limits (t : Tunables) : Type 0 where
  pub fit : TunablesFit t
  pub small : SmallSurfaces t

enqueue_event-rest :
    (t : Tunables) (k : ℕ) (s : Session) (buf : List ℕ) (len : ℕ)
    → Accounts t s
    → InbufInv k s
    → let s' = (enqueue_event t s buf len).1 in Accounts t s' × InbufInv k s'
unfolding enqueue_event
enqueue_event-rest t k s buf len a i = ground arith

enqueue_event-SessionInv :
    (t : Tunables) (k : ℕ) (s : Session) (buf : List ℕ) (len : ℕ)
    → Limits t
    → SessionInv t k s
    → SessionInv t k (enqueue_event t s buf len).1
enqueue_event-SessionInv t k s buf len l inv =
    let (a, i) = enqueue_event-rest t k s buf len inv.accounts inv.inbuf in
    record { queue = enqueue_event-QueueInv t s buf len l.fit inv.queue; accounts = a; inbuf = i }

create-rest :
    (t : Tunables) (k : ℕ) (s : Session) (w h format : ℕ)
    → SessionInv t k s
    → let s' = (create t s w h format).1 in QueueInv t s' × InbufInv k s'
unfolding create
create-rest t k s w h format inv = ground arith

module _ (t : Tunables) (k : ℕ) (l : Limits t) where
  abbrev Good : ℕ × Session → Type 0
  Good r = SessionInv t k r.1

  abbrev GoodState : ℕ × State → Type 0
  GoodState r = SessionInv t k r.1.session

  pub send_reply-SessionInv :
      (s : Session) (msg_type msg_id : ℕ) (payload : List ℕ)
      → SessionInv t k s
      → SessionInv t k (send_reply t s msg_type msg_id payload).1
  unfolding send_reply
  send_reply-SessionInv s msg_type msg_id payload inv =
      let (frame, n) = frame_build s.next_out_frame_id msg_type msg_id payload in
      enqueue_event-SessionInv t k (record s { next_out_frame_id = u32 (s.next_out_frame_id + 1) })
        frame n l (omega arith)

  pub reply_error-SessionInv :
      (s : Session) (msg_id code off : ℕ)
      → SessionInv t k s
      → SessionInv t k (reply_error t s msg_id code off).1
  unfolding reply_error
  reply_error-SessionInv s msg_id code off inv = send_reply-SessionInv s _ msg_id _ inv

  bind_display-SessionInv :
      (s : Session) (id : ℕ) → SessionInv t k s → SessionInv t k (bind_display s id)
  unfolding bind_display
  bind_display-SessionInv s id inv = ground arith

  pub reply_display_open-SessionInv :
      (s : Session) (msg_id : ℕ) (payload : List ℕ) (n : ℕ)
      → SessionInv t k s
      → SessionInv t k (reply_display_open t s msg_id payload n).1
  unfolding reply_display_open
  reply_display_open-SessionInv s msg_id payload n inv = elim (Bool-cases (ltb n 4)) [
    | inl short ↦ rw short (send_reply-SessionInv s _ msg_id _ inv)
    | inr long ↦ elim (Bool-cases (not (get_u32 payload 0 == 1))) [
      | inl other ↦ rw (long, other) (send_reply-SessionInv s _ msg_id _ inv)
      | inr one ↦
          rw (long, one)
            (send_reply-SessionInv (bind_display s (get_u32 payload 0)) _ msg_id _
              (bind_display-SessionInv s (get_u32 payload 0) inv))
    ]
  ]

  create-SessionInv :
      (s : Session) (w h format : ℕ) → SessionInv t k s → SessionInv t k (create t s w h format).1
  create-SessionInv s w h format inv = record {
    queue = (create-rest t k s w h format inv).0;
    accounts = create-Accounts t s w h format l.fit l.small inv.accounts;
    inbuf = (create-rest t k s w h format inv).1;
  }

  pub reply_surface_create-SessionInv :
      (s : Session) (msg_id : ℕ) (payload : List ℕ) (n : ℕ)
      → SessionInv t k s
      → SessionInv t k (reply_surface_create t s msg_id payload n).1
  unfolding reply_surface_create
  reply_surface_create-SessionInv s msg_id payload n inv =
      if_keeps Good _ _ _ (send_reply-SessionInv s _ msg_id _ inv) (
        send_reply-SessionInv
          (create t s (get_u32 payload 0) (get_u32 payload 4) (get_u32 payload 8)).1 _ msg_id _
          (create-SessionInv s _ _ _ inv))

  destroy-SessionInv :
      (st : State) (id : ℕ) → SessionInv t k st.session → SessionInv t k (destroy st id).1.session
  unfolding detach
  destroy-SessionInv st id inv = destroy_keeps (SessionInv t k) st id inv λ sf found. record {
    queue = omega arith;
    accounts = detach-Accounts t st.session id sf found inv.accounts;
    inbuf = omega arith;
  }

  pub reply_surface_destroy-SessionInv :
      (st : State) (msg_id : ℕ) (payload : List ℕ) (n : ℕ)
      → SessionInv t k st.session
      → SessionInv t k (reply_surface_destroy t st msg_id payload n).1.session
  unfolding reply_surface_destroy
  reply_surface_destroy-SessionInv st msg_id payload n inv =
      if_keeps GoodState _ _ _ (send_reply-SessionInv st.session _ msg_id _ inv) (
        send_reply-SessionInv (destroy st (get_u32 payload 0)).1.session _ msg_id _
          (destroy-SessionInv st (get_u32 payload 0) inv))

  coalesce-SessionInv :
      (s : Session) (surface_id cookie : ℕ)
      → SessionInv t k s
      → SessionInv t k (try_coalesce_presented t s surface_id cookie).1
  coalesce-SessionInv s surface_id cookie inv =
      elim (try_coalesce_presented-splits t s surface_id cookie inv.queue) [
        | inl (_, _, e, queue) ↦ record {
          queue = queue;
          accounts = rw e (omega arith);
          inbuf = rw e (omega arith);
        }
        | inr (_, e, _) ↦ rw e inv
      ]

  notify_presented-SessionInv :
      (s : Session) (surface_id cookie : ℕ)
      → SessionInv t k s
      → SessionInv t k (notify_presented t s surface_id cookie)
  unfolding notify_presented
  notify_presented-SessionInv s surface_id cookie inv =
      let s' = (try_coalesce_presented t s surface_id cookie).1 in
      let inv' = coalesce-SessionInv s surface_id cookie inv in
      if_keeps (SessionInv t k) _ _ _ inv' (send_reply-SessionInv s' _ 0 _ inv')

  answer_present-SessionInv :
      (s : Session) (msg_id status rep_id surface_id cookie : ℕ)
      → SessionInv t k s
      → SessionInv t k (answer_present t s msg_id status rep_id surface_id cookie).1
  unfolding answer_present
  answer_present-SessionInv s msg_id status rep_id surface_id cookie inv =
      let s' =
        (send_reply t s rpl_surface_present msg_id
          (surface_present_payload status rep_id cookie)).1 in
      let inv' =
        send_reply-SessionInv s rpl_surface_present msg_id
          (surface_present_payload status rep_id cookie) inv in
      let failed : Bool = not (
        (send_reply t s rpl_surface_present msg_id (surface_present_payload status rep_id cookie)).0
        == 0) in
      elim (Bool-cases failed) [
        | inl err ↦ rw err inv'
        | inr sent ↦ elim (Bool-cases (not (status == 0))) [
          | inl refused ↦ rw (sent, refused) inv'
          | inr good ↦ rw (sent, good) (notify_presented-SessionInv s' surface_id cookie inv')
        ]
      ]

  pub reply_surface_present-SessionInv :
      (s : Session) (msg_id : ℕ) (payload : List ℕ) (n : ℕ)
      → SessionInv t k s
      → SessionInv t k (reply_surface_present t s msg_id payload n).1
  unfolding reply_surface_present
  reply_surface_present-SessionInv s msg_id payload n inv =
      elim (Option-cases (read_present_req payload n)) [
        | inl short ↦
            rw (short, reply_surface_present) (answer_present-SessionInv s msg_id _ _ _ _ inv)
        | inr (req, long) ↦
            rw (long, reply_surface_present) (answer_present-SessionInv s msg_id _ _ _ _ inv)
      ]
