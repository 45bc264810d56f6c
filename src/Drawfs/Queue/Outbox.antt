-- ===== src/Drawfs/Queue/Outbox.antt =====
-- The outbound queue against its contract: a first-in first-out queue of frames with a limit on
-- their bytes.
use awase.Base.{
  ℕ, ◌+◌, ◌-◌, ◌%◌, ◌^◌, ◌≡◌, refl, List, [], ◌∷◌, ◌++◌, arith, Option, some, none, true, false,
  length, All, All-append, ltb, ◌==◌, if◌then◌else◌, ap, ◌∙◌, inl, inr,
}
use awase.Drawfs.Proto.{max_event_bytes}
use awase.Drawfs.Session.{Session, Event, Tunables, TunablesFit, efbig, enospc, ewouldblock}
use awase.Drawfs.Queue.{fails, waits, takes, enqueue_event, read_round}
use awase.Drawfs.Queue.Accounting.{
  QueueInv, total_len, enqueue_event-QueueInv, read_round-QueueInv, evq-enqueue_event,
}

-- What a client of the queue does, and what it sees: a code, and the frame that was read.
pub data Op : Type 0 where
  put : List ℕ → Op
  get : Op

abbrev pub Reply : Type 0
Reply = ℕ × Option (List ℕ)

-- The contract, on the frames alone.
abbrev pub Outbox : Type 0
Outbox = List (List ℕ)

abbrev pub size : Outbox → ℕ
size [] = 0
size (f ∷ q) = length f + size q

unfoldable pub push : ℕ → Outbox → List ℕ → ℕ × Outbox
push cap q f =
    if length f == 0
    then (0, q)
    else if ltb max_event_bytes (length f)
    then (efbig, q)
    else if ltb cap (size q + length f)
    then (enospc, q)
    else (0, q ++ (f ∷ []))

unfoldable pub run_outbox : ℕ → Outbox → List Op → List Reply
run_outbox cap q [] = []
run_outbox cap q (put f ∷ ops) = let (e, q') = push cap q f in (e, none) ∷ run_outbox cap q' ops
run_outbox cap [] (get ∷ ops) = (ewouldblock, none) ∷ run_outbox cap [] ops
run_outbox cap (f ∷ q) (get ∷ ops) = (0, some f) ∷ run_outbox cap q ops

-- The same operations on a session, whose reads do not block.
unfoldable pub run_queue : Tunables → Session → List Op → List Reply
run_queue t s [] = []
run_queue t s (put f ∷ ops) =
    let (e, s') = enqueue_event t s f (length f) in (e, none) ∷ run_queue t s' ops
run_queue t s (get ∷ ops) = elim (read_round s true) [
  | fails e ↦ (e, none) ∷ run_queue t s ops
  | waits ↦ run_queue t s ops
  | takes ev s' ↦ (0, some ev.bytes) ∷ run_queue t s' ops
]

-- The frames that a queue holds.
abbrev pub frames : List Event → Outbox
frames [] = []
frames (ev ∷ q) = ev.bytes ∷ frames q

-- Each event's length is that of its bytes.
abbrev pub Sized : List Event → Type 0
Sized q = All (λ ev. ev.len ≡ length ev.bytes) q

frames-append : (q r : List Event) → frames (q ++ r) ≡ frames q ++ frames r
frames-append [] r = refl
frames-append (ev ∷ q) r = ap (◌∷◌ ev.bytes) (frames-append q r)

size-frames : (q : List Event) → Sized q → size (frames q) ≡ total_len q
size-frames [] h = refl
size-frames (ev ∷ q) h = omega (arith, size-frames q h.1)

-- A session whose queue can be used: open, with exact accounts.
pub record Ready (t : Tunables) (s : Session) : Type 0 where
  pub inv : QueueInv t s
  pub sized : Sized s.evq
  pub is_open : s.closing ≡ false

enqueue-frames :
    (t : Tunables) (s : Session) (f : List ℕ)
    → TunablesFit t
    → Ready t s
    → let (e, s') = enqueue_event t s f (length f) in
      (e, frames s'.evq) ≡ push t.max_evq_bytes (frames s.evq) f
unfolding enqueue_event push
enqueue-frames t s f fit r = ground (
  arith,
  r.inv.exact,
  r.inv.bounded,
  r.is_open,
  size-frames s.evq r.sized,
  frames-append s.evq (record { len = length f; bytes = f } ∷ []),
)

enqueue-Sized :
    (t : Tunables) (s : Session) (f : List ℕ)
    → Sized s.evq
    → Sized (enqueue_event t s f (length f)).1.evq
enqueue-Sized t s f h = elim (evq-enqueue_event t s f (length f)) [
  | inl (e, _) ↦ rw e (
      All-append (λ ev. ev.len ≡ length ev.bytes) s.evq (record { len = length f; bytes = f } ∷ [])
        h (refl, tt))
  | inr e ↦ rw e h
]

enqueue-open :
    (t : Tunables) (s : Session) (f : List ℕ) (len : ℕ)
    → (enqueue_event t s f len).1.closing ≡ s.closing
unfolding enqueue_event
enqueue-open t s f len = ground arith

enqueue-Ready :
    (t : Tunables) (s : Session) (f : List ℕ)
    → TunablesFit t
    → Ready t s
    → Ready t (enqueue_event t s f (length f)).1
enqueue-Ready t s f fit r = record {
  inv = enqueue_event-QueueInv t s f (length f) fit r.inv;
  sized = enqueue-Sized t s f r.sized;
  is_open = enqueue-open t s f (length f) ∙ r.is_open;
}

-- What a read that does not block gives, by what the queue holds.
read_round-nil :
    (s : Session) → s.closing ≡ false → s.evq ≡ [] → read_round s true ≡ fails ewouldblock
unfolding read_round
read_round-nil s c e = rw (c, e)

read_round-cons :
    (s : Session) (ev : Event) (q : List Event)
    → s.closing ≡ false
    → s.evq ≡ ev ∷ q
    → (s' : Session) × (read_round s true ≡ takes ev s') × (s'.evq ≡ q) × (s'.closing ≡ false)
unfolding read_round
read_round-cons s ev q c e = (
  record s { evq = q; evq_bytes = (2 ^ 64 + s.evq_bytes - ev.len) % 2 ^ 64 },
  ground arith,
  refl,
  c,
)

run_step_get :
    (t : Tunables) (ops : List Op) (s : Session) (q : List Event)
    → TunablesFit t
    → Ready t s
    → s.evq ≡ q
    → ((s' : Session)
        → Ready t s'
        → run_queue t s' ops ≡ run_outbox t.max_evq_bytes (frames s'.evq) ops)
    → run_queue t s (get ∷ ops) ≡ run_outbox t.max_evq_bytes (frames q) (get ∷ ops)
unfolding run_queue run_outbox
run_step_get t ops s [] fit r e ih =
    rw (read_round-nil s r.is_open e, run_queue) (ap (◌∷◌ (ewouldblock, none)) (ih s r ∙ rw e))
run_step_get t ops s (ev ∷ q) fit r e ih =
    let (s', took, rest, open') = read_round-cons s ev q r.is_open e in
    let sized : Sized (ev ∷ q) = rw e at r.sized in
    let r' : Ready t s' = record {
      inv = (read_round-QueueInv t s s' ev true fit r.inv took).0;
      sized = rw rest sized.1;
      is_open = open';
    } in
    rw (took, run_queue) (ap (◌∷◌ (0, some ev.bytes)) (ih s' r' ∙ rw rest))

-- No sequence of writes and reads tells an open session's queue from the bounded first-in
-- first-out queue of its frames: the same codes (0, EFBIG, ENOSPC, EWOULDBLOCK) and the same frames.
pub run_queue_refines :
    (t : Tunables) (ops : List Op) (s : Session)
    → TunablesFit t
    → Ready t s
    → run_queue t s ops ≡ run_outbox t.max_evq_bytes (frames s.evq) ops
unfolding run_queue run_outbox
run_queue_refines t [] s fit r = refl
run_queue_refines t (put f ∷ ops) s fit r =
    let same = enqueue-frames t s f fit r in
    let ih =
      run_queue_refines t ops (enqueue_event t s f (length f)).1 fit (enqueue-Ready t s f fit r) in
    rw (ih, ← same)
run_queue_refines t (get ∷ ops) s fit r =
    run_step_get t ops s s.evq fit r refl (λ s' r'. run_queue_refines t ops s' fit r')
