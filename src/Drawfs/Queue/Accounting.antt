-- ===== src/Drawfs/Queue/Accounting.antt =====
-- The byte count of the outbound queue of drawfs.c, and its limit.
use awase.Base.{ℕ, ◌+◌, ◌≤◌, ◌≡◌, List, [], ◌∷◌, ◌++◌, arith, Bool, ◌⊎◌}
use awase.Drawfs.Session.{Session, Event, Tunables, TunablesFit}
use awase.Drawfs.Queue.{enqueue_event, read_round, takes}

-- The bytes of all queued frames.
abbrev pub total_len : List Event → ℕ
total_len [] = 0
total_len (ev ∷ q) = ev.len + total_len q

pub total_len-append : (q r : List Event) → total_len (q ++ r) ≡ total_len q + total_len r
total_len-append [] r = omega arith
total_len-append (ev ∷ q) r = omega (arith, total_len-append q r)

-- `evq_bytes` is what the queue holds, each event's length is that of its bytes, and the limit
-- holds.
pub record QueueInv (t : Tunables) (s : Session) : Type 0 where
  pub exact : s.evq_bytes ≡ total_len s.evq
  pub bounded : s.evq_bytes ≤ t.max_evq_bytes

pub enqueue_event-QueueInv :
    (t : Tunables) (s : Session) (buf : List ℕ) (len : ℕ)
    → TunablesFit t
    → QueueInv t s
    → QueueInv t (enqueue_event t s buf len).1
unfolding enqueue_event
enqueue_event-QueueInv t s buf len fit inv =
    ground (arith, total_len-append s.evq (record { len = len; bytes = buf } ∷ []))

pub read_round-QueueInv :
    (t : Tunables) (s s' : Session) (ev : Event) (nonblock : Bool)
    → TunablesFit t
    → QueueInv t s
    → read_round s nonblock ≡ takes ev s'
    → QueueInv t s' × (s'.evq_bytes + ev.len ≡ s.evq_bytes)
unfolding read_round
read_round-QueueInv t s s' ev nonblock fit inv e = ground arith

-- A frame is queued behind the others, or the queue stays as it is.
pub evq-enqueue_event :
    (t : Tunables) (s : Session) (buf : List ℕ) (len : ℕ)
    → let (e, s') = enqueue_event t s buf len in
      ((s'.evq ≡ s.evq ++ (record { len = len; bytes = buf } ∷ [])) × (e ≡ 0)) ⊎ (s'.evq ≡ s.evq)
unfolding enqueue_event
evq-enqueue_event t s buf len = ground arith
