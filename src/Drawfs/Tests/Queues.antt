-- ===== src/Drawfs/Tests/Queues.antt =====
-- The outbound queue of an open session.
use awase.Base.{◌≤◌, ◌*◌, ◌≡◌, refl, List, [], ◌∷◌, ◌++◌, arith, replicate, some, none, true}
use awase.Base.Bytes.{get_u32}
use awase.Drawfs.Proto.{read_msg_hdr}
use awase.Drawfs.Session.{Session, Event, Tunables, TunablesFit, open_session, ewouldblock}
use awase.Drawfs.Queue.{is_presented, set_cookie, try_coalesce_presented, coalesce_in}
use awase.Drawfs.Reply.{notify_presented}
use awase.Drawfs.Reply.Presenting.{count_for, notify_presented-at_most_one}
use awase.Drawfs.Queue.Accounting.{QueueInv}
use awase.Drawfs.Queue.Outbox.{Op, put, get, run_queue, run_outbox, push, Ready, run_queue_refines}
use awase.Drawfs.Queue.Coalescing.{Coalesces, try_coalesce_presented_cases}

abbrev pub limits : Tunables
limits = record {
  mmap_enabled = true;
  max_evq_bytes = 8192;
  max_surfaces = 64;
  max_surface_bytes = 64 * 1024 * 1024;
  max_session_surface_bytes = 256 * 1024 * 1024;
  coalesce_events = true;
}

-- A limit of four bytes.
abbrev tight : Tunables
tight = record limits { max_evq_bytes = 4 }

abbrev script : List Op
script = put (1 ∷ 2 ∷ 3 ∷ []) ∷ put (4 ∷ 5 ∷ []) ∷ get ∷ get ∷ []

tight-fits : TunablesFit tight
tight-fits = omega arith

open_session-Ready : Ready tight open_session
unfolding open_session
open_session-Ready = record { inv = omega arith; sized = tt; is_open = refl }

runs_script :
    run_outbox 4 [] script
    ≡ (0, none) ∷ (28, none) ∷ (0, some (1 ∷ 2 ∷ 3 ∷ [])) ∷ (ewouldblock, none) ∷ []
unfolding run_outbox push
runs_script = refl

run_queue_refines_example : run_queue tight open_session script ≡ run_outbox 4 [] script
unfolding open_session
run_queue_refines_example =
    run_queue_refines tight script open_session tight-fits open_session-Ready

-- A SURFACE_PRESENTED event of surface 3 with cookie 1.
abbrev presented : Event
presented = record {
  len = 48;
  bytes =
      replicate 16 0
      ++ (0x02 ∷ 0x90 ∷ replicate 14 0 ++ (3 ∷ replicate 7 0 ++ (1 ∷ replicate 7 0)));
}

abbrev waiting : Session
waiting = record open_session { evq = presented ∷ []; evq_bytes = 48 }

waiting-QueueInv : QueueInv limits waiting
unfolding open_session
waiting-QueueInv = record { exact = refl; bounded = omega arith }

coalesces :
    try_coalesce_presented limits waiting 3 258
    ≡ (0, record waiting { evq = set_cookie presented 258 ∷ [] })
unfolding try_coalesce_presented coalesce_in is_presented get_u32 read_msg_hdr
coalesces = refl

try_coalesce_presented_cases_example :
    Coalesces limits waiting 3 258
      (try_coalesce_presented limits waiting 3 258).0
      (try_coalesce_presented limits waiting 3 258).1
unfolding open_session
try_coalesce_presented_cases_example =
    try_coalesce_presented_cases limits waiting 3 258 waiting-QueueInv (refl, tt) (omega arith)

notify_presented-at_most_one_example : count_for 3 (notify_presented limits waiting 3 258).evq ≤ 1
unfolding open_session is_presented get_u32 read_msg_hdr
notify_presented-at_most_one_example =
    notify_presented-at_most_one limits waiting 3 258 3 refl (omega arith) (omega arith)
      (omega arith) waiting-QueueInv (refl, tt) (omega arith)
