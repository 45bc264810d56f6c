-- ===== src/Drawfs/Session.antt =====
-- The state of drawfs: drawfs_internal.h, the statistics of drawfs_ioctl.h, and the tunables and
-- counters of drawfs.c.
use awase.Base.{ℕ, ◌+◌, ◌^◌, ◌<◌, List, [], Bool, Option}
use awase.Base.Bytes.{u64}

-- The error numbers of FreeBSD's <sys/errno.h> that drawfs returns.
abbrev pub eperm : ℕ
eperm = 1

abbrev pub enoent : ℕ
enoent = 2

abbrev pub enxio : ℕ
enxio = 6

abbrev pub enomem : ℕ
enomem = 12

abbrev pub enodev : ℕ
enodev = 19

abbrev pub einval : ℕ
einval = 22

abbrev pub enotty : ℕ
enotty = 25

abbrev pub efbig : ℕ
efbig = 27

abbrev pub enospc : ℕ
enospc = 28

abbrev pub ewouldblock : ℕ
ewouldblock = 35

abbrev pub eprotonosupport : ℕ
eprotonosupport = 43

-- struct drawfs_event
pub record Event : Type 0 where
  pub len : ℕ
  pub bytes : List ℕ

-- struct drawfs_surface. A `vm_object_t` is a number that names the object.
pub record Surface : Type 0 where
  pub id : ℕ
  pub width_px : ℕ
  pub height_px : ℕ
  pub format : ℕ
  pub stride_bytes : ℕ
  pub bytes_total : ℕ
  pub vmobj : Option ℕ

-- struct drawfs_stats
pub record Stats : Type 0 where
  pub frames_received : ℕ
  pub frames_processed : ℕ
  pub frames_invalid : ℕ
  pub messages_processed : ℕ
  pub messages_unsupported : ℕ
  pub events_enqueued : ℕ
  pub events_dropped : ℕ
  pub bytes_in : ℕ
  pub bytes_out : ℕ
  pub evq_depth : ℕ
  pub inbuf_bytes : ℕ
  pub evq_bytes : ℕ
  pub surfaces_count : ℕ
  pub surfaces_bytes : ℕ

-- struct drawfs_session, without its lock and its wait queues. Of the memory at `inbuf` the model
-- keeps the bytes that have been written; `in_cap` is the size of the allocation.
pub record Session : Type 0 where
  pub evq : List Event
  pub evq_bytes : ℕ
  pub closing : Bool
  pub next_out_frame_id : ℕ
  pub inbuf : List ℕ
  pub in_len : ℕ
  pub in_cap : ℕ
  pub active_display_id : ℕ
  pub map_surface_id : ℕ
  pub active_surface_id : ℕ
  pub next_display_handle : ℕ
  pub active_display_handle : ℕ
  pub surfaces : List Surface
  pub next_surface_id : ℕ
  pub surfaces_count : ℕ
  pub surfaces_bytes : ℕ
  pub stats : Stats

-- The sysctl tunables, each as the unsigned value at which the code compares it.
pub record Tunables : Type 0 where
  pub mmap_enabled : Bool
  pub max_evq_bytes : ℕ
  pub max_surfaces : ℕ
  pub max_surface_bytes : ℕ
  pub max_session_surface_bytes : ℕ
  pub coalesce_events : Bool

-- No limit is negative: an `int` is below 2 ^ 31, and a `long` below 2 ^ 63.
pub record TunablesFit (t : Tunables) : Type 0 where
  pub evq_fits : t.max_evq_bytes < 2 ^ 31
  pub surfaces_fits : t.max_surfaces < 2 ^ 31
  pub surface_bytes_fits : t.max_surface_bytes < 2 ^ 63
  pub session_bytes_fits : t.max_session_surface_bytes < 2 ^ 63

-- A call of the virtual-memory system that counts references.
pub data VmCall : Type 0 where
  references : ℕ → VmCall
  deallocates : ℕ → VmCall

-- The counters that all sessions share, and the calls of the virtual-memory system, newest first.
pub record Kernel : Type 0 where
  pub vmobj_allocs : ℕ
  pub vmobj_deallocs : ℕ
  pub vmobj_install_lost : ℕ
  pub inbuf_grow_race_lost : ℕ
  pub frame_extract_race_lost : ℕ
  pub vm_calls : List VmCall

-- What a thread acts on.
pub record State : Type 0 where
  pub session : Session
  pub kernel : Kernel

-- `s->stats.X++` and the like, on the counters that the session's own code updates.
abbrev pub count_dropped : Session → Session
count_dropped s = record s {
  stats = record s.stats { events_dropped = u64 (s.stats.events_dropped + 1) };
}

abbrev pub zero_stats : Stats
zero_stats = record {
  frames_received = 0;
  frames_processed = 0;
  frames_invalid = 0;
  messages_processed = 0;
  messages_unsupported = 0;
  events_enqueued = 0;
  events_dropped = 0;
  bytes_in = 0;
  bytes_out = 0;
  evq_depth = 0;
  inbuf_bytes = 0;
  evq_bytes = 0;
  surfaces_count = 0;
  surfaces_bytes = 0;
}

-- The session that `drawfs_open` sets up. Nothing has been written to its input buffer.
unfoldable pub open_session : Session
open_session = record {
  evq = [];
  evq_bytes = 0;
  closing = Bool.false;
  next_out_frame_id = 1;
  inbuf = [];
  in_len = 0;
  in_cap = 4096;
  active_display_id = 0;
  map_surface_id = 0;
  active_surface_id = 0;
  next_display_handle = 1;
  active_display_handle = 0;
  surfaces = [];
  next_surface_id = 1;
  surfaces_count = 0;
  surfaces_bytes = 0;
  stats = zero_stats;
}
