-- ===== src/Drawfs/Ingest.antt =====
-- `drawfs_ingest_bytes` and `drawfs_write` of drawfs.c: appending what a client writes to the input
-- buffer, which grows if need be, and processing it. The lock is given up around each allocation.
pub mod Stream
use awase.Base.{
  ℕ, zero, suc, ◌+◌, ◌*◌, List, [], ◌∷◌, ◌++◌, Bool, true, false, ltb, leb, ◌==◌, if◌then◌else◌,
  Option, none, some, take, drop, length,
}
use awase.Base.Bytes.{u32, u64}
use awase.Drawfs.Proto.{max_frame_bytes, err_overflow}
use awase.Drawfs.Session.{Session, Tunables, State, Kernel, enxio, efbig}
use awase.Drawfs.Reply.{Display, with_session, reply_error}
use awase.Drawfs.Dispatch.{ignore_error}
use awase.Drawfs.Inbuf.{Windows, pass, later, try_process_inbuf}

-- `stats.bytes_in`, once in a call.
unfoldable pub count_in : Session → Bool → ℕ → Session
count_in s counted n =
    if counted
    then s
    else record s { stats = record s.stats { bytes_in = u64 (s.stats.bytes_in + n) } }

-- `memcpy(s->inbuf + s->in_len, buf, n)` and the new length.
unfoldable pub append_input : Session → List ℕ → ℕ → Session
append_input s buf n = record s {
  inbuf = take s.in_len s.inbuf ++ (take n buf ++ drop (s.in_len + n) s.inbuf);
  in_len = u64 (s.in_len + n);
}

-- The new buffer, with the bytes of the old one.
unfoldable pub install_buffer : Session → ℕ → Session
install_buffer s newcap = record s { inbuf = take s.in_len s.inbuf; in_cap = newcap }

-- `while (newcap < need) newcap *= 2;`
unfoldable pub double_until : ℕ → ℕ → ℕ → Option ℕ
double_until zero newcap need = none
double_until (suc fuel) newcap need =
    let rest = double_until fuel (newcap * 2) need in if ltb newcap need then rest else some newcap

unfoldable pub grow_target : ℕ → ℕ → Option ℕ
unfolding double_until
grow_target in_cap need = elim (double_until (suc need) in_cap need) [
  | none ↦ none
  | some newcap ↦ some (if ltb max_frame_bytes newcap then max_frame_bytes else newcap)
]

-- A buffer that was allocated and is not used after all.
unfoldable pub count_grow_lost : Kernel → Option ℕ → Kernel
count_grow_lost k none = k
count_grow_lost k (some newcap) = record k {
  inbuf_grow_race_lost = u32 (k.inbuf_grow_race_lost + 1);
}

-- One hold of the lock: a result, the bytes are in the buffer, or a buffer has to be allocated.
pub data Round : Type 0 where
  ends : ℕ × State → Round
  appended : State → Round
  allocates : (newcap : ℕ) → State → Round

-- Whether the buffer from an earlier round is large enough.
unfoldable pub serves : Option ℕ → ℕ → Bool
serves none need = false
serves (some newcap) need = leb need newcap

unfoldable pub new_cap : Option ℕ → ℕ
new_cap none = 0
new_cap (some newcap) = newcap

unfoldable pub grow_round : State → Option ℕ → Option ℕ → Option Round
grow_round st nb none = none
grow_round st nb (some newcap) =
    some (allocates newcap (record st { kernel = count_grow_lost st.kernel nb }))

unfoldable pub ingest_round : Tunables → State → Option ℕ → Bool → List ℕ → ℕ → Option Round
ingest_round t st nb counted buf n =
    let s = count_in st.session counted n in
    let need = u64 (s.in_len + n) in
    if st.session.closing
    then some (ends (enxio, st))
    else if ltb max_frame_bytes need
    then some (
        ends (
          ignore_error
            (with_session st (reply_error t (record s { in_len = 0 }) 0 err_overflow 0))))
    else if leb need s.in_cap
    then some (
        appended (record { session = append_input s buf n; kernel = count_grow_lost st.kernel nb }))
    else if serves nb need
    then some
        (appended (record st { session = append_input (install_buffer s (new_cap nb)) buf n }))
    else grow_round (record st { session = s }) nb (grow_target s.in_cap need)

-- The loop; `none` if the fuel runs out. The processing of the buffer gets the fuel that is left.
unfoldable pub ingest_loop :
    ℕ → Tunables → Display → Windows → State → Option ℕ → Bool → List ℕ → ℕ → Option (ℕ × State)
ingest_loop zero t d ws st nb counted buf n = none
ingest_loop (suc fuel) t d ws st nb counted buf n = elim (ingest_round t st nb counted buf n) [
  | none ↦ none
  | some round ↦ elim round [
    | ends r ↦ some r
    | appended st' ↦ try_process_inbuf fuel t d ws st'
    | allocates newcap st' ↦ ingest_loop fuel t d (later ws) (pass ws st') (some newcap) true buf n
  ]
]

unfoldable pub ingest_bytes :
    ℕ → Tunables → Display → Windows → State → List ℕ → ℕ → Option (ℕ × State)
unfolding ingest_loop
ingest_bytes fuel t d ws st buf n =
    if n == 0
    then some (0, st)
    else if ltb max_frame_bytes n
    then some (efbig, st)
    else ingest_loop fuel t d ws st none false buf n

-- `drawfs_write`, for bytes that `uiomove` has copied in whole.
unfoldable pub write : ℕ → Tunables → Display → Windows → State → List ℕ → Option (ℕ × State)
write fuel t d ws st buf =
    if length buf == 0
    then some (0, st)
    else if ltb max_frame_bytes (length buf)
    then some (efbig, st)
    else ingest_bytes fuel t d ws st buf (length buf)
