-- ===== src/Drawfs/Invariant/Appending.antt =====
-- The invariant of the session in one round of `drawfs_ingest_bytes`.
use awase.Base.{
  ℕ, zero, suc, ◌+◌, ◌*◌, ◌≤◌, ◌<◌, ◌≡◌, List, ◌++◌, arith, Option, some, none, Bool, true, false,
  Bool-cases, if_split, inl, inr, ltb, leb, take, drop, length, length-append, length-take,
}
use awase.Base.Bytes.{u64}
use awase.Drawfs.Proto.{max_frame_bytes, err_overflow}
use awase.Drawfs.Session.{Session, State, Tunables, enxio}
use awase.Drawfs.Reply.{with_session, reply_error}
use awase.Drawfs.Dispatch.{ignore_error}
use awase.Drawfs.Ingest.{
  double_until, grow_target, Round, ends, appended, allocates, ingest_round, count_in, append_input,
  install_buffer, serves, new_cap, grow_round, count_grow_lost,
}
use awase.Drawfs.Invariant.{SessionInv, Limits, reply_error-SessionInv}

-- Doubling a capacity of at least one byte reaches any size, the fuel being one more than it.
double_until-reaches :
    (fuel cap need : ℕ)
    → 1 ≤ cap
    → need < cap + fuel
    → 0 < fuel
    → (c : ℕ) × (double_until fuel cap need ≡ some c) × (need ≤ c) × (cap ≤ c)
unfolding double_until
double_until-reaches zero cap need p h q = absurd (omega arith)
double_until-reaches (suc fuel) cap need p h q = elim (Bool-cases (ltb cap need)) [
  | inr enough ↦ (cap, rw enough, ground arith, omega arith)
  | inl more ↦
      let (c, e, le, up) =
        double_until-reaches fuel (cap * 2) need (omega arith) (ground arith) (ground arith) in
      (c, rw more e, le, omega arith)
]

-- The new capacity holds what is needed and is at most a frame.
grow_target-fits :
    (cap need : ℕ)
    → 1 ≤ cap
    → need ≤ max_frame_bytes
    → (c : ℕ) × (grow_target cap need ≡ some c) × (need ≤ c) × (c ≤ max_frame_bytes) × (1 ≤ c)
unfolding grow_target
grow_target-fits cap need p small =
    let (c, e, le, up) = double_until-reaches (suc need) cap need p (omega arith) (omega arith) in
    elim (Bool-cases (ltb max_frame_bytes c)) [
      | inl big ↦ (max_frame_bytes, rw (e, grow_target) (rw big), small, omega arith, omega arith)
      | inr fits ↦ (c, rw (e, grow_target) (rw fits), le, ground arith, omega arith)
    ]

-- What a round leaves: the invariant, and for an allocation a capacity that serves the bytes that
-- wait now.
abbrev pub RoundKept : Tunables → ℕ → Option ℕ → ℕ → Option Round → Type 0
RoundKept t n nb len none = ⊥
RoundKept t n nb len (some (ends (e, st))) = SessionInv t max_frame_bytes st.session
RoundKept t n nb len (some (appended st)) = SessionInv t max_frame_bytes st.session
RoundKept t n nb len (some (allocates c st)) =
    SessionInv t max_frame_bytes st.session
    × (serves nb (len + n) ≡ false)
    × (st.session.in_len ≡ len)
    × (1 ≤ c)
    × (c ≤ max_frame_bytes)
    × (st.session.in_len + n ≤ c)

abbrev pub BufferFits : Option ℕ → Type 0
BufferFits none = Unit
BufferFits (some c) = (1 ≤ c) × (c ≤ max_frame_bytes)

append_input-SessionInv :
    (t : Tunables) (s : Session) (buf : List ℕ) (n : ℕ)
    → SessionInv t max_frame_bytes s
    → n ≤ length buf
    → s.in_len + n ≤ s.in_cap
    → SessionInv t max_frame_bytes (append_input s buf n)
unfolding append_input
append_input-SessionInv t s buf n inv long room = omega (
  arith,
  length-append (take s.in_len s.inbuf) (take n buf ++ drop (s.in_len + n) s.inbuf),
  length-append (take n buf) (drop (s.in_len + n) s.inbuf),
  length-take s.in_len s.inbuf,
  length-take n buf,
)

install_buffer-SessionInv :
    (t : Tunables) (s : Session) (c : ℕ)
    → SessionInv t max_frame_bytes s
    → s.in_len ≤ c
    → c ≤ max_frame_bytes
    → 1 ≤ c
    → SessionInv t max_frame_bytes (install_buffer s c)
unfolding install_buffer
install_buffer-SessionInv t s c inv a b p = omega (arith, length-take s.in_len s.inbuf)

count_in-SessionInv :
    (t : Tunables) (s : Session) (counted : Bool) (n : ℕ)
    → SessionInv t max_frame_bytes s
    → SessionInv t max_frame_bytes (count_in s counted n)
      × ((count_in s counted n).in_len ≡ s.in_len)
unfolding count_in
count_in-SessionInv t s counted n inv = ground arith

serves-fits :
    (nb : Option ℕ) (need : ℕ)
    → serves nb need ≡ true
    → BufferFits nb
    → (need ≤ new_cap nb) × (new_cap nb ≤ max_frame_bytes) × (1 ≤ new_cap nb)
unfolding serves new_cap
serves-fits none need e f = cc
serves-fits (some c) need e f = (ground arith, f.1, f.0)

installed :
    (s : Session) (c n : ℕ)
    → s.in_len + n ≤ c
    → (install_buffer s c).in_len + n ≤ (install_buffer s c).in_cap
unfolding install_buffer
installed s c n h = h

module _ (t : Tunables) (l : Limits t) (buf : List ℕ) (n : ℕ) (long : n ≤ length buf) where
  pub ingest_round-Kept :
      (st : State) (nb : Option ℕ) (counted : Bool)
      → SessionInv t max_frame_bytes st.session
      → BufferFits nb
      → n ≤ max_frame_bytes
      → RoundKept t n nb st.session.in_len (ingest_round t st nb counted buf n)
  unfolding ingest_round grow_round
  ingest_round-Kept st nb counted inv fits small =
      let s = count_in st.session counted n in
      let (inv', same) = count_in-SessionInv t st.session counted n inv in
      let wraps : u64 (s.in_len + n) ≡ s.in_len + n = omega arith in
      if_split P st.session.closing (some (ends (enxio, st))) _ (λ _. inv)
        λ _.
          if_split P (ltb max_frame_bytes (u64 (s.in_len + n)))
            (some (
              ends (
                ignore_error
                  (with_session st (reply_error t (record s { in_len = 0 }) 0 err_overflow 0)))))
            _
            (λ _.
              reply_error-SessionInv t max_frame_bytes l (record s { in_len = 0 }) 0 err_overflow 0
                (omega arith))
            λ under.
              if_split P (leb (u64 (s.in_len + n)) s.in_cap)
                (some (
                  appended (record {
                    session = append_input s buf n;
                    kernel = count_grow_lost st.kernel nb;
                  })))
                _ (λ room. append_input-SessionInv t s buf n inv' long (ground arith))
                λ tight.
                  if_split P (serves nb (u64 (s.in_len + n)))
                    (some (
                      appended (record st {
                        session = append_input (install_buffer s (new_cap nb)) buf n;
                      })))
                    _ (λ ready. with_buffer s inv' wraps ready)
                    λ unready. with_target s inv' same wraps under unready
    where
      P : Option Round → Type 0
      P = RoundKept t n nb st.session.in_len

      with_buffer :
          (s : Session)
          → SessionInv t max_frame_bytes s
          → u64 (s.in_len + n) ≡ s.in_len + n
          → serves nb (u64 (s.in_len + n)) ≡ true
          → SessionInv t max_frame_bytes (append_input (install_buffer s (new_cap nb)) buf n)
      with_buffer s inv' wraps ready =
          let (holds, bounded, some_cap) = serves-fits nb (u64 (s.in_len + n)) ready fits in
          append_input-SessionInv t (install_buffer s (new_cap nb)) buf n
            (install_buffer-SessionInv t s (new_cap nb) inv' (omega arith) bounded some_cap) long
            (installed s (new_cap nb) n (omega arith))

      with_target :
          (s : Session)
          → SessionInv t max_frame_bytes s
          → s.in_len ≡ st.session.in_len
          → u64 (s.in_len + n) ≡ s.in_len + n
          → ltb max_frame_bytes (u64 (s.in_len + n)) ≡ false
          → serves nb (u64 (s.in_len + n)) ≡ false
          → P (
              grow_round (record st { session = s }) nb (grow_target s.in_cap (u64 (s.in_len + n))))
      with_target s inv' same wraps under unready =
          let (c, e, holds, bounded, some_cap) =
            grow_target-fits s.in_cap (u64 (s.in_len + n)) inv'.inbuf.cap_pos (ground arith) in
          rw (e, grow_round)
            (inv', rw (wraps, same) at unready, same, some_cap, bounded, omega arith)
