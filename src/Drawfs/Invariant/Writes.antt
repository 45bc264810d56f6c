-- ===== src/Drawfs/Invariant/Writes.antt =====
-- `drawfs_write`: its end, and the invariant of the session.
use awase.Base.{
  ℕ, zero, suc, ◌+◌, ◌*◌, ◌≤◌, ◌<◌, ◌≡◌, ◌⊎◌, refl, List, [], ◌∷◌, arith, Option, some, none, Bool,
  true, false, Bool-cases, inl, inr, ltb, ◌==◌, length,
}
use awase.Drawfs.Proto.{max_frame_bytes}
use awase.Drawfs.Session.{State, Tunables, efbig}
use awase.Drawfs.Reply.{Display}
use awase.Drawfs.Inbuf.{Windows, pass, later, try_process_inbuf}
use awase.Drawfs.Ingest.{
  Round, ends, appended, allocates, ingest_round, ingest_loop, ingest_bytes, write, serves,
}
use awase.Drawfs.Invariant.{SessionInv, Limits}
use awase.Drawfs.Invariant.Input.{Keeping, pass-SessionInv, later-Keeping}
use awase.Drawfs.Invariant.Rounds.{Ends, process_inbuf-Ends}
use awase.Drawfs.Invariant.Appending.{RoundKept, BufferFits, ingest_round-Kept}

Round-cases :
    (o : Option Round)
    → (o ≡ none)
      ⊎ ((r : ℕ × State) × (o ≡ some (ends r)))
      ⊎ ((st : State) × (o ≡ some (appended st)))
      ⊎ ((c : ℕ) × (st : State) × (o ≡ some (allocates c st)))
Round-cases none = inl refl
Round-cases (some (ends r)) = inr (inl (r, refl))
Round-cases (some (appended st)) = inr (inr (inl (st, refl)))
Round-cases (some (allocates c st)) = inr (inr (inr (c, st, refl)))

-- One round more where the buffer at hand does not serve.
abbrev slack : Option ℕ → ℕ → ℕ
slack nb need = elim (serves nb need) [ true ↦ 0 | false ↦ 1 ]

-- Fuel for the rounds of both loops: after each window anything up to a frame may wait.
abbrev pub enough : Windows → ℕ
enough ws = length ws * (max_frame_bytes + 3) + max_frame_bytes + 3

alloc-measure :
    (t : Tunables) (ws : Windows) (st : State) (c n : ℕ)
    → Keeping t max_frame_bytes ws
    → SessionInv t max_frame_bytes st.session
    → st.session.in_len + n ≤ c
    → length (later ws) * (max_frame_bytes + 3) + slack (some c) ((pass ws st).session.in_len + n)
      < length ws * (max_frame_bytes + 3) + 1
unfolding serves
alloc-measure t [] st c n ks inv room = ground arith
alloc-measure t (w ∷ ws) st c n ks inv room = ground arith

module _ (t : Tunables) (l : Limits t) (d : Display) (buf : List ℕ) (n : ℕ) (long : n ≤ length buf)
    (small : n ≤ max_frame_bytes) where
  ingest_loop-Ends :
      (fuel : ℕ) (ws : Windows) (st : State) (nb : Option ℕ) (counted : Bool)
      → Keeping t max_frame_bytes ws
      → SessionInv t max_frame_bytes st.session
      → BufferFits nb
      → length ws * (max_frame_bytes + 3) + max_frame_bytes + 1 + slack nb (st.session.in_len + n)
        < fuel
      → Ends t l d (ingest_loop fuel t d ws st nb counted buf n)
  unfolding ingest_loop try_process_inbuf
  ingest_loop-Ends zero ws st nb counted ks inv fits h = absurd (omega arith)
  ingest_loop-Ends (suc fuel) ws st nb counted ks inv fits h =
      let kept = ingest_round-Kept t l buf n long st nb counted inv fits small in
      elim (Round-cases (ingest_round t st nb counted buf n)) [
        | inl stuck ↦ absurd (rw stuck at kept)
        | inr (inl ((e, st'), r)) ↦ ((e, st'), rw (r, ingest_loop), rw r at kept)
        | inr (inr (inl (st', r))) ↦
            let inv' : SessionInv t max_frame_bytes st'.session = rw r at kept in
            let (out, done, inv2) = process_inbuf-Ends t l d fuel ws st' ks inv' (omega arith) in
            (out, rw (r, ingest_loop) done, inv2)
        | inr (inr (inr (c, st', r))) ↦
            let alloc : RoundKept t n nb st.session.in_len (some (allocates c st')) =
              rw r at kept in
            let inv' : SessionInv t max_frame_bytes st'.session = alloc.0 in
            let unserved : serves nb (st.session.in_len + n) ≡ false = alloc.1 in
            let room : st'.session.in_len + n ≤ c = alloc.5 in
            let (out, done, inv2) =
              ingest_loop-Ends fuel (later ws) (pass ws st') (some c) true
                (later-Keeping t max_frame_bytes ws ks)
                (pass-SessionInv t max_frame_bytes ws st' ks inv') (alloc.3, alloc.4)
                (ground (arith, alloc-measure t ws st' c n ks inv' room)) in
            (out, rw (r, ingest_loop) done, inv2)
      ]

ingest_bytes-Ends :
    (t : Tunables) (l : Limits t) (d : Display) (fuel : ℕ) (ws : Windows) (st : State)
    (buf : List ℕ) (n : ℕ)
    → n ≤ length buf
    → Keeping t max_frame_bytes ws
    → SessionInv t max_frame_bytes st.session
    → enough ws ≤ fuel
    → Ends t l d (ingest_bytes fuel t d ws st buf n)
unfolding ingest_bytes
ingest_bytes-Ends t l d fuel ws st buf n long ks inv h = elim (Bool-cases (n == 0)) [
  | inl z ↦ ((0, st), rw z, inv)
  | inr nz ↦ elim (Bool-cases (ltb max_frame_bytes n)) [
    | inl big ↦ ((efbig, st), rw (nz, big), inv)
    | inr fits ↦
        let (out, done, inv') =
          ingest_loop-Ends t l d buf n long (ground arith) fuel ws st none false ks inv tt
            (ground arith) in
        (out, rw (nz, fits) done, inv')
  ]
]

-- A write of any bytes ends with a result, whatever the bytes are and whatever other threads do to
-- the session while the lock is free, as long as that keeps the invariant; and it keeps the
-- invariant: the accounts of the queue and of the surfaces stay exact and within their limits, and
-- the input buffer's reads and writes stay inside it. The fuel that suffices is given.
pub write-Ends :
    (t : Tunables) (l : Limits t) (d : Display) (fuel : ℕ) (ws : Windows) (st : State)
    (buf : List ℕ)
    → Keeping t max_frame_bytes ws
    → SessionInv t max_frame_bytes st.session
    → enough ws ≤ fuel
    → (out : ℕ × State) × (write fuel t d ws st buf ≡ some out)
      × SessionInv t max_frame_bytes out.1.session
unfolding write
write-Ends t l d fuel ws st buf ks inv h = elim (Bool-cases (length buf == 0)) [
  | inl z ↦ ((0, st), rw z, inv)
  | inr nz ↦ elim (Bool-cases (ltb max_frame_bytes (length buf))) [
    | inl big ↦ ((efbig, st), rw (nz, big), inv)
    | inr fits ↦
        let (out, done, inv') =
          ingest_bytes-Ends t l d fuel ws st buf (length buf) (omega arith) ks inv h in
        (out, rw (nz, fits) done, inv')
  ]
]
