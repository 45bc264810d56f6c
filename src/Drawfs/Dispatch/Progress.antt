-- ===== src/Drawfs/Dispatch/Progress.antt =====
-- The end of the loop of `drawfs_process_frame`.
use native.Mathlib.Nat.{le_trans}
use awase.Base.{
  ℕ, zero, suc, ◌+◌, ◌≤◌, ◌<◌, ◌≡◌, refl, List, arith, some, false, Bool-cases, inl, inr, ltb, ◌==◌,
  not, drop,
}
use awase.Base.Bytes.{align4, u32}
use awase.Drawfs.Proto.{FrameHdr, MsgHdr, read_msg_hdr, max_frame_bytes, msg_hdr_size}
use awase.Drawfs.Frame.{FrameCheck, valid, invalid, frame_validate}
use awase.Drawfs.Frame.Headers.{frame_validate-IsFrame}
use awase.Drawfs.Session.{Tunables, State}
use awase.Drawfs.Reply.{Display}
use awase.Drawfs.Dispatch.{is_bad_msg, bad_msg, one_msg, process_msgs, checked_frame, process_frame}

-- A message that is not bad moves the position on.
next_pos :
    (mh : MsgHdr) (pos frame_end : ℕ)
    → frame_end ≤ max_frame_bytes
    → ltb frame_end (pos + msg_hdr_size) ≡ false
    → is_bad_msg mh pos frame_end ≡ false
    → (pos < align4 (u32 (pos + mh.msg_bytes))) × (pos + 16 ≤ frame_end)
unfolding is_bad_msg
next_pos mh pos frame_end small within good = ground arith

-- The fuel exceeds the bytes left.
process_msgs-total :
    (fuel : ℕ) (t : Tunables) (d : Display) (st : State) (buf : List ℕ) (pos frame_end : ℕ)
    → frame_end ≤ max_frame_bytes
    → frame_end < pos + fuel
    → 0 < fuel
    → (r : ℕ × State) × (process_msgs fuel t d st buf pos frame_end ≡ some r)
unfolding process_msgs
process_msgs-total zero t d st buf pos frame_end small h p = absurd (omega arith)
process_msgs-total (suc fuel) t d st buf pos frame_end small h p =
    let mh = read_msg_hdr (drop pos buf) in
    elim (Bool-cases (ltb frame_end (pos + msg_hdr_size))) [
      | inl ended ↦ ((0, st), rw ended)
      | inr within ↦ elim (Bool-cases (is_bad_msg mh pos frame_end)) [
        | inl bad ↦ (bad_msg t st mh pos, rw (within, bad))
        | inr good ↦ elim (Bool-cases (not ((one_msg t d st buf mh pos).0 == 0))) [
          | inl failed ↦ (one_msg t d st buf mh pos, rw (within, good, failed))
          | inr fine ↦
              rw (within, good, fine)
                (process_msgs-total fuel t d (one_msg t d st buf mh pos).1 buf
                  (align4 (u32 (pos + mh.msg_bytes))) frame_end small
                  (omega (arith, next_pos mh pos frame_end small within good))
                  (omega (arith, next_pos mh pos frame_end small within good)))
        ]
      ]
    ]

checked_frame-total :
    (t : Tunables) (d : Display) (st : State) (buf : List ℕ) (c : FrameCheck)
    → ((fh : FrameHdr) → c ≡ valid fh → fh.frame_bytes ≤ max_frame_bytes)
    → (r : ℕ × State) × (checked_frame t d st buf c ≡ some r)
unfolding checked_frame
checked_frame-total t d st buf (invalid code off) h = (_, refl)
checked_frame-total t d st buf (valid fh) h =
    process_msgs-total (suc fh.frame_bytes) t d st buf 16 fh.frame_bytes (h fh refl) (omega arith)
      (omega arith)

-- Processing a frame of up to 1 MiB ends with a result, whatever its messages are: the loop takes
-- at least one byte for each round.
pub process_frame-total :
    (t : Tunables) (d : Display) (st : State) (buf : List ℕ) (n : ℕ)
    → n ≤ max_frame_bytes
    → (r : ℕ × State) × (process_frame t d st buf n ≡ some r)
unfolding process_frame
process_frame-total t d st buf n small =
    checked_frame-total t d st buf (frame_validate buf n)
      (λ fh e. le_trans ((frame_validate-IsFrame buf n fh).0 e).1.within small)
