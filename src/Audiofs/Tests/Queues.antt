-- ===== src/Audiofs/Tests/Queues.antt =====
-- Writes into a ring and refills out of it at concrete bytes, and the theorems on them applied there.
use awase.Base.{ℕ, ◌+◌, ◌≡◌, refl, true, false, [], ◌∷◌, drop, length-replicate, arith}
use awase.Base.Memory.{slice}
use awase.Base.Within.{Within}
use awase.Audiofs.Ring.{
  used, space, quiet, returned, eagain, cdev_write, copy_round, sleep_round, cdev_poll,
}
use awase.Audiofs.Ring.Queue.{Ready, front}
use awase.Audiofs.Ring.Delivery.{Delivers, cdev_write-Delivers}
use awase.Audiofs.Interrupt.{refill_user_fragment}
use awase.Audiofs.Interrupt.Refills.{fragment, gap_after, refill_user_fragment-Fills}
use awase.Audiofs.Tests.Examples.{two_frames, waiting, waiting-Ready, playing}

-- A frame arrives, and a refill takes what waited while it is copied.
cdev_write-Delivers_example :
    Delivers two_frames
      (9 ∷ 8 ∷ 7 ∷ 6 ∷ 5 ∷ [])
      (cdev_write 7 false (record quiet { refills = 1 } ∷ []) waiting (9 ∷ 8 ∷ 7 ∷ 6 ∷ 5 ∷ []))
cdev_write-Delivers_example =
    cdev_write-Delivers 7 false (record quiet { refills = 1 } ∷ []) waiting (9 ∷ 8 ∷ 7 ∷ 6 ∷ 5 ∷ [])
      two_frames waiting-Ready (omega arith)

refill_user_fragment-Fills_example :
    (let sc' = refill_user_fragment 2 playing in
      (slice 8192 4096 sc'.dma ≡ fragment two_frames)
      × Within 8192 (8192 + 4096) playing.dma sc'.dma
      × Ready sc'.ring (drop (front two_frames) two_frames)
      × (sc'.xruns ≡ gap_after playing.frames_played two_frames playing.xruns))
refill_user_fragment-Fills_example =
    refill_user_fragment-Fills 2 playing two_frames (omega arith) (length-replicate {A = ℕ} 16384 7)
      waiting-Ready

-- A full ring takes nothing.
full_ring :
    (cdev_write 1 true []
      (record { bytes = []; head = 40000; tail = 7232 })
      (1 ∷ 2 ∷ 3 ∷ 4 ∷ [])).outcome
    ≡ returned eagain
unfolding cdev_write copy_round sleep_round space used
full_ring = refl

not_ready : cdev_poll (record { bytes = []; head = 40000; tail = 7232 }) true true ≡ (false, true)
unfolding cdev_poll space used
not_ready = refl
