-- ===== src/Audiofs/Tests/Streams.antt =====
-- Streams at concrete positions and calls, and the theorems on them applied there.
use awase.Base.{
  ℕ, ◌+◌, ◌/◌, ◌%◌, ◌^◌, ◌<◌, ◌≡◌, refl, true, false, none, some, List, [], ◌∷◌, arith,
}
use awase.Base.Bytes.{u64}
use awase.Audiofs.Ring.Queue.{front}
use awase.Audiofs.Softc.{Softc, Status, no_status}
use awase.Audiofs.Stream.{start, stop}
use awase.Audiofs.Stream.Payloads.{Newest, IsEnd}
use awase.Audiofs.Stream.Position.{interrupts, stream_counts}
use awase.Audiofs.Stream.Gaps.{
  Act, refill, underrun, task, run, silent, accounted, reported, silence_reported,
}
use awase.Audiofs.Control.Lifecycle.{Coherent, is_within, Bracketed}
use awase.Audiofs.Control.Calls.{
  Call, open_device, close_device, change_format, interrupt, publish_task, calls, calls-Coherent,
}
use awase.Audiofs.Tests.Examples.{two_frames, waiting-Ready, attached, playing, masks}

abbrev boundary : Status
boundary = record no_status { bcis = true }

-- Five fragments, once around the buffer.
abbrev five : List (Status × ℕ)
five =
    (boundary, 4096)
    ∷ (boundary, 8192)
    ∷ (boundary, 12292)
    ∷ (boundary, 16384)
    ∷ (no_status, 20480)
    ∷ []

stream_counts_example :
    (sc' : Softc) × (interrupts five (start 0x0011 2 48000 attached) ≡ some sc')
    × (let ended = stop (20484 % 16384) sc' in
        (ended.active ≡ false)
        × Newest (IsEnd sc'.stream_id (20484 / 4)) ended.events
        × (ended.clock_samples_total ≡ u64 (attached.clock_samples_total + 20484 / 4)))
stream_counts_example =
    stream_counts 0x0011 2 48000 attached five 20484 (omega arith)
      (
        (omega arith, omega arith, refl),
        (
          (omega arith, omega arith, refl),
          (
            (omega arith, omega arith, refl),
            ((omega arith, omega arith, refl), ((omega arith, omega arith, refl), tt)),
          ),
        ),
      )
      (omega arith) (omega arith) refl

abbrev acts : List Act
acts = refill 0 ∷ underrun ∷ task ∷ refill 1 ∷ []

acts-fits : accounted playing + silent acts two_frames < 2 ^ 32
unfolding reported silent front
acts-fits = omega arith

silence_reported_example :
    reported (stop 0 (run acts playing)).events ≡ accounted playing + silent acts two_frames
silence_reported_example =
    silence_reported acts playing two_frames 0 (omega arith, (omega arith, tt)) refl waiting-Ready
      acts-fits

-- A consumer opens the device, plays over a boundary, changes the rate, is interrupted once more and
-- closes; the second allocation fails on the way.
abbrev session : List Call
session =
    open_device (record { bdl = some 65536; buf = some 131072 })
    ∷ interrupt boundary 4100
    ∷ publish_task
    ∷ change_format (record { bdl = some 262144; buf = none })
        (record { bdl = some 262144; buf = some 327680 }) 8000
        (record { rate_hz = 44100; format_word = 0; bits = 16; channels = 2; supported_rates = 0 })
    ∷ interrupt boundary 16383
    ∷ close_device 0 100
    ∷ []

attached-Coherent : Coherent attached
unfolding is_within Bracketed
attached-Coherent = record {
  running = refl;
  interrupt = refl;
  within = refl;
  bracketed = tt;
  cursor = omega arith;
}

calls-Coherent_example : (sc' : Softc) × (calls masks session attached ≡ some sc') × Coherent sc'
calls-Coherent_example =
    calls-Coherent masks session attached attached-Coherent
      (tt, (omega arith, (tt, (tt, (omega arith, (tt, tt))))))
