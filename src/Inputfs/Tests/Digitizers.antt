-- ===== src/Inputfs/Tests/Digitizers.antt =====
-- Touches on a pad at concrete coordinates, and the theorem on their pixels applied there.
use awase.Base.{ℕ, ◌-◌, ◌^◌, ◌≤◌, ◌<◌, ◌≡◌, refl, true, none, arith}
use awase.Inputfs.State.{Geom}
use awase.Inputfs.Parser.Touch.{DigitizerCache, no_digitizer}
use awase.Inputfs.Digitizer.{minus, is_positive, last_pixel, axis_pixel, digitizer_to_pixel}
use awase.Inputfs.Digitizer.Pixels.{IsLine, digitizer_to_pixel-Fits}

abbrev screen : Geom
screen = record { known = true; width = 640; height = 480 }

-- A pad from -100 to 1900 along one axis, and from 0 to 958 along the other.
abbrev pad : DigitizerCache
pad = record (no_digitizer none) { touch_x = (4294967196, 1900); touch_y = (0, 958) }

middle : digitizer_to_pixel screen pad 900 479 ≡ (319, 239)
unfolding digitizer_to_pixel is_positive last_pixel axis_pixel
middle = refl

-- One place before the first is the first pixel, and one behind the last the last.
outside : digitizer_to_pixel screen pad 4294967195 959 ≡ (0, 479)
unfolding digitizer_to_pixel is_positive last_pixel axis_pixel
outside = refl

pad-IsLine : IsLine pad.touch_x 640 × IsLine pad.touch_y 480
unfolding IsLine
pad-IsLine = (
  (omega arith, omega arith, omega arith, omega arith, omega arith),
  (omega arith, omega arith, omega arith, omega arith, omega arith),
)

digitizer_to_pixel-Fits_example :
    ((x y : ℕ)
      → (let pixel = digitizer_to_pixel screen pad x y in (pixel.0 < 640) × (pixel.1 < 480)))
    × (digitizer_to_pixel screen pad 4294967196 0 ≡ (0, 0))
    × (digitizer_to_pixel screen pad 1900 958 ≡ (640 - 1, 480 - 1))
    × ((x x' y y' : ℕ)
        → minus x 4294967196 ≤ minus x' 4294967196
        → minus x' 4294967196 < 2 ^ 31
        → minus y 0 ≤ minus y' 0
        → minus y' 0 < 2 ^ 31
        → (let pixel = digitizer_to_pixel screen pad x y in
            let pixel' = digitizer_to_pixel screen pad x' y' in
            (pixel.0 ≤ pixel'.0) × (pixel.1 ≤ pixel'.1)))
digitizer_to_pixel-Fits_example = digitizer_to_pixel-Fits screen pad refl pad-IsLine.0 pad-IsLine.1
