-- ===== src/Inputfs/Digitizer.antt =====
-- From the coordinates of a touch pad to those of the screen: `inputfs_digitizer_to_pixel` of
-- inputfs.c. All numbers are bit patterns below 2 ^ 32.
pub mod Pixels
use awase.Base.{ℕ, ◌+◌, ◌-◌, ◌*◌, ◌/◌, ◌%◌, ◌^◌, Bool, true, false, ltb, ◌&&◌, if◌then◌else◌}
use awase.Base.Bytes.{u32}
use awase.Inputfs.State.{Geom}
use awase.Inputfs.Parser.Touch.{DigitizerCache}

-- The number that stands for the difference of two coordinates.
abbrev pub minus : ℕ → ℕ → ℕ
minus a b = u32 (a + (2 ^ 32 - b))

-- Whether a bit pattern stands for a number above 0.
unfoldable pub is_positive : ℕ → Bool
is_positive r = ltb 0 r && ltb r (2 ^ 31)

-- The last pixel of a line, 0 for a line whose size is 0 or has the sign bit set.
unfoldable pub last_pixel : ℕ → ℕ
last_pixel size = let last = minus size 1 in if ltb last (2 ^ 31) then last else 0

-- The pixel of a coordinate on a line. A coordinate below the least one has a quotient of at most 0
-- in the source, where division rounds towards 0, and so the pixel 0.
unfoldable pub axis_pixel : ℕ → ℕ → ℕ → ℕ → ℕ
axis_pixel last range low device =
    let above = minus device low in
    let pixel = above * last / range in
    if ltb above (2 ^ 31) then (if ltb last pixel then last else pixel) else 0

unfoldable pub digitizer_to_pixel : Geom → DigitizerCache → ℕ → ℕ → ℕ × ℕ
digitizer_to_pixel geom p device_x device_y =
    let range_x = minus p.touch_x.1 p.touch_x.0 in
    let range_y = minus p.touch_y.1 p.touch_y.0 in
    if geom.known && (is_positive range_x && is_positive range_y)
    then (
      axis_pixel (last_pixel geom.width) range_x p.touch_x.0 device_x,
      axis_pixel (last_pixel geom.height) range_y p.touch_y.0 device_y,
    )
    else (device_x, device_y)
