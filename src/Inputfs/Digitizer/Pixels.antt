-- ===== src/Inputfs/Digitizer/Pixels.antt =====
-- The pixels of touches: `inputfs_digitizer_to_pixel` of inputfs.c keeps order and ends.
use awase.Base.{ℕ, ◌-◌, ◌*◌, ◌/◌, ◌^◌, ◌≤◌, ◌<◌, ◌≡◌, ap, ◌∙◌, true, arith}
use native.Mathlib.Nat.{
  zero-div, zero-mul, mul-div_cancel_left, le-div_iff_mul-le, div-mul-le_self, mul-le-mul_right,
  le_trans,
}
use awase.Inputfs.State.{Geom}
use awase.Inputfs.Parser.Touch.{DigitizerCache}
use awase.Inputfs.Digitizer.{minus, is_positive, last_pixel, axis_pixel, digitizer_to_pixel}

axis_pixel-bound : (last range low device : ℕ) → axis_pixel last range low device ≤ last
unfolding axis_pixel
axis_pixel-bound last range low device = ground arith

axis_pixel-low : (last range low : ℕ) → low < 2 ^ 32 → 0 < range → axis_pixel last range low low ≡ 0
unfolding axis_pixel
axis_pixel-low last range low h hr =
    let same : minus low low ≡ 0 = omega arith in
    let none : 0 * last / range ≡ 0 = ap (λ x. x / range) (zero-mul last) ∙ zero-div range in
    rw same (rw none (ground arith))

axis_pixel-high :
    (last low high : ℕ)
    → 0 < minus high low
    → minus high low < 2 ^ 31
    → axis_pixel last (minus high low) low high ≡ last
unfolding axis_pixel
axis_pixel-high last low high h hr =
    let whole : minus high low * last / minus high low ≡ last = mul-div_cancel_left last h in
    rw whole (ground arith)

div_mono : {m n k : ℕ} → 0 < k → m ≤ n → m / k ≤ n / k
div_mono {m} {n} {k} h le = (le-div_iff_mul-le h).1 (le_trans (div-mul-le_self m k) le)

axis_pixel_mono :
    (last range low a b : ℕ)
    → 0 < range
    → minus a low ≤ minus b low
    → minus b low < 2 ^ 31
    → axis_pixel last range low a ≤ axis_pixel last range low b
unfolding axis_pixel
axis_pixel_mono last range low a b hr le small =
    let quotients : minus a low * last / range ≤ minus b low * last / range =
      div_mono hr (mul-le-mul_right last le) in
    ground arith

last_pixel-pred : (size : ℕ) → 0 < size → size ≤ 2 ^ 31 → last_pixel size ≡ size - 1
unfolding last_pixel
last_pixel-pred size h hs = ground arith

axis_pixel-inside :
    (size range low device : ℕ)
    → 0 < size
    → size ≤ 2 ^ 31
    → axis_pixel (last_pixel size) range low device < size
axis_pixel-inside size range low device h hs =
    let bound = axis_pixel-bound (last_pixel size) range low device in
    let last = last_pixel-pred size h hs in omega (arith, bound, last)

pair_eq : {a b c d : ℕ} → a ≡ c → b ≡ d → ◌≡◌ {A = ℕ × ℕ} (a, b) (c, d)
pair_eq p q = λ i. (p i, q i)

-- A line from one coordinate to a larger one, and of at most 2 ^ 31 pixels, but not of none.
unfoldable pub IsLine : ℕ × ℕ → ℕ → Type 0
IsLine ends size =
    (ends.0 < 2 ^ 32)
    × (0 < minus ends.1 ends.0)
    × (minus ends.1 ends.0 < 2 ^ 31)
    × (0 < size)
    × (size ≤ 2 ^ 31)

IsLine-positive :
    (ends : ℕ × ℕ) (size : ℕ) → IsLine ends size → is_positive (minus ends.1 ends.0) ≡ true
unfolding IsLine is_positive
IsLine-positive ends size (start, more, fits, some_pixel, pixels) = ground arith

-- On a known screen, and a pad whose coordinates grow along both axes, every touch has a pixel of the
-- screen, the pad's first corner is the screen's first pixel and its last corner the screen's last,
-- and of two touches not before the first corner the one that is further along an axis has no
-- smaller pixel there.
pub digitizer_to_pixel-Fits :
    (geom : Geom) (p : DigitizerCache)
    → geom.known ≡ true
    → IsLine p.touch_x geom.width
    → IsLine p.touch_y geom.height
    → ((x y : ℕ)
        → (let pixel = digitizer_to_pixel geom p x y in
            (pixel.0 < geom.width) × (pixel.1 < geom.height)))
      × (digitizer_to_pixel geom p p.touch_x.0 p.touch_y.0 ≡ (0, 0))
      × (digitizer_to_pixel geom p p.touch_x.1 p.touch_y.1 ≡ (geom.width - 1, geom.height - 1))
      × ((x x' y y' : ℕ)
          → minus x p.touch_x.0 ≤ minus x' p.touch_x.0
          → minus x' p.touch_x.0 < 2 ^ 31
          → minus y p.touch_y.0 ≤ minus y' p.touch_y.0
          → minus y' p.touch_y.0 < 2 ^ 31
          → (let pixel = digitizer_to_pixel geom p x y in
              let pixel' = digitizer_to_pixel geom p x' y' in
              (pixel.0 ≤ pixel'.0) × (pixel.1 ≤ pixel'.1)))
unfolding digitizer_to_pixel IsLine
digitizer_to_pixel-Fits geom p known line_x line_y =
    let (start_x, more_x, fits_x, some_x, pixels_x) = line_x in
    let (start_y, more_y, fits_y, some_y, pixels_y) = line_y in
    let wide : last_pixel geom.width ≡ geom.width - 1 =
      last_pixel-pred geom.width some_x pixels_x in
    let high : last_pixel geom.height ≡ geom.height - 1 =
      last_pixel-pred geom.height some_y pixels_y in
    rw
      (
        known,
        IsLine-positive p.touch_x geom.width line_x,
        IsLine-positive p.touch_y geom.height line_y,
      )
      (
        λ x y. (
          axis_pixel-inside geom.width (minus p.touch_x.1 p.touch_x.0) p.touch_x.0 x some_x
              pixels_x,
          axis_pixel-inside geom.height (minus p.touch_y.1 p.touch_y.0) p.touch_y.0 y some_y
              pixels_y,
        ),
        pair_eq
            (axis_pixel-low (last_pixel geom.width) (minus p.touch_x.1 p.touch_x.0) p.touch_x.0
              start_x more_x)
            (axis_pixel-low (last_pixel geom.height) (minus p.touch_y.1 p.touch_y.0) p.touch_y.0
              start_y more_y),
        pair_eq
            (axis_pixel-high (last_pixel geom.width) p.touch_x.0 p.touch_x.1 more_x fits_x ∙ wide)
            (axis_pixel-high (last_pixel geom.height) p.touch_y.0 p.touch_y.1 more_y fits_y ∙ high),
        λ x x' y y' hx sx hy sy. (
          axis_pixel_mono (last_pixel geom.width) (minus p.touch_x.1 p.touch_x.0) p.touch_x.0 x x'
              more_x hx sx,
          axis_pixel_mono (last_pixel geom.height) (minus p.touch_y.1 p.touch_y.0) p.touch_y.0 y y'
              more_y hy sy,
        ),
      )
