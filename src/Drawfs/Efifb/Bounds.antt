-- ===== src/Drawfs/Efifb/Bounds.antt =====
-- drawfs_efifb.c: which bytes of the framebuffer are written.
use awase.Base.{
  ℕ, zero, suc, ◌+◌, ◌*◌, ◌/◌, ◌^◌, ◌≤◌, ◌<◌, ◌≡◌, ◌≢◌, ◌⊎◌, refl, List, [], ◌∷◌, arith, none, some,
  true, false, Bool-cases, not, ◌||◌, leb, ◌==◌, All, inl, inr,
}
use awase.Base.Bytes.{u32}
use awase.Drawfs.Efifb.{
  Efifb, RowCopy, BlitReq, blit_rows, clip, blit, dst_row, write_row, blit_loop, blit_to_efifb,
}

mul_le_right : (a b n : ℕ) → a ≤ b → a * n ≤ b * n
mul_le_right a b n h = grind arith

-- The geometry: a line holds its pixels, and the sizes are numbers of 32 bits.
pub record Geometry (fb : Efifb) : Type 0 where
  pub line_fits : fb.fb_width * (fb.fb_bpp / 8) ≤ fb.fb_stride
  pub width_u32 : fb.fb_width < 2 ^ 32
  pub stride_u32 : fb.fb_stride < 2 ^ 32

-- A copy stays inside the framebuffer, and inside a line, behind the column `x`.
abbrev pub Inside : Efifb → RowCopy → Type 0
Inside fb c =
    (row : ℕ) × (row < fb.fb_height)
    × (row * fb.fb_stride ≤ c.dst)
    × (c.dst + c.bytes ≤ (row + 1) * fb.fb_stride)
    × (c.dst + c.bytes ≤ fb.fb_height * fb.fb_stride)

one_row-Inside :
    (fb : Efifb) (c : RowCopy) (row off : ℕ)
    → row < fb.fb_height
    → c.dst ≡ row * fb.fb_stride + off
    → off + c.bytes ≤ fb.fb_stride
    → Inside fb c
one_row-Inside fb c row off in_height at_off in_line =
    let next : (row + 1) * fb.fb_stride ≡ row * fb.fb_stride + fb.fb_stride = grind arith in
    let below : (row + 1) * fb.fb_stride ≤ fb.fb_height * fb.fb_stride =
      mul_le_right (row + 1) fb.fb_height fb.fb_stride (omega arith) in
    (row, in_height, omega arith, omega arith, omega arith)

blit_rows-Inside :
    (fb : Efifb) (src_stride n h y off dst src : ℕ)
    → y + h ≤ fb.fb_height
    → dst ≡ y * fb.fb_stride + off
    → off + n ≤ fb.fb_stride
    → All (Inside fb) (blit_rows fb.fb_stride src_stride n h dst src)
unfolding blit_rows
blit_rows-Inside fb src_stride n zero y off dst src fits e line = tt
blit_rows-Inside fb src_stride n (suc h) y off dst src fits e line =
    let next : (y + 1) * fb.fb_stride ≡ y * fb.fb_stride + fb.fb_stride = grind arith in
    (
      one_row-Inside fb (record { dst = dst; src = src; bytes = n }) y off (omega arith) e line,
      blit_rows-Inside fb src_stride n h (y + 1) off (dst + fb.fb_stride) (src + src_stride)
          (omega arith) (omega arith) line,
    )

clip-fits : (width x w : ℕ) → x + w < 2 ^ 32 → x < width → x + clip width x w ≤ width
clip-fits width x w small inside = unfold clip in ground arith

line_room :
    (fb : Efifb) (x w : ℕ)
    → Geometry fb
    → x + w ≤ fb.fb_width
    → x * (fb.fb_bpp / 8) + u32 (w * (fb.fb_bpp / 8)) ≤ fb.fb_stride
line_room fb x w g fits =
    let b = fb.fb_bpp / 8 in
    let sum : (x + w) * b ≡ x * b + w * b = grind arith in
    let room : (x + w) * b ≤ fb.fb_width * b = mul_le_right (x + w) fb.fb_width b fits in
    omega (arith, g.line_fits)

-- With rectangles whose sums fit into 32 bits and a line that holds its pixels, `drawfs_efifb_blit`
-- writes inside the framebuffer only, each copy within one line.
pub blit-Inside :
    (fb : Efifb) (src_stride x y w h : ℕ)
    → Geometry fb
    → x + w < 2 ^ 32
    → y + h < 2 ^ 32
    → All (Inside fb) (blit fb src_stride x y w h)
unfolding blit
blit-Inside fb src_stride x y w h g xw yh =
    elim (Bool-cases (not fb.initialized || fb.fb_vaddr == 0)) [
      | inl off ↦ rw off tt
      | inr on ↦ elim (Bool-cases (leb fb.fb_width x || leb fb.fb_height y)) [
        | inl outside ↦ rw (on, outside) tt
        | inr within ↦ elim (Bool-cases (clip fb.fb_width x w == 0 || clip fb.fb_height y h == 0)) [
          | inl empty ↦ rw (on, within, empty) tt
          | inr some' ↦
              let b = fb.fb_bpp / 8 in
              let cw = clip fb.fb_width x w in
              let wide : x + cw ≤ fb.fb_width = clip-fits fb.fb_width x w xw (ground arith) in
              let high : y + clip fb.fb_height y h ≤ fb.fb_height =
                clip-fits fb.fb_height y h yh (ground arith) in
              rw (on, within, some')
                (blit_rows-Inside fb src_stride (u32 (cw * b)) (clip fb.fb_height y h) y (x * b) _ 0
                  high refl (line_room fb x cw g wide))
        ]
      ]
    ]

dst_row_cases :
    (fb : Efifb) (row : ℕ)
    → (dst_row fb row ≡ none)
      ⊎ ((row < fb.fb_height) × (dst_row fb row ≡ some (row * fb.fb_stride)))
unfolding dst_row
dst_row_cases fb row = ground arith

write_row-Inside :
    (fb : Efifb) (row off src n : ℕ) (rest : List RowCopy)
    → off + n ≤ fb.fb_stride
    → All (Inside fb) rest
    → All (Inside fb) (write_row (dst_row fb row) off src n rest)
unfolding write_row
write_row-Inside fb row off src n rest line done = elim (dst_row_cases fb row) [
  | inl missing ↦ rw missing done
  | inr (in_height, found) ↦ rw found (
    one_row-Inside fb (record { dst = row * fb.fb_stride + off; src = src; bytes = n }) row off
        in_height refl line,
    done,
  )
]

blit_loop-Inside :
    (fb : Efifb) (copyin : ℕ → ℕ) (req : BlitReq) (b n left row : ℕ)
    → u32 (req.dst_x * b) + n ≤ fb.fb_stride
    → All (Inside fb) (blit_loop fb copyin req b n left row).1
unfolding blit_loop
blit_loop-Inside fb copyin req b n zero row line = tt
blit_loop-Inside fb copyin req b n (suc left) row line = elim (Bool-cases (not (copyin row == 0))) [
  | inl fault ↦ rw fault tt
  | inr fine ↦ rw fine (
      write_row-Inside fb (u32 (req.dst_y + row)) (u32 (req.dst_x * b)) (row * req.src_stride) n _
        line (blit_loop-Inside fb copyin req b n left (row + 1) line))
]

-- Whatever rows are asked for and whether or not user memory can be read, a blit of columns inside
-- the framebuffer writes inside the framebuffer only, each copy within one line, if a line holds
-- its pixels.
pub blit_to_efifb-Inside :
    (fb : Efifb) (copyin : ℕ → ℕ) (req : BlitReq)
    → Geometry fb
    → req.dst_x + req.width ≤ fb.fb_width
    → All (Inside fb) (blit_to_efifb fb copyin req).1
unfolding blit_to_efifb
blit_to_efifb-Inside fb copyin req g columns = elim (Bool-cases (not fb.initialized)) [
  | inl off ↦ rw off tt
  | inr on ↦ elim (Bool-cases (u32 (req.width * (fb.fb_bpp / 8)) == 0 || req.height == 0)) [
    | inl empty ↦ rw (on, empty) tt
    | inr some' ↦
        rw (on, some')
          (blit_loop-Inside fb copyin req (fb.fb_bpp / 8) (u32 (req.width * (fb.fb_bpp / 8)))
            req.height 0 (omega (arith, line_room fb req.dst_x req.width g columns)))
  ]
]

-- The columns are not clipped: a blit of one row to the last line, whose columns pass the end of
-- the line, is carried out and writes behind the end of the framebuffer.
pub blit_to_efifb-overruns :
    (fb : Efifb) (copyin : ℕ → ℕ) (req : BlitReq)
    → fb.initialized ≡ true
    → fb.fb_vaddr ≢ 0
    → fb.fb_height < 2 ^ 32
    → req.height ≡ 1
    → req.dst_y + 1 ≡ fb.fb_height
    → copyin 0 ≡ 0
    → u32 (req.width * (fb.fb_bpp / 8)) ≢ 0
    → fb.fb_stride < u32 (req.dst_x * (fb.fb_bpp / 8)) + u32 (req.width * (fb.fb_bpp / 8))
    → let (err, copies) = blit_to_efifb fb copyin req in
      (err ≡ 0)
      × ((c : RowCopy) × (copies ≡ c ∷ []) × (fb.fb_height * fb.fb_stride < c.dst + c.bytes))
unfolding blit_to_efifb blit_loop write_row dst_row
blit_to_efifb-overruns fb copyin req on mapped small one last readable some' past =
    let b = fb.fb_bpp / 8 in
    let row : u32 (req.dst_y + 0) ≡ req.dst_y = omega arith in
    let up : (not fb.initialized) ≡ false = ground arith in
    let asked : (u32 (req.width * b) == 0 || req.height == 0) ≡ false = ground arith in
    let there : (not fb.initialized || fb.fb_vaddr == 0) ≡ false = ground arith in
    let in_height : leb fb.fb_height req.dst_y ≡ false = ground arith in
    let fine : (not (copyin 0 == 0)) ≡ false = ground arith in
    let high : (req.dst_y + 1) * fb.fb_stride ≡ req.dst_y * fb.fb_stride + fb.fb_stride =
      grind arith in
    let ends : fb.fb_height * fb.fb_stride
        < req.dst_y * fb.fb_stride + u32 (req.dst_x * b) + u32 (req.width * b) =
      rw (← last) (omega arith) in
    let c : RowCopy = record {
      dst = req.dst_y * fb.fb_stride + u32 (req.dst_x * b);
      src = 0 * req.src_stride;
      bytes = u32 (req.width * b);
    } in
    rw (up, asked, one, fine, row, dst_row, there, in_height) (refl, (c, refl, ends))
