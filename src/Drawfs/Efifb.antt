-- ===== src/Drawfs/Efifb.antt =====
-- drawfs_efifb.c, and the blit command of `drawfs_ioctl`. The blits do
-- not use the physical address, the total size and the colour masks, which are left out. A copy into
-- the framebuffer is its offsets in the framebuffer and in the source, and its length.
pub mod Bounds
use awase.Base.{
  ℕ, zero, suc, ◌+◌, ◌-◌, ◌*◌, ◌/◌, List, [], ◌∷◌, Option, none, some, Bool, true, false, not, ◌||◌,
  ltb, leb, ◌==◌, if◌then◌else◌,
}
use awase.Base.Bytes.{u32, u64}
use awase.Drawfs.Session.{einval, enodev}

-- The static structure `drawfs_efifb`.
pub record Efifb : Type 0 where
  pub initialized : Bool
  pub fb_vaddr : ℕ
  pub fb_width : ℕ
  pub fb_height : ℕ
  pub fb_stride : ℕ
  pub fb_bpp : ℕ

pub record RowCopy : Type 0 where
  pub dst : ℕ
  pub src : ℕ
  pub bytes : ℕ

-- The loop of `drawfs_efifb_blit`.
unfoldable pub blit_rows : (fb_stride src_stride copy_bytes h dst src : ℕ) → List RowCopy
blit_rows fb_stride src_stride copy_bytes zero dst src = []
blit_rows fb_stride src_stride copy_bytes (suc h) dst src =
    record { dst = dst; src = src; bytes = copy_bytes }
    ∷ blit_rows fb_stride src_stride copy_bytes h (dst + fb_stride) (src + src_stride)

-- The clipping of an extent `w` at `x` to the framebuffer's `fb_width`; the sum has 32 bits.
unfoldable pub clip : ℕ → ℕ → ℕ → ℕ
clip fb_width x w = if ltb fb_width (u32 (x + w)) then fb_width - x else w

unfoldable pub blit : Efifb → (src_stride x y w h : ℕ) → List RowCopy
blit fb src_stride x y w h =
    if not fb.initialized || fb.fb_vaddr == 0
    then []
    else if leb fb.fb_width x || leb fb.fb_height y
    then []
    else if clip fb.fb_width x w == 0 || clip fb.fb_height y h == 0
    then []
    else blit_rows fb.fb_stride src_stride (u32 (clip fb.fb_width x w * (fb.fb_bpp / 8)))
        (clip fb.fb_height y h) (y * fb.fb_stride + x * (fb.fb_bpp / 8)) 0

pub blit_full : Efifb → ℕ → List RowCopy
blit_full fb src_stride = blit fb src_stride 0 0 fb.fb_width fb.fb_height

unfoldable pub dst_row : Efifb → ℕ → Option ℕ
dst_row fb row =
    if not fb.initialized || fb.fb_vaddr == 0
    then none
    else if leb fb.fb_height row
    then none
    else some (row * fb.fb_stride)

-- struct drawfs_blit_to_efifb, without the pointer.
pub record BlitReq : Type 0 where
  pub src_stride : ℕ
  pub width : ℕ
  pub height : ℕ
  pub dst_x : ℕ
  pub dst_y : ℕ

-- A row that is there is written.
unfoldable pub write_row : Option ℕ → (x_bytes src copy_bytes : ℕ) → List RowCopy → List RowCopy
write_row none x_bytes src copy_bytes rest = rest
write_row (some dst) x_bytes src copy_bytes rest =
    record { dst = dst + x_bytes; src = src; bytes = copy_bytes } ∷ rest

-- The loop of DRAWFSGIOC_BLIT_TO_EFIFB over the rows that are left, from `row` on. `copyin` is the
-- error of copying a row from user memory.
unfoldable pub blit_loop :
    Efifb → (ℕ → ℕ) → BlitReq → (bpp_bytes copy_bytes left row : ℕ) → ℕ × List RowCopy
blit_loop fb copyin req bpp_bytes copy_bytes zero row = (0, [])
blit_loop fb copyin req bpp_bytes copy_bytes (suc left) row =
    let (err, rest) = blit_loop fb copyin req bpp_bytes copy_bytes left (row + 1) in
    if not (copyin row == 0) then (copyin row, []) else (
      err,
      write_row (dst_row fb (u32 (req.dst_y + row))) (u32 (req.dst_x * bpp_bytes))
          (row * req.src_stride) copy_bytes rest,
    )

-- DRAWFSGIOC_BLIT_TO_EFIFB
unfoldable pub blit_to_efifb : Efifb → (ℕ → ℕ) → BlitReq → ℕ × List RowCopy
blit_to_efifb fb copyin req =
    if not fb.initialized
    then (enodev, [])
    else if u32 (req.width * (fb.fb_bpp / 8)) == 0 || req.height == 0
    then (einval, [])
    else blit_loop fb copyin req (fb.fb_bpp / 8) (u32 (req.width * (fb.fb_bpp / 8))) req.height 0
