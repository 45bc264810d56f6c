-- ===== src/Drawfs/Tests/Framebuffers.antt =====
-- A framebuffer of 1024 by 768 pixels of 32 bits.
use awase.Base.{arith, All, true}
use awase.Drawfs.Efifb.{Efifb, BlitReq, blit_to_efifb}
use awase.Drawfs.Efifb.Bounds.{Geometry, Inside, blit_to_efifb-Inside}

abbrev screen : Efifb
screen = record {
  initialized = true;
  fb_vaddr = 4096;
  fb_width = 1024;
  fb_height = 768;
  fb_stride = 4096;
  fb_bpp = 32;
}

screen-Geometry : Geometry screen
screen-Geometry = omega arith

abbrev whole_rows : BlitReq
whole_rows = record { src_stride = 4096; width = 1024; height = 900; dst_x = 0; dst_y = 0 }

blit_to_efifb-Inside_example : All (Inside screen) (blit_to_efifb screen (λ row. 0) whole_rows).1
blit_to_efifb-Inside_example =
    blit_to_efifb-Inside screen (λ row. 0) whole_rows screen-Geometry (omega arith)

-- One pixel to the right of the line's start.
abbrev last_row : BlitReq
last_row = record { src_stride = 4096; width = 1024; height = 1; dst_x = 1; dst_y = 767 }
