-- ===== src/Drawfs/Proto.antt =====
-- The wire format: drawfs_proto.h and the limits of drawfs.h. A structure is a record of the
-- unsigned values of its fields, read from memory at its offsets and written field by field.
-- The `drawfs_align4` of this header is `Base.Bytes.align4`.
use awase.Base.{ℕ, ◌*◌, ◌^◌, ◌<◌, ◌≡◌, List, ◌++◌, arith}
use awase.Base.Bytes.{put_le, get_u16, get_u32, get_u64}

-- drawfs.h
abbrev pub max_frame_bytes : ℕ
max_frame_bytes = 1024 * 1024

abbrev pub max_event_bytes : ℕ
max_event_bytes = 64 * 1024

abbrev pub max_msg_bytes : ℕ
max_msg_bytes = 512 * 1024

-- drawfs_proto.h
abbrev pub magic : ℕ
magic = 0x31575244

abbrev pub version : ℕ
version = 0x0100

pub record FrameHdr : Type 0 where
  pub magic : ℕ
  pub version : ℕ
  pub header_bytes : ℕ
  pub frame_bytes : ℕ
  pub frame_id : ℕ

pub record MsgHdr : Type 0 where
  pub msg_type : ℕ
  pub msg_flags : ℕ
  pub msg_bytes : ℕ
  pub msg_id : ℕ
  pub reserved : ℕ

-- `sizeof` of the packed structures.
abbrev pub frame_hdr_size : ℕ
frame_hdr_size = 16

abbrev pub msg_hdr_size : ℕ
msg_hdr_size = 16

unfoldable pub read_frame_hdr : List ℕ → FrameHdr
unfolding get_u16 get_u32
read_frame_hdr buf = record {
  magic = get_u32 buf 0;
  version = get_u16 buf 4;
  header_bytes = get_u16 buf 6;
  frame_bytes = get_u32 buf 8;
  frame_id = get_u32 buf 12;
}

unfoldable pub write_frame_hdr : FrameHdr → List ℕ
unfolding put_le
write_frame_hdr h =
    put_le 4 h.magic
    ++ (put_le 2 h.version
        ++ (put_le 2 h.header_bytes ++ (put_le 4 h.frame_bytes ++ put_le 4 h.frame_id)))

unfoldable pub read_msg_hdr : List ℕ → MsgHdr
unfolding get_u16 get_u32
read_msg_hdr buf = record {
  msg_type = get_u16 buf 0;
  msg_flags = get_u16 buf 2;
  msg_bytes = get_u32 buf 4;
  msg_id = get_u32 buf 8;
  reserved = get_u32 buf 12;
}

unfoldable pub write_msg_hdr : MsgHdr → List ℕ
unfolding put_le
write_msg_hdr h =
    put_le 2 h.msg_type
    ++ (put_le 2 h.msg_flags
        ++ (put_le 4 h.msg_bytes ++ (put_le 4 h.msg_id ++ put_le 4 h.reserved)))

-- enum drawfs_msg_type and enum drawfs_event_type
abbrev pub rpl_hello : ℕ
rpl_hello = 0x8001

abbrev pub rpl_display_list : ℕ
rpl_display_list = 0x8010

abbrev pub rpl_display_open : ℕ
rpl_display_open = 0x8011

abbrev pub rpl_surface_create : ℕ
rpl_surface_create = 0x8020

abbrev pub rpl_surface_destroy : ℕ
rpl_surface_destroy = 0x8021

abbrev pub rpl_surface_present : ℕ
rpl_surface_present = 0x8022

abbrev pub rpl_error : ℕ
rpl_error = 0x8fff

abbrev pub req_hello : ℕ
req_hello = 0x0001

abbrev pub req_display_list : ℕ
req_display_list = 0x0010

abbrev pub req_display_open : ℕ
req_display_open = 0x0011

abbrev pub req_surface_create : ℕ
req_surface_create = 0x0020

abbrev pub req_surface_destroy : ℕ
req_surface_destroy = 0x0021

abbrev pub req_surface_present : ℕ
req_surface_present = 0x0022

abbrev pub req_surface_present_region : ℕ
req_surface_present_region = 0x0023

abbrev pub evt_surface_presented : ℕ
evt_surface_presented = 0x9002

abbrev pub evt_key : ℕ
evt_key = 0x9010

abbrev pub evt_pointer : ℕ
evt_pointer = 0x9011

abbrev pub evt_scroll : ℕ
evt_scroll = 0x9012

abbrev pub evt_touch : ℕ
evt_touch = 0x9013

-- enum drawfs_err_code, and enum drawfs_pixel_format
abbrev pub err_invalid_frame : ℕ
err_invalid_frame = 1

abbrev pub err_invalid_msg : ℕ
err_invalid_msg = 2

abbrev pub err_unsupported_version : ℕ
err_unsupported_version = 3

abbrev pub err_unsupported_cap : ℕ
err_unsupported_cap = 4

abbrev pub err_invalid_arg : ℕ
err_invalid_arg = 11

abbrev pub err_overflow : ℕ
err_overflow = 12

abbrev pub fmt_xrgb8888 : ℕ
fmt_xrgb8888 = 1

abbrev pub max_present_rects : ℕ
max_present_rects = 16

-- struct drawfs_rect; the coordinates are kept as the bit patterns of the `int32_t`.
pub record Rect : Type 0 where
  pub x : ℕ
  pub y : ℕ
  pub width : ℕ
  pub height : ℕ

abbrev pub rect_size : ℕ
rect_size = 16

unfoldable pub read_rect : List ℕ → Rect
unfolding get_u32
read_rect buf = record {
  x = get_u32 buf 0;
  y = get_u32 buf 4;
  width = get_u32 buf 8;
  height = get_u32 buf 12;
}

-- struct drawfs_req_surface_present_region, without its rectangles
pub record PresentRegionReq : Type 0 where
  pub surface_id : ℕ
  pub flags : ℕ
  pub cookie : ℕ
  pub rect_count : ℕ
  pub reserved : ℕ

abbrev pub present_region_req_size : ℕ
present_region_req_size = 24

unfoldable pub read_present_region_req : List ℕ → PresentRegionReq
unfolding get_u32 get_u64
read_present_region_req buf = record {
  surface_id = get_u32 buf 0;
  flags = get_u32 buf 4;
  cookie = get_u64 buf 8;
  rect_count = get_u32 buf 16;
  reserved = get_u32 buf 20;
}

-- The ranges of the fields of the two headers.
pub record FrameHdrFits (h : FrameHdr) : Type 0 where
  pub magic_u32 : h.magic < 2 ^ 32
  pub version_u16 : h.version < 2 ^ 16
  pub header_bytes_u16 : h.header_bytes < 2 ^ 16
  pub frame_bytes_u32 : h.frame_bytes < 2 ^ 32
  pub frame_id_u32 : h.frame_id < 2 ^ 32

pub record MsgHdrFits (h : MsgHdr) : Type 0 where
  pub msg_type_u16 : h.msg_type < 2 ^ 16
  pub msg_flags_u16 : h.msg_flags < 2 ^ 16
  pub msg_bytes_u32 : h.msg_bytes < 2 ^ 32
  pub msg_id_u32 : h.msg_id < 2 ^ 32
  pub reserved_u32 : h.reserved < 2 ^ 32

-- A header reads back as it was written.
pub read_frame_hdr-write :
    (h : FrameHdr) (rest : List ℕ) → FrameHdrFits h → read_frame_hdr (write_frame_hdr h ++ rest) ≡ h
unfolding read_frame_hdr write_frame_hdr
read_frame_hdr-write h rest f = ground arith

pub read_msg_hdr-write :
    (h : MsgHdr) (rest : List ℕ) → MsgHdrFits h → read_msg_hdr (write_msg_hdr h ++ rest) ≡ h
unfolding read_msg_hdr write_msg_hdr
read_msg_hdr-write h rest f = ground arith
