-- ===== src/Drawfs/Frame.antt =====
-- drawfs_frame.c: checking a frame's header, checking the payload of SURFACE_PRESENT_REGION, and
-- building a frame around one message. `x & 3u` on a word is written `x % 4`.
pub mod Headers
pub mod Building
pub mod Region
use awase.Base.{
  ℕ, zero, suc, ◌+◌, ◌*◌, ◌%◌, List, ◌||◌, Bool, true, false, ltb, ◌==◌, not, if◌then◌else◌, length,
  drop, replicate, blit,
}
use awase.Base.Bytes.{u32, align4}
use awase.Drawfs.Proto.{
  FrameHdr, MsgHdr, Rect, PresentRegionReq, magic, version, frame_hdr_size, msg_hdr_size, rect_size,
  present_region_req_size, max_present_rects, read_frame_hdr, write_frame_hdr, write_msg_hdr,
  read_rect, read_present_region_req, err_invalid_frame, err_invalid_msg, err_unsupported_version,
  err_unsupported_cap, err_invalid_arg, err_overflow,
}

-- What `drawfs_frame_validate` reports: DRAWFS_ERR_OK with the header, or a code and an offset.
pub data FrameCheck : Type 0 where
  valid : FrameHdr → FrameCheck
  invalid : (code err_offset : ℕ) → FrameCheck

check_frame_hdr : FrameHdr → ℕ → FrameCheck
check_frame_hdr fh n =
    if not (fh.magic == magic)
    then invalid err_invalid_frame 0
    else if not (fh.version == version)
    then invalid err_unsupported_version 4
    else if not (fh.header_bytes == frame_hdr_size)
    then invalid err_invalid_frame 6
    else if ltb fh.frame_bytes fh.header_bytes
    then invalid err_invalid_frame 8
    else if ltb n fh.frame_bytes
    then invalid err_invalid_frame 8
    else if not (fh.frame_bytes % 4 == 0)
    then invalid err_invalid_frame 8
    else valid fh

unfoldable pub frame_validate : List ℕ → ℕ → FrameCheck
unfolding check_frame_hdr
frame_validate buf n =
    if ltb n frame_hdr_size
    then invalid err_invalid_frame 0
    else check_frame_hdr (read_frame_hdr buf) n

-- What the validator of SURFACE_PRESENT_REGION reports: the request, the bytes at `*out_rects` and
-- the number of rectangles, or a code.
pub data RegionCheck : Type 0 where
  accepted : (req : PresentRegionReq) → (rects : List ℕ) → (rect_count : ℕ) → RegionCheck
  rejected : (code : ℕ) → RegionCheck

-- `rects[i]`
unfoldable pub rect_at : List ℕ → ℕ → Rect
rect_at rects i = read_rect (drop (i * rect_size) rects)

unfoldable pub is_empty_rect : Rect → Bool
is_empty_rect r = r.width == 0 || r.height == 0

-- The loop over the rectangles from index `i` on, with `k` left: whether it finds an empty one.
unfoldable pub has_empty_rect : List ℕ → ℕ → ℕ → Bool
unfolding is_empty_rect
has_empty_rect rects i zero = false
has_empty_rect rects i (suc k) =
    let rest = has_empty_rect rects (i + 1) k in
    if is_empty_rect (rect_at rects i) then true else rest

unfoldable pub check_region_req : List ℕ → ℕ → PresentRegionReq → RegionCheck
check_region_req payload payload_len req =
    if not (req.reserved == 0)
    then rejected err_invalid_msg
    else if not (req.flags == 0)
    then rejected err_unsupported_cap
    else if req.rect_count == 0
    then rejected err_invalid_arg
    else if ltb max_present_rects req.rect_count
    then rejected err_overflow
    else if ltb payload_len (present_region_req_size + req.rect_count * rect_size)
    then rejected err_invalid_frame
    else if has_empty_rect rects 0 req.rect_count
    then rejected err_invalid_arg
    else accepted req rects req.rect_count
  where
    rects : List ℕ
    rects = drop present_region_req_size payload

unfoldable pub surface_present_region_validate : List ℕ → ℕ → RegionCheck
unfolding check_region_req
surface_present_region_validate payload payload_len =
    if ltb payload_len present_region_req_size
    then rejected err_invalid_frame
    else check_region_req payload payload_len (read_present_region_req payload)

-- The sizes that `drawfs_frame_build` computes, and the two headers that it fills in.
unfoldable pub build_msg_bytes : ℕ → ℕ
build_msg_bytes payload_len = u32 (msg_hdr_size + payload_len)

unfoldable pub build_frame_bytes : ℕ → ℕ
unfolding build_msg_bytes
build_frame_bytes payload_len = u32 (frame_hdr_size + align4 (build_msg_bytes payload_len))

unfoldable pub build_frame_hdr : ℕ → ℕ → FrameHdr
build_frame_hdr frame_id frame_bytes = record {
  magic = magic;
  version = version;
  header_bytes = frame_hdr_size;
  frame_bytes = frame_bytes;
  frame_id = frame_id;
}

unfoldable pub build_msg_hdr : ℕ → ℕ → ℕ → MsgHdr
build_msg_hdr msg_type msg_id msg_bytes = record {
  msg_type = msg_type;
  msg_flags = 0;
  msg_bytes = msg_bytes;
  msg_id = msg_id;
  reserved = 0;
}

-- The frame in the zeroed memory that `malloc` hands out, with the three `memcpy`. The length is
-- the `*out_len`. A sleeping `malloc` does not fail, so the branch on NULL is not taken.
unfoldable pub frame_build : ℕ → ℕ → ℕ → List ℕ → List ℕ × ℕ
unfolding build_frame_hdr build_msg_hdr
frame_build frame_id msg_type msg_id payload =
    let frame_bytes = build_frame_bytes (length payload) in
    let mh = build_msg_hdr msg_type msg_id (build_msg_bytes (length payload)) in
    let out = replicate frame_bytes 0 in
    let out1 = blit out 0 (write_frame_hdr (build_frame_hdr frame_id frame_bytes)) in
    let out2 = blit out1 frame_hdr_size (write_msg_hdr mh) in
    (blit out2 (frame_hdr_size + msg_hdr_size) payload, frame_bytes)
