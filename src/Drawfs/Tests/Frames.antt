-- ===== src/Drawfs/Tests/Frames.antt =====
-- Frames: a hello request on the wire, and a present request with one rectangle.
use awase.Base.{ℕ, ◌≡◌, ◌↔◌, refl, List, [], ◌∷◌, arith, drop}
use awase.Drawfs.Proto.{
  FrameHdr, PresentRegionReq, read_frame_hdr, read_present_region_req, read_rect,
}
use awase.Drawfs.Frame.{
  valid, invalid, accepted, frame_validate, frame_build, surface_present_region_validate,
  has_empty_rect, check_region_req, is_empty_rect, build_frame_hdr, build_frame_bytes, rect_at,
}
use awase.Drawfs.Frame.Headers.{IsFrame, frame_validate-IsFrame}
use awase.Drawfs.Frame.Building.{frame_validate-build}
use awase.Drawfs.Frame.Region.{IsRegionReq, surface_present_region_validate-IsRegionReq}

abbrev hello_hdr : FrameHdr
hello_hdr = record {
  magic = 0x31575244;
  version = 0x0100;
  header_bytes = 16;
  frame_bytes = 16;
  frame_id = 7;
}

abbrev hello_bytes : List ℕ
hello_bytes = 0x44 ∷ 0x52 ∷ 0x57 ∷ 0x31 ∷ 0 ∷ 1 ∷ 16 ∷ 0 ∷ 16 ∷ 0 ∷ 0 ∷ 0 ∷ 7 ∷ 0 ∷ 0 ∷ 0 ∷ []

validates_hello : frame_validate hello_bytes 16 ≡ valid hello_hdr
unfolding frame_validate read_frame_hdr
validates_hello = refl

rejects_short : frame_validate hello_bytes 15 ≡ invalid 1 0
unfolding frame_validate
rejects_short = refl

frame_validate-IsFrame_example :
    (frame_validate hello_bytes 16 ≡ valid hello_hdr)
    ↔ ((read_frame_hdr hello_bytes ≡ hello_hdr) × IsFrame hello_hdr 16)
frame_validate-IsFrame_example = frame_validate-IsFrame hello_bytes 16 hello_hdr

frame_validate-build_example :
    let (frame, n) = frame_build 1 0x8001 9 (1 ∷ 2 ∷ 3 ∷ []) in
    frame_validate frame n ≡ valid (build_frame_hdr 1 (build_frame_bytes 3))
frame_validate-build_example =
    frame_validate-build 1 0x8001 9 (1 ∷ 2 ∷ 3 ∷ []) (omega arith) (omega arith)

abbrev region_rects : List ℕ
region_rects = 5 ∷ 0 ∷ 0 ∷ 0 ∷ 6 ∷ 0 ∷ 0 ∷ 0 ∷ 7 ∷ 0 ∷ 0 ∷ 0 ∷ 8 ∷ 0 ∷ 0 ∷ 0 ∷ []

abbrev region_payload : List ℕ
region_payload =
    3 ∷ 0 ∷ 0 ∷ 0 ∷ 0 ∷ 0 ∷ 0 ∷ 0 ∷ 9 ∷ 0 ∷ 0 ∷ 0 ∷ 0 ∷ 0 ∷ 0 ∷ 0 ∷ 1 ∷ 0 ∷ 0 ∷ 0 ∷ 0 ∷ 0 ∷ 0 ∷ 0
    ∷ region_rects

abbrev region_req : PresentRegionReq
region_req = record { surface_id = 3; flags = 0; cookie = 9; rect_count = 1; reserved = 0 }

accepts_region :
    surface_present_region_validate region_payload 40 ≡ accepted region_req region_rects 1
unfolding surface_present_region_validate check_region_req is_empty_rect read_present_region_req
    rect_at has_empty_rect read_rect
accepts_region = refl

surface_present_region_validate-IsRegionReq_example :
    (surface_present_region_validate region_payload 40 ≡ accepted region_req region_rects 1) ↔ (
      (read_present_region_req region_payload ≡ region_req)
      × (drop 24 region_payload ≡ region_rects)
      × (region_req.rect_count ≡ 1)
      × IsRegionReq region_req region_rects 40)
surface_present_region_validate-IsRegionReq_example =
    surface_present_region_validate-IsRegionReq region_payload 40 region_req region_rects 1
