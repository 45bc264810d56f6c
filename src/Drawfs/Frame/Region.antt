-- ===== src/Drawfs/Frame/Region.antt =====
-- Which payloads of SURFACE_PRESENT_REGION the validator of drawfs_frame.c accepts.
use awase.Base.{ℕ, zero, suc, ◌+◌, ◌*◌, ◌≤◌, ◌<◌, ◌≡◌, refl, ◌≢◌, ◌↔◌, List, arith, false, drop}
use native.Mathlib.Decide.{dec_lt}
use awase.Drawfs.Proto.{PresentRegionReq, read_present_region_req}
use awase.Drawfs.Frame.{accepted, rect_at, has_empty_rect, surface_present_region_validate}

-- The loop finds an empty rectangle exactly when there is one in its range.
has_empty_rect-false :
    (rects : List ℕ) (i k : ℕ)
    → has_empty_rect rects i k ≡ false
    → (j : ℕ) → i ≤ j
    → j < i + k
    → ((rect_at rects j).width ≢ 0) × ((rect_at rects j).height ≢ 0)
unfolding has_empty_rect
has_empty_rect-false rects i zero e j lo hi = absurd (omega arith)
has_empty_rect-false rects i (suc k) e j lo hi = elim (dec_lt i j) [
  | yes p ↦ has_empty_rect-false rects (i + 1) k (ground arith) j (omega arith) (omega arith)
  | no p ↦ let here : i ≡ j = omega arith in rw (← here) (ground arith)
]

has_empty_rect-none :
    (rects : List ℕ) (i k : ℕ)
    → ((j : ℕ) → i ≤ j → j < i + k → ((rect_at rects j).width ≢ 0) × ((rect_at rects j).height ≢ 0))
    → has_empty_rect rects i k ≡ false
unfolding has_empty_rect
has_empty_rect-none rects i zero h = refl
has_empty_rect-none rects i (suc k) h = ground (
  arith,
  h i (omega arith) (omega arith),
  has_empty_rect-none rects (i + 1) k (λ j lo hi. h j (omega arith) (omega arith)),
)

-- A well-formed request in a payload of `n` bytes.
pub record IsRegionReq (req : PresentRegionReq) (rects : List ℕ) (n : ℕ) : Type 0 where
  pub reserved_zero : req.reserved ≡ 0
  pub flags_zero : req.flags ≡ 0
  pub some_rects : 1 ≤ req.rect_count
  pub few_rects : req.rect_count ≤ 16
  pub complete : 24 + req.rect_count * 16 ≤ n
  pub not_empty :
      (i : ℕ) → i < req.rect_count → ((rect_at rects i).width ≢ 0) × ((rect_at rects i).height ≢ 0)

-- The validator accepts a payload exactly when it holds a well-formed request: reserved and flag
-- bits zero, 1 to 16 rectangles that are all in the payload, and none of them empty. It hands out
-- the request as it stands in the payload, the bytes behind it, and the number of rectangles.
pub surface_present_region_validate-IsRegionReq :
    (payload : List ℕ) (n : ℕ) (req : PresentRegionReq) (rects : List ℕ) (count : ℕ)
    → (surface_present_region_validate payload n ≡ accepted req rects count) ↔ (
        (read_present_region_req payload ≡ req)
        × (drop 24 payload ≡ rects)
        × (req.rect_count ≡ count)
        × IsRegionReq req rects n)
unfolding surface_present_region_validate
surface_present_region_validate-IsRegionReq payload n req rects count = (sound, complete)
  where
    sound :
        surface_present_region_validate payload n ≡ accepted req rects count
        → (read_present_region_req payload ≡ req)
          × (drop 24 payload ≡ rects)
          × (req.rect_count ≡ count)
          × IsRegionReq req rects n
    sound e = (
      ground arith,
      ground arith,
      ground arith,
      record {
        reserved_zero = ground arith;
        flags_zero = ground arith;
        some_rects = ground arith;
        few_rects = ground arith;
        complete = ground arith;
        not_empty = λ i h.
            has_empty_rect-false rects 0 req.rect_count (ground arith) i (omega arith)
              (omega arith);
      },
    )

    complete :
        (read_present_region_req payload ≡ req)
          × (drop 24 payload ≡ rects)
          × (req.rect_count ≡ count)
          × IsRegionReq req rects n
        → surface_present_region_validate payload n ≡ accepted req rects count
    complete h = ground (
      arith,
      has_empty_rect-none rects 0 req.rect_count (λ j lo hi. h.3.not_empty j (omega arith)),
    )
