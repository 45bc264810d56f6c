-- ===== src/Drawfs/Frame/Headers.antt =====
-- Which frames `drawfs_frame_validate` of drawfs_frame.c lets through.
use awase.Base.{ℕ, ◌%◌, ◌≤◌, ◌≡◌, ◌↔◌, List, arith}
use awase.Drawfs.Proto.{FrameHdr, magic, version, frame_hdr_size, read_frame_hdr}
use awase.Drawfs.Frame.{valid, frame_validate}

-- A frame that may be taken apart by its header, in a buffer of `n` bytes.
pub record IsFrame (fh : FrameHdr) (n : ℕ) : Type 0 where
  pub room : frame_hdr_size ≤ n
  pub is_magic : fh.magic ≡ magic
  pub is_version : fh.version ≡ version
  pub is_header : fh.header_bytes ≡ frame_hdr_size
  pub holds_header : frame_hdr_size ≤ fh.frame_bytes
  pub within : fh.frame_bytes ≤ n
  pub aligned : fh.frame_bytes % 4 ≡ 0

-- The validator lets a buffer through exactly when its first 16 bytes are the header of a frame
-- that fits into it, and hands out that header.
pub frame_validate-IsFrame :
    (buf : List ℕ) (n : ℕ) (fh : FrameHdr)
    → (frame_validate buf n ≡ valid fh) ↔ ((read_frame_hdr buf ≡ fh) × IsFrame fh n)
unfolding frame_validate
frame_validate-IsFrame buf n fh = (λ e. sound e, λ h. complete h)
  where
    sound : frame_validate buf n ≡ valid fh → (read_frame_hdr buf ≡ fh) × IsFrame fh n
    sound e = ground arith

    complete : (read_frame_hdr buf ≡ fh) × IsFrame fh n → frame_validate buf n ≡ valid fh
    complete h = ground arith
