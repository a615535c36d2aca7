-- ===== src/Qvio/Format.antt =====
-- The V4L2 structures that qvio keeps and fills in: what modules/qvio/queue.h and
-- modules/qvio/video.h hold, and the arguments of their handlers.
use v4l2_tuto.Prelude.{ℕ, ◌≡◌, refl, Bool, true, false, ◌==◌, ◌↔◌, arith}

-- `V4L2_PIX_FMT_*`: the three formats that the driver knows, and any other code.
pub data PixelFormat : Type 0 where
  yuyv nv12 m420 : PixelFormat
  fourcc : ℕ → PixelFormat

-- `enum v4l2_buf_type`: the four that the driver knows, and any other code. 0 is no type.
pub data BufType : Type 0 where
  video_capture video_output video_capture_mplane video_output_mplane : BufType
  buf_type : ℕ → BufType

abbrev pub same_type : BufType → BufType → Bool
same_type video_capture video_capture = true
same_type video_output video_output = true
same_type video_capture_mplane video_capture_mplane = true
same_type video_output_mplane video_output_mplane = true
same_type (buf_type a) (buf_type b) = a == b
same_type _ _ = false

pub data Field : Type 0 where
  field_any field_none : Field
  field_other : ℕ → Field

-- `struct v4l2_plane_pix_format`.
pub record PlaneFormat : Type 0 where
  pub bytesperline : ℕ
  pub sizeimage : ℕ

-- `struct v4l2_format`. Both views of its union begin with width, height and pixelformat, which
-- stand here once. `bytesperline` and `sizeimage` are those of `fmt.pix`; the last three fields are
-- those of `fmt.pix_mp`, of whose `plane_fmt` the driver uses the first two entries.
pub record Format : Type 0 where
  pub type : BufType
  pub width : ℕ
  pub height : ℕ
  pub pixelformat : PixelFormat
  pub bytesperline : ℕ
  pub sizeimage : ℕ
  pub num_planes : ℕ
  pub plane_fmt0 : PlaneFormat
  pub plane_fmt1 : PlaneFormat

pub same_type_iff : (a b : BufType) → (same_type a b ≡ true) ↔ (a ≡ b)
same_type_iff video_capture b = ground arith
same_type_iff video_output b = ground arith
same_type_iff video_capture_mplane b = ground arith
same_type_iff video_output_mplane b = ground arith
same_type_iff (buf_type n) b = ground arith

pub same_type_self : (a : BufType) → same_type a a ≡ true
same_type_self a = (same_type_iff a a).1 refl
