-- ===== src/Qvio/Video/Handlers.antt =====
-- The other handlers of modules/qvio/video.c. Each writes the caller's structure and returns a code;
-- `qvio_ioctl_ops` passes them on as they are.
use Prim.Native.String.{String}
use v4l2_tuto.Prelude.{ℕ, zero, suc, Bool, true, not, ◌==◌, ◌&&◌, if◌then◌else◌}
use v4l2_tuto.Kernel.{einval, Ret, neg, success}
use v4l2_tuto.Qvio.Format.{PixelFormat, yuyv, nv12, m420, BufType, same_type}
use v4l2_tuto.Qvio.Video.{is_rx, is_tx, StreamParm, Video}
use v4l2_tuto.Qvio.Video.Formats.{known_format}

-- `struct v4l2_fmtdesc`.
pub record FmtDesc : Type 0 where
  pub index : ℕ
  pub type : BufType
  pub flags : ℕ
  pub description : String
  pub pixelformat : PixelFormat

enum_index : ℕ → FmtDesc → FmtDesc × Ret
enum_index zero d = (record d { flags = 0; description = "YUYV"; pixelformat = yuyv }, success)
enum_index (suc zero) d =
    (record d { flags = 0; description = "NV12"; pixelformat = nv12 }, success)
enum_index (suc (suc zero)) d =
    (record d { flags = 0; description = "M420"; pixelformat = m420 }, success)
enum_index (suc (suc (suc n))) d = (d, neg einval)

-- `qvio_video_enum_fmt`.
unfoldable pub enum_fmt : Video → FmtDesc → FmtDesc × Ret
unfolding enum_index
enum_fmt v d =
    if not (same_type d.type v.buffer_type) then (d, neg einval) else enum_index d.index d

-- `V4L2_INPUT_TYPE_CAMERA` and `V4L2_OUTPUT_TYPE_ANALOG`, and what the caller had there.
pub data PortType : Type 0 where
  camera analog : PortType
  port_type : ℕ → PortType

-- `struct v4l2_input`.
pub record Input : Type 0 where
  pub index : ℕ
  pub name : String
  pub type : PortType
  pub audioset : ℕ
  pub tuner : ℕ
  pub std : ℕ
  pub status : ℕ
  pub capabilities : ℕ

-- `struct v4l2_output`.
pub record Output : Type 0 where
  pub index : ℕ
  pub name : String
  pub type : PortType
  pub audioset : ℕ
  pub modulator : ℕ
  pub std : ℕ
  pub capabilities : ℕ

-- `qvio_video_enum_input`.
unfoldable pub enum_input : Video → Input → Input × Ret
enum_input v p =
    if not (is_rx v.vfl_dir)
    then (p, neg einval)
    else if p.index == 0
    then (
      record p {
        name = "qvio-input";
        type = camera;
        audioset = 0;
        tuner = 0;
        std = 0;
        status = 0;
        capabilities = 0;
      },
      success,
    )
    else (p, neg einval)

-- `qvio_video_g_input`.
unfoldable pub g_input : Video → ℕ → ℕ × Ret
g_input v i = if not (is_rx v.vfl_dir) then (i, neg einval) else (v.current_inout, success)

-- `qvio_video_s_input`.
unfoldable pub s_input : Video → ℕ → Video × Ret
s_input v i =
    if not (is_rx v.vfl_dir)
    then (v, neg einval)
    else if i == 0
    then (record v { current_inout = i }, success)
    else (v, neg einval)

-- `qvio_video_enum_output`. On success it returns its local `err`, which nothing has set: what that
-- holds is the argument `unset`.
unfoldable pub enum_output : (unset : Ret) → Video → Output → Output × Ret
enum_output unset v p =
    if not (is_tx v.vfl_dir)
    then (p, neg einval)
    else if p.index == 0
    then (
      record p {
        name = "qvio-output";
        type = analog;
        audioset = 0;
        modulator = 0;
        std = 0;
        capabilities = 0;
      },
      unset,
    )
    else (p, neg einval)

-- `qvio_video_g_output`.
unfoldable pub g_output : Video → ℕ → ℕ × Ret
g_output v i = if not (is_tx v.vfl_dir) then (i, neg einval) else (v.current_inout, success)

-- `qvio_video_s_output`.
unfoldable pub s_output : Video → ℕ → Video × Ret
s_output v i =
    if not (is_tx v.vfl_dir)
    then (v, neg einval)
    else if i == 0
    then (record v { current_inout = i }, success)
    else (v, neg einval)

-- `qvio_video_g_parm`.
unfoldable pub g_parm : Video → StreamParm → StreamParm × Ret
g_parm v p =
    if not (same_type p.type v.buffer_type) then (p, neg einval) else (v.current_parm, success)

-- `qvio_video_s_parm`.
unfoldable pub s_parm : Video → StreamParm → Video × Ret
s_parm v p =
    if not (same_type p.type v.buffer_type)
    then (v, neg einval)
    else (record v { current_parm = p }, success)

-- `struct v4l2_frmsizeenum` with its stepwise view.
pub record FrameSizes : Type 0 where
  pub index : ℕ
  pub pixel_format : PixelFormat
  pub is_stepwise : Bool
  pub min_width : ℕ
  pub max_width : ℕ
  pub step_width : ℕ
  pub min_height : ℕ
  pub max_height : ℕ
  pub step_height : ℕ

-- `qvio_video_enum_framesizes`.
unfoldable pub enum_framesizes : FrameSizes → FrameSizes × Ret
enum_framesizes s = if not (s.index == 0 && known_format s.pixel_format) then (s, neg einval) else (
  record s {
    is_stepwise = true;
    min_width = 64;
    max_width = 4096;
    step_width = 8;
    min_height = 64;
    max_height = 4096;
    step_height = 8;
  },
  success,
)

-- `struct v4l2_frmivalenum` with its discrete view.
pub record FrameIntervals : Type 0 where
  pub index : ℕ
  pub pixel_format : PixelFormat
  pub is_discrete : Bool
  pub numerator : ℕ
  pub denominator : ℕ

-- `qvio_video_enum_frameintervals`.
unfoldable pub enum_frameintervals : FrameIntervals → FrameIntervals × Ret
enum_frameintervals s =
    if not (s.index == 0 && known_format s.pixel_format)
    then (s, neg einval)
    else (record s { is_discrete = true; numerator = 1; denominator = 60 }, success)
