-- ===== src/Qvio/Video.antt =====
-- modules/qvio/video.h and `qvio_video_new` of modules/qvio/video.c: the state of the video device.
-- The outcomes of the kernel's calls are arguments.
pub mod Start
pub mod Formats
pub mod Handlers
pub mod Negotiate
pub mod Lifecycle
pub mod Enumerate
use Prim.Native.String.{String}
use v4l2_tuto.Prelude.{
  ℕ, zero, suc, ◌+◌, ◌*◌, ◌/◌, ◌%◌, Bool, true, false, not, ◌==◌, Option, none, some, List, [], ◌∷◌,
  u32, if◌then◌else◌,
}
use v4l2_tuto.Kernel.{Errno, einval, Ret, neg, success, is_set, Align, align}
use v4l2_tuto.Qvio.Format.{
  PixelFormat, yuyv, nv12, m420, fourcc, BufType, video_capture, video_output, video_capture_mplane,
  video_output_mplane, buf_type, same_type, PlaneFormat, Format,
}
use v4l2_tuto.Qvio.Queue.{Queue, queue_start, queue_stop, queue_s_fmt}
use v4l2_tuto.Qvio.UserJob.{Ctrl, user_job_start, user_job_s_fmt}

-- `VFL_DIR_RX`, `VFL_DIR_TX`, `VFL_DIR_M2M`.
pub data Direction : Type 0 where
  rx tx m2m : Direction

abbrev pub is_rx : Direction → Bool
is_rx rx = true
is_rx tx = false
is_rx m2m = false

abbrev pub is_tx : Direction → Bool
is_tx tx = true
is_tx rx = false
is_tx m2m = false

-- `struct v4l2_streamparm`, as far as the driver sets it.
pub record StreamParm : Type 0 where
  pub type : BufType
  pub timeperframe_capability : Bool
  pub capturemode : ℕ
  pub numerator : ℕ
  pub denominator : ℕ

-- What the device holds of the V4L2 core: a registered `v4l2_device`, an allocated `video_device`,
-- and its registered node.
pub record Registration : Type 0 where
  pub v4l2_dev : Bool
  pub vdev : Bool
  pub node : Bool

-- `struct qvio_video`. `capture_caps` says whether `device_caps` is capture and streaming.
pub record Video : Type 0 where
  pub queue : Queue
  pub vfl_dir : Direction
  pub bus_info : String
  pub capture_caps : Bool
  pub buffer_type : BufType
  pub halign : ℕ
  pub valign : ℕ
  pub current_format : Format
  pub current_inout : ℕ
  pub current_parm : StreamParm
  pub user_job_ctrl : Ctrl
  pub registration : Registration

-- What `kzalloc` clears.
abbrev pub zero_format : Format
zero_format = record {
  type = buf_type 0;
  width = 0;
  height = 0;
  pixelformat = fourcc 0;
  bytesperline = 0;
  sizeimage = 0;
  num_planes = 0;
  plane_fmt0 = record { bytesperline = 0; sizeimage = 0 };
  plane_fmt1 = record { bytesperline = 0; sizeimage = 0 };
}

abbrev zero_queue : Queue
zero_queue = record {
  current_format = zero_format;
  halign = 0;
  valign = 0;
  sequence = 0;
  buffers = [];
  vb2_type = buf_type 0;
  vb2_read = false;
  vb2_write = false;
  min_buffers_needed = 0;
}

abbrev zero_ctrl : Ctrl
zero_ctrl = record { enable = false; sequence = 0; job_list = []; done_list = [] }

abbrev zero_parm : StreamParm
zero_parm = record {
  type = buf_type 0;
  timeperframe_capability = false;
  capturemode = 0;
  numerator = 0;
  denominator = 0;
}

-- `qvio_video_new`; `none` is the write through the null pointer that `kzalloc` may return.
unfoldable pub video_new : (allocated : Bool) → Option Video
unfolding user_job_start
video_new allocated =
    if not allocated
    then none
    else some (record {
      queue = zero_queue;
      vfl_dir = rx;
      bus_info = "";
      capture_caps = true;
      buffer_type = video_capture;
      halign = 0x40;
      valign = 1;
      current_format = zero_format;
      current_inout = 0;
      current_parm = zero_parm;
      user_job_ctrl = user_job_start zero_ctrl;
      registration = record { v4l2_dev = false; vdev = false; node = false };
    })

-- `qvio_video_get`, on the count of references; `none` for a null pointer.
unfoldable pub video_get : Option ℕ → Option ℕ
video_get none = none
video_get (some n) = some (n + 1)
