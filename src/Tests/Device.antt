-- ===== src/Tests/Device.antt =====
-- The video device at concrete inputs.
use v4l2_tuto.Qvio.Video.Handlers.{FmtDesc}
use v4l2_tuto.Qvio.Video.Formats.{try_fmt, video_s_fmt}
use v4l2_tuto.Prelude.{
  ◌≡◌, ◌↔◌, ◌⊎◌, ◌%◌, ◌<◌, if◌then◌else◌, ltb, Bool, true, false, [], refl, arith,
}
use v4l2_tuto.Qvio.Video.Start.{StartCalls}
use v4l2_tuto.Kernel.{success, Ret}
use v4l2_tuto.Tests.{kernel_align}
use v4l2_tuto.Qvio.Format.{
  Format, PlaneFormat, yuyv, nv12, video_capture, video_capture_mplane, field_any,
}
use v4l2_tuto.Qvio.Queue.Prepare.{buf_prepare}
use v4l2_tuto.Qvio.Queue.{Queue, Setup, Buffer, cpu, queue_setup}
use v4l2_tuto.Qvio.Queue.Sizes.{buf_prepare-queue_setup, buf_prepare_yuyv}
use v4l2_tuto.Qvio.UserJob.{Ctrl}
use v4l2_tuto.Qvio.Video.{Video, StreamParm, zero_format, rx}
use v4l2_tuto.Qvio.Video.Negotiate.{queue_setup-video_s_fmt}
use v4l2_tuto.Qvio.Video.Lifecycle.{Succeeds, released}

abbrev no_plane : PlaneFormat
no_plane = record { bytesperline = 0; sizeimage = 0 }

abbrev pub nv12_720p : Format
nv12_720p = record {
  type = video_capture_mplane;
  width = 1280;
  height = 720;
  pixelformat = nv12;
  bytesperline = 0;
  sizeimage = 0;
  num_planes = 0;
  plane_fmt0 = no_plane;
  plane_fmt1 = no_plane;
}

abbrev yuyv_800 : Format
yuyv_800 = record nv12_720p { type = video_capture; width = 800; height = 600; pixelformat = yuyv }

abbrev queue_of : Format → Queue
queue_of f = record {
  current_format = f;
  halign = 64;
  valign = 1;
  sequence = 0;
  buffers = [];
  vb2_type = f.type;
  vb2_read = true;
  vb2_write = false;
  min_buffers_needed = 2;
}

abbrev pub asked : Setup
asked = record { num_buffers = 4; num_planes = 0; sizes = λ i. 0 }

-- A buffer with the planes that `queue_setup` asked for.
abbrev buffer_for : Queue → Buffer
buffer_for q = record {
  index = 0;
  plane_size = λ i. (queue_setup q asked).0.sizes i;
  payload = λ i. 0;
  field = field_any;
  sequence = 0;
  timestamp = 0;
  owner = cpu;
}

buf_prepare-queue_setup_example :
    ((buf_prepare (queue_of nv12_720p) (buffer_for (queue_of nv12_720p))).1 ≡ success)
    × ((buf_prepare (queue_of nv12_720p) (buffer_for (queue_of nv12_720p))).0.payload 1 ≡ (
        if ltb 1 (queue_setup (queue_of nv12_720p) asked).0.num_planes
        then (queue_setup (queue_of nv12_720p) asked).0.sizes 1
        else 0))
unfolding queue_setup
buf_prepare-queue_setup_example =
    buf_prepare-queue_setup (queue_of nv12_720p) asked (buffer_for (queue_of nv12_720p)) refl refl
      (λ i. refl) 1

-- The width 800 leaves the remainder 32.
buf_prepare_yuyv_example :
    ((buf_prepare (queue_of yuyv_800) (buffer_for (queue_of yuyv_800))).1 ≡ success)
    ↔ ((800 % 64 ≡ 0) ⊎ (32 < 800 % 64))
buf_prepare_yuyv_example =
    buf_prepare_yuyv (queue_of yuyv_800) asked (buffer_for (queue_of yuyv_800)) refl refl refl refl
      (omega arith) (omega arith) (omega arith) refl

abbrev parm : StreamParm
parm = record {
  type = video_capture_mplane;
  timeperframe_capability = true;
  capturemode = 0;
  numerator = 30;
  denominator = 1;
}

abbrev pub device : Video
device = record {
  queue = queue_of zero_format;
  vfl_dir = rx;
  bus_info = "PCI";
  capture_caps = true;
  buffer_type = video_capture_mplane;
  halign = 64;
  valign = 1;
  current_format = zero_format;
  current_inout = 0;
  current_parm = parm;
  user_job_ctrl = record { enable = false; sequence = 0; job_list = []; done_list = [] };
  registration = released;
}

abbrev pub alone : Ctrl → Ctrl × Bool
alone c = (c, false)

abbrev after : Video × Format × Ret
after = video_s_fmt true alone device nv12_720p

queue_setup-video_s_fmt_example :
    let q = queue_setup after.0.queue asked in
    (q.1 ≡ success)
    × (q.0.num_planes ≡ after.1.num_planes)
    × (q.0.sizes 0 ≡ after.1.plane_fmt0.sizeimage)
    × ((q.0.num_planes ≡ 1) ⊎ ((q.0.num_planes ≡ 2) × (q.0.sizes 1 ≡ after.1.plane_fmt1.sizeimage)))
unfolding try_fmt
queue_setup-video_s_fmt_example =
    queue_setup-video_s_fmt true alone device nv12_720p asked refl refl refl

abbrev pub fine : StartCalls
fine = record {
  device_register = success;
  queue_init = success;
  device_alloc = true;
  register_device = success;
}

pub fine-Succeeds : Succeeds fine
fine-Succeeds = record {
  device_register = refl;
  queue_init = refl;
  device_alloc = refl;
  register_device = refl;
}

abbrev desc : FmtDesc
desc = record {
  index = 0;
  type = video_capture_mplane;
  flags = 0;
  description = "";
  pixelformat = yuyv;
}
