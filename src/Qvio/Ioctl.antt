-- ===== src/Qvio/Ioctl.antt =====
-- modules/qvio/ioctl.c, and `qvio_video_buf_done` of modules/qvio/video.c: every request that user space can
-- make of the video node, as one function of the node's state. What the kernel's calls return is part of
-- the request.
pub mod History
use Prim.Native.String.{String}
use v4l2_tuto.Prelude.{ℕ, Bool, true, false, List, [], ◌∷◌, if◌then◌else◌}
use v4l2_tuto.Kernel.{enoioctlcmd, Ret, neg, success, is_set, is_neg, Align}
use v4l2_tuto.Qvio.Format.{Format}
use v4l2_tuto.Qvio.Queue.{Buffer}
use v4l2_tuto.Qvio.Streaming.{BufState, Stream, try_buf_done}
use v4l2_tuto.Qvio.UserJob.{Ctrl}
use v4l2_tuto.Qvio.Video.{Video, StreamParm}
use v4l2_tuto.Qvio.Video.Formats.{try_fmt, g_fmt, video_s_fmt}
use v4l2_tuto.Qvio.Video.Handlers.{
  FmtDesc, enum_fmt, Input, Output, enum_input, g_input, s_input, enum_output, g_output, s_output,
  g_parm, s_parm, FrameSizes, enum_framesizes, FrameIntervals, enum_frameintervals,
}

-- The video device with what streaming keeps beside it: the board, its control register, the transfers
-- that libxdma has, and the buffers that went back to vb2.
pub record Node : Type 0 where
  pub video : Video
  pub device_id : ℕ
  pub register : ℕ
  pub in_flight : List Buffer
  pub returned : List (Buffer × BufState)

abbrev pub stream_of : Node → Stream
stream_of n = record {
  queue = n.video.queue;
  device_id = n.device_id;
  register = n.register;
  in_flight = n.in_flight;
  returned = n.returned;
}

abbrev pub with_stream : Node → Stream → Node
with_stream n s = record {
  video = record (n.video) { queue = s.queue };
  device_id = s.device_id;
  register = s.register;
  in_flight = s.in_flight;
  returned = s.returned;
}

-- `struct v4l2_capability`. Its two words of capabilities are those of the device, the first with
-- `V4L2_CAP_DEVICE_CAPS` added.
pub record Capability : Type 0 where
  pub version : ℕ
  pub driver : String
  pub card : String
  pub bus_info : String
  pub capture_caps : Bool

-- The operations of `qvio_ioctl_ops` that are the driver's own, then the commands of `__ioctl_default`.
pub data Request : Type 0 where
  vidioc_querycap : (linux_version : ℕ) → Request
  vidioc_enum_fmt : FmtDesc → Request
  vidioc_g_fmt : Request
  vidioc_s_fmt : (allocated : Bool) → (others : Ctrl → Ctrl × Bool) → Format → Request
  vidioc_try_fmt : Format → Request
  vidioc_enum_input : Input → Request
  vidioc_g_input : ℕ → Request
  vidioc_s_input : ℕ → Request
  vidioc_enum_output : (unset : Ret) → Output → Request
  vidioc_g_output : ℕ → Request
  vidioc_s_output : ℕ → Request
  vidioc_g_parm : StreamParm → Request
  vidioc_s_parm : StreamParm → Request
  vidioc_enum_framesizes : FrameSizes → Request
  vidioc_enum_frameintervals : FrameIntervals → Request
  user_job_fd : (unused_fd file : Ret) → Request
  buf_done : (interrupted : Bool) → Request
  other_command : ℕ → Request

-- What a request writes for its caller.
pub data Reply : Type 0 where
  nothing : Reply
  capability : Capability → Reply
  fmt_desc : FmtDesc → Reply
  format : Format → Reply
  input : Input → Reply
  output : Output → Reply
  index : ℕ → Reply
  parm : StreamParm → Reply
  frame_sizes : FrameSizes → Reply
  frame_intervals : FrameIntervals → Reply
  fd : Ret → Reply

-- The body that the `__ioctl_*` handlers share: `if(err) return err; return 0;`.
abbrev pub forward : Ret → Ret
forward ret = if is_set ret then ret else success

-- `__ioctl_querycap`.
unfoldable pub ioctl_querycap : ℕ → Video → Capability × Ret
ioctl_querycap linux_version v = (
  record {
    version = linux_version;
    driver = "qvio";
    card = "qvio";
    bus_info = v.bus_info;
    capture_caps = v.capture_caps;
  },
  success,
)

-- What becomes of the number that `get_unused_fd_flags` reserves.
pub data Slot : Type 0 where
  unused reserved installed : Slot

-- `__anon_fd`, from `anon_inode_getfile` on.
with_file : (number file : Ret) → Slot → Slot × Ret
with_file number file slot = if is_neg file then (unused, file) else (installed, number)

-- `__anon_fd`: what `get_unused_fd_flags` and `anon_inode_getfile` return, and the result.
unfoldable pub anon_fd : (number file : Ret) → Slot × Ret
unfolding with_file
anon_fd number file = if is_neg number then (unused, number) else with_file number file reserved

-- `qvio_video_buf_done`.
unfoldable pub video_buf_done : (interrupted : Bool) → Node → Node × Ret
unfolding try_buf_done
video_buf_done interrupted n =
    let (s, err) = try_buf_done interrupted (stream_of n) in
    if is_set err then (with_stream n s, err) else (with_stream n s, success)

-- A handler that changes nothing, and one that changes the video device.
abbrev answer : {A : Type 0} → Node → (A → Reply) → A × Ret → Node × Reply × Ret
answer n reply (a, ret) = (n, reply a, forward ret)

abbrev change : Node → Video × Ret → Node × Reply × Ret
change n (v, ret) = (record n { video = v }, nothing, forward ret)

-- `__ioctl_*` by way of `qvio_ioctl_ops`, with `__ioctl_default` for the last three.
unfoldable pub ioctl : ⦃al : Align⦄ → Request → Node → Node × Reply × Ret
unfolding video_buf_done
ioctl (vidioc_querycap linux_version) n = answer n capability (ioctl_querycap linux_version n.video)
ioctl (vidioc_enum_fmt d) n = answer n fmt_desc (enum_fmt n.video d)
ioctl vidioc_g_fmt n = answer n format (g_fmt n.video)
ioctl (vidioc_s_fmt allocated others f) n =
    let (v, f', ret) = video_s_fmt allocated others n.video f in
    (record n { video = v }, format f', forward ret)
ioctl (vidioc_try_fmt f) n = answer n format (f, try_fmt n.video f)
ioctl (vidioc_enum_input p) n = answer n input (enum_input n.video p)
ioctl (vidioc_g_input i) n = answer n index (g_input n.video i)
ioctl (vidioc_s_input i) n = change n (s_input n.video i)
ioctl (vidioc_enum_output unset p) n = answer n output (enum_output unset n.video p)
ioctl (vidioc_g_output i) n = answer n index (g_output n.video i)
ioctl (vidioc_s_output i) n = change n (s_output n.video i)
ioctl (vidioc_g_parm p) n = answer n parm (g_parm n.video p)
ioctl (vidioc_s_parm p) n = change n (s_parm n.video p)
ioctl (vidioc_enum_framesizes s) n = answer n frame_sizes (enum_framesizes s)
ioctl (vidioc_enum_frameintervals s) n = answer n frame_intervals (enum_frameintervals s)
ioctl (user_job_fd unused_fd file) n = (n, fd (anon_fd unused_fd file).1, success)
ioctl (buf_done interrupted) n = let (n', ret) = video_buf_done interrupted n in (n', nothing, ret)
ioctl (other_command cmd) n = (n, nothing, neg enoioctlcmd)
