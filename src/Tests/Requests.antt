-- ===== src/Tests/Requests.antt =====
-- Requests of user space at concrete inputs.
use v4l2_tuto.Kernel.{value, success}
use v4l2_tuto.Qvio.Ioctl.{Node, vidioc_s_fmt, vidioc_s_input}
use v4l2_tuto.Qvio.UserJob.{Ctrl, buf_init, buf_cleanup, buf_done, index}
use v4l2_tuto.Qvio.Video.Formats.{try_fmt, g_fmt}
use v4l2_tuto.Prelude.{◌≡◌, ◌+◌, true, false, none, some, List, [], ◌∷◌, refl, arith, get_elem?}
use v4l2_tuto.Tests.{kernel_align}
use v4l2_tuto.Tests.Device.{device, nv12_720p, asked, fine, fine-Succeeds, alone}
use v4l2_tuto.Tests.Buffers.{
  to_device-proper, from_device-proper, sg_no_fd, contig_fine, vmalloc_full,
}
use v4l2_tuto.Tests.Channel.{idle, answer}
use v4l2_tuto.Qviod.{App, RoundCalls}
use v4l2_tuto.Qvio.Video.{Video, zero_format}
use v4l2_tuto.Qvio.Ioctl.History.{Event, requests, stops, run, Sized, run-video_start}
use v4l2_tuto.Qvio.Video.Start.{video_start}
use v4l2_tuto.Qvio.Queue.{queue_setup}
use v4l2_tuto.Qvio.UserJob.Daemon.{run as work, posted, served, run_answers}
use v4l2_tuto.Qdmabuf.Refs.{vmalloc}
use v4l2_tuto.Qdmabuf.Attach.{to_device, from_device}
use v4l2_tuto.Qdmabuf.Ops.{Backing, ops}
use v4l2_tuto.Qdmabuf.Ops.Detached.{Use, maps, unmaps, Detached, ops-Detached}
use v4l2_tuto.Qdmabuf.Command.{AllocCalls, AllocArgs, ioctl_alloc}
use v4l2_tuto.Qdmabuf.Command.Served.{Served, ioctl_alloc-Served}

abbrev node : Node
node = record {
  video = device;
  device_id = 0xF7570601;
  register = 0;
  in_flight = [];
  returned = [];
}

abbrev events : List Event
events =
    requests (vidioc_s_fmt true alone nv12_720p) ∷ requests (vidioc_s_input 3) ∷ stops false ∷ []

run-video_start_example :
    let w = (run (record node { video = (video_start fine device).0 }) events).video in
    (try_fmt w (g_fmt w).0 ≡ success)
    × (w.current_inout ≡ 0)
    × (w.current_parm.type ≡ w.buffer_type)
    × Sized w (g_fmt w).0 (queue_setup w.queue asked)
run-video_start_example = run-video_start fine device node events asked refl refl refl fine-Succeeds

abbrev calls : AllocCalls
calls = record {
  copy_from_user = true;
  contig = λ size. contig_fine;
  sg = λ size. sg_no_fd;
  vmalloc = λ size. vmalloc_full;
  copy_to_user = false;
  number = λ e. 1;
}

abbrev contig_buffer : AllocArgs
contig_buffer = record { len = 100; type = 0; fd_flags = 0; dma_dir = 2; fd = 0 }

ioctl_alloc-Served_example : Served calls contig_buffer (ioctl_alloc calls contig_buffer)
ioctl_alloc-Served_example =
    ioctl_alloc-Served calls contig_buffer
      (record { recent = refl; compacted = refl; table = refl })

abbrev two_jobs : Ctrl
two_jobs = record idle {
  job_list =
      record { id = buf_cleanup; sequence = 8; args = index 3 }
      ∷ record { id = buf_init; sequence = 9; args = index 0 }
      ∷ [];
}

run_answers_example :
    get_elem? (work answer (served ∷ posted buf_done (index 1) ∷ served ∷ []) two_jobs).done_list 1
    ≡ some (record { id = 3; sequence = 9; words = 42 ∷ [] })
run_answers_example =
    run_answers answer (served ∷ posted buf_done (index 1) ∷ served ∷ []) two_jobs 1
      (record { id = buf_init; sequence = 9; args = index 0 }) refl (omega arith)

-- A device whose daemon is there, and a daemon that was told nothing yet.
abbrev attended : Video
attended = record device { user_job_ctrl = idle }

abbrev qviod : App
qviod = record { vid_fd = some 3; vid_user_job_fd = some (value 4); vid_dst_format = zero_format }

abbrev quiet : RoundCalls
quiet = record {
  select = value 1;
  quit = false;
  get_copied = true;
  done_allocated = true;
  done_copied = true;
  words = [];
}

-- Memory of `vmalloc` of three bytes over two pages, which two directions use in turn.
abbrev user_memory : Backing
user_memory = record {
  entries = [];
  size = 4099;
  vaddr = 65536;
  vmalloc_to_page = λ a. some (a + 7);
}

abbrev two_uses : List Use
two_uses =
    maps (some (36864 ∷ 40960 ∷ [])) to_device
    ∷ unmaps to_device
    ∷ maps none from_device
    ∷ maps (some (36864 ∷ [])) from_device
    ∷ []

ops-Detached_example :
    Detached vmalloc user_memory two_uses
      ((ops vmalloc).attach (record { kzalloc = true; alloc_table = success }) user_memory)
ops-Detached_example =
    ops-Detached vmalloc (record { kzalloc = true; alloc_table = success }) user_memory two_uses
      (to_device-proper, (from_device-proper, (from_device-proper, tt)))
