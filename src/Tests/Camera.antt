-- ===== src/Tests/Camera.antt =====
-- The daemon qvio-ctl and its deferred tasks at concrete inputs.
use v4l2_tuto.Prelude.{
  ◌⊎◌, length, reverse, ltb, ◌++◌, ℕ, ◌≡◌, refl, arith, true, false, some, [], ◌∷◌, List, Bool, suc,
  ◌+◌, ◌*◌, ◌/◌, ◌≤◌, ◌<◌, if◌then◌else◌,
}
use v4l2_tuto.DeferredTasks.Drain.{
  Moves, adds, moves, begin, main_loop, run_all, left, asleep, main_loop-stop,
}
use v4l2_tuto.DeferredTasks.{stop}
use v4l2_tuto.QvioCtl.Schedule.{finish_job, step, Daemon, Event, job, turn, steps}
use v4l2_tuto.QvioCtl.{run_task, handle_job, zero_buffer, App, Plane, mapped_buffer, TaskCalls}
use v4l2_tuto.Qvio.UserJob.{
  s_fmt, format, JobId, queue_setup, buf_init, buf_cleanup, JobArgs, num_buffers, index, Ctrl,
}
use v4l2_tuto.QvioCtl.Source.{Resource, World, SetupCalls, vid_src_main}
use v4l2_tuto.QvioCtl.Usage.{all_keep, Sound}
use v4l2_tuto.QvioCtl.Ledger.{steps-Sound}
use v4l2_tuto.QvioCtl.Deferral.{init, cleanup, Next, deferred, at_once, drain, deferred-at_once}
use v4l2_tuto.QvioCtl.Source.Release.{vid_src_main-Released, leaks}
use v4l2_tuto.Kernel.{value}
use v4l2_tuto.Qviod
use v4l2_tuto.Qviod.{RoundCalls}
use v4l2_tuto.QvioCtl.Serve.{seen, seen_of_qviod}
use v4l2_tuto.QvioCtl.Runs.{driver_side, serve_loop, serve_loop-loop}
use v4l2_tuto.Qviod.Run.{Move, posted, taken, loop}
use v4l2_tuto.Tests.Channel.{idle}
use v4l2_tuto.Qvio.Format.{Format, video_capture}
use v4l2_tuto.QvioCtl.Source.Loop.{Round, Step, rounds, starts, ready, camera_steps, first_stream}
use v4l2_tuto.QvioCtl.Source.InTurn.{InTurn, all_asked, camera_steps-InTurn}
use v4l2_tuto.QvioCtl.Copy.{VpssBufs, frame_calls, performed, buf_done_calls}
use v4l2_tuto.QvioCtl.Copy.Areas.{Sized, areas, calls_in}
use v4l2_tuto.QvioCtl.Copy.Bounds.{buf_done_calls-areas, fill-room}
use v4l2_tuto.Qvio.Video.Formats.{fill}
use v4l2_tuto.Tests.Device.{nv12_720p, device}
use v4l2_tuto.Tests.{kernel_align}

abbrev nv12_32 : Format
nv12_32 = record nv12_720p {
  type = video_capture;
  width = 32;
  height = 16;
  bytesperline = 64;
  sizeimage = 1536;
}

abbrev app : App
app = record {
  vid_dst_format = nv12_32;
  mbuffers = [];
  vid_src_done = false;
  src_thread = false;
  src_buffer_q = [];
  mapped = [];
  unmapped = [];
}

abbrev waiting : Daemon
waiting = record { app = app; pending = [] }

abbrev calls : TaskCalls
calls = record {
  queried = true;
  n_index = 1;
  length = 4096;
  address = some 65536;
  thread_ends = true;
}

abbrev asks : JobId → JobArgs → Event
asks id args = job (record { id = id; sequence = 3; args = args })

-- A buffer is mapped and unmapped, while another waits to be mapped.
abbrev session : List Event
session =
    asks queue_setup (num_buffers 2)
    ∷ asks buf_init (index 1)
    ∷ turn calls
    ∷ asks buf_cleanup (index 1)
    ∷ asks buf_init (index 0)
    ∷ turn calls
    ∷ []

waiting-Sound : Sound waiting
waiting-Sound = record { accounted = λ p. refl; fit = refl }

session_keeps : all_keep session waiting ≡ true
unfolding all_keep step handle_job run_task finish_job
session_keeps = refl

steps-Sound_example : (d : Daemon) × (steps session waiting ≡ some d) × Sound d
steps-Sound_example = steps-Sound session waiting waiting-Sound session_keeps

abbrev two_buffers : App
two_buffers = record app { mbuffers = zero_buffer ∷ zero_buffer ∷ [] }

abbrev interleaved : List Next
interleaved =
    Next.serves (init 0 calls)
    ∷ Next.serves (init 1 calls)
    ∷ Next.turns
    ∷ Next.serves (cleanup 0 calls)
    ∷ Next.turns
    ∷ []

deferred-at_once_example :
    deferred interleaved two_buffers [] ≡ at_once interleaved (drain [] (some two_buffers))
deferred-at_once_example = deferred-at_once interleaved two_buffers []

-- The table has both buffers mapped at once, the first unmapped again.
deferred_run :
    deferred interleaved two_buffers []
    ≡ some (record two_buffers {
      mbuffers = zero_buffer ∷ mapped_buffer 1 (record { vir_addr = 65536; length = 4096 }) ∷ [];
      mapped =
          record { vir_addr = 65536; length = 4096 }
          ∷ record { vir_addr = 65536; length = 4096 }
          ∷ [];
      unmapped = record { vir_addr = 65536; length = 4096 } ∷ [];
    })
unfolding deferred drain handle_job run_task
deferred_run = refl

abbrev note : ℕ → List ℕ → List ℕ
note t s = s ++ t ∷ []

-- The signal of the last task is lost.
abbrev added : List (Moves ℕ)
added = adds true 1 ∷ adds true 2 ∷ Moves.turns ∷ adds false 3 ∷ []

main_loop-stop_example :
    let l = moves added begin in
    let end = main_loop note (suc (length l.tasks.queue)) (stop true l.tasks) [] in
    (l.taken ++ l.tasks.queue ≡ l.added)
    × (((l.lost ≡ 0)
          × (end
              ≡ left (run_all note l.tasks.queue []) (record (l.tasks) { event = 0; queue = [] })))
        ⊎ ((ts : List ℕ) × (us : List ℕ) × (l.tasks.queue ≡ ts ++ us)
            × (length us + 1 ≡ l.lost)
            × (end ≡ asleep (run_all note ts []) (record (l.tasks) { event = 0; queue = us }))))
main_loop-stop_example = main_loop-stop note added []

abbrev nothing_taken : World
nothing_taken = record { src_mbuffers = []; taken = []; freed = []; broken = false }

abbrev source_calls : SetupCalls
source_calls = record {
  opened = true;
  s_fmt = true;
  reqbufs = some 2;
  buffer =
      λ i. record { queried = true; index = i; length = 4096; address = some 65536; queued = true };
  surface = true;
  egl_image = true;
  cu_resource = false;
  egl_frame = true;
  src_plane = true;
  scaled_plane = true;
  scaled1_plane = true;
  stream_on = true;
}

vid_src_main-Released_example :
    let w' = vid_src_main source_calls nothing_taken in
    (xs : List Resource) × (w'.taken ≡ [] ++ reverse xs)
    × (w'.broken ≡ false)
    × (w'.freed ≡ (if leaks source_calls then [] else [] ++ xs))
vid_src_main-Released_example = vid_src_main-Released source_calls nothing_taken (λ i. refl)

abbrev captured : Round
captured = record {
  done = false;
  select = ready true;
  dequeued = some 2;
  told = true;
  requeued = true;
}

abbrev camera_events : List Step
camera_events =
    rounds captured
    ∷ rounds (record captured { dequeued = some 0; requeued = false })
    ∷ Step.serves
    ∷ starts
    ∷ []

camera_steps-InTurn_example :
    let s = camera_steps camera_events first_stream in
    InTurn s × ((s.missed ≡ 0) ⊎ (all_asked camera_events first_stream ≡ false))
camera_steps-InTurn_example = camera_steps-InTurn camera_events

abbrev yuyv_64 : Format
yuyv_64 = record nv12_720p { type = video_capture; width = 64; height = 32; bytesperline = 128 }

abbrev bufs : VpssBufs
bufs = record {
  egl_frame = 10000;
  pitch = 128;
  src = 20000;
  src_step = 64;
  scaled = 30000;
  scaled_step = 32;
  scaled1 = 40000;
  scaled1_step = 32;
}

abbrev from_camera : Plane
from_camera = record { vir_addr = 50000; length = 4096 }

abbrev to_driver : Plane
to_driver = record { vir_addr = 60000; length = 1536 }

abbrev one_frame : App
one_frame = record app { mbuffers = mapped_buffer 0 to_driver ∷ []; src_buffer_q = 0 ∷ [] }

bufs-Sized : Sized bufs yuyv_64 nv12_32 4096 1536
bufs-Sized = record {
  line = omega arith;
  frame = omega arith;
  pitch = omega arith;
  src_step = omega arith;
  scaled_step = omega arith;
  scaled1_step = omega arith;
  src_word = omega arith;
  pitch_int = omega arith;
  surface_int = omega arith;
  scaled1_int = omega arith;
  scaled_word = omega arith;
  width_word = omega arith;
  buffer_word = omega arith;
  buffer_line = omega arith;
  buffer = omega arith;
}

-- The fourth call fails.
abbrev third : ℕ → Bool
third i = ltb i 3

buf_done_calls-areas_example :
    let cs = buf_done_calls bufs yuyv_64 (mapped_buffer 0 from_camera ∷ []) third 0 one_frame in
    (cs ≡ performed third 0 (frame_calls bufs yuyv_64 nv12_32 50000 60000))
    × (calls_in (areas bufs yuyv_64 nv12_32 50000 4096 60000 1536) cs ≡ true)
buf_done_calls-areas_example =
    buf_done_calls-areas bufs yuyv_64 (mapped_buffer 0 from_camera ∷ []) third 0 0 0 0 []
      from_camera to_driver one_frame (omega arith) refl refl refl bufs-Sized

abbrev single_720p : Format
single_720p = record nv12_720p { type = video_capture }

abbrev filled_720p : Format
filled_720p = record single_720p { bytesperline = 1280; sizeimage = 1382400 }

single_filled : fill device single_720p video_capture ≡ some filled_720p
unfolding fill
single_filled = refl

fill-room_example :
    (1280 ≤ 1280) × (720 * 1280 < 4294967296) × (720 * 1280 + 720 / 2 * 1280 ≤ 1382400)
fill-room_example =
    fill-room device single_720p filled_720p 6 0 refl refl (omega arith) (omega arith) refl
      (omega arith) single_filled

abbrev quiet : RoundCalls
quiet = record {
  select = value 1;
  quit = false;
  get_copied = true;
  done_allocated = true;
  done_copied = true;
  words = [];
}

abbrev other_daemon : Qviod.App
other_daemon = record {
  vid_fd = some 3;
  vid_user_job_fd = some (value 4);
  vid_dst_format = nv12_32;
}

abbrev asked_once : Ctrl
asked_once = record idle {
  job_list = record { id = queue_setup; sequence = 7; args = num_buffers 4 } ∷ [];
}

-- A job is answered while the driver posts another, which is answered in the next round.
abbrev run_of_two : List ((Daemon → Daemon) × List Move × RoundCalls)
run_of_two =
    ((λ d. d), [], quiet)
    ∷ ((λ d. waiting), posted queue_setup (num_buffers 4) ∷ taken ∷ [], quiet)
    ∷ ((λ d. d), posted s_fmt (format nv12_32) ∷ [], quiet)
    ∷ []

serve_loop-loop_example :
    seen (serve_loop run_of_two waiting asked_once)
    ≡ seen_of_qviod (loop (driver_side run_of_two) other_daemon asked_once)
serve_loop-loop_example =
    serve_loop-loop run_of_two other_daemon waiting asked_once refl
      (tt, ((refl, tt), ((refl, tt), tt)))
