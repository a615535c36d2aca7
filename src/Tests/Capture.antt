-- ===== src/Tests/Capture.antt =====
-- The program v4l-ctl at concrete inputs.
use v4l2_tuto.V4lCtl.{
  device, mapped, dma_buf, vid_stream_off, q_bufs, exp_bufs, vid_exp_bufs, map_bufs, vid_mmap,
  vid_req_bufs, vid_s_fmt, Resource, open_vid_rx, App, World, Mapping, BufferCalls, vid_stream_on,
}
use v4l2_tuto.Prelude.{
  ◌==◌, if◌then◌else◌, ◌*◌, ◌+◌, ℕ, ◌≡◌, refl, arith, true, false, none, some, List, [], ◌∷◌,
}
use v4l2_tuto.ZzUtils.{Tick, timed_out, pressed, Outcome, goes, waits, undefined}
use v4l2_tuto.V4lCtl.Loops.{Round, KeyCalls, begin, begin_app, run, wait_loop, measure_loop}
use v4l2_tuto.V4lCtl.Released.{IsReleased, run-IsReleased}
use v4l2_tuto.V4lCtl.Stored.{Stored, wait_loop-Stored}
use v4l2_tuto.V4lCtl.Rated.{Rated, measure_loop-Rated_all}

abbrev area : ℕ → Mapping
area i = record { vir_addr = 65536 + i * 16384; length = 12288 }

-- The second buffer cannot be exported.
abbrev buffer_calls : ℕ → BufferCalls
buffer_calls i = record {
  queried = true;
  length = 12288;
  address = some (65536 + i * 16384);
  exported = if i == 1 then none else some (9 + i);
  queued = true;
}

abbrev frame : ℕ → (now : ℕ) → Round
frame i now = record {
  selected = true;
  quits = false;
  readable = true;
  dequeued = some i;
  queued = true;
  now = now;
}

abbrev nothing : (now : ℕ) → Round
nothing now = record (frame 0 now) { readable = false }

abbrev quit : (now : ℕ) → Round
quit now = record (frame 0 now) { quits = true }

abbrev key_calls : KeyCalls
key_calls = record {
  opened = some 5;
  buffer = buffer_calls;
  rounds = nothing 3000000 ∷ frame 2 3040000 ∷ frame 3 3080000 ∷ [];
}

abbrev key : ℕ → Tick × KeyCalls
key ch = (pressed (some ch), key_calls)

-- The device is opened, its buffers are mapped, exported and queued, one frame is stored, and `q` ends the program.
abbrev session : List (Tick × KeyCalls)
session =
    key b'r'
    ∷ key b'1'
    ∷ key b'2'
    ∷ (timed_out, key_calls)
    ∷ key b'4'
    ∷ key b'5'
    ∷ key b'6'
    ∷ key b'7'
    ∷ key b'a'
    ∷ key b'8'
    ∷ key b'q'
    ∷ []

run-IsReleased_example : IsReleased (run session)
run-IsReleased_example = run-IsReleased session

abbrev freed_by : Outcome World → List Resource
freed_by (goes w) = w.freed
freed_by (waits w) = []
freed_by undefined = []

abbrev files_of : Outcome World → List (ℕ × Mapping)
files_of (goes w) = w.files
files_of (waits w) = w.files
files_of undefined = []

session_freed :
    freed_by (run session)
    ≡ dma_buf 9
      ∷ mapped (area 3)
      ∷ mapped (area 2)
      ∷ mapped (area 1)
      ∷ mapped (area 0)
      ∷ device 5
      ∷ []
unfolding run open_vid_rx vid_s_fmt vid_req_bufs vid_mmap map_bufs vid_exp_bufs exp_bufs q_bufs
    vid_stream_on vid_stream_off
session_freed = refl

session_files : files_of (run session) ≡ (2, area 2) ∷ []
unfolding run open_vid_rx vid_s_fmt vid_req_bufs vid_mmap map_bufs vid_exp_bufs exp_bufs q_bufs
    vid_stream_on vid_stream_off
session_files = refl

abbrev mapped_app : App
mapped_app = record begin_app {
  world = record (begin_app.world) {
    vid_fd = some 5;
    mbuffers = area 0 ∷ area 1 ∷ area 2 ∷ area 3 ∷ [];
  };
}

abbrev some_rounds : List Round
some_rounds = frame 2 3000000 ∷ nothing 3020000 ∷ frame 3 3040000 ∷ quit 3050000 ∷ []

wait_loop-Stored_example : Stored some_rounds 2 mapped_app (wait_loop some_rounds 2 mapped_app)
wait_loop-Stored_example =
    wait_loop-Stored some_rounds 2 mapped_app 5 (omega arith) refl (omega arith)

measure_loop-Rated_all_example :
    Rated mapped_app.world.mbuffers some_rounds []
      (measure_loop some_rounds (begin (vid_stream_on mapped_app)))
measure_loop-Rated_all_example = measure_loop-Rated_all some_rounds mapped_app 5 refl (omega arith)
