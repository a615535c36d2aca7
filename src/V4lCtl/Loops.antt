-- ===== src/V4lCtl/Loops.antt =====
-- The loops of samples/01_v4l-ctl/main.cpp that take frames, and `App::Run` with its keys. A run of the program is the
-- list of what its `select`s and the other calls return.
use v4l2_tuto.ZzUtils.{
  lines, Tick, Outcome, goes, waits, undefined, test_loop, BitRate, reset, log, Report,
}
use v4l2_tuto.Prelude.{
  ℕ, ◌-◌, ◌*◌, Bool, true, false, not, ◌==◌, leb, ltb, ◌||◌, Option, none, some, List, [], ◌∷◌,
  ◌++◌, get_elem?, if◌then◌else◌,
}
use v4l2_tuto.DeferredTasks.{flush}
use v4l2_tuto.V4lCtl.{
  World, App, Mapping, dqbuf, qbuf, request, BufferCalls, open_vid_rx, vid_s_fmt, vid_req_bufs,
  query_bufs, vid_mmap, vid_exp_bufs, q_bufs, vid_stream_on, vid_stream_off, vid_buf_done, buffers,
}

-- What a round of such a loop meets: whether `select` succeeds, whether `q` was typed, whether the device is ready,
-- the index of the frame, whether it could be queued again, and the time.
pub record Round : Type 0 where
  pub selected : Bool
  pub quits : Bool
  pub readable : Bool
  pub dequeued : Option ℕ
  pub queued : Bool
  pub now : ℕ

-- What a round comes to: no frame; a frame with its buffer queued again, or not, which ends the loop; the end of the
-- loop; or an undefined read.
pub data Turn : Type 0 where
  stays leaves : App → Turn
  got last : ℕ → Mapping → App → Turn
  faults : Turn

-- The buffer of the frame is queued again.
unfoldable pub put_back : ℕ → Mapping → Bool → App → Turn
put_back i m true a = got i m (request (qbuf i) a)
put_back i m false a = last i m (request (qbuf i) a)

unfoldable pub found : ℕ → Bool → Option Mapping → App → Turn
unfolding put_back
found i queued none a = faults
found i queued (some m) a = put_back i m queued a

-- From `VIDIOC_DQBUF` on; the index is looked up in `oMbuffers` unchecked.
unfoldable pub with_frame : Bool → Option ℕ → App → Turn
unfolding found
with_frame queued none a = leaves (request dqbuf a)
with_frame queued (some i) a = found i queued (get_elem? a.world.mbuffers i) (request dqbuf a)

-- A round on a device that is open.
unfoldable pub open_round : Round → App → Turn
unfolding with_frame
open_round r a =
    if not r.selected
    then leaves a
    else if r.quits
    then leaves a
    else if r.readable
    then with_frame r.queued r.dequeued a
    else stays a

-- A round; `FD_SET` of a device that is not open is undefined.
unfoldable pub round : Round → App → Turn
unfolding open_round
round r a = elim a.world.vid_fd [ none ↦ faults | some fd ↦ open_round r a ]

-- The area of a frame is written to its file.
abbrev pub store : ℕ → Mapping → App → App
store i m a = record a { world = record (a.world) { files = a.world.files ++ (i, m) ∷ [] } }

-- What follows a round, with `rest` for the rounds behind it; a frame counts `nFrames` down.
unfoldable pub after_wait : (rest : ℕ → App → Outcome App) → (n : ℕ) → Turn → Outcome App
after_wait rest n (stays b) = rest n b
after_wait rest n (leaves b) = goes b
after_wait rest n (got i m b) = if leb n 1 then goes (store i m b) else rest (n - 1) (store i m b)
after_wait rest n (last i m b) = goes (store i m b)
after_wait rest n faults = undefined

-- The loop of `App::VidWaitForBuffer` with `n` for `nFrames`.
unfoldable pub wait_loop : List Round → (n : ℕ) → App → Outcome App
unfolding round after_wait
wait_loop [] n a = waits a
wait_loop (r ∷ rs) n a = after_wait (wait_loop rs) n (round r a)

-- The application in `App::VidMeasureFPS`, its two statistics, and what they print.
pub record Measured : Type 0 where
  pub app : App
  pub bitrate : BitRate
  pub ticks : BitRate
  pub bit_lines : List Report
  pub tick_lines : List Report

-- `ticks.Log` and `bitrate.Log`; the bits of a frame stay below 2^31.
abbrev pub log_tick : ℕ → Measured → Measured
log_tick now m =
    let (r, t) = log 1 now m.ticks in record m { ticks = t; tick_lines = m.tick_lines ++ lines r }

-- `nLength[0] * 8` is taken to fit an `int` here.
abbrev pub log_frame : Mapping → ℕ → Measured → Measured
log_frame b now m =
    let (r, t) = log (b.length * 8) now m.bitrate in
    record m { bitrate = t; bit_lines = m.bit_lines ++ lines r }

-- `mbuffer.nLength[0] * 8` is a product of the type `int`, which is undefined from 2^31 on.
abbrev pub fits_int : Mapping → Bool
fits_int b = ltb (b.length * 8) 2147483648

-- What follows a round, where `m` has logged it and `rest` stands for the rounds behind it.
unfoldable pub after_measure :
    (rest : Measured → Outcome Measured) → (now : ℕ) → Measured → Turn → Outcome Measured
after_measure rest now m (stays b) = rest (record m { app = b })
after_measure rest now m (leaves b) = goes (record m { app = b })
after_measure rest now m (got i f b) =
    let next = rest (log_frame f now (record m { app = b })) in
    if fits_int f then next else undefined
after_measure rest now m (last i f b) =
    if fits_int f then goes (log_frame f now (record m { app = b })) else undefined
after_measure rest now m faults = undefined

-- The loop of `App::VidMeasureFPS`.
unfoldable pub measure_loop : List Round → Measured → Outcome Measured
unfolding round after_measure
measure_loop [] m = waits m
measure_loop (r ∷ rs) m =
    after_measure (measure_loop rs) r.now (if r.selected then log_tick r.now m else m)
      (round r m.app)

abbrev pub begin : App → Measured
begin a = record { app = a; bitrate = reset; ticks = reset; bit_lines = []; tick_lines = [] }

unfoldable pub finish_measure : Outcome Measured → Outcome App
finish_measure (goes m) = goes (vid_stream_off m.app)
finish_measure (waits m) = waits m.app
finish_measure undefined = undefined

-- `App::VidMeasureFPS`.
unfoldable pub vid_measure_fps : List Round → App → Outcome App
unfolding measure_loop finish_measure
vid_measure_fps rs a = finish_measure (measure_loop rs (begin (vid_stream_on a)))

-- What the calls that a key leads to return.
pub record KeyCalls : Type 0 where
  pub opened : Option ℕ
  pub buffer : ℕ → BufferCalls
  pub rounds : List Round

-- The keys that make calls, and do not wait.
unfoldable pub make_calls : ℕ → KeyCalls → App → App
make_calls ch k a =
    if ch == b'r' || ch == b'R'
    then open_vid_rx k.opened a
    else if ch == b'1'
    then vid_s_fmt a
    else if ch == b'2'
    then vid_req_bufs a
    else if ch == b'3'
    then query_bufs k.buffer buffers 0 a
    else if ch == b'4'
    then vid_mmap k.buffer a
    else if ch == b'5'
    then vid_exp_bufs k.buffer a
    else if ch == b'6'
    then q_bufs k.buffer buffers 0 a
    else if ch == b'7'
    then vid_stream_on a
    else if ch == b'8'
    then vid_stream_off a
    else if ch == b'9'
    then vid_buf_done a
    else a

-- The function that `Run` passes to `TestLoop`.
unfoldable pub idle : Option ℕ → KeyCalls → App → Outcome App
unfolding make_calls wait_loop vid_measure_fps
idle none k a = goes a
idle (some ch) k a =
    if ch == b'0'
    then vid_measure_fps k.rounds a
    else if ch == b'a' || ch == b'A'
    then wait_loop k.rounds 1 a
    else goes (make_calls ch k a)

abbrev pub begin_app : App
begin_app = record {
  world = record {
    vid_fd = none;
    mbuffers = [];
    dma_bufs = [];
    requests = [];
    files = [];
    taken = [];
    freed = [];
  };
  free_stack = [];
}

unfoldable pub finish : Outcome App → Outcome World
unfolding flush
finish (goes a) = goes (flush a.free_stack a.world)
finish (waits a) = waits a.world
finish undefined = undefined

-- `App::Run`.
unfoldable pub run : List (Tick × KeyCalls) → Outcome World
unfolding idle test_loop finish
run ts = finish (test_loop idle ts begin_app)
