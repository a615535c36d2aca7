-- ===== src/QvioCtl/Source/Loop.antt =====
-- The loop of `VidSrc_Main` in samples/03_qvio-ctl/main.cpp and the job that takes its frames: the camera's
-- buffers on their way through `oSrcBufferQ`. Each step under its lock is one step here.
use v4l2_tuto.Prelude.{
  ℕ, ◌+◌, Bool, true, false, Option, none, some, List, [], ◌∷◌, ◌++◌, if◌then◌else◌,
}
use v4l2_tuto.QvioCtl.{take_source}

-- What `select` returns: an error, a timeout, or how many descriptors there are to read.
pub data Select : Type 0 where
  failed timed_out : Select
  ready : (readable : Bool) → Select

-- A round of the loop: whether `bVidSrcDone` is set, and what the calls return.
pub record Round : Type 0 where
  pub done : Bool
  pub select : Select
  pub dequeued : Option ℕ
  pub told : Bool
  pub requeued : Bool

-- `oSrcBufferQ`, whether the loop still runs, and what happened so far: the frames taken from the camera, the
-- buffers given back to it, how often the driver was told, what jobs took, and how often they found none.
pub record Camera : Type 0 where
  pub queue : List ℕ
  pub running : Bool
  pub frames : List ℕ
  pub given_back : List ℕ
  pub told : ℕ
  pub handed : List ℕ
  pub missed : ℕ

abbrev pub leave : Camera → Camera
leave s = record s { running = false }

-- From the end of the lock on.
unfoldable pub tell_driver : Round → ℕ → Camera → Camera
tell_driver r i s =
    if r.told
    then if r.requeued
      then record s { told = s.told + 1; given_back = s.given_back ++ i ∷ [] }
      else record s { told = s.told + 1; running = false }
    else leave s

-- From `VIDIOC_DQBUF` on.
unfoldable pub take_frame : Round → Option ℕ → Camera → Camera
unfolding tell_driver
take_frame r none s = leave s
take_frame r (some i) s =
    tell_driver r i (record s { queue = s.queue ++ i ∷ []; frames = s.frames ++ i ∷ [] })

-- A round of the loop in `VidSrc_Main`.
unfoldable pub round : Round → Camera → Camera
unfolding take_frame
round r s = if r.done then leave s else elim r.select [
  | failed ↦ leave s
  | timed_out ↦ leave s
  | ready readable ↦ if readable then take_frame r r.dequeued s else s
]

-- The frame that `VidUserJob_BUF_DONE` takes.
unfoldable pub note_frame : List ℕ → Camera → Camera
unfolding take_source
note_frame [] s = record s { missed = s.missed + 1; queue = (take_source []).1 }
note_frame (i ∷ q) s = record s { handed = s.handed ++ i ∷ []; queue = (take_source (i ∷ q)).1 }

-- The loop makes a round, if it has not left; a job is served; or another stream starts.
pub data Step : Type 0 where
  rounds : Round → Step
  serves starts : Step

unfoldable pub camera_step : Step → Camera → Camera
unfolding round note_frame
camera_step (rounds r) s = if s.running then round r s else s
camera_step serves s = note_frame s.queue s
camera_step starts s = record s { running = true }

unfoldable pub camera_steps : List Step → Camera → Camera
unfolding camera_step
camera_steps [] s = s
camera_steps (e ∷ es) s = camera_steps es (camera_step e s)

abbrev pub first_stream : Camera
first_stream = record {
  queue = [];
  running = true;
  frames = [];
  given_back = [];
  told = 0;
  handed = [];
  missed = 0;
}
