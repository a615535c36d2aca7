-- ===== src/QvioCtl/Serve.antt =====
-- How samples/03_qvio-ctl/main.cpp opens the device and serves jobs: `OpenVidRx`, `Run` and the loop of
-- `VidUserJobHandling`. The descriptors and what the calls return are arguments, as for samples/04_qviod.
use v4l2_tuto.Prelude.{
  refl, arith, ◌≡◌, ℕ, Bool, true, false, ltb, Option, none, some, List, [], ◌∷◌, ◌++◌,
  if◌then◌else◌,
}
use v4l2_tuto.Kernel.{Ret, is_set, is_neg}
use v4l2_tuto.Qvio.UserJob.{
  queue_setup, num_buffers, Job, Ctrl, Outcome, returned, job_get, job_done, file_ioctl, file_poll,
}
use v4l2_tuto.DeferredTasks.{flush}
use v4l2_tuto.Qviod
use v4l2_tuto.Qviod.{RoundCalls, answer_to}
use v4l2_tuto.QvioCtl.{Handled, handled, thrown, handle_job}
use v4l2_tuto.QvioCtl.Schedule.{Daemon, with_task}

-- `nVidFd` and `nVidUserJobFd`, and the closes so far.
pub record Descriptors : Type 0 where
  pub vid_fd : Option ℕ
  pub vid_user_job_fd : Option Ret
  pub closed : List ℕ

abbrev close_vid : ℕ → Descriptors → Descriptors
close_vid n s = record s { vid_fd = none; closed = s.closed ++ n ∷ [] }

abbrev close_user_job : Descriptors → Descriptors
close_user_job s = record s { vid_user_job_fd = none }

-- `App::OpenVidRx`, with the closures that it pushes.
unfoldable pub open_vid_rx :
    (opened : Option ℕ)
    → (ret fd : Ret) → Descriptors
    → Descriptors × List (Descriptors → Descriptors)
open_vid_rx opened ret fd s = elim s.vid_fd [
  | some n ↦ (s, [])
  | none ↦ elim opened [
    | none ↦ (s, [])
    | some n ↦ if is_set ret then (record s { vid_fd = some n }, close_vid n ∷ []) else (
      record s { vid_fd = some n; vid_user_job_fd = some fd },
      close_user_job ∷ close_vid n ∷ [],
    )
  ]
]

-- `App::Run`, whose loop leaves the descriptors alone; the flush runs the closures, the last first.
unfoldable pub run : (opened : Option ℕ) → (ret fd : Ret) → Descriptors
unfolding flush open_vid_rx
run opened ret fd =
    let (s, fs) =
      open_vid_rx opened ret fd (record { vid_fd = none; vid_user_job_fd = none; closed = [] }) in
    flush fs s

abbrev closed_of : Option ℕ → List ℕ
closed_of none = []
closed_of (some n) = n ∷ []

-- `Run` leaves no descriptor open, and closes the device once if it was opened.
pub run-closed :
    (opened : Option ℕ) (ret fd : Ret)
    → run opened ret fd
      ≡ record { vid_fd = none; vid_user_job_fd = none; closed = closed_of opened }
unfolding run
run-closed none ret fd = refl
run-closed (some n) ret fd = ground arith

-- A round ends with the next one, or with the end of the loop; `broken` is an exception, or a read of no entry
-- in the driver.
pub data Turn : Type 0 where
  next left : Daemon → Ctrl → Turn
  broken : Turn

finish_round : Daemon → Outcome Job → Turn
finish_round d (returned c o ret) = if is_set ret then left d c else next d c
finish_round d Outcome.fault = broken

answer_job : RoundCalls → Job → Daemon → Ctrl → Handled → Turn
unfolding finish_round file_ioctl
answer_job k j d c thrown = broken
answer_job k j d c (handled a t) =
    finish_round (record { app = a; pending = with_task d.pending t })
      (file_ioctl c (job_done k.done_allocated k.done_copied (answer_to k.words j)))

serve_job : RoundCalls → Daemon → Outcome Job → Turn
unfolding handle_job answer_job
serve_job k d (returned c none ret) = left d c
serve_job k d (returned c (some j) ret) =
    if is_set ret then left d c else answer_job k j d c (handle_job j d.app)
serve_job k d Outcome.fault = broken

-- One round of the loop in `App::VidUserJobHandling`.
unfoldable pub serve_round : RoundCalls → Daemon → Ctrl → Turn
unfolding serve_job file_ioctl file_poll
serve_round k d c =
    if is_neg k.select
    then left d c
    else if k.quit
    then left d c
    else if file_poll c
    then serve_job k d (file_ioctl c (job_get k.get_copied))
    else next d c

-- What the driver sees of a round: whether the daemon serves on, and the channel.
abbrev pub seen : Turn → Option (Bool × Ctrl)
seen (next d c) = some (true, c)
seen (left d c) = some (false, c)
seen broken = none

abbrev pub seen_of_qviod : Qviod.Turn → Option (Bool × Ctrl)
seen_of_qviod (Qviod.next a c) = some (true, c)
seen_of_qviod (Qviod.left a c) = some (false, c)
seen_of_qviod Qviod.broken = none

-- A count of buffers that a vector can have.
abbrev pub small : Job → Bool
small j = elim j.id [
  | queue_setup ↦ elim j.args [ num_buffers n ↦ ltb n 2147483648 | _ ↦ true ]
  | _ ↦ true
]

abbrev pub small_first : List Job → Bool
small_first [] = true
small_first (j ∷ js) = small j
