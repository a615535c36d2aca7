-- ===== src/Qviod.antt =====
-- samples/04_qviod/main.cpp: the daemon behind the job descriptor. The driver's side of the descriptor is that of
-- modules/qvio/user_job.c; what `open`, `select` and the copies return is an argument.
pub mod Agreement
pub mod Run
use v4l2_tuto.Prelude.{ℕ, Bool, true, false, not, ◌&&◌, Option, none, some, List, if◌then◌else◌}
use v4l2_tuto.Kernel.{Ret, success, is_set, is_neg}
use v4l2_tuto.Qvio.Format.{Format}
use v4l2_tuto.Qvio.UserJob.{
  JobId, s_fmt, queue_setup, buf_init, buf_cleanup, start_streaming, stop_streaming, buf_done,
  JobArgs, format, Job, Done, Ctrl, Outcome, returned, job_get, job_done, file_ioctl, file_poll,
}

-- `struct App`: its two descriptors, `none` for -1, and the format that it was told.
pub record App : Type 0 where
  pub vid_fd : Option ℕ
  pub vid_user_job_fd : Option Ret
  pub vid_dst_format : Format

-- `App::OpenVidRx`: `opened` is the descriptor of the device, `ret` and `fd` what the request for the job
-- descriptor returns and stores.
unfoldable pub open_vid_rx : (opened : Option ℕ) → (ret fd : Ret) → App → App
open_vid_rx opened ret fd a = elim a.vid_fd [
  | some n ↦ a
  | none ↦ elim opened [
    | none ↦ a
    | some n ↦
        if is_set ret
        then record a { vid_fd = some n }
        else record a { vid_fd = some n; vid_user_job_fd = some fd }
  ]
]

-- The numbers of `enum qvio_user_job_id`.
abbrev pub job_number : JobId → ℕ
job_number s_fmt = 0
job_number queue_setup = 1
job_number buf_init = 2
job_number buf_cleanup = 3
job_number start_streaming = 4
job_number stop_streaming = 5
job_number buf_done = 6

-- `App::VidUserJob_S_FMT`; a job of this kind has a format in its union.
vid_user_job_s_fmt : JobArgs → App → App
vid_user_job_s_fmt (format f) a = record a { vid_dst_format = f }
vid_user_job_s_fmt _ a = a

-- The `switch` on the job; the other handlers only print.
unfoldable pub handle_job : Job → App → App
unfolding vid_user_job_s_fmt
handle_job j a = elim j.id [
  | s_fmt ↦ vid_user_job_s_fmt j.args a
  | queue_setup ↦ a
  | buf_init ↦ a
  | buf_cleanup ↦ a
  | start_streaming ↦ a
  | stop_streaming ↦ a
  | buf_done ↦ a
]

-- The answer; `words` is what its union happens to hold.
abbrev pub answer_to : List ℕ → Job → Done
answer_to words j = record { id = job_number j.id; sequence = j.sequence; words = words }

-- What a round of the loop meets: whether `select` fails, whether `q` was typed, the copies and the allocation in
-- the driver, and the union of the answer.
pub record RoundCalls : Type 0 where
  pub select : Ret
  pub quit : Bool
  pub get_copied : Bool
  pub done_allocated : Bool
  pub done_copied : Bool
  pub words : List ℕ

-- A round ends with the next one, or with the end of the loop; `broken` is a read of no entry in the driver.
pub data Turn : Type 0 where
  next left : App → Ctrl → Turn
  broken : Turn

-- From `QVID_IOC_USER_JOB_DONE` on.
finish_round : App → Outcome Job → Turn
finish_round a (returned c o ret) = if is_set ret then left a c else next a c
finish_round a Outcome.fault = broken

-- From the result of `QVID_IOC_USER_JOB_GET` on.
serve_job : RoundCalls → App → Outcome Job → Turn
unfolding handle_job finish_round file_ioctl
serve_job k a (returned c none ret) = left a c
serve_job k a (returned c (some j) ret) =
    if is_set ret
    then left a c
    else finish_round (handle_job j a)
        (file_ioctl c (job_done k.done_allocated k.done_copied (answer_to k.words j)))
serve_job k a Outcome.fault = broken

-- One round of the loop in `App::VidUserJobHandling`.
unfoldable pub round : RoundCalls → App → Ctrl → Turn
unfolding serve_job file_ioctl file_poll
round k a c =
    if is_neg k.select
    then left a c
    else if k.quit
    then left a c
    else if file_poll c
    then serve_job k a (file_ioctl c (job_get k.get_copied))
    else next a c
