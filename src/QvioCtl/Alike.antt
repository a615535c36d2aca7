-- ===== src/QvioCtl/Alike.antt =====
-- The daemons of samples/03_qvio-ctl/main.cpp and samples/04_qviod/main.cpp, as the driver sees them.
use v4l2_tuto.Prelude.{ℕ, ◌≡◌, refl, true, false, ltb, leb, Option, none, List, [], ◌∷◌, arith}
use v4l2_tuto.Qvio.UserJob.{
  JobId, s_fmt, queue_setup, buf_init, buf_cleanup, start_streaming, stop_streaming, buf_done,
  JobArgs, format, num_buffers, index, Job, Ctrl, file_ioctl, file_poll,
}
use v4l2_tuto.Qviod
use v4l2_tuto.Qviod.{RoundCalls, round, answer_to}
use v4l2_tuto.QvioCtl.{
  App, Task, handled, handle_job, resize, zero_buffer, vid_user_job_s_fmt, vid_user_job_queue_setup,
  vid_user_job_buf_init, vid_user_job_buf_cleanup, vid_user_job_start_streaming,
  vid_user_job_stop_streaming, vid_user_job_buf_done,
}
use v4l2_tuto.QvioCtl.Schedule.{Daemon}
use v4l2_tuto.QvioCtl.Serve.{serve_round, seen, seen_of_qviod, small, small_first}

-- The daemon's own work on a job, which ends without an exception.
setup_small : (m : ℕ) → ltb m 2147483648 ≡ true → leb 2147483648 m ≡ false
setup_small m h = ground (arith, h)

handle_job-small :
    (id : JobId) (args : JobArgs) (n : ℕ) (a : App)
    → let j : Job = record { id = id; sequence = n; args = args } in
      small j ≡ true → (a' : App) × (t : Option Task) × (handle_job j a ≡ handled a' t)
unfolding handle_job vid_user_job_s_fmt vid_user_job_queue_setup vid_user_job_buf_init
    vid_user_job_buf_cleanup vid_user_job_start_streaming vid_user_job_stop_streaming
    vid_user_job_buf_done
handle_job-small s_fmt (format f) n a h = (_, _, refl)
handle_job-small s_fmt _ n a h = (_, _, refl)
handle_job-small queue_setup (num_buffers m) n a h =
    (record a { mbuffers = resize m zero_buffer a.mbuffers }, none, rw (setup_small m h) refl)
handle_job-small queue_setup _ n a h = (_, _, refl)
handle_job-small buf_init (index i) n a h = (_, _, refl)
handle_job-small buf_init _ n a h = (_, _, refl)
handle_job-small buf_cleanup (index i) n a h = (_, _, refl)
handle_job-small buf_cleanup _ n a h = (_, _, refl)
handle_job-small start_streaming args n a h = (_, _, refl)
handle_job-small stop_streaming args n a h = (_, _, refl)
handle_job-small buf_done args n a h = (_, _, refl)

alike :
    (k : RoundCalls) (b : Qviod.App) (d : Daemon) (c : Ctrl) (js : List Job)
    → c.job_list ≡ js
    → small_first js ≡ true
    → seen (serve_round k d c) ≡ seen_of_qviod (round k b c)
unfolding serve_round round file_ioctl file_poll
alike k b d c [] e h = ground (arith, e)
alike k b d c (j ∷ js) e h =
    let (a, t, o) = handle_job-small j.id j.args j.sequence d.app h in ground (arith, e, o)

-- The two daemons are alike to the driver: in a round of its loop with the same outcomes of its calls, each
-- leaves the same channel and serves on or leaves its loop as the other does, unless the first job listed
-- asks for 2^31 buffers or more.
pub serve_round-round :
    (k : RoundCalls) (b : Qviod.App) (d : Daemon) (c : Ctrl)
    → small_first c.job_list ≡ true
    → seen (serve_round k d c) ≡ seen_of_qviod (round k b c)
serve_round-round k b d c h = alike k b d c c.job_list refl h
