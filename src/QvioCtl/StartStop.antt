-- ===== src/QvioCtl/StartStop.antt =====
-- On `STOP_STREAMING` and `START_STREAMING` in samples/03_qvio-ctl/main.cpp: which of them has the last word on
-- `bVidSrcDone`.
use v4l2_tuto.Prelude.{ℕ, ◌≡◌, true, false, none, some, [], ◌∷◌, arith}
use v4l2_tuto.Qvio.UserJob.{start_streaming, stop_streaming, flags, Job}
use v4l2_tuto.QvioCtl.{
  App, TaskCalls, join_source, vid_user_job_start_streaming, vid_user_job_stop_streaming,
  handle_job, run_task, run_start, run_join,
}
use v4l2_tuto.QvioCtl.Schedule.{Daemon, job, turn, step, steps, finish_job}

abbrev pub start_job : ℕ → Job
start_job n = record { id = start_streaming; sequence = n; args = flags 0 }

abbrev pub stop_job : ℕ → Job
stop_job n = record { id = stop_streaming; sequence = n; args = flags 0 }

-- No camera's thread is there, and a job to start streaming is followed by one to stop it. If the task of
-- the first runs between the two, `bVidSrcDone` is set when the thread is to be joined. If it runs after
-- both, it clears `bVidSrcDone` again, and the next task, which joins the thread, sleeps for good unless
-- the thread ends for another reason.
pub start_stop_race :
    (a : App) (c d : TaskCalls) (n m : ℕ)
    → a.src_thread ≡ false
    → d.thread_ends ≡ false
    → let waiting : Daemon = record { app = a; pending = [] } in
      let late : Daemon = record {
        app = record a { vid_src_done = false; src_thread = true };
        pending = join_source ∷ [];
      } in
      (steps (job (start_job n) ∷ turn c ∷ job (stop_job m) ∷ []) waiting
        ≡ some (record {
          app = record a { vid_src_done = true; src_thread = true };
          pending = join_source ∷ [];
        }))
      × (steps (job (start_job n) ∷ job (stop_job m) ∷ turn c ∷ []) waiting ≡ some late)
      × (step (turn d) late ≡ none)
unfolding step steps handle_job vid_user_job_start_streaming vid_user_job_stop_streaming run_task
    run_start run_join finish_job
start_stop_race a c d n m e f = ground (arith, e, f)
