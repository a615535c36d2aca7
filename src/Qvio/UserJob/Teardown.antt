-- ===== src/Qvio/UserJob/Teardown.antt =====
-- `qvio_user_job_stop`, which takes the channel down.
use v4l2_tuto.Prelude.{ℕ, Bool, ◌≡◌, ◌↔◌, ◌≢◌, none, List, [], ◌∷◌, ◌++◌, arith}
use v4l2_tuto.Qvio.UserJob.{user_job_stop}

-- `qvio_user_job_stop` reads freed memory exactly when a job or an answer is left in its lists.
pub user_job_stop_faults :
    (live : ℕ → Bool) (jobs dones : List ℕ)
    → (user_job_stop live jobs dones ≡ none) ↔ (jobs ++ dones ≢ [])
unfolding user_job_stop
user_job_stop_faults live [] [] = ground arith
user_job_stop_faults live [] (d ∷ dones) = ground arith
user_job_stop_faults live (j ∷ jobs) dones = ground arith
