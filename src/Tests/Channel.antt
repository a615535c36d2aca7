-- ===== src/Tests/Channel.antt =====
-- The job channel at concrete inputs.
use v4l2_tuto.Prelude.{length, refl, [], false, Bool, List, true, ◌∷◌, ◌≡◌}
use v4l2_tuto.Qvio.UserJob.Channel.{
  wakes, answers, reads, posts, step, Event, run, begin, Fifo, run-Fifo,
}
use v4l2_tuto.Qvio.UserJob.{
  user_job_start, num_buffers, wait_for_user_job_done, ioctl_user_job_done, queue_setup, index,
  ioctl_user_job_get, buf_init, Job, Done, Ctrl, post,
}

abbrev pub idle : Ctrl
idle = record { enable = true; sequence = 7; job_list = []; done_list = [] }

abbrev pub answer : Job → Done
answer j = record { id = 3; sequence = j.sequence; words = 42 ∷ [] }

abbrev history : List Event
history =
    posts queue_setup (num_buffers 4)
    ∷ posts buf_init (index 0)
    ∷ reads true
    ∷ answers true true (record { id = 1; sequence = 1; words = 4 ∷ [] })
    ∷ wakes false
    ∷ reads true
    ∷ []

-- After this history one answer was collected, and no job is left.
history_ends :
    (length (run (begin idle) history).taken ≡ 2)
    × (length (run (begin idle) history).collected ≡ 1)
unfolding run step post ioctl_user_job_get ioctl_user_job_done wait_for_user_job_done user_job_start
history_ends = (refl, refl)

run-Fifo_example : Fifo (run (begin idle) history)
run-Fifo_example = run-Fifo idle history

abbrev one_answer : Ctrl → Ctrl × Bool
one_answer c = (record c { done_list = record { id = 3; sequence = 8; words = [] } ∷ [] }, false)

abbrev job : Job
job = record { id = buf_init; sequence = 8; args = index 0 }
