-- ===== src/Qvio/UserJob/Channel.antt =====
-- The channel of modules/qvio/user_job.c over histories of callers and the daemon.
use v4l2_tuto.Prelude.{
  ℕ, suc, ◌+◌, ◌%◌, ◌≡◌, refl, Bool, Option, none, some, List, [], ◌∷◌, ◌++◌, append_assoc,
  append-snoc, arith, length, length-append, u32, if◌then◌else◌,
}
use v4l2_tuto.Kernel.{is_set}
use v4l2_tuto.Qvio.UserJob.{
  JobId, JobArgs, Job, Done, Ctrl, Outcome, returned, fault, user_job_start, post,
  ioctl_user_job_get, ioctl_user_job_done, wait_for_user_job_done,
}

-- One atomic step of a caller or of the daemon: a caller posts a job, the daemon reads one, the
-- daemon answers, a caller wakes up.
pub data Event : Type 0 where
  posts : JobId → JobArgs → Event
  reads : (copied : Bool) → Event
  answers : (allocated copied : Bool) → Done → Event
  wakes : (interrupted : Bool) → Event

-- The channel, and all that ever went into and came out of its two lists.
pub record Trace : Type 0 where
  pub ctrl : Ctrl
  pub posted : List Job
  pub taken : List Job
  pub answered : List Done
  pub collected : List Done

read_step : Trace → Outcome Job → Trace
read_step t (returned c (some j) r) = record t { ctrl = c; taken = t.taken ++ j ∷ [] }
read_step t (returned c none r) = record t { ctrl = c }
read_step t fault = t

wake_step : Trace → Ctrl → Option Done → Trace
wake_step t c none = record t { ctrl = c }
wake_step t c (some d) = record t { ctrl = c; collected = t.collected ++ d ∷ [] }

unfoldable pub step : Trace → Event → Trace
unfolding read_step wake_step
step t (posts id args) = record t {
  ctrl = post t.ctrl id args;
  posted =
      t.posted ++ record { id = id; sequence = (t.ctrl.sequence + 1) % 65536; args = args } ∷ [];
}
step t (reads copied) = read_step t (ioctl_user_job_get copied t.ctrl)
step t (answers allocated copied d) =
    let (c, ret) = ioctl_user_job_done allocated copied d t.ctrl in
    record t { ctrl = c; answered = if is_set ret then t.answered else t.answered ++ d ∷ [] }
step t (wakes interrupted) =
    let (c, d, ret) = wait_for_user_job_done interrupted t.ctrl in wake_step t c d

unfoldable pub run : Trace → List Event → Trace
run t [] = t
run t (e ∷ es) = run (step t e) es

abbrev pub begin : Ctrl → Trace
begin c = record { ctrl = user_job_start c; posted = []; taken = []; answered = []; collected = [] }

-- The jobs behind the first `n` carry the numbers from `n + 1` on, modulo 2 ^ 16.
abbrev pub Numbered : ℕ → List Job → Type 0
Numbered n [] = Unit {0}
Numbered n (j ∷ js) = (j.sequence ≡ suc n % 65536) × Numbered (suc n) js

pub record Fifo (t : Trace) : Type 0 where
  pub jobs : t.posted ≡ t.taken ++ t.ctrl.job_list
  pub dones : t.answered ≡ t.collected ++ t.ctrl.done_list
  pub counted : t.ctrl.sequence ≡ u32 (length t.posted)
  pub numbered : Numbered 0 t.posted

Numbered-append :
    (n : ℕ) (js : List Job) (j : Job)
    → Numbered n js
    → j.sequence ≡ suc (n + length js) % 65536
    → Numbered n (js ++ j ∷ [])
Numbered-append n [] j h e = (omega arith, tt)
Numbered-append n (i ∷ js) j h e = (h.0, Numbered-append (suc n) js j h.1 (omega arith))

u32_low : (n : ℕ) → u32 (n + 1) % 65536 ≡ (n + 1) % 65536
u32_low n = omega arith

post-Fifo : (t : Trace) (id : JobId) (args : JobArgs) → Fifo t → Fifo (step t (posts id args))
unfolding step post
post-Fifo t id args v = record {
  jobs = rw (v.jobs, u32_low t.ctrl.sequence) (append_assoc t.taken t.ctrl.job_list _);
  dones = v.dones;
  counted = omega (arith, v.counted, length-append t.posted (_ ∷ []));
  numbered = Numbered-append 0 t.posted _ v.numbered (omega (arith, v.counted));
}

read-Fifo : (t : Trace) (copied : Bool) → Fifo t → Fifo (step t (reads copied))
unfolding step ioctl_user_job_get
read-Fifo t copied v = grind (arith, append-snoc)

step-Fifo : (t : Trace) (e : Event) → Fifo t → Fifo (step t e)
unfolding step ioctl_user_job_done wait_for_user_job_done
step-Fifo t (posts id args) v = post-Fifo t id args v
step-Fifo t (reads copied) v = read-Fifo t copied v
step-Fifo t (answers allocated copied d) v =
    ground (arith, append_assoc t.collected t.ctrl.done_list (d ∷ []))
step-Fifo t (wakes interrupted) v = grind (arith, append-snoc)

begin-Fifo : (c : Ctrl) → Fifo (begin c)
unfolding user_job_start
begin-Fifo c = record { jobs = refl; dones = refl; counted = refl; numbered = tt }

run_from-Fifo : (t : Trace) (es : List Event) → Fifo t → Fifo (run t es)
unfolding run
run_from-Fifo t [] v = v
run_from-Fifo t (e ∷ es) v = run_from-Fifo (step t e) es (step-Fifo t e v)

-- After any history from `qvio_user_job_start` on, the jobs that were posted are those that were
-- read and then those in the list, in order; the answers likewise; and the jobs are numbered from 1
-- on, modulo 2 ^ 16.
pub run-Fifo : (c : Ctrl) (es : List Event) → Fifo (run (begin c) es)
run-Fifo c es = run_from-Fifo (begin c) es (begin-Fifo c)
