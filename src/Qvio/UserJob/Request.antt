-- ===== src/Qvio/UserJob/Request.antt =====
-- Requests of the driver against a daemon that reads a job and answers it.
use v4l2_tuto.Prelude.{
  Bool-cases, ◌⊎◌, ℕ, ◌+◌, ◌%◌, ◌≡◌, Bool, true, false, not, ◌&&◌, none, some, List, [], ◌∷◌, ◌++◌,
  arith, List-cases, inl, inr, u32,
}
use v4l2_tuto.Kernel.{success, pos, neg, efault, enomem, erestartsys}
use v4l2_tuto.Qvio.UserJob.{
  JobId, JobArgs, Job, Done, Ctrl, Outcome, returned, fault, post, get_check, get_take,
  ioctl_user_job_get, ioctl_user_job_done, request,
}

-- The job that a request posts.
abbrev pub next_job : Ctrl → JobId → JobArgs → Job
next_job c id args = record { id = id; sequence = (c.sequence + 1) % 65536; args = args }

serve_outcome : (Job → Done) → Ctrl → Outcome Job → Ctrl
serve_outcome answer c (returned c' (some j) r) = (ioctl_user_job_done true true (answer j) c').0
serve_outcome answer c (returned c' none r) = c'
serve_outcome answer c fault = c

-- One round of the daemon: read a job with `QVID_IOC_USER_JOB_GET`, answer it with
-- `QVID_IOC_USER_JOB_DONE`.
unfoldable pub serve : (Job → Done) → Ctrl → Ctrl
unfolding serve_outcome
serve answer c = serve_outcome answer c (ioctl_user_job_get true c)

abbrev pub IsIdle : Ctrl → Type 0
IsIdle c = (c.enable ≡ true) × (c.job_list ≡ []) × (c.done_list ≡ [])

pub u32_low : (n : ℕ) → u32 (n + 1) % 65536 ≡ (n + 1) % 65536
u32_low n = omega arith

module _ (answer : Job → Done) where
  -- On an idle channel, a request that the daemon serves while the caller sleeps succeeds with the
  -- answer to its own job, and leaves the channel idle, one number further.
  pub request_served :
      (c : Ctrl) (id : JobId) (args : JobArgs)
      → IsIdle c
      → request true (λ c'. (serve answer c', false)) id args c ≡ (
        record c { sequence = u32 (c.sequence + 1) },
        some (answer (next_job c id args)),
        success,
      )
  unfolding request serve ioctl_user_job_get ioctl_user_job_done
  request_served c id args idle = ground (arith, u32_low c.sequence)

  -- If a signal ends the sleep of a first caller and the daemon answers its job afterwards, the next
  -- request on the channel returns at once with that answer, its own job still unread.
  pub request_stale :
      (c : Ctrl) (id id' : JobId) (args args' : JobArgs)
      → IsIdle c
      → let first = request true (λ c'. (c', true)) id args c in
        let late = serve answer first.0 in
        let second = request true (λ c'. (c', false)) id' args' late in
        (first.2 ≡ neg erestartsys)
        × (second.1 ≡ some (answer (next_job c id args)))
        × (second.2 ≡ success)
        × (second.0.job_list ≡ next_job late id' args' ∷ [])
  unfolding request serve ioctl_user_job_get ioctl_user_job_done
  request_stale c id id' args args' idle =
      ground (arith, u32_low c.sequence, u32_low (u32 (c.sequence + 1)))

-- Whatever the others do, a request on a disabled channel does nothing; one that cannot allocate
-- its entry posts nothing and returns the positive error number. One that a signal ends leaves its job
-- posted and takes no answer. One that is woken takes exactly the oldest answer that is there then, or
-- returns the positive `EFAULT` if there is none.
pub request_cases :
    (allocated : Bool) (others : Ctrl → Ctrl × Bool) (id : JobId) (args : JobArgs) (c : Ctrl)
    → let r = request allocated others id args c in
      let w = others (post c id args) in
      ((c.enable ≡ false) × (r ≡ (c, none, success)))
      ⊎ ((c.enable ≡ true) × (allocated ≡ false) × (r ≡ (c, none, pos enomem)))
      ⊎ ((c.enable ≡ true) × (allocated ≡ true) × (w.1 ≡ true) × (r ≡ (w.0, none, neg erestartsys)))
      ⊎ ((c.enable ≡ true)
          × (allocated ≡ true)
          × (w.1 ≡ false)
          × (w.0.done_list ≡ [])
          × (r ≡ (w.0, none, pos efault)))
      ⊎ ((c.enable ≡ true)
          × (allocated ≡ true)
          × (w.1 ≡ false)
          × ((d : Done) × (ds : List Done) × (w.0.done_list ≡ d ∷ ds)
              × (r ≡ (record (w.0) { done_list = ds }, some d, success))))
unfolding request
request_cases allocated others id args c = elim (List-cases (others (post c id args)).0.done_list) [
  | inl e ↦ ground arith
  | inr (d, ds, e) ↦ elim (Bool-cases (c.enable && allocated && not (others (post c id args)).1)) [
    | inl woken ↦
        inr (inr (inr (inr (ground arith, ground arith, ground arith, (d, ds, e, ground arith)))))
    | inr not_woken ↦ ground arith
  ]
]

-- `__ioctl_user_job_get` tests the list before it takes the lock. A single reader that passes the test
-- gets the oldest job, whatever was posted in between.
pub get_take-get_check :
    (c : Ctrl) (more : List Job)
    → get_check c ≡ success
    → (j : Job) × (js : List Job) × (c.job_list ≡ j ∷ js)
      × (get_take (record c { job_list = c.job_list ++ more })
          ≡ some (record c { job_list = js ++ more }, j))
unfolding get_check get_take
get_take-get_check c more h = elim (List-cases c.job_list) [
  | inl e ↦ absurd (ground arith)
  | inr (j, js, e) ↦ (j, js, e, ground arith)
]

-- Two readers that both pass the test while one job is there: the first takes it, and the second
-- takes the first entry of an empty list.
pub get_take_race :
    (c : Ctrl) (j : Job)
    → c.job_list ≡ j ∷ []
    → (get_check c ≡ success)
      × (get_take c ≡ some (record c { job_list = [] }, j))
      × (get_take (record c { job_list = [] }) ≡ none)
unfolding get_check get_take
get_take_race c j h = ground arith
