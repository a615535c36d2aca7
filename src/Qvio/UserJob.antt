-- ===== src/Qvio/UserJob.antt =====
-- modules/qvio/user_job.c: the driver posts jobs to a daemon and waits for its answers. Each list
-- operation under its spin lock is one step; what an allocation or a copy from or to user space
-- returns is an argument, and so is what others do while a caller sleeps.
pub mod Channel
pub mod Request
pub mod Daemon
pub mod Teardown
use v4l2_tuto.Prelude.{
  ℕ, ◌+◌, ◌%◌, ◌^◌, Bool, true, false, not, Option, none, some, List, [], ◌∷◌, ◌++◌, u32,
  if◌then◌else◌, update,
}
use v4l2_tuto.Kernel.{Errno, einval, enomem, efault, erestartsys, Ret, neg, pos, success, is_set}
use v4l2_tuto.Qvio.Format.{Format}

-- `enum qvio_user_job_id`.
pub data JobId : Type 0 where
  s_fmt queue_setup buf_init buf_cleanup start_streaming stop_streaming buf_done : JobId

-- The union of `struct qvio_user_job`: a format, a number of buffers, a buffer's index, flags.
pub data JobArgs : Type 0 where
  format : Format → JobArgs
  num_buffers index flags : ℕ → JobArgs

-- `struct qvio_user_job`.
pub record Job : Type 0 where
  pub id : JobId
  pub sequence : ℕ
  pub args : JobArgs

-- `struct qvio_user_job_done`, as the daemon fills it in; `words` is its union.
pub record Done : Type 0 where
  pub id : ℕ
  pub sequence : ℕ
  pub words : List ℕ

-- `struct qvio_user_job_ctrl`, less its locks and wait queues.
pub record Ctrl : Type 0 where
  pub enable : Bool
  pub sequence : ℕ
  pub job_list : List Job
  pub done_list : List Done

-- `qvio_user_job_start`.
unfoldable pub user_job_start : Ctrl → Ctrl
user_job_start c = record { enable = true; sequence = 0; job_list = []; done_list = [] }

-- `__user_job_entry_new` and `__user_job_done_entry_new`: the error number is positive.
unfoldable pub user_job_entry_new : Bool → Ret
user_job_entry_new allocated = if allocated then success else pos enomem

unfoldable pub user_job_done_entry_new : Bool → Ret
user_job_done_entry_new allocated = if allocated then success else pos enomem

-- `ret = -err`.
abbrev pub negate : Ret → Ret
negate (Ret.value n) = Ret.value n
negate (neg e) = pos e
negate (pos e) = neg e

-- `__file_poll`: whether `EPOLLIN | EPOLLRDNORM` is reported.
unfoldable pub file_poll : Ctrl → Bool
file_poll c = elim c.job_list [ [] ↦ false | j ∷ js ↦ true ]

-- The test of `__ioctl_user_job_get`, made without the lock.
unfoldable pub get_check : Ctrl → Ret
get_check c = elim c.job_list [ [] ↦ neg efault | j ∷ js ↦ success ]

-- Its locked part; `none` is `list_first_entry` of an empty list, which is no entry.
unfoldable pub get_take : Ctrl → Option (Ctrl × Job)
get_take c = elim c.job_list [ [] ↦ none | j ∷ js ↦ some (record c { job_list = js }, j) ]

-- What the caller of an ioctl sees: a return code, and the entry that was removed, if any.
-- `fault` is a read of memory that holds no entry.
pub data Outcome (A : Type 0) : Type 0 where
  returned : Ctrl → Option A → Ret → Outcome A
  fault : Outcome A

get_finish : Bool → Option (Ctrl × Job) → Outcome Job
get_finish copied none = fault
get_finish copied (some (c, j)) = returned c (some j) (if copied then success else neg efault)

-- `__ioctl_user_job_get`, run with no other reader between its two parts.
unfoldable pub ioctl_user_job_get : Bool → Ctrl → Outcome Job
unfolding get_check get_take get_finish
ioctl_user_job_get copied c =
    if is_set (get_check c) then returned c none (get_check c) else get_finish copied (get_take c)

-- `__ioctl_user_job_done`.
unfoldable pub ioctl_user_job_done : (allocated copied : Bool) → Done → Ctrl → Ctrl × Ret
unfolding user_job_done_entry_new
ioctl_user_job_done allocated copied d c =
    if is_set (user_job_done_entry_new allocated)
    then (c, negate (user_job_done_entry_new allocated))
    else if not copied
    then (c, neg efault)
    else (record c { done_list = c.done_list ++ d ∷ [] }, success)

-- The commands of the job descriptor.
pub data Command : Type 0 where
  job_get : (copied : Bool) → Command
  job_done : (allocated copied : Bool) → Done → Command
  unknown : ℕ → Command

-- `__file_ioctl`.
unfoldable pub file_ioctl : Ctrl → Command → Outcome Job
unfolding ioctl_user_job_get ioctl_user_job_done
file_ioctl c (job_get copied) = ioctl_user_job_get copied c
file_ioctl c (job_done allocated copied d) =
    let (c', ret) = ioctl_user_job_done allocated copied d c in returned c' none ret
file_ioctl c (unknown n) = returned c none (neg einval)

-- `__do_user_job`.
unfoldable pub do_user_job : Ctrl → Job → Ctrl
do_user_job c j = record c { job_list = c.job_list ++ j ∷ [] }

-- The part of `__wait_for_user_job_done` behind `wait_event_interruptible`: the answer goes to the
-- caller's handler.
unfoldable pub wait_for_user_job_done : (interrupted : Bool) → Ctrl → Ctrl × Option Done × Ret
wait_for_user_job_done interrupted c =
    if interrupted then (c, none, neg erestartsys) else elim c.done_list [
      | [] ↦ (c, none, pos efault)
      | d ∷ ds ↦ (record c { done_list = ds }, some d, success)
    ]

-- `atomic_inc_return`, and the job whose `sequence` is its low 16 bits.
unfoldable pub post : Ctrl → JobId → JobArgs → Ctrl
unfolding do_user_job
post c id args =
    let n : ℕ = u32 (c.sequence + 1) in
    do_user_job (record c { sequence = n }) (record { id = id; sequence = n % 65536; args = args })

-- What the body of each `qvio_user_job_*` does. `others` is what the rest of the system does to the
-- channel while the caller sleeps, and whether a signal ended the sleep.
unfoldable pub request :
    (allocated : Bool) → (Ctrl → Ctrl × Bool) → JobId → JobArgs → Ctrl → Ctrl × Option Done × Ret
unfolding user_job_entry_new post wait_for_user_job_done
request allocated others id args c =
    if not c.enable
    then (c, none, success)
    else if is_set (user_job_entry_new allocated)
    then (c, none, user_job_entry_new allocated)
    else let (c', interrupted) = others (post c id args) in wait_for_user_job_done interrupted c'

module _ (allocated : Bool) (others : Ctrl → Ctrl × Bool) where
  unfoldable pub user_job_s_fmt : Format → Ctrl → Ctrl × Option Done × Ret
  unfolding request
  user_job_s_fmt f c = request allocated others s_fmt (format f) c

  unfoldable pub user_job_queue_setup : ℕ → Ctrl → Ctrl × Option Done × Ret
  unfolding request
  user_job_queue_setup n c = request allocated others queue_setup (num_buffers n) c

  unfoldable pub user_job_buf_init : ℕ → Ctrl → Ctrl × Option Done × Ret
  unfolding request
  user_job_buf_init i c = request allocated others buf_init (index i) c

  unfoldable pub user_job_buf_cleanup : ℕ → Ctrl → Ctrl × Option Done × Ret
  unfolding request
  user_job_buf_cleanup i c = request allocated others buf_cleanup (index i) c

  unfoldable pub user_job_start_streaming : Ctrl → Ctrl × Option Done × Ret
  unfolding request
  user_job_start_streaming c = request allocated others start_streaming (flags 0) c

  unfoldable pub user_job_stop_streaming : Ctrl → Ctrl × Option Done × Ret
  unfolding request
  user_job_stop_streaming c = request allocated others stop_streaming (flags 0) c

  unfoldable pub user_job_buf_done : ℕ → Ctrl → Ctrl × Option Done × Ret
  unfolding request
  user_job_buf_done i c = request allocated others buf_done (index i) c

-- One of the two loops of `qvio_user_job_stop`, over the addresses of the entries. It frees the entry
-- that `list_for_each_entry` then reads the next address from; `none` is that read of freed memory.
unfoldable pub free_entries : (ℕ → Bool) → List ℕ → Option (ℕ → Bool)
free_entries live [] = some live
free_entries live (p ∷ ps) =
    let live' : ℕ → Bool = update live p false in
    let rest = free_entries live' ps in if live' p then rest else none

-- `qvio_user_job_stop`, given the addresses of the jobs and of the answers.
unfoldable pub user_job_stop : (ℕ → Bool) → List ℕ → List ℕ → Option (ℕ → Bool)
unfolding free_entries
user_job_stop live jobs dones = elim (free_entries live jobs) [
  | none ↦ none
  | some live' ↦ free_entries live' dones
]
