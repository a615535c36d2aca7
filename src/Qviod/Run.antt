-- ===== src/Qviod/Run.antt =====
-- A whole run of the daemon of samples/04_qviod/main.cpp: the loop of `VidUserJobHandling`, and `Run`. Between its
-- rounds the driver posts jobs and takes answers.
pub mod Closed
use v4l2_tuto.Prelude.{ℕ, Bool, false, not, Option, none, some, List, [], ◌∷◌, ◌++◌, if◌then◌else◌}
use v4l2_tuto.Kernel.{Ret}
use v4l2_tuto.DeferredTasks.{flush}
use v4l2_tuto.Qvio.UserJob.{JobId, JobArgs, Ctrl, post, wait_for_user_job_done}
use v4l2_tuto.Qviod.{App, RoundCalls, Turn, next, left, broken, open_vid_rx, round}

-- What the driver does: it posts a job, or a caller takes an answer.
pub data Move : Type 0 where
  posted : JobId → JobArgs → Move
  taken : Move

unfoldable pub moves : List Move → Ctrl → Ctrl
moves [] c = c
moves (posted id args ∷ ms) c = moves ms (post c id args)
moves (taken ∷ ms) c = moves ms (wait_for_user_job_done false c).0

unfoldable pub after_round : (App → Ctrl → Turn) → Turn → Turn
after_round rest (next a c) = rest a c
after_round rest (left a c) = left a c
after_round rest broken = broken

-- The loop of `App::VidUserJobHandling`, over what comes before each round and what its calls return.
unfoldable pub loop : List (List Move × RoundCalls) → App → Ctrl → Turn
unfolding moves after_round
loop [] a c = next a c
loop ((ms, k) ∷ es) a c = after_round (loop es) (round k a (moves ms c))

-- `App::VidUserJobHandling`, whose deferred tasks are started and stopped and get no task; `FD_SET` of -1 is undefined.
unfoldable pub handling : (started : Bool) → List (List Move × RoundCalls) → App → Ctrl → Turn
unfolding loop
handling started es a c =
    if not started
    then left a c
    else elim a.vid_user_job_fd [ none ↦ broken | some fd ↦ loop es a c ]

-- The closures of `App::OpenVidRx`, on the descriptors and the closes of the device so far.
abbrev pub close_user_job : App × List ℕ → App × List ℕ
close_user_job (a, closed) = (record a { vid_user_job_fd = none }, closed)

abbrev pub close_vid : App × List ℕ → App × List ℕ
close_vid (a, closed) = elim a.vid_fd [
  | none ↦ (a, closed)
  | some n ↦ (record a { vid_fd = none }, closed ++ n ∷ [])
]

abbrev pub closures : App → List (App × List ℕ → App × List ℕ)
closures a = elim a.vid_fd [
  | none ↦ []
  | some n ↦ elim a.vid_user_job_fd [
    | none ↦ close_vid ∷ []
    | some fd ↦ close_user_job ∷ close_vid ∷ []
  ]
]

-- How `Run` ends, or goes on.
pub data Ended : Type 0 where
  ended : App → (closed : List ℕ) → Ctrl → Ended
  serving : App → Ctrl → Ended
  undefined : Ended

unfoldable pub finish : List (App × List ℕ → App × List ℕ) → Turn → Ended
unfolding flush
finish fs (left a c) = let (a', closed) = flush fs (a, []) in ended a' closed c
finish fs (next a c) = serving a c
finish fs broken = undefined

-- `App::Run`, from an application without descriptors.
unfoldable pub run :
    (opened : Option ℕ)
    → (ret fd : Ret) → (started : Bool) → List (List Move × RoundCalls)
    → App
    → Ctrl
    → Ended
unfolding finish handling
run opened ret fd started es a c =
    let a' = open_vid_rx opened ret fd (record a { vid_fd = none; vid_user_job_fd = none }) in
    finish (closures a') (handling started es a' c)
