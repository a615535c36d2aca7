-- ===== src/DeferredTasks.antt =====
-- samples/common/ZzDeferredTasks.cpp and the `FreeStack` of samples/common/ZzUtils.cpp: the queue of tasks
-- that a thread of its own runs, and the stack of closures that undo what was taken. The semaphore
-- behind `mTaskEvent` is a counter; whether its `write`, `read` and `select` succeed is an argument.
pub mod Drain
use v4l2_tuto.Prelude.{
  ℕ, zero, suc, ◌+◌, ◌-◌, Bool, true, false, not, ◌==◌, List, [], ◌∷◌, ◌++◌, if◌then◌else◌,
}

-- `FreeStack::Flush`: the closure pushed last runs first.
unfoldable pub flush {ℓ} : {S : Type ℓ} → List (S → S) → S → S
flush [] s = s
flush (f ∷ fs) s = flush fs (f s)

-- `struct ZzDeferredTasks`; `running` is whether its thread is there to be joined.
pub record Tasks {ℓ} (A : Type ℓ) : Type ℓ where
  pub event : ℕ
  pub queue : List A
  pub running : Bool

-- A turn of `Main`: it sleeps in `select`, leaves the loop, or has taken a task out to run it.
pub data Turn {ℓ} (A : Type ℓ) : Type ℓ where
  sleeps : Turn A
  leaves : Tasks A → Turn A
  takes : A → Tasks A → Turn A

-- What the calls of a turn return.
pub record TurnCalls : Type 0 where
  pub selected : Bool
  pub read : Bool

module _ {ℓ} {A : Type ℓ} where
  -- `ZzDeferredTasks::Start`; what is left in the queue stays there.
  unfoldable pub start : (eventfd : Bool) → Tasks A → Bool × Tasks A
  start eventfd d = if eventfd then (true, record d { event = 0; running = true }) else (false, d)

  -- `ZzDeferredTasks::AddTask`; the task stays in the queue when the `write` fails.
  unfoldable pub add_task : (written : Bool) → A → Tasks A → Tasks A
  add_task written t d =
      if written
      then record d { event = d.event + 1; queue = d.queue ++ t ∷ [] }
      else record d { queue = d.queue ++ t ∷ [] }

  -- `ZzDeferredTasks::Stop`, up to the `join`.
  unfoldable pub stop : (written : Bool) → Tasks A → Tasks A
  stop written d = if written then record d { event = d.event + 1 } else d

  -- The task at the front, under the lock; the loop ends when there is none.
  take_task : List A → Tasks A → Turn A
  take_task [] d = leaves d
  take_task (t ∷ ts) d = takes t (record d { queue = ts })

  -- One turn of the loop in `ZzDeferredTasks::Main`.
  unfoldable pub turn : TurnCalls → Tasks A → Turn A
  unfolding take_task
  turn c d =
      if not c.selected
      then leaves d
      else if d.event == 0
      then sleeps
      else if c.read
      then take_task d.queue (record d { event = d.event - 1 })
      else leaves d
