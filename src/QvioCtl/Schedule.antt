-- ===== src/QvioCtl/Schedule.antt =====
-- The two threads of samples/03_qvio-ctl/main.cpp that handle jobs and run tasks, as a schedule of their
-- steps. A signal reaches the queue of tasks with each task.
use v4l2_tuto.Prelude.{Option, none, some, List, [], ◌∷◌, ◌++◌}
use v4l2_tuto.Qvio.UserJob.{Job}
use v4l2_tuto.QvioCtl.{
  App, Task, TaskCalls, Handled, handled, thrown, Ran, ran, sleeps, fault, handle_job, run_task,
}

-- The program and the tasks that wait in `oDeferredTasks`.
pub record Daemon : Type 0 where
  pub app : App
  pub pending : List Task

-- A job is handled, or the thread of deferred tasks takes the next one and runs it.
pub data Event : Type 0 where
  job : Job → Event
  turn : TaskCalls → Event

abbrev pub with_task : List Task → Option Task → List Task
with_task ts none = ts
with_task ts (some t) = ts ++ t ∷ []

unfoldable pub finish_job : List Task → Handled → Option Daemon
finish_job ts (handled a t) = some (record { app = a; pending = with_task ts t })
finish_job ts thrown = none

finish_turn : List Task → Ran → Option Daemon
finish_turn ts (ran a) = some (record { app = a; pending = ts })
finish_turn ts sleeps = none
finish_turn ts fault = none

run_next : TaskCalls → List Task → App → Option Daemon
unfolding finish_turn
run_next c [] a = some (record { app = a; pending = [] })
run_next c (t ∷ ts) a = finish_turn ts (run_task c t a)

-- One step, `none` when a thread sleeps for good or does what C++ does not allow.
unfoldable pub step : Event → Daemon → Option Daemon
unfolding finish_job run_next
step (job j) d = finish_job d.pending (handle_job j d.app)
step (turn c) d = run_next c d.pending d.app

unfoldable pub steps : List Event → Daemon → Option Daemon
steps [] d = some d
steps (e ∷ es) d = elim (step e d) [ none ↦ none | some d' ↦ steps es d' ]
