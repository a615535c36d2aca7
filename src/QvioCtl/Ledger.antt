-- ===== src/QvioCtl/Ledger.antt =====
-- On the table of mapped buffers of samples/03_qvio-ctl/main.cpp: what is mapped, held and unmapped.
use v4l2_tuto.QvioCtl.{
  vid_user_job_s_fmt, vid_user_job_queue_setup, vid_user_job_buf_init, vid_user_job_buf_cleanup,
  vid_user_job_start_streaming, vid_user_job_stop_streaming, vid_user_job_buf_done, take_source,
  in_range, in_range, vid_user_job_queue_setup, App, Task, TaskCalls, map_buffer, unmap_buffer,
  start_source, join_source, Handled, handled, thrown, handle_job, resize, zero_buffer,
}
use v4l2_tuto.QvioCtl.Schedule.{finish_job, with_task, Daemon, Event, job, turn, step, steps}
use v4l2_tuto.Prelude.{
  ℕ, ◌≡◌, refl, true, false, ◌&&◌, ltb, leb, Option, none, some, List, [], ◌∷◌, ◌++◌, length,
  if◌then◌else◌, arith,
}
use v4l2_tuto.Qvio.UserJob.{
  JobId, s_fmt, queue_setup, buf_init, buf_cleanup, start_streaming, stop_streaming, buf_done,
  JobArgs, format, num_buffers, index, Job,
}
use v4l2_tuto.QvioCtl.Usage.{
  Accounted, fits, all_fit, is_empty, no_task, kept_job, keeps, all_keep, Sound,
}
use v4l2_tuto.QvioCtl.Tasks.{times-is_empty, run_task-Goes}
use v4l2_tuto.QvioCtl.Table.{held, dropped, held-resize}

abbrev Continues : Option Daemon → Type 0
Continues r = (d : Daemon) × (r ≡ some d) × Sound d

turn-Sound :
    (c : TaskCalls) (ts : List Task) (d : Daemon)
    → d.pending ≡ ts
    → Sound d
    → keeps d (turn c) ≡ true
    → Continues (step (turn c) d)
unfolding step
turn-Sound c [] d e s k = (d, ground (arith, e), s)
turn-Sound c (t ∷ ts) d e s k =
    let (a, ok, acc, len) =
      run_task-Goes c t d.app (ground (arith, s.fit, e)) (ground (arith, k, e)) s.accounted in
    (
      record { app = a; pending = ts },
      ground (arith, ok, e),
      record { accounted = acc; fit = rw len (ground (arith, s.fit, e)) },
    )

all_fit-append :
    (n : ℕ) (ts : List Task) (t : Task)
    → all_fit n ts ≡ true
    → fits n t ≡ true
    → all_fit n (ts ++ t ∷ []) ≡ true
all_fit-append n [] t e f = ground (arith, f)
all_fit-append n (u ∷ ts) t e f = ground (arith, f, e, all_fit-append n ts t)

resize-Accounted :
    (n : ℕ) (a : App)
    → is_empty (held (dropped n a.mbuffers)) ≡ true
    → Accounted a
    → Accounted (record a { mbuffers = resize n zero_buffer a.mbuffers })
resize-Accounted n a e acc p =
    omega
      (arith, acc p, held-resize p n a.mbuffers, times-is_empty p (held (dropped n a.mbuffers)) e)

-- A job without a change of the table, and with a task that fits.
same_table :
    (d : Daemon) (a : App) (t : Option Task)
    → Sound d
    → Accounted a
    → (a.mbuffers ≡ d.app.mbuffers)
    → ((u : Task) → t ≡ some u → fits (length d.app.mbuffers) u ≡ true)
    → Sound (record { app = a; pending = with_task d.pending t })
same_table d a none s acc e h = record { accounted = acc; fit = rw e s.fit }
same_table d a (some u) s acc e h = record {
  accounted = acc;
  fit = rw e (all_fit-append _ d.pending u s.fit (h u refl));
}

-- What a job leaves.
abbrev Serves : Daemon → Handled → Type 0
Serves d thrown = ⊥
Serves d (handled a t) = Sound (record { app = a; pending = with_task d.pending t })

map_fits :
    (a : App) (i : ℕ) (u : Task)
    → (if in_range a i then some (map_buffer i) else none) ≡ some u
    → fits (length a.mbuffers) u ≡ true
map_fits a i u e = ground (arith, e)

unmap_fits :
    (a : App) (i : ℕ) (u : Task)
    → (if in_range a i then some (unmap_buffer i) else none) ≡ some u
    → fits (length a.mbuffers) u ≡ true
unmap_fits a i u e = ground (arith, e)

below_limit : (n : ℕ) → ltb n 2147483648 ≡ true → leb 2147483648 n ≡ false
below_limit n h = ground (arith, h)

no_task_fits : (n : ℕ) (ts : List Task) → no_task ts ≡ true → all_fit n (with_task ts none) ≡ true
no_task_fits n [] e = refl
no_task_fits n (t ∷ ts) e = absurd (ground (arith, e))

setup_Serves :
    (d : Daemon) (n : ℕ)
    → Sound d
    → (ltb n 2147483648 && (no_task d.pending && is_empty (held (dropped n d.app.mbuffers)))) ≡ true
    → Serves d (vid_user_job_queue_setup (num_buffers n) d.app)
unfolding vid_user_job_queue_setup
setup_Serves d n s k = rw (below_limit n (ground (arith, k))) (record {
  accounted = resize-Accounted n d.app (ground (arith, k)) s.accounted;
  fit = no_task_fits _ d.pending (ground (arith, k));
})

keeps-Serves :
    (d : Daemon) (id : JobId) (args : JobArgs) (n : ℕ)
    → let j : Job = record { id = id; sequence = n; args = args } in
      kept_job d j ≡ true → Sound d → Serves d (handle_job j d.app)
unfolding handle_job vid_user_job_s_fmt vid_user_job_queue_setup vid_user_job_buf_init
    vid_user_job_buf_cleanup vid_user_job_start_streaming vid_user_job_stop_streaming
    vid_user_job_buf_done
keeps-Serves d s_fmt (format f) n k s =
    same_table d (record (d.app) { vid_dst_format = f }) none s s.accounted refl
      (λ u e. absurd (ground (arith, e)))
keeps-Serves d queue_setup (num_buffers m) n k s = setup_Serves d m s k
keeps-Serves d buf_init (index i) n k s = same_table d d.app _ s s.accounted refl (map_fits d.app i)
keeps-Serves d buf_cleanup (index i) n k s =
    same_table d d.app _ s s.accounted refl (unmap_fits d.app i)
keeps-Serves d start_streaming args n k s =
    same_table d d.app (some start_source) s s.accounted refl (λ u e. ground (arith, e))
keeps-Serves d stop_streaming args n k s =
    same_table d (record (d.app) { vid_src_done = true }) (some join_source) s s.accounted refl
      (λ u e. ground (arith, e))
keeps-Serves d buf_done args n k s =
    same_table d (record (d.app) { src_buffer_q = (take_source d.app.src_buffer_q).1 }) none s
      s.accounted refl (λ u e. absurd (ground (arith, e)))
keeps-Serves d s_fmt _ n k s =
    same_table d d.app none s s.accounted refl (λ u e. absurd (ground (arith, e)))
keeps-Serves d queue_setup _ n k s =
    same_table d d.app none s s.accounted refl (λ u e. absurd (ground (arith, e)))
keeps-Serves d buf_init _ n k s =
    same_table d d.app none s s.accounted refl (λ u e. absurd (ground (arith, e)))
keeps-Serves d buf_cleanup _ n k s =
    same_table d d.app none s s.accounted refl (λ u e. absurd (ground (arith, e)))

Serves-Continues : (d : Daemon) (h : Handled) → Serves d h → Continues (finish_job d.pending h)
unfolding finish_job
Serves-Continues d (handled a t) s = (record { app = a; pending = with_task d.pending t }, refl, s)
Serves-Continues d thrown s = absurd s

step-Sound : (e : Event) (d : Daemon) → keeps d e ≡ true → Sound d → Continues (step e d)
unfolding step
step-Sound (job j) d k s =
    Serves-Continues d (handle_job j d.app) (keeps-Serves d j.id j.args j.sequence k s)
step-Sound (turn c) d k s = turn-Sound c d.pending d refl s k

-- The daemon handles jobs and runs deferred tasks in any order. The table of buffers changes its size only
-- while no task waits and only by entries that hold no mapping; a buffer is mapped into an entry that holds
-- none; `mmap` gives an address for a length that is not 0; and the camera's thread starts and is joined
-- when that is allowed and ends. Then no step fails, each waiting task is for an entry of the table, and
-- each plane was mapped as often as it was unmapped and is held: when the table holds nothing, all that was
-- mapped is unmapped, once.
pub steps-Sound :
    (es : List Event) (d : Daemon)
    → Sound d
    → all_keep es d ≡ true
    → (d' : Daemon) × (steps es d ≡ some d') × Sound d'
unfolding steps all_keep
steps-Sound [] d s k = (d, refl, s)
steps-Sound (e ∷ es) d s k =
    let (d', eq, s') = step-Sound e d (ground (arith, k)) s in
    let (d'', eq', s'') = steps-Sound es d' s' (ground (arith, k, eq)) in
    (d'', ground (arith, eq, eq'), s'')
