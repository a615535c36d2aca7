-- ===== src/QvioCtl/Usage.antt =====
-- How the driver uses the daemon of samples/03_qvio-ctl/main.cpp: the order of its jobs, and what the
-- kernel promises to the tasks.
use v4l2_tuto.QvioCtl.Schedule.{Daemon, Event, job, turn, step}
use v4l2_tuto.Prelude.{
  ℕ, ◌+◌, ◌≡◌, Bool, true, false, not, ◌&&◌, ltb, none, some, List, [], ◌∷◌, length, get_elem?,
}
use v4l2_tuto.Qvio.UserJob.{queue_setup, num_buffers, Job}
use v4l2_tuto.QvioCtl.{
  App, Plane, MmapBuffer, Task, TaskCalls, map_buffer, unmap_buffer, start_source, join_source,
  mapped_planes, is_mapped,
}
use v4l2_tuto.QvioCtl.Table.{times, held, dropped}

-- Each plane is mapped as often as it is unmapped and held.
abbrev pub Accounted : App → Type 0
Accounted a = (p : Plane) → times p a.mapped ≡ times p a.unmapped + times p (held a.mbuffers)

-- A task of `VidUserJob_BUF_INIT` or `VidUserJob_BUF_CLEANUP` is for an entry of the table.
abbrev pub fits : ℕ → Task → Bool
fits n (map_buffer i) = ltb i n
fits n (unmap_buffer i) = ltb i n
fits n start_source = true
fits n join_source = true

abbrev pub all_fit : ℕ → List Task → Bool
all_fit n [] = true
all_fit n (t ∷ ts) = fits n t && all_fit n ts

-- `mmap` gives an address, and fails for no length.
abbrev pub sound_calls : TaskCalls → Bool
sound_calls c = elim c.address [
  | none ↦ true
  | some addr ↦ is_mapped (record { vir_addr = addr; length = c.length })
]

abbrev pub is_empty : List Plane → Bool
is_empty [] = true
is_empty (p ∷ ps) = false

abbrev pub is_free : List MmapBuffer → ℕ → Bool
is_free bs i = elim (get_elem? bs i) [ none ↦ false | some b ↦ is_empty (mapped_planes b.planes) ]

-- What a task relies on.
abbrev pub may_run : TaskCalls → App → Task → Bool
may_run c a (map_buffer i) = sound_calls c && is_free a.mbuffers i
may_run c a (unmap_buffer i) = true
may_run c a start_source = not a.src_thread
may_run c a join_source = a.src_thread && c.thread_ends

-- The step keeps to the protocol: the table gets another size only when no task waits and the entries cut off
-- hold nothing, and a buffer is mapped only into an entry that holds nothing.
abbrev pub no_task : List Task → Bool
no_task [] = true
no_task (t ∷ ts) = false

abbrev pub kept_job : Daemon → Job → Bool
kept_job d j = elim j.id [
  | queue_setup ↦ elim j.args [
    | num_buffers n ↦
        ltb n 2147483648 && (no_task d.pending && is_empty (held (dropped n d.app.mbuffers)))
    | _ ↦ true
  ]
  | _ ↦ true
]

abbrev pub keeps : Daemon → Event → Bool
keeps d (job j) = kept_job d j
keeps d (turn c) = elim d.pending [ [] ↦ true | t ∷ ts ↦ may_run c d.app t ]

unfoldable pub all_keep : List Event → Daemon → Bool
all_keep [] d = true
all_keep (e ∷ es) d = keeps d e && elim (step e d) [ none ↦ true | some d' ↦ all_keep es d' ]

pub record Sound (d : Daemon) : Type 0 where
  pub accounted : Accounted d.app
  pub fit : all_fit (length d.app.mbuffers) d.pending ≡ true
