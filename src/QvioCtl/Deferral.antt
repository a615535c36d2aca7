-- ===== src/QvioCtl/Deferral.antt =====
-- On the order of the two threads of samples/03_qvio-ctl/main.cpp: when a deferred task runs, and when that
-- matters.
use v4l2_tuto.Prelude.{
  ℕ, ◌≡◌, refl, sym, ◌∙◌, Option, none, some, List, [], ◌∷◌, ◌++◌, length, arith, Option-cases, inl,
  inr,
}
use v4l2_tuto.Qvio.UserJob.{buf_init, buf_cleanup, index, Job}
use v4l2_tuto.QvioCtl.{
  App, Task, TaskCalls, map_buffer, unmap_buffer, start_source, join_source, handled, thrown, ran,
  sleeps, fault, handle_job, run_task, zero_buffer, mapped_buffer, run_map, run_unmap, finish_map,
  run_start, run_join, vid_user_job_buf_init, vid_user_job_buf_cleanup,
}
use v4l2_tuto.QvioCtl.Table.{length-set_elem}

-- A buffer's job, with what the calls of its task will return.
pub data BufferJob : Type 0 where
  init cleanup : ℕ → TaskCalls → BufferJob

abbrev pub job_of : BufferJob → Job
job_of (init i c) = record { id = buf_init; sequence = i; args = index i }
job_of (cleanup i c) = record { id = buf_cleanup; sequence = i; args = index i }

abbrev pub calls_of : BufferJob → TaskCalls
calls_of (init i c) = c
calls_of (cleanup i c) = c

-- A task with what its calls return.
abbrev pub Deferred : Type 0
Deferred = TaskCalls × Task

abbrev pub run_deferred : Deferred → App → Option App
run_deferred (c, t) a = elim (run_task c t a) [ ran a' ↦ some a' | sleeps ↦ none | fault ↦ none ]

-- The tasks that wait run to the last.
unfoldable pub drain : List Deferred → Option App → Option App
drain [] r = r
drain (t ∷ ts) none = none
drain (t ∷ ts) (some a) = drain ts (run_deferred t a)

-- Handling the job: what it adds to the tasks, and its immediate effect.
abbrev pub handle : BufferJob → App → App × List Deferred
handle b a = elim (handle_job (job_of b) a) [
  | handled a' none ↦ (a', [])
  | handled a' (some t) ↦ (a', (calls_of b, t) ∷ [])
  | thrown ↦ (a, [])
]

-- What may happen next: a job, or a turn of the tasks' thread.
pub data Next : Type 0 where
  serves : BufferJob → Next
  turns : Next

-- The program as it is written: tasks wait until their thread turns.
unfoldable pub deferred : List Next → App → List Deferred → Option App
unfolding drain
deferred [] a ts = drain ts (some a)
deferred (serves b ∷ ns) a ts = deferred ns (handle b a).0 (ts ++ (handle b a).1)
deferred (turns ∷ ns) a [] = deferred ns a []
deferred (turns ∷ ns) a (t ∷ ts) = elim (run_deferred t a) [
  | none ↦ none
  | some a' ↦ deferred ns a' ts
]

-- A program that does each job's task at once.
unfoldable pub at_once : List Next → Option App → Option App
unfolding drain
at_once [] r = r
at_once (turns ∷ ns) r = at_once ns r
at_once (serves b ∷ ns) none = none
at_once (serves b ∷ ns) (some a) = at_once ns (drain (handle b a).1 (some (handle b a).0))

at_once_failed : (ns : List Next) → at_once ns none ≡ none
unfolding at_once
at_once_failed [] = refl
at_once_failed (turns ∷ ns) = at_once_failed ns
at_once_failed (serves b ∷ ns) = refl

drain_failed : (ts : List Deferred) → drain ts none ≡ none
unfolding drain
drain_failed [] = refl
drain_failed (t ∷ ts) = refl

drain-append : (ts us : List Deferred) (r : Option App) → drain (ts ++ us) r ≡ drain us (drain ts r)
unfolding drain
drain-append [] us r = refl
drain-append (t ∷ ts) us none = sym (drain_failed us)
drain-append (t ∷ ts) us (some a) = drain-append ts us (run_deferred t a)

-- handling a buffer job changes nothing but the tasks, and those depend on the table's size only.
handle_app : (b : BufferJob) (a : App) → (handle b a).0 ≡ a
unfolding handle_job vid_user_job_buf_init vid_user_job_buf_cleanup
handle_app (init i c) a = ground arith
handle_app (cleanup i c) a = ground arith

handle_size :
    (b : BufferJob) (a a' : App)
    → length a.mbuffers ≡ length a'.mbuffers
    → (handle b a).1 ≡ (handle b a').1
unfolding handle_job vid_user_job_buf_init vid_user_job_buf_cleanup
handle_size (init i c) a a' e = ground (arith, e)
handle_size (cleanup i c) a a' e = ground (arith, e)

run_task_size :
    (c : TaskCalls) (t : Task) (a a' : App)
    → run_deferred (c, t) a ≡ some a'
    → length a'.mbuffers ≡ length a.mbuffers
unfolding run_task run_map run_unmap finish_map run_start run_join
run_task_size c (map_buffer i) a a' e = elim (Option-cases c.address) [
  | inl h ↦
      ground
        (arith, e, h, length-set_elem a.mbuffers i (record zero_buffer { n_index = c.n_index }))
  | inr (addr, h) ↦ ground (
    arith,
    e,
    h,
    length-set_elem a.mbuffers i
        (mapped_buffer c.n_index (record { vir_addr = addr; length = c.length })),
  )
]
run_task_size c (unmap_buffer i) a a' e =
    ground (arith, e, length-set_elem a.mbuffers i zero_buffer)
run_task_size c start_source a a' e = ground (arith, e)
run_task_size c join_source a a' e = ground (arith, e)

drain_size :
    (ts : List Deferred) (a a' : App)
    → drain ts (some a) ≡ some a'
    → length a'.mbuffers ≡ length a.mbuffers
unfolding drain
drain_size [] a a' e = ground (arith, e)
drain_size (t ∷ ts) a a' e = elim (Option-cases (run_deferred t a)) [
  | inl h ↦ absurd (ground (arith, e, h, drain_failed ts))
  | inr (b, h) ↦ drain_size ts b a' (ground (arith, e, h)) ∙ run_task_size t.0 t.1 a b h
]

-- A job for which tasks wait, and the same job once they have run.
serve_drained :
    (b : BufferJob) (ns : List Next) (a : App) (ts : List Deferred)
    → at_once ns (drain (ts ++ (handle b a).1) (some a))
      ≡ at_once (serves b ∷ ns) (drain ts (some a))
unfolding at_once
serve_drained b ns a ts = elim (Option-cases (drain ts (some a))) [
  | inl h ↦
      rw (drain-append ts (handle b a).1 (some a), h, drain_failed (handle b a).1)
        (at_once_failed ns)
  | inr (a', h) ↦
      rw
        (
          drain-append ts (handle b a).1 (some a),
          h,
          handle_app b a',
          handle_size b a a' (sym (drain_size ts a a' h)),
        )
        refl
]

-- Jobs that initialise and clean up buffers are handled while the tasks' thread makes its turns in between,
-- at any time, and then runs the tasks that are left. The outcome, a failure included, is that of a program
-- without a second thread, which runs the tasks that waited at the start and then each job's task at once.
pub deferred-at_once :
    (ns : List Next) (a : App) (ts : List Deferred)
    → deferred ns a ts ≡ at_once ns (drain ts (some a))
unfolding deferred at_once
deferred-at_once [] a ts = refl
deferred-at_once (serves b ∷ ns) a ts =
    rw (handle_app b a) (deferred-at_once ns a (ts ++ (handle b a).1) ∙ serve_drained b ns a ts)
deferred-at_once (turns ∷ ns) a [] = deferred-at_once ns a []
deferred-at_once (turns ∷ ns) a (t ∷ ts) = elim (Option-cases (run_deferred t a)) [
  | inl h ↦ ground (arith, h, drain_failed ts, at_once_failed ns)
  | inr (b, h) ↦ ground (arith, h, deferred-at_once ns b ts)
]
