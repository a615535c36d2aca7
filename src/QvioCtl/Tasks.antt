-- ===== src/QvioCtl/Tasks.antt =====
-- On the deferred tasks of samples/03_qvio-ctl/main.cpp: each leaves the account of mapped planes straight.
use v4l2_tuto.QvioCtl.{
  App, Plane, MmapBuffer, Task, TaskCalls, map_buffer, unmap_buffer, start_source, join_source, Ran,
  ran, run_task, mapped_planes, is_mapped, set_elem, zero_buffer, mapped_buffer,
}
use v4l2_tuto.Prelude.{
  Option-cases, inl, inr, Bool-cases, ℕ, ◌≡◌, refl, true, false, some, List, [], ◌∷◌, ◌++◌, length,
  get_elem?, arith,
}
use v4l2_tuto.QvioCtl.Usage.{Accounted, fits, sound_calls, is_empty, may_run}
use v4l2_tuto.QvioCtl.Table.{times, times-append, held-set_elem, length-set_elem, get_elem?-some}

-- An empty buffer adds nothing.
pub times-is_empty : (p : Plane) (xs : List Plane) → is_empty xs ≡ true → times p xs ≡ 0
times-is_empty p [] e = refl
times-is_empty p (x ∷ xs) e = absurd (ground (arith, e))

mapped-Accounted :
    (c : TaskCalls) (i : ℕ) (a : App) (b : MmapBuffer) (addr : ℕ)
    → get_elem? a.mbuffers i ≡ some b
    → is_mapped (record { vir_addr = addr; length = c.length }) ≡ true
    → is_empty (mapped_planes b.planes) ≡ true
    → Accounted a
    → let q : Plane = record { vir_addr = addr; length = c.length } in
      Accounted (record a {
        mbuffers = set_elem a.mbuffers i (mapped_buffer c.n_index q);
        mapped = a.mapped ++ q ∷ [];
      })
mapped-Accounted c i a b addr e m free acc p =
    let q : Plane = record { vir_addr = addr; length = c.length } in
    ground (
      arith,
      acc p,
      times-append p a.mapped (q ∷ []),
      times-is_empty p (mapped_planes b.planes) free,
      held-set_elem p a.mbuffers i b (mapped_buffer c.n_index q) e,
    )

zeroed-Accounted :
    (i n : ℕ) (a : App) (b : MmapBuffer)
    → get_elem? a.mbuffers i ≡ some b
    → is_empty (mapped_planes b.planes) ≡ true
    → Accounted a
    → Accounted (record a { mbuffers = set_elem a.mbuffers i (record zero_buffer { n_index = n }) })
zeroed-Accounted i n a b e free acc p = omega (
  arith,
  acc p,
  times-is_empty p (mapped_planes b.planes) free,
  held-set_elem p a.mbuffers i b (record zero_buffer { n_index = n }) e,
)

unmapped-Accounted :
    (i : ℕ) (a : App) (b : MmapBuffer)
    → get_elem? a.mbuffers i ≡ some b
    → Accounted a
    → Accounted (record a {
      mbuffers = set_elem a.mbuffers i zero_buffer;
      unmapped = a.unmapped ++ mapped_planes b.planes;
    })
unmapped-Accounted i a b e acc p = omega (
  arith,
  acc p,
  times-append p a.unmapped (mapped_planes b.planes),
  held-set_elem p a.mbuffers i b zero_buffer e,
)

abbrev pub Goes : App → Ran → Type 0
Goes a r = (a' : App) × (r ≡ ran a') × Accounted a' × (length a'.mbuffers ≡ length a.mbuffers)

run_unmap-Goes :
    (c : TaskCalls) (i : ℕ) (a : App) (b : MmapBuffer)
    → get_elem? a.mbuffers i ≡ some b
    → Accounted a
    → Goes a (run_task c (unmap_buffer i) a)
unfolding run_task
run_unmap-Goes c i a b e acc = (
  record a {
    mbuffers = set_elem a.mbuffers i zero_buffer;
    unmapped = a.unmapped ++ mapped_planes b.planes;
  },
  ground (arith, e),
  unmapped-Accounted i a b e acc,
  length-set_elem a.mbuffers i zero_buffer,
)

run_map-Goes :
    (c : TaskCalls) (i : ℕ) (a : App) (b : MmapBuffer)
    → get_elem? a.mbuffers i ≡ some b
    → sound_calls c ≡ true
    → is_empty (mapped_planes b.planes) ≡ true
    → Accounted a
    → Goes a (run_task c (map_buffer i) a)
unfolding run_task
run_map-Goes c i a b e sound free acc = elim (Bool-cases c.queried) [
  | inr q ↦ (a, ground (arith, q), acc, refl)
  | inl q ↦ elim (Option-cases c.address) [
    | inl h ↦
        let b' : MmapBuffer = record zero_buffer { n_index = c.n_index } in
        (
          record a { mbuffers = set_elem a.mbuffers i b' },
          ground (arith, q, e, h),
          zeroed-Accounted i c.n_index a b e free acc,
          length-set_elem a.mbuffers i b',
        )
    | inr (addr, h) ↦
        let p : Plane = record { vir_addr = addr; length = c.length } in
        let b' = mapped_buffer c.n_index p in
        (
          record a { mbuffers = set_elem a.mbuffers i b'; mapped = a.mapped ++ p ∷ [] },
          ground (arith, q, e, h),
          mapped-Accounted c i a b addr e (ground (arith, sound, h)) free acc,
          length-set_elem a.mbuffers i b',
        )
  ]
]

-- A task that may run does, and leaves the table as long as it was.
pub run_task-Goes :
    (c : TaskCalls) (t : Task) (a : App)
    → fits (length a.mbuffers) t ≡ true
    → may_run c a t ≡ true
    → Accounted a
    → Goes a (run_task c t a)
unfolding run_task
run_task-Goes c (map_buffer i) a f m acc =
    let (b, e) = get_elem?-some a.mbuffers i (ground (arith, f)) in
    run_map-Goes c i a b e (ground (arith, m)) (ground (arith, m, e)) acc
run_task-Goes c (unmap_buffer i) a f m acc =
    let (b, e) = get_elem?-some a.mbuffers i (ground (arith, f)) in run_unmap-Goes c i a b e acc
run_task-Goes c start_source a f m acc =
    (record a { vid_src_done = false; src_thread = true }, ground (arith, m), acc, refl)
run_task-Goes c join_source a f m acc =
    (record a { src_thread = false }, ground (arith, m), acc, refl)
