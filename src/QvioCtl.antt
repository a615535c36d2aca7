-- ===== src/QvioCtl.antt =====
-- samples/03_qvio-ctl/main.cpp: the daemon that maps the driver's buffers and scales the frames of a camera
-- into them. Its jobs come through the job descriptor of modules/qvio/user_job.c; mapping a buffer
-- and starting or ending the camera's thread are deferred to the queue of
-- samples/common/ZzDeferredTasks.cpp. What the calls into the kernel return is an argument.
pub mod Schedule
pub mod Table
pub mod Usage
pub mod Tasks
pub mod Serve
pub mod Alike
pub mod Runs
pub mod Ledger
pub mod StartStop
pub mod Deferral
pub mod Source
pub mod Copy
pub mod Pixels
use v4l2_tuto.Prelude.{
  ℕ, zero, suc, ◌+◌, Bool, true, false, not, ◌&&◌, ◌==◌, ltb, leb, Option, none, some, List, [],
  ◌∷◌, ◌++◌, length, get_elem?, if◌then◌else◌,
}
use v4l2_tuto.Qvio.Format.{Format}
use v4l2_tuto.Qvio.UserJob.{
  JobId, s_fmt, queue_setup, buf_init, buf_cleanup, start_streaming, stop_streaming, buf_done,
  JobArgs, format, num_buffers, index, Job,
}

-- An entry of `pVirAddr` with the one of `nLength`; no address and no length are 0.
pub record Plane : Type 0 where
  pub vir_addr : ℕ
  pub length : ℕ

-- `struct mmap_buffer`, with its four planes.
pub record MmapBuffer : Type 0 where
  pub n_index : ℕ
  pub planes : List Plane

abbrev pub zero_plane : Plane
zero_plane = record { vir_addr = 0; length = 0 }

-- A buffer after the `memset`.
abbrev pub zero_buffer : MmapBuffer
zero_buffer = record {
  n_index = 0;
  planes = zero_plane ∷ zero_plane ∷ zero_plane ∷ zero_plane ∷ [];
}

-- A buffer whose first plane is mapped.
abbrev pub mapped_buffer : ℕ → Plane → MmapBuffer
mapped_buffer i p = record { n_index = i; planes = p ∷ zero_plane ∷ zero_plane ∷ zero_plane ∷ [] }

-- The test of `VidUserJob_BUF_CLEANUP` on a plane.
abbrev pub is_mapped : Plane → Bool
is_mapped p = not (p.vir_addr == 0) && not (p.length == 0)

-- The planes that the loop of `VidUserJob_BUF_CLEANUP` unmaps.
abbrev pub mapped_planes : List Plane → List Plane
mapped_planes [] = []
mapped_planes (p ∷ ps) = let rest = mapped_planes ps in if is_mapped p then p ∷ rest else rest

module _ {ℓ} {A : Type ℓ} where
  -- `std::vector::resize` with a value.
  abbrev pub resize : ℕ → A → List A → List A
  resize zero x xs = []
  resize (suc n) x [] = x ∷ resize n x []
  resize (suc n) x (y ∷ ys) = y ∷ resize n x ys

  -- A vector with the entry at an index replaced.
  abbrev pub set_elem : List A → ℕ → A → List A
  set_elem [] i y = []
  set_elem (x ∷ xs) zero y = y ∷ xs
  set_elem (x ∷ xs) (suc i) y = x ∷ set_elem xs i y

-- The closures that the handlers add to `oDeferredTasks`.
pub data Task : Type 0 where
  map_buffer unmap_buffer : ℕ → Task
  start_source join_source : Task

-- `struct App`, without its descriptors. `src_buffer_q` holds the indices of the camera's buffers; a
-- joinable `oVidSrcThread` is `src_thread`. `mapped` and `unmapped` are what `mmap` returned and
-- `munmap` was called with so far.
pub record App : Type 0 where
  pub vid_dst_format : Format
  pub mbuffers : List MmapBuffer
  pub vid_src_done : Bool
  pub src_thread : Bool
  pub src_buffer_q : List ℕ
  pub mapped : List Plane
  pub unmapped : List Plane

-- What a handler does at once, with the task that it adds; it may end in an exception.
pub data Handled : Type 0 where
  handled : App → Option Task → Handled
  thrown : Handled

-- `nIndex >= 0 && nIndex < oMbuffers.size()`, where `nIndex` is an `int` from 32 bits.
abbrev pub in_range : App → ℕ → Bool
in_range a i = ltb i 2147483648 && ltb i (length a.mbuffers)

-- `App::VidUserJob_S_FMT`; a job of this kind has a format in its union.
vid_user_job_s_fmt : JobArgs → App → Handled
vid_user_job_s_fmt (format f) a = handled (record a { vid_dst_format = f }) none
vid_user_job_s_fmt _ a = handled a none

-- `App::VidUserJob_QUEUE_SETUP`; a count that is negative as an `int` is beyond what a vector holds.
vid_user_job_queue_setup : JobArgs → App → Handled
vid_user_job_queue_setup (num_buffers n) a =
    if leb 2147483648 n
    then thrown
    else handled (record a { mbuffers = resize n zero_buffer a.mbuffers }) none
vid_user_job_queue_setup _ a = handled a none

-- `App::VidUserJob_BUF_INIT`.
vid_user_job_buf_init : JobArgs → App → Handled
vid_user_job_buf_init (index i) a = handled a (if in_range a i then some (map_buffer i) else none)
vid_user_job_buf_init _ a = handled a none

-- `App::VidUserJob_BUF_CLEANUP`.
vid_user_job_buf_cleanup : JobArgs → App → Handled
vid_user_job_buf_cleanup (index i) a =
    handled a (if in_range a i then some (unmap_buffer i) else none)
vid_user_job_buf_cleanup _ a = handled a none

-- `App::VidUserJob_START_STREAMING`.
vid_user_job_start_streaming : App → Handled
vid_user_job_start_streaming a = handled a (some start_source)

-- `App::VidUserJob_STOP_STREAMING`.
vid_user_job_stop_streaming : App → Handled
vid_user_job_stop_streaming a = handled (record a { vid_src_done = true }) (some join_source)

-- The front of `oSrcBufferQ` as `App::VidUserJob_BUF_DONE` takes it, -1 as 32 bits when there is none.
unfoldable pub take_source : List ℕ → ℕ × List ℕ
take_source [] = (4294967295, [])
take_source (i ∷ q) = (i, q)

-- `App::VidUserJob_BUF_DONE`, but for the copying.
vid_user_job_buf_done : App → Handled
unfolding take_source
vid_user_job_buf_done a = handled (record a { src_buffer_q = (take_source a.src_buffer_q).1 }) none

-- The `switch` on the job in `App::VidUserJobHandling`.
unfoldable pub handle_job : Job → App → Handled
unfolding vid_user_job_s_fmt vid_user_job_queue_setup vid_user_job_buf_init vid_user_job_buf_cleanup
    vid_user_job_start_streaming vid_user_job_stop_streaming vid_user_job_buf_done
handle_job j a = elim j.id [
  | s_fmt ↦ vid_user_job_s_fmt j.args a
  | queue_setup ↦ vid_user_job_queue_setup j.args a
  | buf_init ↦ vid_user_job_buf_init j.args a
  | buf_cleanup ↦ vid_user_job_buf_cleanup j.args a
  | start_streaming ↦ vid_user_job_start_streaming a
  | stop_streaming ↦ vid_user_job_stop_streaming a
  | buf_done ↦ vid_user_job_buf_done a
]

-- What the calls of a task return: `VIDIOC_QUERYBUF` with the index and length it fills in, the address
-- that `mmap` gives, and whether the camera's thread ends.
pub record TaskCalls : Type 0 where
  pub queried : Bool
  pub n_index : ℕ
  pub length : ℕ
  pub address : Option ℕ
  pub thread_ends : Bool

-- A task has run, sleeps for good, or did what C++ does not allow: an index out of range, a joinable
-- thread replaced, or none joined.
pub data Ran : Type 0 where
  ran : App → Ran
  sleeps fault : Ran

-- The closure of `VidUserJob_BUF_INIT` from the zeroed buffer on.
finish_map : TaskCalls → ℕ → App → Option ℕ → Ran
finish_map c i a none =
    ran (record a { mbuffers = set_elem a.mbuffers i (record zero_buffer { n_index = c.n_index }) })
finish_map c i a (some addr) =
    let p : Plane = record { vir_addr = addr; length = c.length } in
    ran (record a {
      mbuffers = set_elem a.mbuffers i (mapped_buffer c.n_index p);
      mapped = a.mapped ++ p ∷ [];
    })

-- The closure of `VidUserJob_BUF_INIT`.
run_map : TaskCalls → ℕ → App → Ran
unfolding finish_map
run_map c i a =
    if c.queried
    then elim (get_elem? a.mbuffers i) [ none ↦ fault | some b ↦ finish_map c i a c.address ]
    else ran a

-- The closure of `VidUserJob_BUF_CLEANUP`.
run_unmap : ℕ → App → Ran
run_unmap i a = elim (get_elem? a.mbuffers i) [
  | none ↦ fault
  | some b ↦ ran (record a {
    mbuffers = set_elem a.mbuffers i zero_buffer;
    unmapped = a.unmapped ++ mapped_planes b.planes;
  })
]

-- The closure of `VidUserJob_START_STREAMING`: the handle that is swapped out must not be joinable.
run_start : App → Ran
run_start a =
    if a.src_thread then fault else ran (record a { vid_src_done = false; src_thread = true })

-- The closure of `VidUserJob_STOP_STREAMING`.
run_join : TaskCalls → App → Ran
run_join c a =
    if a.src_thread
    then if c.thread_ends then ran (record a { src_thread = false }) else sleeps
    else fault

-- `tsk()` in `ZzDeferredTasks::Main`.
unfoldable pub run_task : TaskCalls → Task → App → Ran
unfolding run_map run_unmap run_start run_join
run_task c (map_buffer i) a = run_map c i a
run_task c (unmap_buffer i) a = run_unmap i a
run_task c start_source a = run_start a
run_task c join_source a = run_join c a
