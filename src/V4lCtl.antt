-- ===== src/V4lCtl.antt =====
-- samples/01_v4l-ctl/main.cpp: a program that makes V4L2 calls on a capture device, one kind for each key, and stores or
-- counts the frames. What the calls return is an argument, and the calls are listed.
pub mod Loops
pub mod Kept
pub mod Released
pub mod Frames
pub mod Stored
pub mod Rated
use v4l2_tuto.Prelude.{
  ℕ, zero, suc, ◌+◌, Bool, true, false, Option, none, some, List, [], ◌∷◌, ◌++◌,
}
use v4l2_tuto.Qvio.Format.{PixelFormat, m420}
use v4l2_tuto.DeferredTasks.{flush}

-- `struct mmap_buffer`, whose entries behind the first stay 0.
pub record Mapping : Type 0 where
  pub vir_addr : ℕ
  pub length : ℕ

-- What the program takes.
pub data Resource : Type 0 where
  device dma_buf : (fd : ℕ) → Resource
  mapped : Mapping → Resource

-- The calls of `ioctl` on the device.
pub data Request : Type 0 where
  s_fmt : (width height : ℕ) → PixelFormat → Request
  reqbufs querybuf qbuf expbuf : ℕ → Request
  streamon streamoff buf_done dqbuf : Request

-- `nVidFd` (`none` is -1), `oMbuffers` and `oDmaBufs`, and what was done: the calls, the areas written to files with
-- the number of each, what was taken and what was given back.
pub record World : Type 0 where
  pub vid_fd : Option ℕ
  pub mbuffers : List Mapping
  pub dma_bufs : List ℕ
  pub requests : List Request
  pub files : List (ℕ × Mapping)
  pub taken : List Resource
  pub freed : List Resource

-- The program with its `oFreeStack`.
pub record App : Type 0 where
  pub world : World
  pub free_stack : List (World → World)

-- What the calls for one buffer return; `length` is what the query answers.
pub record BufferCalls : Type 0 where
  pub queried : Bool
  pub length : ℕ
  pub address : Option ℕ
  pub exported : Option ℕ
  pub queued : Bool

-- `nBuffers`, `nWidth`, `nHeight` and `nPixelFormat`, as `Run` sets them.
abbrev pub buffers : ℕ
buffers = 4

abbrev pub request : Request → App → App
request r a = record a { world = record (a.world) { requests = a.world.requests ++ r ∷ [] } }

-- Closures that give something back; that of the device reads `nVidFd` when it runs.
abbrev pub free : Resource → World → World
free r w = record w { freed = w.freed ++ r ∷ [] }

abbrev pub close_device : World → World
close_device w = elim w.vid_fd [
  | none ↦ w
  | some fd ↦ record w { freed = w.freed ++ device fd ∷ []; vid_fd = none }
]

abbrev pub take : Resource → (World → World) → App → App
take r f a = record {
  world = record (a.world) { taken = a.world.taken ++ r ∷ [] };
  free_stack = f ∷ a.free_stack;
}

open_device : Option ℕ → App → App
open_device none a = a
open_device (some fd) a =
    take (device fd) close_device (record a { world = record (a.world) { vid_fd = some fd } })

-- `App::OpenVidRx`; what `open` returns is `opened`.
unfoldable pub open_vid_rx : (opened : Option ℕ) → App → App
unfolding open_device
open_vid_rx opened a = elim a.world.vid_fd [ none ↦ open_device opened a | some fd ↦ a ]

-- `App::VidSFmt`; a failure is only printed, here and in the next calls.
unfoldable pub vid_s_fmt : App → App
vid_s_fmt a = request (s_fmt 3840 2160 m420) a

-- `App::VidReqBufs`.
unfoldable pub vid_req_bufs : App → App
vid_req_bufs a = request (reqbufs buffers) a

-- The loop of `App::VidQueryBufs` from `i` on.
unfoldable pub query_bufs : (ℕ → BufferCalls) → (n i : ℕ) → App → App
query_bufs c zero i a = a
query_bufs c (suc n) i a = elim (c i).queried [
  | true ↦ query_bufs c n (suc i) (request (querybuf i) a)
  | false ↦ request (querybuf i) a
]

abbrev pub add_mapping : Mapping → App → App
add_mapping m a =
    let t = take (mapped m) (free (mapped m)) a in
    record t { world = record (t.world) { mbuffers = t.world.mbuffers ++ m ∷ [] } }

-- The loop of `App::VidMmap`; a failure leaves it with the buffers mapped so far.
unfoldable pub map_bufs : (ℕ → BufferCalls) → (n i : ℕ) → App → App
map_bufs c zero i a = a
map_bufs c (suc n) i a = elim (c i).queried [
  | false ↦ request (querybuf i) a
  | true ↦ elim (c i).address [
    | none ↦ request (querybuf i) a
    | some p ↦
        map_bufs c n (suc i)
          (add_mapping (record { vir_addr = p; length = (c i).length }) (request (querybuf i) a))
  ]
]

with_mbuffers : List Mapping → (ℕ → BufferCalls) → App → App
unfolding map_bufs
with_mbuffers [] c a = map_bufs c buffers 0 a
with_mbuffers (m ∷ ms) c a = a

-- `App::VidMmap`.
unfoldable pub vid_mmap : (ℕ → BufferCalls) → App → App
unfolding with_mbuffers
vid_mmap c a = with_mbuffers a.world.mbuffers c a

abbrev pub add_dma_buf : ℕ → App → App
add_dma_buf fd a =
    let t = take (dma_buf fd) (free (dma_buf fd)) a in
    record t { world = record (t.world) { dma_bufs = t.world.dma_bufs ++ fd ∷ [] } }

-- The loop of `App::VidExpBufs`.
unfoldable pub exp_bufs : (ℕ → BufferCalls) → (n i : ℕ) → App → App
exp_bufs c zero i a = a
exp_bufs c (suc n) i a = elim (c i).queried [
  | false ↦ request (querybuf i) a
  | true ↦
      let b = request (expbuf i) (request (querybuf i) a) in
      elim (c i).exported [ none ↦ b | some fd ↦ exp_bufs c n (suc i) (add_dma_buf fd b) ]
]

with_dma_bufs : List ℕ → (ℕ → BufferCalls) → App → App
unfolding exp_bufs
with_dma_bufs [] c a = exp_bufs c buffers 0 a
with_dma_bufs (d ∷ ds) c a = a

-- `App::VidExpBufs`.
unfoldable pub vid_exp_bufs : (ℕ → BufferCalls) → App → App
unfolding with_dma_bufs
vid_exp_bufs c a = with_dma_bufs a.world.dma_bufs c a

-- The loop of `App::VidQbufs`.
unfoldable pub q_bufs : (ℕ → BufferCalls) → (n i : ℕ) → App → App
q_bufs c zero i a = a
q_bufs c (suc n) i a = elim (c i).queried [
  | false ↦ request (querybuf i) a
  | true ↦
      let b = request (qbuf i) (request (querybuf i) a) in
      elim (c i).queued [ true ↦ q_bufs c n (suc i) b | false ↦ b ]
]

-- `App::VidStreamOn`, `App::VidStreamOff` and `App::VidBufDone`.
unfoldable pub vid_stream_on : App → App
vid_stream_on a = request streamon a

unfoldable pub vid_stream_off : App → App
vid_stream_off a = request streamoff a

unfoldable pub vid_buf_done : App → App
vid_buf_done a = request buf_done a
