-- ===== src/QvioCtl/Source.antt =====
-- `VidSrc_Main` of samples/03_qvio-ctl/main.cpp: the thread that takes frames from a camera. What it takes, it
-- pushes on a stack of closures that give it back; the closures work on the table of the
-- camera's buffers and on the list of what was given back.
pub mod Unwind
pub mod Stages
pub mod Release
pub mod Loop
pub mod InTurn
use v4l2_tuto.Prelude.{
  ℕ, zero, suc, ◌+◌, Bool, true, false, not, ◌&&◌, ◌==◌, Option, none, some, List, [], ◌∷◌, ◌++◌,
  get_elem?, if◌then◌else◌,
}
use v4l2_tuto.DeferredTasks.{flush}
use v4l2_tuto.QvioCtl.{
  Plane, MmapBuffer, zero_buffer, mapped_buffer, mapped_planes, resize, set_elem,
}

-- What the thread takes.
pub data Resource : Type 0 where
  device : Resource
  buffer : Plane → Resource
  surface egl_image cu_resource src_plane scaled_plane scaled1_plane streaming : Resource

-- `oSrcMbuffers` and the resources taken and given back so far; `broken` after an index out of range.
pub record World : Type 0 where
  pub src_mbuffers : List MmapBuffer
  pub taken : List Resource
  pub freed : List Resource
  pub broken : Bool

-- The thread's world and its `_FreeStack`.
pub record Source : Type 0 where
  pub world : World
  pub free_stack : List (World → World)

abbrev pub buffers_of : List Plane → List Resource
buffers_of [] = []
buffers_of (p ∷ ps) = buffer p ∷ buffers_of ps

-- A closure that gives one resource back.
abbrev pub free : Resource → World → World
free r w = record w { freed = w.freed ++ r ∷ [] }

-- The closure that clears the table.
abbrev pub clear_table : World → World
clear_table w = record w { src_mbuffers = [] }

-- The closure that unmaps a buffer, reading the table when it runs.
abbrev pub unmap_buffer : ℕ → World → World
unmap_buffer i w = elim (get_elem? w.src_mbuffers i) [
  | none ↦ record w { broken = true }
  | some b ↦ record w {
    freed = w.freed ++ buffers_of (mapped_planes b.planes);
    src_mbuffers = set_elem w.src_mbuffers i zero_buffer;
  }
]

-- A resource is taken and its closure pushed.
abbrev pub take : Resource → (World → World) → Source → Source
take r f s = record {
  world = record (s.world) { taken = s.world.taken ++ r ∷ [] };
  free_stack = f ∷ s.free_stack;
}

-- What the calls for one buffer return.
pub record BufferCalls : Type 0 where
  pub queried : Bool
  pub index : ℕ
  pub length : ℕ
  pub address : Option ℕ
  pub queued : Bool

-- What the calls before the loop return.
pub record SetupCalls : Type 0 where
  pub opened : Bool
  pub s_fmt : Bool
  pub reqbufs : Option ℕ
  pub buffer : ℕ → BufferCalls
  pub surface : Bool
  pub egl_image : Bool
  pub cu_resource : Bool
  pub egl_frame : Bool
  pub src_plane : Bool
  pub scaled_plane : Bool
  pub scaled1_plane : Bool
  pub stream_on : Bool

-- Where the thread stands: it goes on, leaves the `switch` for the flush, or returns at once.
pub data Stage : Type 0 where
  goes breaks returns : Source → Stage

abbrev pub and_then : Stage → (Source → Stage) → Stage
and_then (goes s) f = f s
and_then (breaks s) f = breaks s
and_then (returns s) f = returns s

-- A call that takes a resource, or leaves the `switch`.
abbrev pub acquire : Bool → Resource → Source → Stage
acquire ok r s = if ok then goes (take r (free r) s) else breaks s

-- A call that takes nothing.
abbrev pub require : Bool → Source → Stage
require ok s = if ok then goes s else breaks s

-- A turn of the `for` over the buffers ends the thread, or the `for`, or goes on to the next.
pub data Mapped : Type 0 where
  next done quits : Source → Mapped

-- The `mmap` of a buffer, with the entry of the table that it is for.
map_one : BufferCalls → ℕ → Source → Mapped
map_one c i s = elim c.address [
  | none ↦ quits (record s {
    world = record (s.world) { src_mbuffers = set_elem s.world.src_mbuffers i zero_buffer };
  })
  | some addr ↦
      let p : Plane = record { vir_addr = addr; length = c.length } in
      let t = take (buffer p) (unmap_buffer i) s in
      let t' : Source = record t {
        world = record (t.world) {
          src_mbuffers = set_elem t.world.src_mbuffers i (mapped_buffer c.index p);
        };
      } in
      if c.queued then next t' else done t'
]

-- The body of the `for`.
unfoldable pub map_buffer : BufferCalls → ℕ → Source → Mapped
unfolding map_one
map_buffer c i s = if c.queried then map_one c i s else done s

-- The `for` over the buffers from `i` on; a `break` in it goes on behind it.
unfoldable pub map_buffers : (ℕ → BufferCalls) → (n i : ℕ) → Source → Stage
map_buffers c zero i s = goes s
map_buffers c (suc n) i s = elim (map_buffer (c i) i s) [
  | next t ↦ map_buffers c n (suc i) t
  | done t ↦ goes t
  | quits t ↦ returns t
]

-- `oSrcMbuffers.resize` with its closure, and the buffers.
unfoldable pub request_buffers : SetupCalls → Source → Stage
unfolding map_buffers
request_buffers c s = elim c.reqbufs [
  | none ↦ breaks s
  | some n ↦ map_buffers c.buffer n 0 (record {
    world = record (s.world) { src_mbuffers = resize n zero_buffer s.world.src_mbuffers };
    free_stack = clear_table ∷ s.free_stack;
  })
]

-- From `NvBufSurfaceCreate` to `VIDIOC_STREAMON`.
unfoldable pub take_rest : SetupCalls → Source → Stage
take_rest c s = and_then (acquire c.surface surface s) λ s.
    and_then (acquire c.egl_image egl_image s) λ s.
      and_then (acquire c.cu_resource cu_resource s) λ s. and_then (require c.egl_frame s) λ s.
        and_then (acquire c.src_plane src_plane s) λ s.
          and_then (acquire c.scaled_plane scaled_plane s) λ s.
            and_then (acquire c.scaled1_plane scaled1_plane s) λ s. acquire c.stream_on streaming s

-- `VidSrc_Main` up to its loop.
unfoldable pub set_up : SetupCalls → Source → Stage
unfolding request_buffers take_rest
set_up c s =
    and_then (acquire c.opened device s)
      λ s. and_then (require c.s_fmt s) λ s. and_then (request_buffers c s) λ s. take_rest c s

-- The end of `VidSrc_Main`: the flush, except after a `return`. The loop leaves by the flush as well.
unfoldable pub finish : Stage → World
unfolding flush
finish (goes s) = flush s.free_stack s.world
finish (breaks s) = flush s.free_stack s.world
finish (returns s) = s.world

-- A run of the thread, from an empty stack.
unfoldable pub vid_src_main : SetupCalls → World → World
unfolding set_up finish
vid_src_main c w = finish (set_up c (record { world = w; free_stack = [] }))
