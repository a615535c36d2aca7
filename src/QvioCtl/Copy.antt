-- ===== src/QvioCtl/Copy.antt =====
-- The copying of `App::VidUserJob_BUF_DONE` in samples/03_qvio-ctl/main.cpp, with the areas of memory that the
-- two converters of samples/common/ZzCUDA.cu touch.
pub mod Areas
pub mod Bounds
use v4l2_tuto.Prelude.{
  ℕ, zero, suc, ◌+◌, ◌-◌, ◌*◌, ◌/◌, ◌^◌, Bool, true, false, ◌&&◌, ltb, leb, Option, none, some,
  List, [], ◌∷◌, ◌++◌, length, get_elem?, u32, if◌then◌else◌,
}
use v4l2_tuto.Qvio.Format.{Format}
use v4l2_tuto.QvioCtl.{App, Plane, MmapBuffer, zero_plane, in_range, take_source}

-- Rows of bytes, `step` bytes apart.
pub record Rect : Type 0 where
  pub base : ℕ
  pub step : ℕ
  pub row : ℕ
  pub rows : ℕ

abbrev pub rect : ℕ → ℕ → ℕ → ℕ → Rect
rect base step row rows = record { base = base; step = step; row = row; rows = rows }

-- Rows that a kernel reaches through indices of the type `int`: anywhere, if these do not fit.
unfoldable pub indexed : ℕ → ℕ → ℕ → ℕ → Rect
indexed base step row rows =
    if ltb (rows * step) (2 ^ 31) then rect base step row rows else rect 0 0 (2 ^ 64) 1

-- `(int)` of a number of 32 bits, and what it is as a `size_t`.
unfoldable pub as_int : ℕ → ℕ
as_int n = if ltb (u32 n) (2 ^ 31) then u32 n else u32 n + (2 ^ 64 - 2 ^ 32)

-- What a call reads and writes.
pub record Call : Type 0 where
  pub reads : List Rect
  pub writes : List Rect

-- `struct vpss_bufs`, with the pitch of the surface.
pub record VpssBufs : Type 0 where
  pub egl_frame : ℕ
  pub pitch : ℕ
  pub src : ℕ
  pub src_step : ℕ
  pub scaled : ℕ
  pub scaled_step : ℕ
  pub scaled1 : ℕ
  pub scaled1_step : ℕ

-- `cudaMemcpy2D`.
abbrev pub memcpy_2d : (dst dst_pitch src src_pitch width height : ℕ) → Call
memcpy_2d dst dst_pitch src src_pitch width height = record {
  reads = rect src src_pitch width height ∷ [];
  writes = rect dst dst_pitch width height ∷ [];
}

-- `zppiYCbCr422_8u_C2P3R`: a thread for each pair of pixels.
abbrev pub split_planes : (src src_step dst0 dst1 dst2 dst_step width height : ℕ) → Call
split_planes src src_step dst0 dst1 dst2 dst_step width height = record {
  reads = indexed src src_step (width / 2 * 4) height ∷ [];
  writes =
      indexed dst0 dst_step (width / 2 * 2) height
      ∷ indexed dst1 dst_step (width / 2) height
      ∷ indexed dst2 dst_step (width / 2) height
      ∷ [];
}

-- `nppiResize_8u_C1R` on whole planes.
abbrev pub resize_plane :
    (src src_step src_width src_height dst dst_step dst_width dst_height : ℕ) → Call
resize_plane src src_step src_width src_height dst dst_step dst_width dst_height = record {
  reads = rect src src_step src_width src_height ∷ [];
  writes = rect dst dst_step dst_width dst_height ∷ [];
}

-- `zppiCbCr422_CbCr420_8u_P2C2R`: a thread for each pair of chroma bytes.
abbrev pub join_planes : (src0 src1 src_step dst dst_step width height : ℕ) → Call
join_planes src0 src1 src_step dst dst_step width height = record {
  reads = indexed src0 src_step width height ∷ indexed src1 src_step width height ∷ [];
  writes = indexed dst dst_step (width * 2) height ∷ [];
}

-- The calls for a frame of format `f` that lies at `from`, into a buffer of format `g` at `to`.
abbrev pub frame_calls : VpssBufs → (f g : Format) → (from to : ℕ) → List Call
frame_calls v f g from to =
    memcpy_2d v.egl_frame (as_int v.pitch) from f.bytesperline (u32 (f.width * 2)) f.height
    ∷ split_planes v.egl_frame (as_int v.pitch) v.src (v.src + u32 (v.src_step * f.height))
        (v.src + u32 (u32 (v.src_step * f.height) * 2)) v.src_step f.width f.height
    ∷ resize_plane v.src v.src_step f.width f.height v.scaled v.scaled_step g.width g.height
    ∷ resize_plane (v.src + f.height * v.src_step) v.src_step (f.width / 2) f.height
        (v.scaled + g.height * v.scaled_step) v.scaled_step (g.width / 2) g.height
    ∷ resize_plane (v.src + f.height * v.src_step + f.height * v.src_step) v.src_step (f.width / 2)
        f.height (v.scaled + g.height * v.scaled_step + g.height * v.scaled_step) v.scaled_step
        (g.width / 2) g.height
    ∷ join_planes (v.scaled + u32 (v.scaled_step * g.height))
        (v.scaled + u32 (u32 (v.scaled_step * g.height) * 2)) (v.scaled_step * 2) v.scaled1
        v.scaled1_step (g.width / 2) (g.height / 2)
    ∷ memcpy_2d to g.bytesperline v.scaled v.scaled_step g.width g.height
    ∷ memcpy_2d (to + u32 (g.height * g.bytesperline)) g.bytesperline v.scaled1 v.scaled1_step
        g.width (g.height / 2)
    ∷ []

-- The calls up to the first that fails.
unfoldable pub performed : (fine : ℕ → Bool) → ℕ → List Call → List Call
performed fine i [] = []
performed fine i (c ∷ cs) =
    let rest = performed fine (suc i) cs in if fine i then c ∷ rest else c ∷ []

abbrev pub address : MmapBuffer → ℕ
address b = elim b.planes [ [] ↦ 0 | p ∷ ps ↦ p.vir_addr ]

-- The calls of `App::VidUserJob_BUF_DONE` for the buffer `i`, whose source is the front of `oSrcBufferQ`; the
-- camera's buffers and its format are those of the source.
unfoldable pub buf_done_calls :
    VpssBufs → Format → List MmapBuffer → (fine : ℕ → Bool) → ℕ → App → List Call
unfolding take_source performed
buf_done_calls v f src_mbuffers fine i a =
    let j = (take_source a.src_buffer_q).0 in
    if in_range a i && ltb j (length src_mbuffers)
    then elim (get_elem? a.mbuffers i) [
      | none ↦ []
      | some dst ↦ elim (get_elem? src_mbuffers j) [
        | none ↦ []
        | some src ↦ performed fine 0 (frame_calls v f a.vid_dst_format (address src) (address dst))
      ]
    ]
    else []
