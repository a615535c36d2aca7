-- ===== src/QvioCtl/Copy/Bounds.antt =====
-- On the copying of `App::VidUserJob_BUF_DONE` in samples/03_qvio-ctl/main.cpp: its calls stay within the buffers,
-- those of the driver included.
use v4l2_tuto.Prelude.{
  ap, ℕ, zero, suc, ◌+◌, ◌*◌, ◌/◌, ◌^◌, ◌≡◌, ◌∙◌, ◌≤◌, ◌<◌, refl, Bool, true, some, List, [], ◌∷◌,
  length, get_elem?, u32, arith, Bool-cases, inl, inr,
}
use native.Mathlib.Nat.{mul_assoc, mul_comm, mul-le-mul_right}
use v4l2_tuto.Kernel.{Align, align}
use v4l2_tuto.Qvio.Format.{Format, nv12, video_capture}
use v4l2_tuto.Qvio.Video.{Video}
use v4l2_tuto.Qvio.Video.Formats.{fill}
use v4l2_tuto.QvioCtl.{App, Plane, MmapBuffer, mapped_buffer, take_source}
use v4l2_tuto.QvioCtl.Copy.{Call, VpssBufs, frame_calls, performed, buf_done_calls}
use v4l2_tuto.QvioCtl.Copy.Areas.{Area, calls_in, areas, Sized, half_rows, frame_calls-areas}

performed-calls_in :
    (l : List Area) (fine : ℕ → Bool) (i : ℕ) (cs : List Call)
    → calls_in l cs ≡ true
    → calls_in l (performed fine i cs) ≡ true
unfolding calls_in performed
performed-calls_in l fine i [] h = refl
performed-calls_in l fine i (c ∷ cs) h = elim (Bool-cases (fine i)) [
  | inl e ↦ ground (arith, e, h, performed-calls_in l fine (suc i) cs)
  | inr e ↦ ground (arith, e, h)
]

get_elem?-length {ℓ} :
    {A : Type ℓ} (xs : List A) (i : ℕ) (x : A) → get_elem? xs i ≡ some x → i < length xs
get_elem?-length [] i x e = absurd (ground (arith, e))
get_elem?-length (y ∷ xs) zero x e = omega arith
get_elem?-length (y ∷ xs) (suc i) x e = omega (arith, get_elem?-length xs i x e)

-- A job to fill the mapped buffer `i`, below 2^31, comes while a frame of the camera waits in a mapped
-- buffer. The steps and lengths are as large as the formats ask for, the driver's buffer has one and a half
-- times its height in lines, and the products fit 32 bits, those of
-- the kernels' indices an `int`. Then the calls that are made, up to the first
-- that fails, are those for that frame and that buffer, and all that they read and write lies within the
-- surface, the three intermediate images and the two buffers.
pub buf_done_calls-areas :
    (v : VpssBufs) (f : Format) (src_mbuffers : List MmapBuffer) (fine : ℕ → Bool) (i j n m : ℕ)
    (q : List ℕ) (from to : Plane) (a : App)
    → i < 2147483648
    → a.src_buffer_q ≡ j ∷ q
    → get_elem? a.mbuffers i ≡ some (mapped_buffer n to)
    → get_elem? src_mbuffers j ≡ some (mapped_buffer m from)
    → Sized v f a.vid_dst_format from.length to.length
    → let cs = buf_done_calls v f src_mbuffers fine i a in
      (cs ≡ performed fine 0 (frame_calls v f a.vid_dst_format from.vir_addr to.vir_addr))
      × (calls_in (areas v f a.vid_dst_format from.vir_addr from.length to.vir_addr to.length) cs
          ≡ true)
unfolding buf_done_calls take_source
buf_done_calls-areas v f src_mbuffers fine i j n m q from to a small queue dst src z =
    let cs : buf_done_calls v f src_mbuffers fine i a
        ≡ performed fine 0 (frame_calls v f a.vid_dst_format from.vir_addr to.vir_addr) =
      ground (
        arith,
        small,
        queue,
        dst,
        src,
        get_elem?-length a.mbuffers i _ dst,
        get_elem?-length src_mbuffers j _ src,
      ) in
    (
      cs,
      rw cs (
          performed-calls_in _ fine 0 _ (
            frame_calls-areas v f a.vid_dst_format from.vir_addr from.length to.vir_addr to.length
              z)),
    )

room :
    (h line rows : ℕ)
    → h ≤ rows
    → line * rows * 3 < 4294967296
    → (h * line < 4294967296) × (h * line + h / 2 * line ≤ u32 (u32 (line * rows) * 3) / 2)
room h line rows le fits =
    let whole = mul-le-mul_right line le in
    let half = half_rows h line in
    let e = mul_assoc (h / 2) line 2 in
    let c = mul_comm line rows in
    (omega (arith, whole, c, fits), omega (arith, whole, half, e, c, fits))

module _ ⦃al : Align⦄ where
  -- What `qvio_video_s_fmt` fills in for a single-planar NV12 format.
  filled :
      (v : Video) (f g : Format)
      → f.pixelformat ≡ nv12
      → fill v f video_capture ≡ some g
      → (g.width ≡ f.width)
        × (g.height ≡ f.height)
        × (g.bytesperline ≡ align f.width v.halign)
        × (g.sizeimage ≡ u32 (u32 (align f.width v.halign * align f.height v.valign) * 3) / 2)
  unfolding fill
  filled v f g nv e = ground (arith, nv, e)

  -- The driver accepts a single-planar NV12 format, its alignments are powers of two, the aligned width and
  -- height do not exceed 32 bits, and neither does three times the size of the aligned image. Then the
  -- format that the driver fills in has lines of at least the width, and its image size holds one and a
  -- half times its height in lines, which is where the daemon copies to.
  pub fill-room :
      (v : Video) (f g : Format) (k l : ℕ)
      → v.halign ≡ 2 ^ k
      → v.valign ≡ 2 ^ l
      → f.width + 2 ^ k ≤ 2 ^ 32
      → f.height + 2 ^ l ≤ 2 ^ 32
      → f.pixelformat ≡ nv12
      → align f.width (2 ^ k) * align f.height (2 ^ l) * 3 < 4294967296
      → fill v f video_capture ≡ some g
      → (g.width ≤ g.bytesperline)
        × (g.height * g.bytesperline < 4294967296)
        × (g.height * g.bytesperline + g.height / 2 * g.bytesperline ≤ g.sizeimage)
  fill-room v f g k l hk hl wide high nv fits e =
      let (w, h, line, size) = filled v f g nv e in
      let (word, both) =
        room f.height (align f.width (2 ^ k)) (align f.height (2 ^ l)) (al.align-ge f.height l high)
          fits in
      let line' = line ∙ ap (align f.width) hk in
      rw (w, h, line', size, hk, hl) (al.align-ge f.width k wide, word, both)
