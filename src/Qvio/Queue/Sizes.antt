-- ===== src/Qvio/Queue/Sizes.antt =====
-- `__queue_setup` says how large the planes of a buffer are, `__buf_prepare` how large they must be.
use v4l2_tuto.Prelude.{
  if◌then◌else◌, ap, ltb-false_of_le, ltb-true_of_lt, ◌/◌, ◌↔◌, ℕ, ◌+◌, ◌*◌, ◌%◌, ◌^◌, ◌≤◌, ◌<◌,
  ◌≡◌, ◌&&◌, ◌⊎◌, Bool, true, false, u32, ltb, arith,
}
use v4l2_tuto.Kernel.{success, Align, align}
use v4l2_tuto.Qvio.Format.{PixelFormat, yuyv, BufType, video_capture, video_output}
use v4l2_tuto.Qvio.Queue.Prepare.{buf_prepare}
use v4l2_tuto.Qvio.Queue.{Queue, Buffer, Setup, queue_setup}

abbrev pub is_pix : BufType → Bool
is_pix video_capture = true
is_pix video_output = true
is_pix _ = false

abbrev pub is_yuyv : PixelFormat → Bool
is_yuyv yuyv = true
is_yuyv _ = false

-- The two roundings of a YUYV plane, `ALIGN(2 w)` when it is allocated and `2 ALIGN(w)` when it is
-- checked, times the height.
yuyv_product : (a h : ℕ) → a ≤ 8256 → h ≤ 4096 → a * h ≤ 33816576
yuyv_product a h p q = grind arith

yuyv_same :
    (a b h : ℕ)
    → a ≤ 8256
    → h ≤ 4096
    → a ≡ b * 2
    → ltb (u32 (a * h)) (u32 (u32 (b * h) * 2)) ≡ false
yuyv_same a b h p q e =
    ltb-false_of_le _ _ (omega (arith, yuyv_product a h p q, ap (λ (t : ℕ). t * h) e))

yuyv_short :
    (a b h : ℕ)
    → a ≤ 8192
    → 0 < h
    → h ≤ 4096
    → a + 64 ≡ b * 2
    → ltb (u32 (a * h)) (u32 (u32 (b * h) * 2)) ≡ true
yuyv_short a b h p r q e =
    ltb-true_of_lt _ _
      (omega (arith, yuyv_product (a + 64) h (omega arith) q, ap (λ (t : ℕ). t * h) e))

yuyv_enough :
    (w h : ℕ)
    → w ≤ 4096
    → 0 < h
    → h ≤ 4096
    → (ltb (u32 ((w * 2 + 63) / 64 * 64 * h)) (u32 (u32 ((w + 63) / 64 * 64 * h) * 2)) ≡ false)
      ↔ ((w % 64 ≡ 0) ⊎ (32 < w % 64))
yuyv_enough w h p q r = ground (
  arith,
  yuyv_same ((w * 2 + 63) / 64 * 64) ((w + 63) / 64 * 64) h,
  yuyv_short ((w * 2 + 63) / 64 * 64) ((w + 63) / 64 * 64) h,
)

module _ ⦃al : Align⦄ where
  -- A buffer whose planes have the sizes that a successful `queue_setup` asked for is accepted, its
  -- payload fills each of these planes, and that of any other plane stays. Single-planar YUYV is left
  -- out.
  pub buf_prepare-queue_setup :
      (q : Queue) (s : Setup) (b : Buffer)
      → (queue_setup q s).1 ≡ success
      → (is_pix q.current_format.type && is_yuyv q.current_format.pixelformat) ≡ false
      → ((i : ℕ) → b.plane_size i ≡ (queue_setup q s).0.sizes i)
      → (i : ℕ)
      → ((buf_prepare q b).1 ≡ success)
        × ((buf_prepare q b).0.payload i ≡ (
            if ltb i (queue_setup q s).0.num_planes
            then (queue_setup q s).0.sizes i
            else b.payload i))
  unfolding queue_setup buf_prepare
  buf_prepare-queue_setup q s b ok planar fits i = ground (arith, fits 0, fits 1, fits i)

  align_one : (x : ℕ) → x + 1 ≤ 2 ^ 32 → align x 1 ≡ x
  align_one x h = omega (arith, al.align-ge x 0, al.align-lt x 0)

  align_64 : (x : ℕ) → x + 64 ≤ 2 ^ 32 → align x 64 ≡ (x + 63) / 64 * 64
  align_64 x h = omega (arith, al.align-ge x 6 h, al.align-lt x 6 h, al.align-mod x 6 h)

  -- With the alignment of the driver, 64 and 1, and any frame size that it reports as supported,
  -- a single-planar YUYV buffer of the size that `queue_setup` asked for is accepted exactly when
  -- the width leaves no remainder by 64, or one above 32.
  pub buf_prepare_yuyv :
      (q : Queue) (s : Setup) (b : Buffer)
      → is_pix q.current_format.type ≡ true
      → q.current_format.pixelformat ≡ yuyv
      → q.halign ≡ 64
      → q.valign ≡ 1
      → q.current_format.width ≤ 4096
      → 0 < q.current_format.height
      → q.current_format.height ≤ 4096
      → b.plane_size 0 ≡ (queue_setup q s).0.sizes 0
      → ((buf_prepare q b).1 ≡ success)
        ↔ ((q.current_format.width % 64 ≡ 0) ⊎ (32 < q.current_format.width % 64))
  unfolding queue_setup buf_prepare
  buf_prepare_yuyv q s b planar format ha va w h0 h fits = ground (
    arith,
    align_64 (q.current_format.width * 2),
    align_64 q.current_format.width,
    align_one q.current_format.height,
    yuyv_enough q.current_format.width q.current_format.height w h0 h,
  )
