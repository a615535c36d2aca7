-- ===== src/Qvio/Video/Negotiate.antt =====
-- Setting a format: `qvio_video_s_fmt` against `qvio_video_try_fmt`, `qvio_video_g_fmt` and the
-- buffer sizes of the queue.
use v4l2_tuto.Prelude.{if◌then◌else◌, ◌⊎◌, ◌≡◌, ◌↔◌, Bool, true, false, arith}
use v4l2_tuto.Kernel.{einval, neg, success, Align}
use v4l2_tuto.Qvio.Format.{BufType, buf_type, Format, same_type_iff}
use v4l2_tuto.Qvio.UserJob.{Ctrl}
use v4l2_tuto.Qvio.Queue.{Setup, queue_setup}
use v4l2_tuto.Qvio.Queue.Sizes.{is_pix}
use v4l2_tuto.Qvio.Video.{Video}
use v4l2_tuto.Qvio.Video.Formats.{try_fmt, g_fmt, video_s_fmt, known_format}

abbrev pub known_type : BufType → Bool
known_type (buf_type c) = false
known_type _ = true

-- What `qvio_video_try_fmt` accepts: the device's own buffer type, if it is one of the four that the
-- driver knows, and one of the three pixel formats. Everything else is refused with `-EINVAL`.
pub try_fmt_iff :
    (v : Video) (f : Format)
    → ((try_fmt v f ≡ success) ↔ (
        (f.type ≡ v.buffer_type)
        × (known_type v.buffer_type ≡ true)
        × (known_format f.pixelformat ≡ true)))
      × ((try_fmt v f ≡ success) ⊎ (try_fmt v f ≡ neg einval))
unfolding try_fmt
try_fmt_iff v f = ground (arith, same_type_iff f.type v.buffer_type)

module _ ⦃al : Align⦄ (allocated : Bool) (others : Ctrl → Ctrl × Bool) where
  -- Setting a format fails exactly when trying it does, with the same result, and then changes
  -- neither the device nor the caller's structure.
  pub video_s_fmt-try_fmt :
      (v : Video) (f : Format)
      → ((video_s_fmt allocated others v f).2 ≡ try_fmt v f)
        × ((try_fmt v f ≡ success) ⊎ (video_s_fmt allocated others v f ≡ (v, f, neg einval)))
  unfolding video_s_fmt try_fmt
  video_s_fmt-try_fmt v f = ground (arith, same_type_iff f.type v.buffer_type)

  -- A format that was set is the one that `g_fmt` reports and that the queue works with, and it is
  -- the caller's with the strides and sizes filled in. Setting it once more changes nothing in it.
  pub g_fmt-video_s_fmt :
      (v : Video) (f : Format)
      → try_fmt v f ≡ success
      → let r = video_s_fmt allocated others v f in
        (g_fmt r.0 ≡ (r.1, success))
        × (r.0.queue.current_format ≡ r.1)
        × (r.1.type ≡ f.type)
        × (r.1.width ≡ f.width)
        × (r.1.height ≡ f.height)
        × (r.1.pixelformat ≡ f.pixelformat)
        × ((video_s_fmt allocated others r.0 r.1).1 ≡ r.1)
  unfolding video_s_fmt try_fmt g_fmt
  g_fmt-video_s_fmt v f ok = ground (arith, same_type_iff f.type v.buffer_type)

  -- After a format was set on a device whose queue shares its alignment, the queue asks for planes
  -- of exactly the sizes that the caller was told.
  pub queue_setup-video_s_fmt :
      (v : Video) (f : Format) (s : Setup)
      → v.queue.halign ≡ v.halign
      → v.queue.valign ≡ v.valign
      → try_fmt v f ≡ success
      → let r = video_s_fmt allocated others v f in
        let q = queue_setup r.0.queue s in
        (q.1 ≡ success)
        × (q.0.num_planes ≡ (if is_pix f.type then 1 else r.1.num_planes))
        × (q.0.sizes 0 ≡ (if is_pix f.type then r.1.sizeimage else r.1.plane_fmt0.sizeimage))
        × ((q.0.num_planes ≡ 1) ⊎ ((q.0.num_planes ≡ 2) × (q.0.sizes 1 ≡ r.1.plane_fmt1.sizeimage)))
  unfolding video_s_fmt try_fmt queue_setup
  queue_setup-video_s_fmt v f s ha va ok = ground (arith, same_type_iff f.type v.buffer_type)
