-- ===== src/Qvio/Video/Formats.antt =====
-- The format handlers of modules/qvio/video.c: `qvio_video_try_fmt`, `qvio_video_s_fmt` and
-- `qvio_video_g_fmt`.
use v4l2_tuto.Prelude.{◌*◌, ◌/◌, Bool, true, false, not, Option, none, some, u32, if◌then◌else◌}
use v4l2_tuto.Kernel.{einval, Ret, neg, success, is_set, Align, align}
use v4l2_tuto.Qvio.Format.{
  PixelFormat, yuyv, nv12, m420, fourcc, BufType, video_capture, video_output, video_capture_mplane,
  video_output_mplane, buf_type, same_type, Format,
}
use v4l2_tuto.Qvio.Queue.{queue_s_fmt}
use v4l2_tuto.Qvio.UserJob.{Ctrl, user_job_s_fmt}
use v4l2_tuto.Qvio.Video.{Video}

abbrev pub known_format : PixelFormat → Bool
known_format yuyv = true
known_format nv12 = true
known_format m420 = true
known_format (fourcc c) = false

try_type : BufType → Format → Ret
try_type video_capture f = if known_format f.pixelformat then success else neg einval
try_type video_output f = if known_format f.pixelformat then success else neg einval
try_type video_capture_mplane f = if known_format f.pixelformat then success else neg einval
try_type video_output_mplane f = if known_format f.pixelformat then success else neg einval
try_type (buf_type c) f = neg einval

-- `qvio_video_try_fmt`; the three `case` labels of each `switch` are `known_format`.
unfoldable pub try_fmt : Video → Format → Ret
unfolding try_type
try_fmt v f = if not (same_type f.type v.buffer_type) then neg einval else try_type v.buffer_type f

-- `qvio_video_g_fmt`.
unfoldable pub g_fmt : Video → Format × Ret
g_fmt v = (v.current_format, success)

module _ ⦃al : Align⦄ where
  -- The `switch` on `fmt.pix.pixelformat` of `qvio_video_s_fmt`.
  fill_pix : Video → Format → PixelFormat → Option Format
  fill_pix v f yuyv = some (record f {
    bytesperline = align (u32 (f.width * 2)) v.halign;
    sizeimage = u32 (align (u32 (f.width * 2)) v.halign * align f.height v.valign);
  })
  fill_pix v f nv12 = some (record f {
    bytesperline = align f.width v.halign;
    sizeimage = u32 (u32 (align f.width v.halign * align f.height v.valign) * 3) / 2;
  })
  fill_pix v f m420 = some (record f {
    bytesperline = align f.width v.halign;
    sizeimage = u32 (align f.width v.halign * align (u32 (f.height * 3) / 2) v.valign);
  })
  fill_pix v f (fourcc c) = none

  -- The `switch` on `fmt.pix_mp.pixelformat`.
  fill_pix_mp : Video → Format → PixelFormat → Option Format
  fill_pix_mp v f yuyv = some (record f {
    num_planes = 1;
    plane_fmt0 = record {
      bytesperline = align (u32 (f.width * 2)) v.halign;
      sizeimage = u32 (align (u32 (f.width * 2)) v.halign * align f.height v.valign);
    };
  })
  fill_pix_mp v f nv12 = some (record f {
    num_planes = 2;
    plane_fmt0 = record {
      bytesperline = align f.width v.halign;
      sizeimage = u32 (align f.width v.halign * align f.height v.valign);
    };
    plane_fmt1 = record {
      bytesperline = align f.width v.halign;
      sizeimage = u32 (align f.width v.halign * align f.height v.valign) / 2;
    };
  })
  fill_pix_mp v f m420 = some (record f {
    num_planes = 1;
    plane_fmt0 = record {
      bytesperline = align f.width v.halign;
      sizeimage = u32 (align f.width v.halign * align (u32 (f.height * 3) / 2) v.valign);
    };
  })
  fill_pix_mp v f (fourcc c) = none

  unfoldable pub fill : Video → Format → BufType → Option Format
  unfolding fill_pix fill_pix_mp
  fill v f video_capture = fill_pix v f f.pixelformat
  fill v f video_output = fill_pix v f f.pixelformat
  fill v f video_capture_mplane = fill_pix_mp v f f.pixelformat
  fill v f video_output_mplane = fill_pix_mp v f f.pixelformat
  fill v f (buf_type c) = none

  -- The format is stored, passed to the queue, and posted to the daemon, whose answer is ignored.
  store_fmt : (allocated : Bool) → (Ctrl → Ctrl × Bool) → Video → Format → Video × Format × Ret
  unfolding queue_s_fmt
  store_fmt allocated others v f =
      let (q, err) = queue_s_fmt v.queue f in
      let (c, answer, ret) = user_job_s_fmt allocated others f v.user_job_ctrl in
      if is_set err
      then (record v { current_format = f; queue = q }, f, err)
      else (record v { current_format = f; queue = q; user_job_ctrl = c }, f, success)

  -- `qvio_video_s_fmt`: the new state, the format as the caller gets it back, and the result.
  unfoldable pub video_s_fmt :
      (allocated : Bool) → (Ctrl → Ctrl × Bool) → Video → Format → Video × Format × Ret
  unfolding try_fmt fill store_fmt
  video_s_fmt allocated others v f =
      if is_set (try_fmt v f) then (v, f, try_fmt v f) else elim (fill v f f.type) [
        | none ↦ (v, f, neg einval)
        | some f' ↦ store_fmt allocated others v f'
      ]
