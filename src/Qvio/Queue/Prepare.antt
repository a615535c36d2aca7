-- ===== src/Qvio/Queue/Prepare.antt =====
-- `__buf_prepare` of modules/qvio/queue.c: is a buffer large enough for the format?
use v4l2_tuto.Prelude.{ℕ, ◌*◌, ◌/◌, u32, ltb, if◌then◌else◌, update}
use v4l2_tuto.Kernel.{einval, Ret, neg, success, Align, align}
use v4l2_tuto.Qvio.Format.{
  PixelFormat, yuyv, nv12, m420, fourcc, BufType, video_capture, video_output, video_capture_mplane,
  video_output_mplane, buf_type, Field, field_any, field_none, field_other,
}
use v4l2_tuto.Qvio.Queue.{device, Buffer, Queue}

module _ ⦃al : Align⦄ where
  -- A plane that is too small is refused; otherwise its whole size becomes the payload.
  check_plane : ℕ → ℕ → Buffer → (Buffer → Buffer × Ret) → Buffer × Ret
  check_plane i least b next =
      if ltb (u32 (b.plane_size i)) least
      then (b, neg einval)
      else next (record b { payload = update b.payload i (u32 (b.plane_size i)) })

  prepare_pix : Queue → PixelFormat → Buffer → Buffer × Ret
  unfolding check_plane
  prepare_pix q yuyv b =
      check_plane 0
        (u32 (
          u32 (align q.current_format.width q.halign * align q.current_format.height q.valign) * 2))
        b λ b'. (record b' { owner = device }, success)
  prepare_pix q nv12 b =
      check_plane 0
        (u32 (
            u32 (align q.current_format.width q.halign * align q.current_format.height q.valign)
            * 3)
          / 2)
        b λ b'. (record b' { owner = device }, success)
  prepare_pix q m420 b =
      check_plane 0
        (u32 (
          align q.current_format.width q.halign
          * align (u32 (q.current_format.height * 3) / 2) q.valign))
        b λ b'. (record b' { owner = device }, success)
  prepare_pix q (fourcc c) b = (b, neg einval)

  prepare_pix_mp : Queue → PixelFormat → Buffer → Buffer × Ret
  unfolding check_plane
  prepare_pix_mp q yuyv b =
      check_plane 0
        (u32 (
          align (u32 (q.current_format.width * 2)) q.halign
          * align q.current_format.height q.valign))
        b λ b'. (b', success)
  prepare_pix_mp q nv12 b =
      check_plane 0
        (u32 (align q.current_format.width q.halign * align q.current_format.height q.valign)) b
        λ b'.
          check_plane 1
            (u32 (align q.current_format.width q.halign * align q.current_format.height q.valign)
              / 2)
            b' λ b''. (b'', success)
  prepare_pix_mp q m420 b =
      check_plane 0
        (u32 (
          align q.current_format.width q.halign
          * align (u32 (q.current_format.height * 3) / 2) q.valign))
        b λ b'. (b', success)
  prepare_pix_mp q (fourcc c) b = (b, neg einval)

  prepare_type : Queue → BufType → Buffer → Buffer × Ret
  unfolding prepare_pix prepare_pix_mp
  prepare_type q video_capture b = prepare_pix q q.current_format.pixelformat b
  prepare_type q video_output b = prepare_pix q q.current_format.pixelformat b
  prepare_type q video_capture_mplane b = prepare_pix_mp q q.current_format.pixelformat b
  prepare_type q video_output_mplane b = prepare_pix_mp q q.current_format.pixelformat b
  prepare_type q (buf_type c) b = (b, neg einval)

abbrev settle_field : Field → Field
settle_field field_any = field_none
settle_field field_none = field_none
settle_field (field_other n) = field_other n

abbrev settle : Buffer × Ret → Buffer × Ret
settle (b, Ret.value n) = (record b { field = settle_field b.field }, Ret.value n)
settle (b, Ret.neg e) = (b, Ret.neg e)
settle (b, Ret.pos e) = (b, Ret.pos e)

-- `__buf_prepare`. `dma_sync_sg_for_device` hands the memory to the device.
unfoldable pub buf_prepare : ⦃al : Align⦄ → Queue → Buffer → Buffer × Ret
unfolding prepare_type
buf_prepare q b = settle (prepare_type q q.current_format.type b)
