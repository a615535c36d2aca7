-- ===== src/Qvio/Queue.antt =====
-- modules/qvio/queue.h and the vb2 callbacks of modules/qvio/queue.c that size and hand over buffers.
-- The mutexes are left out: each callback is one step.
pub mod Prepare
pub mod Sizes
use v4l2_tuto.Prelude.{
  not, ◌||◌, ℕ, ◌*◌, ◌/◌, Bool, List, [], ◌∷◌, ◌++◌, u32, ltb, if◌then◌else◌, update,
}
use v4l2_tuto.Kernel.{Errno, einval, Ret, neg, success, Align, align}
use v4l2_tuto.Qvio.Format.{
  PixelFormat, yuyv, nv12, m420, fourcc, BufType, video_capture, video_output, video_capture_mplane,
  video_output_mplane, buf_type, same_type, Field, field_any, field_none, field_other, Format,
}

-- Who may touch the memory of a buffer under the streaming DMA API.
pub data Owner : Type 0 where
  cpu device : Owner

-- A `struct qvio_queue_buffer` with the `vb2_buffer` inside it.
pub record Buffer : Type 0 where
  pub index : ℕ
  -- `vb2_plane_size` and what `vb2_set_plane_payload` stores, for each plane.
  pub plane_size : ℕ → ℕ
  pub payload : ℕ → ℕ
  pub field : Field
  pub sequence : ℕ
  pub timestamp : ℕ
  pub owner : Owner

-- `struct qvio_queue`; `buffers` are those that vb2 handed over and no transfer took yet.
pub record Queue : Type 0 where
  pub current_format : Format
  pub halign : ℕ
  pub valign : ℕ
  pub sequence : ℕ
  pub buffers : List Buffer
  -- The fields of the `vb2_queue` that `qvio_queue_start` sets to values that vary, or that vb2 reads.
  pub vb2_type : BufType
  pub vb2_read : Bool
  pub vb2_write : Bool
  pub min_buffers_needed : ℕ

-- The in and out arguments of `queue_setup`.
pub record Setup : Type 0 where
  pub num_buffers : ℕ
  pub num_planes : ℕ
  pub sizes : ℕ → ℕ

module _ ⦃al : Align⦄ where
  -- The `switch` on `fmt.pix.pixelformat` of `__queue_setup`.
  setup_pix : Queue → PixelFormat → Setup → Setup × Ret
  setup_pix q yuyv s = (
    record s {
      sizes = update s.sizes 0 (
          u32 (
            align (u32 (q.current_format.width * 2)) q.halign
            * align q.current_format.height q.valign));
    },
    success,
  )
  setup_pix q nv12 s = (
    record s {
      sizes = update s.sizes 0 (
          u32 (
            u32 (align q.current_format.width q.halign * align q.current_format.height q.valign)
            * 3)
          / 2);
    },
    success,
  )
  setup_pix q m420 s = (
    record s {
      sizes = update s.sizes 0 (
          u32 (
            align q.current_format.width q.halign
            * align (u32 (q.current_format.height * 3) / 2) q.valign));
    },
    success,
  )
  setup_pix q (fourcc c) s = (s, neg einval)

  -- The `switch` on `fmt.pix_mp.pixelformat`.
  setup_pix_mp : Queue → PixelFormat → Setup → Setup × Ret
  setup_pix_mp q yuyv s = (
    record s {
      num_planes = 1;
      sizes = update s.sizes 0 (
          u32 (
            align (u32 (q.current_format.width * 2)) q.halign
            * align q.current_format.height q.valign));
    },
    success,
  )
  setup_pix_mp q nv12 s = (
    record s {
      num_planes = 2;
      sizes =
          update
            (update s.sizes 0 (
              u32 (align q.current_format.width q.halign * align q.current_format.height q.valign)))
            1
            (u32 (align q.current_format.width q.halign * align q.current_format.height q.valign)
              / 2);
    },
    success,
  )
  setup_pix_mp q m420 s = (
    record s {
      num_planes = 1;
      sizes = update s.sizes 0 (
          u32 (
            align q.current_format.width q.halign
            * align (u32 (q.current_format.height * 3) / 2) q.valign));
    },
    success,
  )
  setup_pix_mp q (fourcc c) s = (s, neg einval)

  setup_type : Queue → BufType → Setup → Setup × Ret
  unfolding setup_pix setup_pix_mp
  setup_type q video_capture s =
      setup_pix q q.current_format.pixelformat (record s { num_planes = 1 })
  setup_type q video_output s =
      setup_pix q q.current_format.pixelformat (record s { num_planes = 1 })
  setup_type q video_capture_mplane s = setup_pix_mp q q.current_format.pixelformat s
  setup_type q video_output_mplane s = setup_pix_mp q q.current_format.pixelformat s
  setup_type q (buf_type c) s = (s, neg einval)

  -- `__queue_setup`.
  unfoldable pub queue_setup : Queue → Setup → Setup × Ret
  unfolding setup_type
  queue_setup q s =
      setup_type q q.current_format.type
        (record s { num_buffers = if ltb s.num_buffers 1 then 1 else s.num_buffers })

-- `__buf_finish`: `dma_sync_sg_for_cpu`.
unfoldable pub buf_finish : Buffer → Buffer
buf_finish b = record b { owner = cpu }

-- `__buf_queue`, for each outcome of `mutex_lock_interruptible`.
unfoldable pub buf_queue : Bool → Queue → Buffer → Queue
buf_queue interrupted q b = if interrupted then q else record q { buffers = q.buffers ++ b ∷ [] }

-- `qvio_queue_s_fmt` and `qvio_queue_g_fmt`.
unfoldable pub queue_s_fmt : Queue → Format → Queue × Ret
queue_s_fmt q f = (record q { current_format = f }, success)

unfoldable pub queue_g_fmt : Queue → Format × Ret
queue_g_fmt q = (q.current_format, success)

-- `qvio_queue_start` and `qvio_queue_stop`. The streaming modes beside read and write are constant.
unfoldable pub queue_start : Queue → BufType → Queue × Ret
queue_start q type = (
  record q {
    vb2_type = type;
    vb2_read = same_type type video_capture || same_type type video_capture_mplane;
    vb2_write = not (same_type type video_capture || same_type type video_capture_mplane);
    min_buffers_needed = 2;
  },
  success,
)

unfoldable pub queue_stop : Queue → Queue
queue_stop q = q
