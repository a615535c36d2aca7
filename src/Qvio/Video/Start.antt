-- ===== src/Qvio/Video/Start.antt =====
-- `qvio_video_start` and `qvio_video_stop` of modules/qvio/video.c. A failed call jumps to one of the
-- labels that undo what was done before it.
use v4l2_tuto.Prelude.{◌*◌, ◌/◌, Bool, true, false, not, Option, none, some, u32, if◌then◌else◌}
use v4l2_tuto.Kernel.{Ret, success, is_set, Align, align}
use v4l2_tuto.Qvio.Format.{
  nv12, BufType, video_capture, video_output, video_capture_mplane, video_output_mplane, buf_type,
  Format,
}
use v4l2_tuto.Qvio.Queue.{queue_start, queue_stop}
use v4l2_tuto.Qvio.Video.{Video}

-- What the calls of `qvio_video_start` return: `v4l2_device_register`, `vb2_queue_init`, whether
-- `video_device_alloc` finds memory, and `video_register_device`.
pub record StartCalls : Type 0 where
  pub device_register : Ret
  pub queue_init : Ret
  pub device_alloc : Bool
  pub register_device : Ret

module _ ⦃al : Align⦄ where
  default_pix : Video → Format
  default_pix v = record (v.current_format) {
    type = v.buffer_type;
    width = 1920;
    height = 1080;
    pixelformat = nv12;
    bytesperline = align 1920 v.halign;
    sizeimage = u32 (u32 (align 1920 v.halign * align 1080 v.valign) * 3) / 2;
  }

  default_pix_mp : Video → Format
  default_pix_mp v = record (v.current_format) {
    type = v.buffer_type;
    width = 1920;
    height = 1080;
    pixelformat = nv12;
    num_planes = 2;
    plane_fmt0 = record {
      bytesperline = align 1920 v.halign;
      sizeimage = u32 (align 1920 v.halign * align 1080 v.valign);
    };
    plane_fmt1 = record {
      bytesperline = align 1920 v.halign;
      sizeimage = u32 (align 1920 v.halign * align 1080 v.valign) / 2;
    };
  }

  -- The `switch` on `buffer_type` in `qvio_video_start`; `none` is its `default`.
  default_format : Video → BufType → Option Format
  unfolding default_pix default_pix_mp
  default_format v video_capture = some (default_pix v)
  default_format v video_output = some (default_pix v)
  default_format v video_capture_mplane = some (default_pix_mp v)
  default_format v video_output_mplane = some (default_pix_mp v)
  default_format v (buf_type c) = none

  -- The labels `err1`, `err2` and `err3`, each falling through to the one before.
  unregister : Video → Video
  unregister v = record v { registration = record (v.registration) { v4l2_dev = false } }

  stop_queue : Video → Video
  unfolding unregister
  stop_queue v = unregister (record v { queue = queue_stop v.queue })

  release_vdev : Video → Video
  unfolding stop_queue
  release_vdev v = stop_queue (record v { registration = record (v.registration) { vdev = false } })

  -- From `current_parm` on.
  register_node : StartCalls → Video → Video × Ret
  unfolding release_vdev
  register_node calls v =
      let v' : Video = record v {
        current_parm = record {
          type = v.buffer_type;
          timeperframe_capability = true;
          capturemode = 0;
          numerator = 60;
          denominator = 1;
        };
      } in
      if is_set calls.register_device
      then (release_vdev v', calls.register_device)
      else (record v' { registration = record (v'.registration) { node = true } }, success)

  -- From `current_format.type = buffer_type` on; `err` is still 0 when `default` jumps to `err3`.
  set_default : StartCalls → Video → Option Format → Video × Ret
  unfolding release_vdev register_node
  set_default calls v none = (
    release_vdev (record v { current_format = record (v.current_format) { type = v.buffer_type } }),
    success,
  )
  set_default calls v (some f) = register_node calls (record v { current_format = f })

  -- From `vb2_queue_init` on; `err` is still 0 when `video_device_alloc` fails.
  start_device : StartCalls → Video → Video × Ret
  unfolding stop_queue set_default default_format
  start_device calls v =
      if is_set calls.queue_init
      then (stop_queue v, calls.queue_init)
      else if not calls.device_alloc
      then (stop_queue v, success)
      else set_default calls (record v { registration = record (v.registration) { vdev = true } })
          (default_format v v.buffer_type)

  -- From `qvio_queue_start` on.
  start_queue : StartCalls → Video → Video × Ret
  unfolding unregister start_device queue_start
  start_queue calls v =
      let (q, err) = queue_start v.queue v.buffer_type in
      if is_set err
      then (unregister (record v { queue = q }), err)
      else start_device calls (record v { queue = q })

  -- `qvio_video_start`.
  unfoldable pub video_start : StartCalls → Video → Video × Ret
  unfolding start_queue
  video_start calls v =
      if is_set calls.device_register
      then (v, calls.device_register)
      else start_queue calls (record v {
        queue = record (v.queue) { halign = v.halign; valign = v.valign };
        registration = record (v.registration) { v4l2_dev = true };
      })

-- `qvio_video_stop`.
unfoldable pub video_stop : Video → Video
unfolding queue_stop
video_stop v = record v {
  queue = queue_stop v.queue;
  registration = record { v4l2_dev = false; vdev = false; node = false };
}
