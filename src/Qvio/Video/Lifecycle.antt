-- ===== src/Qvio/Video/Lifecycle.antt =====
-- What `qvio_video_start` leaves registered, what it returns, and what state it starts from.
use v4l2_tuto.Prelude.{if◌then◌else◌, ◌≡◌, ◌&&◌, ◌⊎◌, true, false, not, arith}
use v4l2_tuto.Kernel.{einval, neg, success, Align, is_set}
use v4l2_tuto.Qvio.Format.{same_type_self}
use v4l2_tuto.Qvio.Queue.{Setup, queue_setup}
use v4l2_tuto.Qvio.Video.{Video, Registration, zero_format}
use v4l2_tuto.Qvio.Video.Formats.{try_fmt, g_fmt}
use v4l2_tuto.Qvio.Video.Negotiate.{known_type}
use v4l2_tuto.Qvio.Video.Start.{StartCalls, video_start}

abbrev pub held : Registration
held = record { v4l2_dev = true; vdev = true; node = true }

abbrev pub released : Registration
released = record { v4l2_dev = false; vdev = false; node = false }

-- Every call of `qvio_video_start` succeeds.
pub record Succeeds (calls : StartCalls) : Type 0 where
  pub device_register : calls.device_register ≡ success
  pub queue_init : calls.queue_init ≡ success
  pub device_alloc : calls.device_alloc ≡ true
  pub register_device : calls.register_device ≡ success

module _ ⦃al : Align⦄ where
  -- Starting a device that has nothing registered: if every call succeeds and the buffer type is known,
  -- the device is registered in full and the result is 0. Otherwise nothing stays registered or
  -- allocated.
  pub video_start_registration :
      (calls : StartCalls) (v : Video)
      → v.registration ≡ released
      → let r = video_start calls v in
        (Succeeds calls
          × (known_type v.buffer_type ≡ true)
          × (r.0.registration ≡ held)
          × (r.1 ≡ success))
        ⊎ (¬ (Succeeds calls × (known_type v.buffer_type ≡ true)) × (r.0.registration ≡ released))
  unfolding video_start
  video_start_registration calls v fresh = ground arith

  -- Starting a device that has nothing registered returns the code of the first call that fails, but 0
  -- if the `video_device` cannot be allocated or the buffer type is unknown, though the start has failed
  -- then.
  pub video_start_code :
      (calls : StartCalls) (v : Video)
      → v.registration ≡ released
      → let r = video_start calls v in
        r.1 ≡ (
          if is_set calls.device_register
          then calls.device_register
          else if is_set calls.queue_init
          then calls.queue_init
          else if not (calls.device_alloc && known_type v.buffer_type)
          then success
          else if is_set calls.register_device
          then calls.register_device
          else success)
  unfolding video_start
  video_start_code calls v fresh = ground arith

  -- A device of a known buffer type whose queue has no format yet, and that was started with every call
  -- successful, reports a format that it accepts itself; but its queue refuses to set up buffers.
  pub queue_setup-video_start :
      (calls : StartCalls) (v : Video) (s : Setup)
      → v.queue.current_format ≡ zero_format
      → known_type v.buffer_type ≡ true
      → Succeeds calls
      → let r = video_start calls v in
        (try_fmt r.0 (g_fmt r.0).0 ≡ success) × ((queue_setup r.0.queue s).1 ≡ neg einval)
  unfolding video_start try_fmt g_fmt queue_setup
  queue_setup-video_start calls v s fresh known ok = ground (arith, same_type_self v.buffer_type)
