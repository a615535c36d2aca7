-- ===== src/Qvio/Ioctl/History.antt =====
-- On modules/qvio: the whole life of a started device, through any requests and callbacks.
use v4l2_tuto.Qvio.Video.Negotiate.{try_fmt_iff, known_type}
use v4l2_tuto.Qvio.Ioctl.{
  vidioc_g_fmt, other_command, user_job_fd, vidioc_enum_frameintervals, vidioc_enum_framesizes,
  s_parm, s_output, s_input, vidioc_g_output, vidioc_enum_output, vidioc_g_input, vidioc_enum_input,
  vidioc_try_fmt, vidioc_enum_fmt, vidioc_querycap, vidioc_s_parm, vidioc_s_output, vidioc_s_input,
  buf_done, vidioc_s_fmt, Node, stream_of, with_stream, Request, ioctl, vidioc_g_parm,
}
use v4l2_tuto.Qvio.Streaming.Format.{
  SameFormat, start_streaming-SameFormat, stop_streaming-SameFormat, io_done-SameFormat,
  try_buf_done-SameFormat,
}
use v4l2_tuto.Qvio.Streaming.{SubmitCalls, start_streaming, stop_streaming, io_done}
use v4l2_tuto.Prelude.{some, ℕ, ◌≡◌, ◌⊎◌, Bool, true, List, [], ◌∷◌, if◌then◌else◌, arith}
use v4l2_tuto.Kernel.{einval, Ret, neg, success, Align}
use v4l2_tuto.Qvio.Format.{Format, same_type_iff}
use v4l2_tuto.Qvio.Queue.{Queue, Buffer, Setup, buf_queue, queue_setup}
use v4l2_tuto.Qvio.Queue.Sizes.{is_pix}
use v4l2_tuto.Qvio.UserJob.{Command, Ctrl, Outcome, Job, file_ioctl}
use v4l2_tuto.Qvio.Video.{Video, zero_format}
use v4l2_tuto.Qvio.Video.Formats.{try_fmt, g_fmt, video_s_fmt, known_format, fill}
use v4l2_tuto.Qvio.Video.Handlers.{s_input, s_output, s_parm}
use v4l2_tuto.Qvio.Video.Start.{StartCalls, video_start}
use v4l2_tuto.Qvio.Video.Lifecycle.{Succeeds}

-- What can happen to a node: a request, a call by vb2, the end of a transfer, a command of the daemon.
pub data Event : Type 0 where
  requests : Request → Event
  queues : (interrupted : Bool) → Buffer → Event
  starts : SubmitCalls → Event
  stops : (interrupted : Bool) → Event
  completes : (err size : Ret) (now : ℕ) → Buffer → Event
  commands : Command → Event

after_command : Node → Outcome Job → Node
after_command n (Outcome.returned c j ret) = record n {
  video = record (n.video) { user_job_ctrl = c };
}
after_command n Outcome.fault = n

pub happen : ⦃al : Align⦄ → Node → Event → Node
unfolding after_command
happen n (requests r) = (ioctl r n).0
happen n (queues interrupted b) = record n {
  video = record (n.video) { queue = buf_queue interrupted n.video.queue b };
}
happen n (starts calls) = with_stream n (start_streaming calls (stream_of n)).0
happen n (stops interrupted) = with_stream n (stop_streaming interrupted (stream_of n))
happen n (completes err size now b) = with_stream n (io_done err size now b (stream_of n))
happen n (commands c) = after_command n (file_ioctl n.video.user_job_ctrl c)

pub run : ⦃al : Align⦄ → Node → List Event → Node
run n [] = n
run n (e ∷ es) = run (happen n e) es

module _ ⦃al : Align⦄ where
  -- The formats and settings of a device agree with each other and with its queue.
  pub record Coherent (v : Video) : Type 0 where
    pub known : known_type v.buffer_type ≡ true
    pub halign : v.queue.halign ≡ v.halign
    pub valign : v.queue.valign ≡ v.valign
    pub type : v.current_format.type ≡ v.buffer_type
    pub pixels : known_format v.current_format.pixelformat ≡ true
    pub filled : fill v v.current_format v.buffer_type ≡ some v.current_format
    pub queued :
        (v.queue.current_format ≡ zero_format) ⊎ (v.queue.current_format ≡ v.current_format)
    pub port : v.current_inout ≡ 0
    pub parm : v.current_parm.type ≡ v.buffer_type

  video_start-Coherent :
      (calls : StartCalls) (v : Video)
      → v.queue.current_format ≡ zero_format
      → v.current_inout ≡ 0
      → known_type v.buffer_type ≡ true
      → Succeeds calls
      → Coherent (video_start calls v).0
  unfolding video_start fill
  video_start-Coherent calls v fresh port known ok = ground arith

  SameFormat-Coherent :
      (v : Video) (q : Queue)
      → SameFormat v.queue q
      → Coherent v
      → Coherent (record v { queue = q })
  unfolding fill
  SameFormat-Coherent v q same h = ground arith

  video_s_fmt-Coherent :
      (allocated : Bool) (others : Ctrl → Ctrl × Bool) (v : Video) (f : Format)
      → Coherent v
      → Coherent (video_s_fmt allocated others v f).0
  unfolding video_s_fmt try_fmt fill
  video_s_fmt-Coherent allocated others v f h = ground (arith, same_type_iff f.type v.buffer_type)

  ioctl-Coherent : (r : Request) (n : Node) → Coherent n.video → Coherent (ioctl r n).0.video
  unfolding ioctl s_input s_output s_parm fill
  ioctl-Coherent (vidioc_s_fmt allocated others f) n h =
      video_s_fmt-Coherent allocated others n.video f h
  ioctl-Coherent (buf_done interrupted) n h =
      SameFormat-Coherent n.video _ (try_buf_done-SameFormat interrupted (stream_of n)) h
  ioctl-Coherent (vidioc_s_input i) n h = ground arith
  ioctl-Coherent (vidioc_s_output i) n h = ground arith
  ioctl-Coherent (vidioc_s_parm p) n h = ground (arith, same_type_iff p.type n.video.buffer_type)
  ioctl-Coherent (vidioc_querycap x) n h = h
  ioctl-Coherent (vidioc_enum_fmt d) n h = h
  ioctl-Coherent vidioc_g_fmt n h = h
  ioctl-Coherent (vidioc_try_fmt f) n h = h
  ioctl-Coherent (vidioc_enum_input p) n h = h
  ioctl-Coherent (vidioc_g_input i) n h = h
  ioctl-Coherent (vidioc_enum_output u p) n h = h
  ioctl-Coherent (vidioc_g_output i) n h = h
  ioctl-Coherent (vidioc_g_parm p) n h = h
  ioctl-Coherent (vidioc_enum_framesizes s) n h = h
  ioctl-Coherent (vidioc_enum_frameintervals s) n h = h
  ioctl-Coherent (user_job_fd u f) n h = h
  ioctl-Coherent (other_command c) n h = h

  buf_queue-SameFormat :
      (interrupted : Bool) (q : Queue) (b : Buffer) → SameFormat q (buf_queue interrupted q b)
  unfolding buf_queue
  buf_queue-SameFormat interrupted q b = ground arith

  after_command-Coherent :
      (n : Node) (o : Outcome Job) → Coherent n.video → Coherent (after_command n o).video
  unfolding after_command fill
  after_command-Coherent n (Outcome.returned c j ret) h = ground arith
  after_command-Coherent n Outcome.fault h = h

  happen-Coherent : (n : Node) (e : Event) → Coherent n.video → Coherent (happen n e).video
  unfolding happen
  happen-Coherent n (requests r) h = ioctl-Coherent r n h
  happen-Coherent n (queues interrupted b) h =
      SameFormat-Coherent n.video _ (buf_queue-SameFormat interrupted n.video.queue b) h
  happen-Coherent n (starts calls) h =
      SameFormat-Coherent n.video _ (start_streaming-SameFormat calls (stream_of n)) h
  happen-Coherent n (stops interrupted) h =
      SameFormat-Coherent n.video _ (stop_streaming-SameFormat interrupted (stream_of n)) h
  happen-Coherent n (completes err size now b) h =
      SameFormat-Coherent n.video _ (io_done-SameFormat err size now b (stream_of n)) h
  happen-Coherent n (commands c) h = after_command-Coherent n (file_ioctl n.video.user_job_ctrl c) h

  run-Coherent : (n : Node) (es : List Event) → Coherent n.video → Coherent (run n es).video
  unfolding run
  run-Coherent n [] h = h
  run-Coherent n (e ∷ es) h = run-Coherent (happen n e) es (happen-Coherent n e h)

  -- A request for buffers is refused, or is for as many planes as the format has, the first of its size.
  abbrev pub Sized : Video → Format → Setup × Ret → Type 0
  Sized v f q =
      (q.1 ≡ neg einval)
      ⊎ ((q.1 ≡ success)
          × (q.0.num_planes ≡ (if is_pix v.buffer_type then 1 else f.num_planes))
          × (q.0.sizes 0 ≡ (if is_pix v.buffer_type then f.sizeimage else f.plane_fmt0.sizeimage)))

  -- What the queue does with a coherent device.
  queue_setup-Coherent :
      (v : Video) (s : Setup) → Coherent v → Sized v v.current_format (queue_setup v.queue s)
  unfolding queue_setup fill
  queue_setup-Coherent v s h = ground arith

  -- A device is started with every call successful, with a known buffer type and no format in its queue. After
  -- any history of requests, vb2 callbacks, transfers and commands of the daemon: the format that it reports
  -- is one that it accepts, on input 0 and with streaming parameters of its own buffer type; and its queue
  -- either refuses to set up buffers, or asks for as many planes as are reported, the first of the size that
  -- is reported.
  pub run-video_start :
      (calls : StartCalls) (v : Video) (n : Node) (es : List Event) (s : Setup)
      → v.queue.current_format ≡ zero_format
      → v.current_inout ≡ 0
      → known_type v.buffer_type ≡ true
      → Succeeds calls
      → let w = (run (record n { video = (video_start calls v).0 }) es).video in
        let f = (g_fmt w).0 in
        let q = queue_setup w.queue s in
        (try_fmt w f ≡ success)
        × (w.current_inout ≡ 0)
        × (w.current_parm.type ≡ w.buffer_type)
        × Sized w f q
  unfolding g_fmt
  run-video_start calls v n es s fresh port known ok =
      let h =
        run-Coherent (record n { video = (video_start calls v).0 }) es
          (video_start-Coherent calls v fresh port known ok) in
      (
        (try_fmt_iff _ _).0.1 (h.type, h.known, h.pixels),
        h.port,
        h.parm,
        queue_setup-Coherent _ s h,
      )
