-- ===== src/Tests/Transfers.antt =====
-- Streaming and scatter tables at concrete inputs.
use v4l2_tuto.Kernel.{success, neg, eio, eiocbqueued, Ret, is_set, efault}
use v4l2_tuto.Prelude.{
  ◌≡◌, ◌⊎◌, ◌/◌, ◌∷◌, if◌then◌else◌, ℕ, true, false, some, none, List, [], refl, arith, ◌==◌,
}
use Prim.Native.Nat.{ℕ}
use v4l2_tuto.Tests.{kernel_align}
use v4l2_tuto.Qvio.Format.{Format, m420, video_capture, field_any}
use v4l2_tuto.Qvio.Queue.{Buffer, device}
use v4l2_tuto.Qvio.Streaming.{Stream, SubmitCalls, start_streaming}
use v4l2_tuto.Qvio.Streaming.Buffers.{Started, start_streaming-Started}
use v4l2_tuto.Qvio.Streaming.Frames.{Event, run, InOrder, run-InOrder, queues, completes, stops}
use v4l2_tuto.Qvio.Scatter.{Segment, PageTable, Table, buf_init, mmap, num_pages}
use v4l2_tuto.Qvio.Scatter.Cover.{Covers, buf_init-Covers}

abbrev m420_1080p : Format
m420_1080p = record {
  type = video_capture;
  width = 1920;
  height = 1080;
  pixelformat = m420;
  bytesperline = 1920;
  sizeimage = 3110400;
  num_planes = 0;
  plane_fmt0 = record { bytesperline = 0; sizeimage = 0 };
  plane_fmt1 = record { bytesperline = 0; sizeimage = 0 };
}

abbrev buffer : ℕ → Buffer
buffer i = record {
  index = i;
  plane_size = λ p. 3110400;
  payload = λ p. 3110400;
  field = field_any;
  sequence = 0;
  timestamp = 0;
  owner = device;
}

abbrev stream : ℕ → Stream
stream id = record {
  queue = record {
    current_format = m420_1080p;
    halign = 64;
    valign = 1;
    sequence = 0;
    buffers = buffer 0 ∷ buffer 1 ∷ buffer 2 ∷ [];
    vb2_type = video_capture;
    vb2_read = true;
    vb2_write = false;
    min_buffers_needed = 2;
  };
  device_id = id;
  register = 0x40000000;
  in_flight = [];
  returned = [];
}

-- It refuses the buffer 1.
abbrev failing : SubmitCalls
failing = record {
  interrupted = λ n. false;
  submit = λ b. if b.index == 1 then neg efault else neg eiocbqueued;
}

start_streaming-Started_example :
    Started failing
      (stream 0xF7570601)
      (buffer 0 ∷ buffer 1 ∷ buffer 2 ∷ [])
      (start_streaming failing (stream 0xF7570601))
start_streaming-Started_example = start_streaming-Started failing (stream 0xF7570601)

abbrev running : Stream
running = record (stream 0xF7570601) { in_flight = buffer 0 ∷ buffer 1 ∷ buffer 2 ∷ [] }

abbrev history : List Event
history =
    completes success success 100
    ∷ completes (neg eio) success 200
    ∷ queues false (buffer 0)
    ∷ completes success success 300
    ∷ stops false
    ∷ []

run-InOrder_example : InOrder (run running history)
run-InOrder_example = run-InOrder running history refl refl

abbrev identity_pages : PageTable
identity_pages v = some (v / 4096)

abbrev no_table : Table
no_table = record { sgt = none; is_bidirectional = false }

abbrev built : Table × Ret
built = buf_init 12 identity_pages success 1 8192 10000 mmap no_table

buf_init-Covers_example :
    ((built.0.sgt ≡ none) × (is_set built.1 ≡ true))
    ⊎ ((es : List Segment) × (built ≡ (record { sgt = some es; is_bidirectional = true }, success))
        × Covers 12 identity_pages (num_pages 12 10000) 8192 10000 es)
buf_init-Covers_example =
    buf_init-Covers 12 identity_pages success 1 8192 10000 no_table (omega arith)
