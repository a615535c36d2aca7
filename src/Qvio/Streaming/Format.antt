-- ===== src/Qvio/Streaming/Format.antt =====
-- The streaming callbacks of modules/qvio/queue.c and the format of the queue.
use v4l2_tuto.Prelude.{ℕ, ◌≡◌, Bool, List, [], ◌∷◌, ◌++◌, arith}
use v4l2_tuto.Kernel.{Ret}
use v4l2_tuto.Qvio.Queue.{Queue, Buffer}
use v4l2_tuto.Qvio.Streaming.{
  Stream, SubmitCalls, submit_all, configure, finish_start, start_streaming, stop_streaming,
  io_done, try_buf_done,
}

-- Callbacks that keep the format of the queue.
pub record SameFormat (q q' : Queue) : Type 0 where
  pub same_format : q'.current_format ≡ q.current_format
  pub same_halign : q'.halign ≡ q.halign
  pub same_valign : q'.valign ≡ q.valign

submit_all-SameFormat :
    (calls : SubmitCalls) (s : Stream) (bs : List Buffer)
    → SameFormat s.queue (submit_all calls s bs).0.queue
unfolding submit_all
submit_all-SameFormat calls s [] = ground arith
submit_all-SameFormat calls s (b ∷ bs) =
    ground (arith, submit_all-SameFormat calls (record s { in_flight = s.in_flight ++ b ∷ [] }) bs)

pub start_streaming-SameFormat :
    (calls : SubmitCalls) (s : Stream) → SameFormat s.queue (start_streaming calls s).0.queue
unfolding start_streaming configure finish_start
start_streaming-SameFormat calls s = ground (
  arith,
  submit_all-SameFormat calls (configure (record s { queue = record (s.queue) { sequence = 0 } }))
      s.queue.buffers,
)

pub stop_streaming-SameFormat :
    (interrupted : Bool) (s : Stream) → SameFormat s.queue (stop_streaming interrupted s).queue
unfolding stop_streaming
stop_streaming-SameFormat interrupted s = ground arith

pub io_done-SameFormat :
    (err size : Ret) (now : ℕ) (b : Buffer) (s : Stream)
    → SameFormat s.queue (io_done err size now b s).queue
unfolding io_done
io_done-SameFormat err size now b s = ground arith

pub try_buf_done-SameFormat :
    (interrupted : Bool) (s : Stream) → SameFormat s.queue (try_buf_done interrupted s).0.queue
unfolding try_buf_done
try_buf_done-SameFormat interrupted s = ground arith
