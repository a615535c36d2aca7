-- ===== src/Qvio/Streaming.antt =====
-- The streaming callbacks of modules/qvio/queue.c, over the list of buffers, the transfers that libxdma
-- was given, and the control register of the board at 0x00D0 of its user BAR. What libxdma and the
-- locks return is an argument.
pub mod Format
pub mod Register
pub mod Buffers
pub mod Frames
pub mod Thread
use v4l2_tuto.Prelude.{
  ℕ, ◌+◌, Bool, true, false, not, ◌==◌, ◌||◌, List, [], ◌∷◌, ◌++◌, map, u32, if◌then◌else◌, bit_and,
  bit_or, length,
}
use v4l2_tuto.Kernel.{Errno, eio, eiocbqueued, Ret, neg, pos, value, success, is_set, is_neg}
use v4l2_tuto.Qvio.Format.{PixelFormat, yuyv, nv12, m420, fourcc, field_none}
use v4l2_tuto.Qvio.Queue.{Queue, Buffer}

-- `VB2_BUF_STATE_DONE` and `VB2_BUF_STATE_ERROR`.
pub data BufState : Type 0 where
  done error : BufState

-- The queue and what surrounds it: `qdev->device_id`, the control register, the buffers that libxdma
-- works on, oldest first, and the `vb2_buffer_done` calls so far.
pub record Stream : Type 0 where
  pub queue : Queue
  pub device_id : ℕ
  pub register : ℕ
  pub in_flight : List Buffer
  pub returned : List (Buffer × BufState)

-- The two groups of `case` labels.
abbrev pub is_first_board : ℕ → Bool
is_first_board id = (id == 0xF7150002) || (id == 0xF7570001)

abbrev pub is_second_board : ℕ → Bool
is_second_board id = id == 0xF7570601

-- The format bits of the second board.
abbrev pub format_bits : PixelFormat → ℕ
format_bits yuyv = 0x00084112
format_bits nv12 = 0x00084122
format_bits m420 = 0x00084122
format_bits (fourcc c) = 0

-- The first `switch` of `__start_streaming`. For the first boards it computes a word and does not
-- write it.
unfoldable pub configure : Stream → Stream
configure s =
    if is_first_board s.device_id
    then s
    else if is_second_board s.device_id
    then record s {
      register =
          bit_and (bit_or s.register (format_bits s.queue.current_format.pixelformat)) 0xffff_ffef;
    }
    else s

-- Its last `switch`.
stream_on : Stream → Stream
stream_on s =
    if is_first_board s.device_id
    then record s { register = bit_or s.register 0x00000001 }
    else if is_second_board s.device_id
    then record s { register = bit_or s.register 0x00000010 }
    else s

-- The `switch` of `__stop_streaming`.
stream_off : Stream → Stream
stream_off s =
    if is_first_board s.device_id
    then record s { register = bit_and s.register 0xffff_fffe }
    else if is_second_board s.device_id
    then record s { register = bit_and s.register 0xffff_ffef }
    else s

-- What `__start_streaming` meets: whether a signal ends the wait for the mutex when so many buffers are
-- left, and what `xdma_xfer_submit_nowait` returns for a buffer.
pub record SubmitCalls : Type 0 where
  pub interrupted : ℕ → Bool
  pub submit : Buffer → Ret

-- Whether a submission is taken for a failure: `size < 0` and not `-EIOCBQUEUED`.
abbrev pub refused : Ret → Bool
refused (neg eiocbqueued) = false
refused (neg e) = true
refused (value n) = false
refused (pos e) = false

abbrev with_buffers : Stream → List Buffer → Stream
with_buffers s bs = record s { queue = record (s.queue) { buffers = bs } }

-- The loop that submits all buffers: the state, and whether it ended by `break`.
pub submit_all : SubmitCalls → Stream → List Buffer → Stream × Bool
submit_all calls s [] = (with_buffers s [], not (calls.interrupted 0))
submit_all calls s (b ∷ bs) =
    let rest = submit_all calls (record s { in_flight = s.in_flight ++ b ∷ [] }) bs in
    if calls.interrupted (length (b ∷ bs))
    then (with_buffers s (b ∷ bs), false)
    else if refused (calls.submit b)
    then (with_buffers s bs, false)
    else rest

unfoldable pub finish_start : Stream × Bool → Stream × Ret
unfolding stream_on
finish_start (s, true) = (stream_on s, success)
finish_start (s, false) = (s, neg eio)

-- `__start_streaming`.
unfoldable pub start_streaming : SubmitCalls → Stream → Stream × Ret
start_streaming calls s = finish_start (
    submit_all calls (configure (record s { queue = record (s.queue) { sequence = 0 } }))
      s.queue.buffers)

-- `__stop_streaming`, for each outcome of `mutex_lock_interruptible`. No thread was started, so there
-- is none to stop.
unfoldable pub stop_streaming : (interrupted : Bool) → Stream → Stream
unfolding stream_off
stop_streaming interrupted s =
    let s' : Stream = stream_off s in
    if interrupted then s' else record s' {
      returned = s'.returned ++ map (λ b. (b, error)) s'.queue.buffers;
      queue = record (s'.queue) { buffers = [] };
    }

-- `__io_done`, called with the buffer of a finished transfer: `err` is the transfer's error, `size` what
-- `xdma_xfer_completion` returns, `now` the clock.
unfoldable pub io_done : (err size : Ret) (now : ℕ) → Buffer → Stream → Stream
io_done err size now b s = if is_set err then s else if is_neg size then s else record s {
  returned =
      s.returned
      ++ (record b { timestamp = now; field = field_none; sequence = s.queue.sequence }, done) ∷ [];
  queue = record (s.queue) { sequence = u32 (s.queue.sequence + 1) };
}

read_first : Stream → List Buffer → Stream
read_first s [] = s
read_first s (b ∷ bs) = record s {
  queue = record (s.queue) { buffers = bs };
  returned = s.returned ++ (b, done) ∷ [];
}

-- `__read_one_frame` and `qvio_queue_try_buf_done`: the result of `xdma_xfer_submit` is not looked at.
unfoldable pub try_buf_done : (interrupted : Bool) → Stream → Stream × Ret
unfolding read_first
try_buf_done interrupted s = (if interrupted then s else read_first s s.queue.buffers, success)
