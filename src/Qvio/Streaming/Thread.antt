-- ===== src/Qvio/Streaming/Thread.antt =====
-- `__stream_main` of modules/qvio/queue.c, a thread that submits one buffer after the other and waits for each.
-- What the mutex, libxdma and the clock return is an argument of each round.
pub mod Kept
use v4l2_tuto.Prelude.{
  subst, ℕ, ◌+◌, ◌≡◌, ◌∙◌, refl, sym, ap, Bool, true, false, Option, none, some, List, [], ◌∷◌,
  ◌++◌, map, u32, if◌then◌else◌, arith, append-snoc, append_assoc, append-nil, Bool-cases, inl, inr,
}
use v4l2_tuto.Kernel.{Ret, is_neg}
use v4l2_tuto.Qvio.Format.{field_none}
use v4l2_tuto.Qvio.Queue.{Queue, Buffer}
use v4l2_tuto.Qvio.Streaming.{BufState, done, error, Stream, stream_on}

-- The thread's own state: the buffer in its hands, and whether the register was set.
pub record Thread : Type 0 where
  pub stream : Stream
  pub buf : Option Buffer
  pub stream_started : Bool

-- A round: whether the thread is to stop, whether a signal ends the wait for the mutex, what
-- `xdma_xfer_submit` returns, cut to an `int`, and the clock.
pub record MainCalls : Type 0 where
  pub stop : Bool
  pub interrupted : Bool
  pub size : Ret
  pub now : ℕ

-- The loop goes on, or ends.
pub data MainTurn : Type 0 where
  continues breaks : Thread → MainTurn

-- The `switch` that sets the register, once.
start_stream : Thread → Thread
unfolding stream_on
start_stream t =
    if t.stream_started then t else record t { stream = stream_on t.stream; stream_started = true }

-- A transfer that went through.
give_done : ℕ → Buffer → Stream → Stream
give_done now b s = record s {
  returned =
      s.returned
      ++ (record b { timestamp = now; field = field_none; sequence = s.queue.sequence }, done) ∷ [];
  queue = record (s.queue) { sequence = u32 (s.queue.sequence + 1) };
}

-- From the submission on; after a failure the buffer stays in the thread's hands.
submit_one : MainCalls → Buffer → Thread → MainTurn
unfolding give_done
submit_one c b t =
    if is_neg c.size
    then continues (record t { buf = some b })
    else continues (record t { stream = give_done c.now b t.stream; buf = none })

-- The list without the buffer that was at its front.
abbrev pub with_ready : List Buffer → Thread → Thread
with_ready bs t = record t {
  stream = record (t.stream) { queue = record (t.stream.queue) { buffers = bs } };
}

-- The buffer at the front of the list is taken under the mutex.
take_ready : MainCalls → List Buffer → Thread → MainTurn
unfolding submit_one start_stream
take_ready c [] t = continues t
take_ready c (b ∷ bs) t = submit_one c b (start_stream (with_ready bs t))

-- One round of the loop.
unfoldable pub main_round : MainCalls → Thread → MainTurn
unfolding take_ready submit_one start_stream
main_round c t = if c.stop then breaks t else elim t.buf [
  | some b ↦ submit_one c b (start_stream t)
  | none ↦ if c.interrupted then breaks t else take_ready c t.stream.queue.buffers t
]

-- Behind the loop, the buffer in the thread's hands goes back as failed.
finish_main : Option Buffer → Stream → Stream
finish_main none s = s
finish_main (some b) s = record s { returned = s.returned ++ (b, error) ∷ [] }

-- `__stream_main` on the rounds that it makes; after the last it is told to stop.
unfoldable pub stream_main : List MainCalls → Thread → Stream
unfolding main_round finish_main
stream_main [] t = finish_main t.buf t.stream
stream_main (c ∷ cs) t = elim (main_round c t) [
  | continues t' ↦ stream_main cs t'
  | breaks t' ↦ finish_main t'.buf t'.stream
]
