-- ===== src/Qvio/Streaming/Frames.antt =====
-- The frames that reach the user while a stream runs.
pub mod Conserved
use v4l2_tuto.Prelude.{
  ℕ, suc, ◌+◌, ◌≡◌, refl, ap, ◌∙◌, inl, inr, Bool, u32, arith, Bool-cases, List-cases, List, [],
  ◌∷◌, ◌++◌, map, append-nil, length, length-append,
}
use v4l2_tuto.Kernel.{is_set, is_neg, Ret}
use v4l2_tuto.Qvio.Queue.{Buffer}
use v4l2_tuto.Qvio.Streaming.{BufState, done, error, Stream, stop_streaming, io_done}
use v4l2_tuto.Qvio.Queue.{buf_queue}
use v4l2_tuto.Qvio.Streaming.Buffers.{stop_streaming-buffers}

-- What may happen between a start and the next: vb2 hands a buffer over, the oldest transfer ends, the
-- stream is stopped.
pub data Event : Type 0 where
  queues : (interrupted : Bool) → Buffer → Event
  completes : (err size : Ret) (now : ℕ) → Event
  stops : (interrupted : Bool) → Event

complete_first : Ret → Ret → ℕ → Stream → List Buffer → Stream
complete_first err size now s [] = s
complete_first err size now s (b ∷ bs) = io_done err size now b (record s { in_flight = bs })

unfoldable pub step : Stream → Event → Stream
unfolding complete_first
step s (queues interrupted b) = record s { queue = buf_queue interrupted s.queue b }
step s (completes err size now) = complete_first err size now s s.in_flight
step s (stops interrupted) = stop_streaming interrupted s

pub run : Stream → List Event → Stream
run s [] = s
run s (e ∷ es) = run (step s e) es

-- The buffers that were returned as done, in order.
abbrev pub frames : List (Buffer × BufState) → List Buffer
frames [] = []
frames ((b, done) ∷ bs) = b ∷ frames bs
frames ((b, error) ∷ bs) = frames bs

-- The frames behind the first `n` are numbered from `n` on, modulo 2 ^ 32.
abbrev pub Sequenced : ℕ → List Buffer → Type 0
Sequenced n [] = Unit {0}
Sequenced n (b ∷ bs) = (b.sequence ≡ u32 n) × Sequenced (suc n) bs

pub record InOrder (s : Stream) : Type 0 where
  pub next : s.queue.sequence ≡ u32 (length (frames s.returned))
  pub sequenced : Sequenced 0 (frames s.returned)

frames-append : (xs ys : List (Buffer × BufState)) → frames (xs ++ ys) ≡ frames xs ++ frames ys
frames-append [] ys = refl
frames-append ((b, done) ∷ xs) ys = ap (λ l. b ∷ l) (frames-append xs ys)
frames-append ((b, error) ∷ xs) ys = frames-append xs ys

frames_error : (bs : List Buffer) → frames (map (λ b. (b, error)) bs) ≡ []
frames_error [] = refl
frames_error (b ∷ bs) = frames_error bs

Sequenced-append :
    (n : ℕ) (bs : List Buffer) (b : Buffer)
    → Sequenced n bs
    → b.sequence ≡ u32 (n + length bs)
    → Sequenced n (bs ++ b ∷ [])
Sequenced-append n [] b h e = (omega arith, tt)
Sequenced-append n (c ∷ bs) b h e = (h.0, Sequenced-append (suc n) bs b h.1 (omega arith))

InOrder-snoc :
    {s s' : Stream} (b : Buffer)
    → InOrder s
    → s'.returned ≡ s.returned ++ (b, done) ∷ []
    → b.sequence ≡ s.queue.sequence
    → s'.queue.sequence ≡ u32 (s.queue.sequence + 1)
    → InOrder s'
InOrder-snoc {s} {s'} b v e q n =
    let f : frames s'.returned ≡ frames s.returned ++ b ∷ [] =
      ap frames e ∙ frames-append s.returned ((b, done) ∷ []) in
    record {
      next = omega (arith, ap length f, length-append (frames s.returned) (b ∷ []), v.next, n);
      sequenced =
          rw f (Sequenced-append 0 (frames s.returned) b v.sequenced (omega (arith, q, v.next)));
    }

InOrder-same :
    {s s' : Stream}
    → InOrder s
    → frames s'.returned ≡ frames s.returned
    → s'.queue.sequence ≡ s.queue.sequence
    → InOrder s'
InOrder-same v f q = record { next = rw (f, q) v.next; sequenced = rw f v.sequenced }

io_done-InOrder :
    (err size : Ret) (now : ℕ) (b : Buffer) (s : Stream)
    → InOrder s
    → InOrder (io_done err size now b s)
unfolding io_done
io_done-InOrder err size now b s v = elim (Bool-cases (is_set err)) [
  | inl bad ↦ rw bad v
  | inr ok ↦ elim (Bool-cases (is_neg size)) [
    | inl bad ↦ rw (ok, bad) v
    | inr good ↦ rw (ok, good) (InOrder-snoc _ v refl refl refl)
  ]
]

stop_frames :
    (interrupted : Bool) (s : Stream)
    → frames (stop_streaming interrupted s).returned ≡ frames s.returned
stop_frames interrupted s = elim (Bool-cases interrupted) [
  | inl e ↦ rw ((stop_streaming-buffers interrupted s).2, e) refl
  | inr e ↦
      rw ((stop_streaming-buffers interrupted s).2, e)
        (frames-append s.returned _ ∙ rw (frames_error s.queue.buffers) (append-nil _))
]

stop_sequence :
    (interrupted : Bool) (s : Stream)
    → (stop_streaming interrupted s).queue.sequence ≡ s.queue.sequence
unfolding stop_streaming
stop_sequence interrupted s = ground arith

stop-InOrder :
    (interrupted : Bool) (s : Stream) → InOrder s → InOrder (stop_streaming interrupted s)
stop-InOrder interrupted s v =
    InOrder-same v (stop_frames interrupted s) (stop_sequence interrupted s)

step-InOrder : (s : Stream) (e : Event) → InOrder s → InOrder (step s e)
unfolding step buf_queue
step-InOrder s (queues interrupted b) v = InOrder-same v refl (ground arith)
step-InOrder s (completes err size now) v = elim (List-cases s.in_flight) [
  | inl e ↦ rw (e, complete_first) v
  | inr (b, bs, e) ↦
      rw (e, complete_first)
        (io_done-InOrder err size now b (record s { in_flight = bs }) (InOrder-same v refl refl))
]
step-InOrder s (stops interrupted) v = stop-InOrder interrupted s v

run_from-InOrder : (s : Stream) (es : List Event) → InOrder s → InOrder (run s es)
unfolding run
run_from-InOrder s [] v = v
run_from-InOrder s (e ∷ es) v = run_from-InOrder (step s e) es (step-InOrder s e v)

-- From a start with nothing returned yet, whatever is queued, completed, failed or stopped: the frames
-- that were returned as done are numbered 0, 1, 2 and so on, modulo 2 ^ 32, with no number skipped.
pub run-InOrder :
    (s : Stream) (es : List Event) → s.queue.sequence ≡ 0 → s.returned ≡ [] → InOrder (run s es)
run-InOrder s es zeroed fresh =
    run_from-InOrder s es (record { next = rw fresh zeroed; sequenced = rw fresh tt })
