-- ===== src/Qvio/Streaming/Frames/Conserved.antt =====
-- On the streaming callbacks of modules/qvio/queue.c: where the buffers are through a history.
use v4l2_tuto.Prelude.{ℕ, ◌+◌, ◌||◌, List, [], ◌∷◌, if◌then◌else◌, ◌==◌}
use v4l2_tuto.Kernel.{is_set, is_neg}
use v4l2_tuto.Qvio.Queue.{Buffer}
use v4l2_tuto.Qvio.Streaming.{BufState, Stream}
use v4l2_tuto.Qvio.Streaming.Frames.{Event, queues, completes, stops, step}

-- How often the buffer with the index `i` stands in a list.
abbrev count : ℕ → List Buffer → ℕ
count i [] = 0
count i (b ∷ bs) = (if b.index == i then 1 else 0) + count i bs

abbrev count_returned : ℕ → List (Buffer × BufState) → ℕ
count_returned i [] = 0
count_returned i ((b, s) ∷ bs) = (if b.index == i then 1 else 0) + count_returned i bs

-- The places where a buffer can be: the list, a transfer, and with vb2 again.
abbrev pub present : ℕ → Stream → ℕ
present i s = count i s.queue.buffers + count i s.in_flight + count_returned i s.returned

-- What vb2 hands over in an event, and what is lost in it: the buffer that is handed over while the wait for the lock is
-- interrupted, and that of a failed transfer.
abbrev pub handed : ℕ → Event → ℕ
handed i (queues interrupted b) = count i (b ∷ [])
handed i (completes err size now) = 0
handed i (stops interrupted) = 0

abbrev pub first_of : List Buffer → List Buffer
first_of [] = []
first_of (b ∷ bs) = b ∷ []

abbrev pub lost : ℕ → Stream → Event → ℕ
lost i s (queues interrupted b) = if interrupted then count i (b ∷ []) else 0
lost i s (completes err size now) =
    if is_set err || is_neg size then count i (first_of s.in_flight) else 0
lost i s (stops interrupted) = 0

pub handed_in : ℕ → List Event → ℕ
handed_in i [] = 0
handed_in i (e ∷ es) = handed i e + handed_in i es

pub lost_in : ℕ → Stream → List Event → ℕ
lost_in i s [] = 0
lost_in i s (e ∷ es) = lost i s e + lost_in i (step s e) es
