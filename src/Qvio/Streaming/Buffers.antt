-- ===== src/Qvio/Streaming/Buffers.antt =====
-- Where the buffers are after streaming starts and stops.
use v4l2_tuto.Prelude.{
  suc, ◌≡◌, ◌↔◌, refl, sym, ap, ◌∙◌, ◌⊎◌, inl, inr, Bool, true, false, arith, Bool-cases, List, [],
  ◌∷◌, ◌++◌, map, append-nil, append-snoc, length, if◌then◌else◌,
}
use v4l2_tuto.Kernel.{eio, neg, success, Ret}
use v4l2_tuto.Qvio.Queue.{Buffer}
use v4l2_tuto.Qvio.Streaming.{
  error, Stream, SubmitCalls, refused, submit_all, configure, stream_on, finish_start,
  start_streaming, stop_streaming,
}

-- Every lock is taken and every submission accepted.
abbrev pub Accepts : SubmitCalls → List Buffer → Type 0
Accepts calls [] = calls.interrupted 0 ≡ false
Accepts calls (b ∷ bs) =
    (calls.interrupted (length (b ∷ bs)) ≡ false)
    × (refused (calls.submit b) ≡ false)
    × Accepts calls bs

-- `bs` are some buffers that were submitted, then at most one that was refused, then `left`.
abbrev pub Splits : List Buffer → List Buffer → List Buffer → Type 0
Splits bs sent left = (bs ≡ sent ++ left) ⊎ ((b : Buffer) × (bs ≡ sent ++ b ∷ left))

-- What the loop leaves behind, whether it is broken off or not.
record Submitted (s : Stream) (bs : List Buffer) (r : Stream × Bool) : Type 0 where
  sent : List Buffer
  flying : r.0.in_flight ≡ s.in_flight ++ sent
  kept : r.0.returned ≡ s.returned
  splits : Splits bs sent r.0.queue.buffers
  all_sent : r.1 ≡ true → (sent ≡ bs) × (r.0.queue.buffers ≡ [])

Submitted-cons :
    (s : Stream) (b : Buffer) (bs : List Buffer) (r : Stream × Bool)
    → Submitted (record s { in_flight = s.in_flight ++ b ∷ [] }) bs r
    → Submitted s (b ∷ bs) r
Submitted-cons s b bs r h = record {
  sent = b ∷ h.sent;
  flying = h.flying ∙ append-snoc s.in_flight b h.sent;
  kept = h.kept;
  splits = elim h.splits [
    | inl e ↦ inl (ap (λ l. b ∷ l) e)
    | inr (c, e) ↦ inr (c, ap (λ l. b ∷ l) e)
  ];
  all_sent = λ e. (ap (λ l. b ∷ l) (h.all_sent e).0, (h.all_sent e).1);
}

submit_all-Submitted :
    (calls : SubmitCalls) (s : Stream) (bs : List Buffer) → Submitted s bs (submit_all calls s bs)
unfolding submit_all
submit_all-Submitted calls s [] = record {
  sent = [];
  flying = sym (append-nil s.in_flight);
  kept = refl;
  splits = inl refl;
  all_sent = λ e. (refl, refl);
}
submit_all-Submitted calls s (b ∷ bs) = elim (Bool-cases (calls.interrupted (suc (length bs)))) [
  | inl stop ↦ rw stop (record {
    sent = [];
    flying = sym (append-nil s.in_flight);
    kept = refl;
    splits = inl refl;
    all_sent = λ e. cc;
  })
  | inr go ↦ elim (Bool-cases (refused (calls.submit b))) [
    | inl bad ↦
        rw (go, bad)
          (record {
            sent = [];
            flying = sym (append-nil s.in_flight);
            kept = refl;
            splits = inr (b, refl);
            all_sent = λ e. cc;
          })
    | inr good ↦
        rw (go, good)
          (Submitted-cons s b bs _
            (submit_all-Submitted calls (record s { in_flight = s.in_flight ++ b ∷ [] }) bs))
  ]
]

submit_all-Accepts :
    (calls : SubmitCalls) (s : Stream) (bs : List Buffer)
    → ((submit_all calls s bs).1 ≡ true) ↔ Accepts calls bs
unfolding submit_all
submit_all-Accepts calls s [] = ground arith
submit_all-Accepts calls s (b ∷ bs) =
    ground (arith, submit_all-Accepts calls (record s { in_flight = s.in_flight ++ b ∷ [] }) bs)

-- A start from `s` with the list `bs`, by its outcome `r`.
pub record Started (calls : SubmitCalls) (s : Stream) (bs : List Buffer) (r : Stream × Ret)
    : Type 0 where
  pub succeeds : (r.1 ≡ success) ↔ Accepts calls bs
  pub kept : r.0.returned ≡ s.returned
  pub outcome :
      ((r.1 ≡ success) × (r.0.in_flight ≡ s.in_flight ++ bs) × (r.0.queue.buffers ≡ []))
      ⊎ ((r.1 ≡ neg eio)
          × ((sent : List Buffer) × (r.0.in_flight ≡ s.in_flight ++ sent)
              × Splits bs sent r.0.queue.buffers))

stream_on-same :
    (s : Stream)
    → ((stream_on s).queue ≡ s.queue)
      × ((stream_on s).in_flight ≡ s.in_flight)
      × ((stream_on s).returned ≡ s.returned)
unfolding stream_on
stream_on-same s = ground arith

configure-same :
    (s : Stream)
    → ((configure s).queue ≡ s.queue)
      × ((configure s).in_flight ≡ s.in_flight)
      × ((configure s).returned ≡ s.returned)
unfolding configure
configure-same s = ground arith

finish_start-Started :
    (calls : SubmitCalls) (s : Stream) (bs : List Buffer) (r : Stream × Bool)
    → Submitted s bs r
    → (r.1 ≡ true) ↔ Accepts calls bs
    → Started calls s bs (finish_start r)
unfolding finish_start
finish_start-Started calls s bs (t, true) h a = record {
  succeeds = (λ e. a.0 refl, λ e. refl);
  kept = ground (arith, stream_on-same t, h.kept);
  outcome = inl (ground (arith, stream_on-same t, h.flying, h.all_sent refl));
}
finish_start-Started calls s bs (t, false) h a = record {
  succeeds = ground arith;
  kept = h.kept;
  outcome = inr (refl, (h.sent, h.flying, h.splits));
}

-- Starting to stream with the list `bs` succeeds exactly when every lock is taken and every submission
-- accepted. Then all of `bs` is with libxdma, in order, and the list is empty. Otherwise the result is
-- `-EIO`, and `bs` are some buffers that are with libxdma, at most one that is nowhere, and those still in
-- the list. None was given back to vb2 either way.
pub start_streaming-Started :
    (calls : SubmitCalls) (s : Stream) → Started calls s s.queue.buffers (start_streaming calls s)
unfolding start_streaming configure
start_streaming-Started calls s =
    let s' : Stream = configure (record s { queue = record (s.queue) { sequence = 0 } }) in
    let same = configure-same (record s { queue = record (s.queue) { sequence = 0 } }) in
    let h =
      finish_start-Started calls s' s.queue.buffers _
        (submit_all-Submitted calls s' s.queue.buffers)
        (submit_all-Accepts calls s' s.queue.buffers) in
    record { succeeds = h.succeeds; kept = h.kept ∙ same.2; outcome = rw same.1 at h.outcome }

-- Stopping gives every buffer in the list back to vb2 as an error, in order, and empties the list;
-- if a signal ends the wait for the lock, it gives back none. Buffers that libxdma has are not given
-- back.
pub stop_streaming-buffers :
    (interrupted : Bool) (s : Stream)
    → let s' = stop_streaming interrupted s in
      (s'.in_flight ≡ s.in_flight)
      × (s'.queue.buffers ≡ (if interrupted then s.queue.buffers else []))
      × (s'.returned ≡ (
          if interrupted then s.returned else s.returned ++ map (λ b. (b, error)) s.queue.buffers))
unfolding stop_streaming
stop_streaming-buffers interrupted s = ground arith
