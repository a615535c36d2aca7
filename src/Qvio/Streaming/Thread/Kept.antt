-- ===== src/Qvio/Streaming/Thread/Kept.antt =====
-- On `__stream_main` of modules/qvio/queue.c: which buffers it returns, and in which order.
use v4l2_tuto.Prelude.{
  subst, ℕ, ◌≡◌, ◌∙◌, refl, sym, ap, Bool, true, false, Option, none, some, List, [], ◌∷◌, ◌++◌,
  map, if◌then◌else◌, arith, append-snoc, Bool-cases, inl, inr,
}
use v4l2_tuto.Kernel.{is_neg}
use v4l2_tuto.Qvio.Queue.{Buffer}
use v4l2_tuto.Qvio.Streaming.{BufState, error, Stream, stream_on}
use v4l2_tuto.Qvio.Streaming.Thread.{
  Thread, MainCalls, MainTurn, continues, breaks, start_stream, give_done, submit_one, with_ready,
  take_ready, main_round, finish_main, stream_main,
}

abbrev pub index_of : Buffer → ℕ
index_of b = b.index

abbrev pub indices : List Buffer → List ℕ
indices = map index_of

abbrev pub returned_indices : List (Buffer × BufState) → List ℕ
returned_indices = map (λ p. p.0.index)

abbrev in_hands : Option Buffer → List ℕ
in_hands none = []
in_hands (some b) = b.index ∷ []

-- The buffers that the thread is accountable for, in their order.
abbrev accounted : Thread → List ℕ
accounted t =
    returned_indices t.stream.returned ++ (in_hands t.buf ++ indices t.stream.queue.buffers)

map_snoc {ℓ ℓ'} :
    {A : Type ℓ} {B : Type ℓ'} (f : A → B) (xs : List A) (y : A)
    → map f (xs ++ y ∷ []) ≡ map f xs ++ f y ∷ []
map_snoc f [] y = refl
map_snoc f (x ∷ xs) y = ap (λ l. f x ∷ l) (map_snoc f xs y)

abbrev Keeps : Thread → MainTurn → Type 0
Keeps t (continues t') = accounted t' ≡ accounted t
Keeps t (breaks t') = accounted t' ≡ accounted t

start_stream-accounted :
    (t : Thread)
    → (accounted (start_stream t) ≡ accounted t)
      × ((start_stream t).stream.returned ≡ t.stream.returned)
      × ((start_stream t).stream.queue.buffers ≡ t.stream.queue.buffers)
unfolding start_stream stream_on
start_stream-accounted t = ground arith

-- The buffer `b` goes from the hands to the returned ones, or stays.
submit_one-accounted :
    (c : MainCalls) (b : Buffer) (t : Thread) (bs : List ℕ)
    → returned_indices t.stream.returned ++ (b.index ∷ indices t.stream.queue.buffers) ≡ bs
    → (t' : Thread) × (submit_one c b t ≡ continues t') × (accounted t' ≡ bs)
unfolding submit_one give_done
submit_one-accounted c b t bs e = elim (Bool-cases (is_neg c.size)) [
  | inl n ↦ (record t { buf = some b }, rw n refl, e)
  | inr n ↦ (
    record t { stream = give_done c.now b t.stream; buf = none },
    rw n refl,
    ap (λ l. l ++ indices t.stream.queue.buffers) (map_snoc (λ p. p.0.index) t.stream.returned _)
        ∙ append-snoc (returned_indices t.stream.returned) b.index (indices t.stream.queue.buffers)
        ∙ e,
  )
]

submit-Keeps :
    (c : MainCalls) (b : Buffer) (t u : Thread)
    → returned_indices u.stream.returned ++ (b.index ∷ indices u.stream.queue.buffers) ≡ accounted t
    → Keeps t (submit_one c b (start_stream u))
submit-Keeps c b t u e =
    let (a, r, q) = start_stream-accounted u in
    let (t', s, h) = submit_one-accounted c b (start_stream u) (accounted t) (
      ap (λ l. returned_indices l ++ (b.index ∷ indices (start_stream u).stream.queue.buffers)) r
      ∙ ap (λ l. returned_indices u.stream.returned ++ (b.index ∷ indices l)) q
      ∙ e) in
    subst (λ m. Keeps t m) (sym s) h

take_ready-Keeps :
    (c : MainCalls) (bs : List Buffer) (t : Thread)
    → t.buf ≡ none
    → t.stream.queue.buffers ≡ bs
    → Keeps t (take_ready c bs t)
unfolding take_ready
take_ready-Keeps c [] t h e = refl
take_ready-Keeps c (b ∷ bs) t h e = submit-Keeps c b t (with_ready bs t) (
    ap (λ l. returned_indices t.stream.returned ++ l)
      (ap indices (sym e) ∙ ap (λ o. in_hands o ++ indices t.stream.queue.buffers) (sym h)))

if-Keeps :
    (b : Bool) (t : Thread) (m m' : MainTurn)
    → Keeps t m
    → Keeps t m'
    → Keeps t (if b then m else m')
if-Keeps true t m m' h h' = h
if-Keeps false t m m' h h' = h'

hands-Keeps :
    (c : MainCalls) (t : Thread) (o : Option Buffer)
    → t.buf ≡ o
    → Keeps t (elim o [
      | some b ↦ submit_one c b (start_stream t)
      | none ↦ if c.interrupted then breaks t else take_ready c t.stream.queue.buffers t
    ])
hands-Keeps c t none e =
    if-Keeps c.interrupted t (breaks t) (take_ready c t.stream.queue.buffers t) refl
      (take_ready-Keeps c t.stream.queue.buffers t e refl)
hands-Keeps c t (some b) e = submit-Keeps c b t t (
    ap (λ o. returned_indices t.stream.returned ++ (in_hands o ++ indices t.stream.queue.buffers))
      (sym e))

main_round-Keeps : (c : MainCalls) (t : Thread) → Keeps t (main_round c t)
unfolding main_round
main_round-Keeps c t = if-Keeps c.stop t (breaks t) _ refl (hands-Keeps c t t.buf refl)

finish_main-accounted :
    (o : Option Buffer) (s : Stream)
    → returned_indices (finish_main o s).returned ++ indices (finish_main o s).queue.buffers
      ≡ returned_indices s.returned ++ (in_hands o ++ indices s.queue.buffers)
unfolding finish_main
finish_main-accounted none s = refl
finish_main-accounted (some b) s =
    ap (λ l. l ++ indices s.queue.buffers) (map_snoc (λ p. p.0.index) s.returned (b, error))
    ∙ append-snoc (returned_indices s.returned) b.index (indices s.queue.buffers)

left_main :
    (cs : List MainCalls) (t : Thread) (m : MainTurn)
    → Keeps t m
    → ((t' : Thread)
        → returned_indices (stream_main cs t').returned ++ indices (stream_main cs t').queue.buffers
          ≡ accounted t')
    → let s : Stream = elim m [
      | continues t' ↦ stream_main cs t'
      | breaks t' ↦ finish_main t'.buf t'.stream
    ] in
      returned_indices s.returned ++ indices s.queue.buffers ≡ accounted t
left_main cs t (continues t') k h = h t' ∙ k
left_main cs t (breaks t') k h = finish_main-accounted t'.buf t'.stream ∙ k

stream_main-accounted :
    (cs : List MainCalls) (t : Thread)
    → returned_indices (stream_main cs t).returned ++ indices (stream_main cs t).queue.buffers
      ≡ accounted t
unfolding stream_main
stream_main-accounted [] t = finish_main-accounted t.buf t.stream
stream_main-accounted (c ∷ cs) t =
    left_main cs t (main_round c t) (main_round-Keeps c t) (stream_main-accounted cs)

-- The thread starts with no buffer in its hands and makes any rounds, until it is told to stop or a signal ends
-- its wait. The buffers returned to vb2, followed by those still listed, are those that were returned before
-- followed by those that were listed, in their order: no buffer is lost, returned twice or overtaken.
pub stream_main-indices :
    (cs : List MainCalls) (t : Thread)
    → t.buf ≡ none
    → let s = stream_main cs t in
      returned_indices s.returned ++ indices s.queue.buffers
      ≡ returned_indices t.stream.returned ++ indices t.stream.queue.buffers
stream_main-indices cs t e =
    stream_main-accounted cs t
    ∙ ap (λ o. returned_indices t.stream.returned ++ (in_hands o ++ indices t.stream.queue.buffers))
        e
