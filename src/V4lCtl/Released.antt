-- ===== src/V4lCtl/Released.antt =====
-- On samples/01_v4l-ctl/main.cpp: what the program takes, it gives back.
use v4l2_tuto.ZzUtils.Always.{Always, test_loop-Always}
use v4l2_tuto.Prelude.{
  Bool-cases, inl, inr, not, ℕ, ◌-◌, ◌==◌, ◌||◌, leb, ◌≡◌, refl, sym, ap, ◌∙◌, Bool, true, false,
  Option, none, some, List, [], ◌∷◌, ◌++◌, reverse, append-nil, if◌then◌else◌, get_elem?, either,
}
use v4l2_tuto.V4lCtl.Loops.{
  finish, after_measure, after_wait, finish_measure, Round, Turn, stays, leaves, got, last, faults,
  put_back, found, with_frame, open_round, round, store, wait_loop, measure_loop, Measured, begin,
  log_tick, fits_int, log_frame, vid_measure_fps, KeyCalls, make_calls, idle, begin_app, run,
}
use v4l2_tuto.V4lCtl.{
  buf_done, reqbufs, m420, s_fmt, World, App, Mapping, request, qbuf, dqbuf, streamon, streamoff,
  vid_s_fmt, vid_req_bufs, vid_stream_on, vid_stream_off, vid_buf_done, buffers,
}
use v4l2_tuto.ZzUtils.{Tick, Outcome, goes, waits, undefined, test_loop}
use mathlib.Core.List.{reverse-reverse}
use v4l2_tuto.DeferredTasks.{flush}
use v4l2_tuto.V4lCtl.Kept.{
  IsHeld, Unwinds, request-IsHeld, open_vid_rx-IsHeld, query_bufs-IsHeld, vid_mmap-IsHeld,
  vid_exp_bufs-IsHeld, q_bufs-IsHeld,
}

abbrev HeldTurn : Turn → Type 0
HeldTurn (stays a) = IsHeld a
HeldTurn (leaves a) = IsHeld a
HeldTurn (got i m a) = IsHeld a
HeldTurn (last i m a) = IsHeld a
HeldTurn faults = Unit

put_back-Held :
    (i : ℕ) (m : Mapping) (queued : Bool) (a : App) → IsHeld a → HeldTurn (put_back i m queued a)
unfolding put_back
put_back-Held i m true a h = request-IsHeld (qbuf i) a h
put_back-Held i m false a h = request-IsHeld (qbuf i) a h

found-Held :
    (i : ℕ) (queued : Bool) (o : Option Mapping) (a : App)
    → IsHeld a
    → HeldTurn (found i queued o a)
unfolding found
found-Held i queued none a h = tt
found-Held i queued (some m) a h = put_back-Held i m queued a h

with_frame-Held :
    (queued : Bool) (d : Option ℕ) (a : App) → IsHeld a → HeldTurn (with_frame queued d a)
unfolding with_frame
with_frame-Held queued none a h = request-IsHeld dqbuf a h
with_frame-Held queued (some i) a h =
    found-Held i queued (get_elem? a.world.mbuffers i) (request dqbuf a) (request-IsHeld dqbuf a h)

open_round-Held : (r : Round) (a : App) → IsHeld a → HeldTurn (open_round r a)
unfolding open_round
open_round-Held r a h = either HeldTurn (not r.selected) h (
    either HeldTurn r.quits h
      (either HeldTurn r.readable (with_frame-Held r.queued r.dequeued a h) h))

round-Held : (r : Round) (a : App) → IsHeld a → HeldTurn (round r a)
unfolding round
round-Held r a h =
    elim a.world.vid_fd as (λ v. HeldTurn (elim v [ none ↦ faults | some fd ↦ open_round r a ])) [
      | none ↦ tt
      | some fd ↦ open_round-Held r a h
    ]

store-IsHeld : (i : ℕ) (m : Mapping) (a : App) → IsHeld a → IsHeld (store i m a)
store-IsHeld i m a (xs, h) = (xs, record { unwinds = h.unwinds; taken = h.taken; freed = h.freed })

after_wait-Held :
    (rest : ℕ → App → Outcome App) (n : ℕ) (t : Turn)
    → ((k : ℕ) (a : App) → IsHeld a → Always IsHeld (rest k a))
    → HeldTurn t
    → Always IsHeld (after_wait rest n t)
unfolding after_wait
after_wait-Held rest n (stays b) f h = f n b h
after_wait-Held rest n (leaves b) f h = h
after_wait-Held rest n (got i m b) f h =
    either (Always IsHeld) (leb n 1) (store-IsHeld i m b h)
      (f (n - 1) (store i m b) (store-IsHeld i m b h))
after_wait-Held rest n (last i m b) f h = store-IsHeld i m b h
after_wait-Held rest n faults f h = tt

wait_loop-Held : (rs : List Round) (n : ℕ) (a : App) → IsHeld a → Always IsHeld (wait_loop rs n a)
unfolding wait_loop
wait_loop-Held [] n a h = h
wait_loop-Held (r ∷ rs) n a h =
    after_wait-Held (wait_loop rs) n (round r a) (wait_loop-Held rs) (round-Held r a h)

after_measure-Held :
    (rest : Measured → Outcome Measured) (now : ℕ) (m : Measured) (t : Turn)
    → ((m : Measured) → IsHeld m.app → Always (λ (m : Measured). IsHeld m.app) (rest m))
    → HeldTurn t
    → Always (λ (m : Measured). IsHeld m.app) (after_measure rest now m t)
unfolding after_measure
after_measure-Held rest now m (stays b) f h = f (record m { app = b }) h
after_measure-Held rest now m (leaves b) f h = h
after_measure-Held rest now m (got i b a) f h = elim (Bool-cases (fits_int b)) [
  | inl e ↦ rw e (f (log_frame b now (record m { app = a })) h)
  | inr e ↦ rw e tt
]
after_measure-Held rest now m (last i b a) f h = elim (Bool-cases (fits_int b)) [
  | inl e ↦ rw e h
  | inr e ↦ rw e tt
]
after_measure-Held rest now m faults f h = tt

measure_loop-Held :
    (rs : List Round) (m : Measured)
    → IsHeld m.app
    → Always (λ (m : Measured). IsHeld m.app) (measure_loop rs m)
unfolding measure_loop
measure_loop-Held [] m h = h
measure_loop-Held (r ∷ rs) m h =
    after_measure-Held (measure_loop rs) r.now (if r.selected then log_tick r.now m else m)
      (round r m.app) (measure_loop-Held rs) (round-Held r m.app h)

finish_measure-Held :
    (o : Outcome Measured)
    → Always (λ (m : Measured). IsHeld m.app) o
    → Always IsHeld (finish_measure o)
unfolding finish_measure vid_stream_off
finish_measure-Held (goes m) h = request-IsHeld streamoff m.app h
finish_measure-Held (waits m) h = h
finish_measure-Held undefined h = tt

vid_measure_fps-Held : (rs : List Round) (a : App) → IsHeld a → Always IsHeld (vid_measure_fps rs a)
unfolding vid_measure_fps vid_stream_on
vid_measure_fps-Held rs a h =
    finish_measure-Held _
      (measure_loop-Held rs (begin (request streamon a)) (request-IsHeld streamon a h))

make_calls-IsHeld : (ch : ℕ) (k : KeyCalls) (a : App) → IsHeld a → IsHeld (make_calls ch k a)
unfolding make_calls vid_s_fmt vid_req_bufs vid_stream_on vid_stream_off vid_buf_done
make_calls-IsHeld ch k a h =
    either IsHeld (ch == b'r' || ch == b'R') (open_vid_rx-IsHeld k.opened a h) (
      either IsHeld (ch == b'1') (request-IsHeld (s_fmt 3840 2160 m420) a h) (
        either IsHeld (ch == b'2') (request-IsHeld (reqbufs buffers) a h) (
          either IsHeld (ch == b'3') (query_bufs-IsHeld k.buffer buffers 0 a h) (
            either IsHeld (ch == b'4') (vid_mmap-IsHeld k.buffer a h) (
              either IsHeld (ch == b'5') (vid_exp_bufs-IsHeld k.buffer a h) (
                either IsHeld (ch == b'6') (q_bufs-IsHeld k.buffer buffers 0 a h) (
                  either IsHeld (ch == b'7') (request-IsHeld streamon a h) (
                    either IsHeld (ch == b'8') (request-IsHeld streamoff a h)
                      (either IsHeld (ch == b'9') (request-IsHeld buf_done a h) h)))))))))

idle-Held : (key : Option ℕ) (k : KeyCalls) (a : App) → IsHeld a → Always IsHeld (idle key k a)
unfolding idle
idle-Held none k a h = h
idle-Held (some ch) k a h =
    either (Always IsHeld) (ch == b'0') (vid_measure_fps-Held k.rounds a h) (
      either (Always IsHeld) (ch == b'a' || ch == b'A') (wait_loop-Held k.rounds 1 a h)
        (make_calls-IsHeld ch k a h))

begin-IsHeld : IsHeld begin_app
unfolding Unwinds flush
begin-IsHeld =
    ([], record { unwinds = λ w e. (sym (append-nil w.freed), refl); taken = refl; freed = refl })

-- A run that ends gives back what it took, and one that still waits has given back nothing.
abbrev pub IsReleased : Outcome World → Type 0
IsReleased (goes w) = w.freed ≡ reverse w.taken
IsReleased (waits w) = w.freed ≡ []
IsReleased undefined = Unit

flushed : (a : App) → IsHeld a → let w = flush a.free_stack a.world in w.freed ≡ reverse w.taken
unfolding Unwinds
flushed a (xs, h) =
    let (f, t) = h.unwinds a.world refl in
    f ∙ ap (λ l. l ++ xs) h.freed ∙ sym (reverse-reverse xs) ∙ ap reverse (sym (t ∙ h.taken))

finish-IsReleased : (o : Outcome App) → Always IsHeld o → IsReleased (finish o)
unfolding finish
finish-IsReleased (goes a) h = flushed a h
finish-IsReleased (waits a) (xs, h) = h.freed
finish-IsReleased undefined h = tt

-- Whatever keys are typed and whatever the calls return, a run of the program that ends has given back each
-- descriptor, mapping and exported buffer that it took, once, in the opposite order. A run that
-- still waits has given back none. Nothing is said of runs that do what is undefined.
pub run-IsReleased : (ts : List (Tick × KeyCalls)) → IsReleased (run ts)
unfolding run
run-IsReleased ts =
    finish-IsReleased (test_loop idle ts begin_app)
      (test_loop-Always IsHeld idle idle-Held ts begin_app begin-IsHeld)
