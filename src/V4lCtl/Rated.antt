-- ===== src/V4lCtl/Rated.antt =====
-- On `App::VidMeasureFPS` of samples/01_v4l-ctl/main.cpp: what its statistics say of the frames.
use v4l2_tuto.Prelude.{
  Bool, Bool-cases, inr, inl, ◌⊎◌, ℕ, ◌+◌, ◌*◌, ◌≡◌, ◌&&◌, refl, sym, ap, subst, ◌∙◌, true, false,
  some, List, [], ◌∷◌, ◌++◌, length, append_assoc, append-nil, arith, if◌then◌else◌,
}
use v4l2_tuto.V4lCtl.{streamon, App, Mapping, dqbuf, qbuf, request, vid_stream_on}
use Prim.Native.Nat.{max}
use v4l2_tuto.ZzUtils.{Outcome, goes, waits, undefined, reset}
use v4l2_tuto.ZzUtils.Accounted.{IsAccounted, then-IsAccounted}
use v4l2_tuto.V4lCtl.Frames.{
  frame_of, frames_of, stops, some_stops, AllIn, Met, quiet, taken, kept, left, refused, round-Met,
  or-true, true-or,
}
use v4l2_tuto.V4lCtl.Loops.{
  Round, Turn, round, Measured, begin, log_tick, log_frame, fits_int, after_measure, measure_loop,
}

-- The bits of the frames, in all and at most.
abbrev pub frame_bits : List (ℕ × Mapping) → ℕ
frame_bits [] = 0
frame_bits ((i, m) ∷ fs) = m.length * 8 + frame_bits fs

abbrev pub most_bits : List (ℕ × Mapping) → ℕ
most_bits [] = 0
most_bits ((i, m) ∷ fs) = max (m.length * 8) (most_bits fs)

-- What `bitrate` has printed and still counts is about the frames `fs`.
abbrev pub Rates : List (ℕ × Mapping) → Measured → Type 0
Rates fs m = IsAccounted reset (length fs) (frame_bits fs) (most_bits fs) m.bit_lines m.bitrate

-- The bits of each frame fit an `int`.
abbrev pub all_fit : List (ℕ × Mapping) → Bool
all_fit [] = true
all_fit ((i, f) ∷ fs) = fits_int f && all_fit fs

-- A run of the loop over the rounds `rs` has rated `fs` and the frames that it took.
abbrev pub Rated : List Mapping → List Round → List (ℕ × Mapping) → Outcome Measured → Type 0
Rated table rs fs undefined = all_fit (frames_of table rs) ≡ false
Rated table rs fs (waits m) = Rates (fs ++ frames_of table rs) m × (some_stops rs ≡ false)
Rated table rs fs (goes m) =
    (gs : List (ℕ × Mapping)) × (rest : List (ℕ × Mapping)) × (frames_of table rs ≡ gs ++ rest)
    × Rates (fs ++ gs) m
    × (some_stops rs ≡ true)

frame_bits-snoc :
    (fs : List (ℕ × Mapping)) (i : ℕ) (m : Mapping)
    → frame_bits (fs ++ (i, m) ∷ []) ≡ frame_bits fs + m.length * 8
frame_bits-snoc [] i m = omega arith
frame_bits-snoc ((j, n) ∷ fs) i m = omega (arith, frame_bits-snoc fs i m)

most_bits-snoc :
    (fs : List (ℕ × Mapping)) (i : ℕ) (m : Mapping)
    → most_bits (fs ++ (i, m) ∷ []) ≡ max (most_bits fs) (m.length * 8)
most_bits-snoc [] i m = omega arith
most_bits-snoc ((j, n) ∷ fs) i m = omega (arith, most_bits-snoc fs i m)

length-snoc : (fs : List (ℕ × Mapping)) (f : ℕ × Mapping) → length (fs ++ f ∷ []) ≡ length fs + 1
length-snoc [] f = omega arith
length-snoc (g ∷ fs) f = omega (arith, length-snoc fs f)

log_frame-Rates :
    (fs : List (ℕ × Mapping)) (i : ℕ) (f : Mapping) (now : ℕ) (m : Measured)
    → Rates fs m
    → Rates (fs ++ (i, f) ∷ []) (log_frame f now m)
log_frame-Rates fs i f now m h =
    rw (length-snoc fs (i, f), frame_bits-snoc fs i f, most_bits-snoc fs i f)
      (then-IsAccounted reset m.bitrate (length fs) (frame_bits fs) (most_bits fs) m.bit_lines
        (f.length * 8) now h)

all_fit-append : (gs hs : List (ℕ × Mapping)) → all_fit hs ≡ false → all_fit (gs ++ hs) ≡ false
all_fit-append [] hs h = h
all_fit-append ((i, f) ∷ gs) hs h = ground (arith, all_fit-append gs hs h)

-- A frame that is too long.
too_long :
    (table : List Mapping) (r : Round) (rs : List Round) (i : ℕ) (f : Mapping)
    → frame_of table r ≡ (i, f) ∷ []
    → fits_int f ≡ false
    → all_fit (frames_of table (r ∷ rs)) ≡ false
too_long table r rs i f e h = rw (e, h) refl

-- A round stands before the others; `gs` is its frame, if it has one.
then-Rated :
    (table : List Mapping) (r : Round) (rs : List Round) (fs gs : List (ℕ × Mapping))
    (o : Outcome Measured)
    → frame_of table r ≡ gs
    → stops r ≡ false
    → Rated table rs (fs ++ gs) o
    → Rated table (r ∷ rs) fs o
then-Rated table r rs fs gs undefined e c h = rw e (all_fit-append gs (frames_of table rs) h)
then-Rated table r rs fs gs (waits m) e c (h, s) =
    rw (e, c) (subst (λ l. Rates l m) (append_assoc fs gs (frames_of table rs)) h, s)
then-Rated table r rs fs gs (goes m) e c (hs, rest, p, h, s) = (
  gs ++ hs,
  rest,
  ap (λ l. l ++ frames_of table rs) e ∙ ap (λ l. gs ++ l) p ∙ sym (append_assoc gs hs rest),
  subst (λ l. Rates l m) (append_assoc fs gs hs) h,
  or-true (stops r) (some_stops rs) s,
)

after_measure-Rated :
    (r : Round) (rs : List Round) (fs : List (ℕ × Mapping)) (m : Measured) (a : App) (t : Turn)
    → Met r a t
    → Rates fs m
    → ((gs : List (ℕ × Mapping)) (n : Measured)
        → Rates gs n
        → n.app.world.mbuffers ≡ a.world.mbuffers
        → n.app.world.vid_fd ≡ a.world.vid_fd
        → Rated a.world.mbuffers rs gs (measure_loop rs n))
    → Rated a.world.mbuffers (r ∷ rs) fs (after_measure (measure_loop rs) r.now m t)
unfolding after_measure
after_measure-Rated r rs fs m a _ (quiet e c) h ih = then-Rated a.world.mbuffers r rs fs [] _ e c (
    ih (fs ++ []) (record m { app = a }) (subst (λ l. Rates l m) (sym (append-nil fs)) h) refl refl)
after_measure-Rated r rs fs m a _ (taken i f e c) h ih = elim (Bool-cases (fits_int f)) [
  | inr long ↦ rw long (too_long a.world.mbuffers r rs i f e long)
  | inl short ↦ rw short (
      then-Rated a.world.mbuffers r rs fs ((i, f) ∷ []) _ e c (
        ih (fs ++ (i, f) ∷ []) _
          (log_frame-Rates fs i f r.now (record m { app = request (qbuf i) (request dqbuf a) }) h)
          refl refl))
]
after_measure-Rated r rs fs m a _ (kept i f e s) h ih = elim (Bool-cases (fits_int f)) [
  | inr long ↦ rw long (too_long a.world.mbuffers r rs i f e long)
  | inl short ↦ rw short (
    (i, f) ∷ [],
    frames_of a.world.mbuffers rs,
    ap (λ l. l ++ frames_of a.world.mbuffers rs) e,
    log_frame-Rates fs i f r.now (record m { app = request (qbuf i) (request dqbuf a) }) h,
    true-or (stops r) (some_stops rs) s,
  )
]
after_measure-Rated r rs fs m a _ (left s) h ih = (
  [],
  frames_of a.world.mbuffers (r ∷ rs),
  refl,
  subst (λ l. Rates l m) (sym (append-nil fs)) h,
  true-or (stops r) (some_stops rs) s,
)
after_measure-Rated r rs fs m a _ (refused s) h ih = (
  [],
  frames_of a.world.mbuffers (r ∷ rs),
  refl,
  subst (λ l. Rates l m) (sym (append-nil fs)) h,
  true-or (stops r) (some_stops rs) s,
)

measure_loop-Rated :
    (rs : List Round) (fs : List (ℕ × Mapping)) (m : Measured) (fd : ℕ)
    → m.app.world.vid_fd ≡ some fd
    → AllIn m.app.world.mbuffers rs
    → Rates fs m
    → Rated m.app.world.mbuffers rs fs (measure_loop rs m)
unfolding measure_loop
measure_loop-Rated [] fs m fd e i h = (subst (λ l. Rates l m) (sym (append-nil fs)) h, refl)
measure_loop-Rated (r ∷ rs) fs m fd e (i, is) h =
    after_measure-Rated r rs fs (if r.selected then log_tick r.now m else m) m.app (round r m.app)
      (round-Met r m.app fd e i) (ticked (Bool-cases r.selected))
      (λ gs n k same held.
        subst (λ l. Rated l rs gs (measure_loop rs n)) same
          (measure_loop-Rated rs gs n fd (held ∙ e) (subst (λ l. AllIn l rs) (sym same) is) k))
  where
    ticked :
        (r.selected ≡ true) ⊎ (r.selected ≡ false)
        → Rates fs (if r.selected then log_tick r.now m else m)
    ticked (inl c) = rw c h
    ticked (inr c) = rw c h

begin-Rates : (a : App) → Rates [] (begin a)
begin-Rates a = omega arith

-- The rates are measured on an open device which answers with buffers of the table, and the streaming is switched on
-- before. The bits in the lines that are printed, and those still counted, are together those of the
-- frames taken, and so are the numbers of frames; the maximum is that of these frames; each line is
-- about more than a second, and the next begins where it ends. The loop goes on until a round ends
-- it, in which a call fails or `q` is typed; the frames taken are the first that came, and all of
-- them while no round has ended it. It reads no area outside the table, and does what is undefined only where a frame
-- among those of the rounds has 2^28 bytes or more, whose bits exceed an `int`.
pub measure_loop-Rated_all :
    (rs : List Round) (a : App) (fd : ℕ)
    → a.world.vid_fd ≡ some fd
    → AllIn a.world.mbuffers rs
    → Rated a.world.mbuffers rs [] (measure_loop rs (begin (vid_stream_on a)))
unfolding vid_stream_on
measure_loop-Rated_all rs a fd e i =
    measure_loop-Rated rs [] (begin (request streamon a)) fd e i (begin-Rates a)
