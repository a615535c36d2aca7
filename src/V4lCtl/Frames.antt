-- ===== src/V4lCtl/Frames.antt =====
-- On a round of the loops of samples/01_v4l-ctl/main.cpp that take frames.
use v4l2_tuto.Prelude.{
  ℕ, zero, suc, ◌<◌, ◌≡◌, refl, sym, subst, Bool, true, false, not, ◌||◌, Option, none, some, List,
  [], ◌∷◌, ◌++◌, length, get_elem?, if◌then◌else◌, arith,
}
use v4l2_tuto.V4lCtl.{App, Mapping, dqbuf, qbuf, request}
use v4l2_tuto.V4lCtl.Loops.{
  Round, Turn, stays, leaves, got, last, faults, put_back, found, with_frame, open_round, round,
}

-- The frame of a round, with the area that the table has for its index.
abbrev pub frame_of : List Mapping → Round → List (ℕ × Mapping)
frame_of table r =
    if r.readable
    then elim r.dequeued [
      | none ↦ []
      | some i ↦ elim (get_elem? table i) [ none ↦ [] | some m ↦ (i, m) ∷ [] ]
    ]
    else []

abbrev pub frames_of : List Mapping → List Round → List (ℕ × Mapping)
frames_of table [] = []
frames_of table (r ∷ rs) = frame_of table r ++ frames_of table rs

-- A round in which a call fails, or `q` is typed.
abbrev pub stops : Round → Bool
stops r =
    not r.selected
    || r.quits
    || (if r.readable then elim r.dequeued [ none ↦ true | some i ↦ not r.queued ] else false)

abbrev pub some_stops : List Round → Bool
some_stops [] = false
some_stops (r ∷ rs) = stops r || some_stops rs

-- The device answers only with buffers that are in the table.
abbrev pub InTable : List Mapping → Option ℕ → Type 0
InTable table none = Unit
InTable table (some i) = i < length table

abbrev pub AllIn : List Mapping → List Round → Type 0
AllIn table [] = Unit
AllIn table (r ∷ rs) = InTable table r.dequeued × AllIn table rs

get_elem?-some :
    (table : List Mapping) (i : ℕ) → i < length table → (m : Mapping) × (get_elem? table i ≡ some m)
get_elem?-some [] i h = absurd (omega (arith, h))
get_elem?-some (m ∷ ms) zero h = (m, refl)
get_elem?-some (m ∷ ms) (suc i) h = get_elem?-some ms i (omega (arith, h))

-- How a round on an open device ends.
pub data Met (r : Round) (a : App) : Turn → Type 0 where
  quiet : frame_of a.world.mbuffers r ≡ [] → stops r ≡ false → Met r a (stays a)
  taken :
      (i : ℕ) (m : Mapping)
      → frame_of a.world.mbuffers r ≡ (i, m) ∷ []
      → stops r ≡ false
      → Met r a (got i m (request (qbuf i) (request dqbuf a)))
  kept :
      (i : ℕ) (m : Mapping)
      → frame_of a.world.mbuffers r ≡ (i, m) ∷ []
      → stops r ≡ true
      → Met r a (last i m (request (qbuf i) (request dqbuf a)))
  left : stops r ≡ true → Met r a (leaves a)
  refused : stops r ≡ true → Met r a (leaves (request dqbuf a))

-- The rounds by their fields, and then by what the table has.
abbrev ready : ℕ → Bool → ℕ → Round
ready i queued now = record {
  selected = true;
  quits = false;
  readable = true;
  dequeued = some i;
  queued = queued;
  now = now;
}

found-Met :
    (i : ℕ) (m : Mapping) (queued : Bool) (now : ℕ) (a : App)
    → get_elem? a.world.mbuffers i ≡ some m
    → Met (ready i queued now) a (found i queued (some m) (request dqbuf a))
unfolding found put_back
found-Met i m true now a e = taken i m (rw e refl) refl
found-Met i m false now a e = kept i m (rw e refl) refl

fields-Met :
    (selected quits readable : Bool) (dequeued : Option ℕ) (queued : Bool) (now : ℕ) (a : App)
    → let r : Round = record {
      selected = selected;
      quits = quits;
      readable = readable;
      dequeued = dequeued;
      queued = queued;
      now = now;
    } in
      InTable a.world.mbuffers dequeued → Met r a (open_round r a)
unfolding open_round with_frame
fields-Met false q r d w now a h = left refl
fields-Met true true r d w now a h = left refl
fields-Met true false false d w now a h = quiet refl refl
fields-Met true false true none w now a h = refused refl
fields-Met true false true (some i) w now a h =
    let (m, e) = get_elem?-some a.world.mbuffers i h in
    subst (λ o. Met (ready i w now) a (found i w o (request dqbuf a))) (sym e)
      (found-Met i m w now a e)

pub round-Met :
    (r : Round) (a : App) (fd : ℕ)
    → a.world.vid_fd ≡ some fd
    → InTable a.world.mbuffers r.dequeued
    → Met r a (round r a)
unfolding round
round-Met r a fd e h =
    subst (λ v. Met r a (elim v [ none ↦ faults | some fd ↦ open_round r a ])) (sym e)
      (fields-Met r.selected r.quits r.readable r.dequeued r.queued r.now a h)

pub or-true : (b c : Bool) → c ≡ true → (b || c) ≡ true
or-true true c e = refl
or-true false c e = e

pub true-or : (b c : Bool) → b ≡ true → (b || c) ≡ true
true-or b c e = rw e refl
