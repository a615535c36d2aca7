-- ===== src/QvioCtl/Source/InTurn.antt =====
-- On the frames of the camera in samples/03_qvio-ctl/main.cpp: their order through `oSrcBufferQ`.
use v4l2_tuto.Prelude.{
  Bool-cases, ltb, ℕ, ◌+◌, ◌≡◌, ◌≤◌, ◌⊎◌, inl, inr, refl, ap, sym, ◌∙◌, Bool, true, false, Option,
  none, some, List, [], ◌∷◌, ◌++◌, length, if◌then◌else◌, ◌&&◌, arith, append-snoc, append_assoc,
  length-append,
}
use v4l2_tuto.QvioCtl.{take_source}
use v4l2_tuto.QvioCtl.Source.Loop.{
  Select, failed, timed_out, ready, Round, Camera, leave, tell_driver, take_frame, round,
  note_frame, Step, rounds, serves, starts, camera_step, camera_steps, first_stream,
}

-- Frames leave the queue in the order in which the camera gave them.
pub record InTurn (s : Camera) : Type 0 where
  pub order : s.handed ++ s.queue ≡ s.frames
  pub told : s.told ≤ length s.frames
  pub given_back : length s.given_back ≤ s.told

frame-InTurn :
    (i : ℕ) (s : Camera)
    → InTurn s
    → InTurn (record s { queue = s.queue ++ i ∷ []; frames = s.frames ++ i ∷ [] })
frame-InTurn i s t = record {
  order = sym (append_assoc s.handed s.queue (i ∷ [])) ∙ ap (λ l. l ++ i ∷ []) t.order;
  told = omega (arith, t.told, length-append s.frames (i ∷ []));
  given_back = t.given_back;
}

frame_taken : (r : Round) (o : Option ℕ) (s : Camera) → InTurn s → InTurn (take_frame r o s)
unfolding take_frame tell_driver
frame_taken r none s t = record { order = t.order; told = t.told; given_back = t.given_back }
frame_taken r (some i) s t =
    let u = frame-InTurn i s t in
    let more = length-append s.frames (i ∷ []) in
    elim (Bool-cases r.told) [
      | inr e ↦ rw e (record { order = u.order; told = u.told; given_back = u.given_back })
      | inl e ↦ elim (Bool-cases r.requeued) [
        | inr f ↦
            rw (e, f)
              (record {
                order = u.order;
                told = omega (arith, t.told, more);
                given_back = omega (arith, t.given_back);
              })
        | inl f ↦
            rw (e, f)
              (record {
                order = u.order;
                told = omega (arith, t.told, more);
                given_back = omega (arith, t.given_back, length-append s.given_back (i ∷ []));
              })
      ]
    ]

selected :
    (r : Round) (e : Select) (s : Camera)
    → InTurn s
    → InTurn (elim e [
      | failed ↦ leave s
      | timed_out ↦ leave s
      | ready readable ↦ if readable then take_frame r r.dequeued s else s
    ])
selected r failed s t = record { order = t.order; told = t.told; given_back = t.given_back }
selected r timed_out s t = record { order = t.order; told = t.told; given_back = t.given_back }
selected r (ready true) s t = frame_taken r r.dequeued s t
selected r (ready false) s t = t

round-InTurn : (r : Round) (s : Camera) → InTurn s → InTurn (round r s)
unfolding round
round-InTurn r s t = elim (Bool-cases r.done) [
  | inl e ↦ rw e (record { order = t.order; told = t.told; given_back = t.given_back })
  | inr e ↦ rw e (selected r r.select s t)
]

note_frame-InTurn : (q : List ℕ) (s : Camera) → s.queue ≡ q → InTurn s → InTurn (note_frame q s)
unfolding note_frame take_source
note_frame-InTurn [] s e t = record {
  order = ap (λ l. s.handed ++ l) (sym e) ∙ t.order;
  told = t.told;
  given_back = t.given_back;
}
note_frame-InTurn (i ∷ q) s e t = record {
  order = append-snoc s.handed i q ∙ ap (λ l. s.handed ++ l) (sym e) ∙ t.order;
  told = t.told;
  given_back = t.given_back;
}

if-InTurn : (b : Bool) (s s' : Camera) → InTurn s → InTurn s' → InTurn (if b then s else s')
if-InTurn true s s' t t' = t
if-InTurn false s s' t t' = t'

camera_step-InTurn : (e : Step) (s : Camera) → InTurn s → InTurn (camera_step e s)
unfolding camera_step
camera_step-InTurn (rounds r) s t = if-InTurn s.running (round r s) s (round-InTurn r s t) t
camera_step-InTurn serves s t = note_frame-InTurn s.queue s refl t
camera_step-InTurn starts s t = record { order = t.order; told = t.told; given_back = t.given_back }

-- A job is served only for a frame of which the driver was told.
abbrev pub asked_for : Step → Camera → Bool
asked_for serves s = ltb (length s.handed + s.missed) s.told
asked_for _ s = true

unfoldable pub all_asked : List Step → Camera → Bool
unfolding camera_step
all_asked [] s = true
all_asked (e ∷ es) s = asked_for e s && all_asked es (camera_step e s)

missed-round : (r : Round) (s : Camera) → (round r s).missed ≡ s.missed
unfolding round take_frame tell_driver
missed-round r s = ground arith

missed-serves :
    (q : List ℕ) (s : Camera)
    → s.queue ≡ q
    → InTurn s
    → asked_for serves s ≡ true
    → (note_frame q s).missed ≡ s.missed
unfolding note_frame
missed-serves [] s e t k =
    absurd
      (ground (arith, k, t.told, ap length t.order, length-append s.handed s.queue, ap length e))
missed-serves (i ∷ q) s e t k = refl

missed-camera_step :
    (e : Step) (s : Camera) → InTurn s → asked_for e s ≡ true → (camera_step e s).missed ≡ s.missed
unfolding camera_step
missed-camera_step (rounds r) s t k = ground (arith, missed-round r s)
missed-camera_step serves s t k = missed-serves s.queue s refl t k
missed-camera_step starts s t k = refl

steps_from :
    (es : List Step) (s : Camera)
    → InTurn s
    → let s' = camera_steps es s in InTurn s' × ((s'.missed ≡ s.missed) ⊎ (all_asked es s ≡ false))
unfolding camera_steps all_asked
steps_from [] s t = (t, inl refl)
steps_from (e ∷ es) s t =
    let (t', o) = steps_from es (camera_step e s) (camera_step-InTurn e s t) in
    (
      t',
      elim (Bool-cases (asked_for e s)) [
        | inr n ↦ inr (ground (arith, n))
        | inl y ↦ elim o [
          | inl m ↦ inl (m ∙ missed-camera_step e s t y)
          | inr n ↦ inr (ground (arith, n))
        ]
      ],
    )

-- Frames come from the camera, jobs take them and streams start anew, in any order and with any outcome of
-- the calls. The frames handed to jobs, followed by those in `oSrcBufferQ`, are the frames that came, in
-- their order; the driver was told of no more frames than came, and no more buffers went back to the camera
-- than the driver was told of. No job finds the queue empty, or some job was served of which the driver had
-- not been told.
pub camera_steps-InTurn :
    (es : List Step)
    → let s = camera_steps es first_stream in
      InTurn s × ((s.missed ≡ 0) ⊎ (all_asked es first_stream ≡ false))
camera_steps-InTurn es =
    steps_from es first_stream
      (record { order = refl; told = omega arith; given_back = omega arith })
