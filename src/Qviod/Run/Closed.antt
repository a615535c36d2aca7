-- ===== src/Qviod/Run/Closed.antt =====
-- On the whole run of the daemon of samples/04_qviod/main.cpp: what it does with its descriptors.
use v4l2_tuto.Prelude.{
  ℕ, ◌≡◌, refl, sym, subst, ◌∙◌, Bool, true, false, Option, none, some, List, [], ◌∷◌, Bool-cases,
  inl, inr, arith,
}
use v4l2_tuto.Kernel.{Ret, is_set}
use v4l2_tuto.Qvio.UserJob.{Ctrl, Job, file_ioctl, file_poll}
use v4l2_tuto.Qviod.{App, RoundCalls, Turn, next, left, broken, open_vid_rx, round}
use v4l2_tuto.Qviod.Run.{
  Move, moves, after_round, loop, handling, closures, Ended, ended, serving, undefined, finish, run,
}

-- The descriptors of an application are those of another.
record IsSame (a b : App) : Type 0 where
  vid_fd : b.vid_fd ≡ a.vid_fd
  vid_user_job_fd : b.vid_user_job_fd ≡ a.vid_user_job_fd

abbrev Keeps : App → Turn → Type 0
Keeps a (next b c) = IsSame a b
Keeps a (left b c) = IsSame a b
Keeps a broken = Unit

round-Keeps :
    (k : RoundCalls) (a : App) (c : Ctrl) (js : List Job) → c.job_list ≡ js → Keeps a (round k a c)
unfolding round file_ioctl file_poll
round-Keeps k a c [] e = ground (arith, e)
round-Keeps k a c (j ∷ js) e = ground (arith, e)

Keeps-trans : (a b : App) (t : Turn) → IsSame a b → Keeps b t → Keeps a t
Keeps-trans a b (next b' c) s k = record {
  vid_fd = k.vid_fd ∙ s.vid_fd;
  vid_user_job_fd = k.vid_user_job_fd ∙ s.vid_user_job_fd;
}
Keeps-trans a b (left b' c) s k = record {
  vid_fd = k.vid_fd ∙ s.vid_fd;
  vid_user_job_fd = k.vid_user_job_fd ∙ s.vid_user_job_fd;
}
Keeps-trans a b broken s k = tt

after_round-Keeps :
    (a : App) (rest : App → Ctrl → Turn) (t : Turn)
    → ((b : App) (c : Ctrl) → Keeps b (rest b c))
    → Keeps a t
    → Keeps a (after_round rest t)
unfolding after_round
after_round-Keeps a rest (next b c) f k = Keeps-trans a b (rest b c) k (f b c)
after_round-Keeps a rest (left b c) f k = k
after_round-Keeps a rest broken f k = tt

loop-Keeps : (es : List (List Move × RoundCalls)) (a : App) (c : Ctrl) → Keeps a (loop es a c)
unfolding loop
loop-Keeps [] a c = record { vid_fd = refl; vid_user_job_fd = refl }
loop-Keeps ((ms, k) ∷ es) a c =
    after_round-Keeps a (loop es) (round k a (moves ms c)) (λ b c'. loop-Keeps es b c')
      (round-Keeps k a (moves ms c) (moves ms c).job_list refl)

abbrev closed_of : Option ℕ → List ℕ
closed_of none = []
closed_of (some n) = n ∷ []

-- The device is open with a descriptor for jobs while the daemon serves, and neither is open at the end.
abbrev pub Closes : Option ℕ → Ret → Ended → Type 0
Closes opened fd (ended a closed c) =
    (a.vid_fd ≡ none) × (a.vid_user_job_fd ≡ none) × (closed ≡ closed_of opened)
Closes opened fd (serving a c) = (a.vid_fd ≡ opened) × (a.vid_user_job_fd ≡ some fd)
Closes opened fd undefined = Unit

-- The end of a run whose device is open with both descriptors.
finish-Closes :
    (n : ℕ) (fd : Ret) (a : App) (t : Turn)
    → a.vid_fd ≡ some n
    → a.vid_user_job_fd ≡ some fd
    → Keeps a t
    → Closes (some n) fd (finish (closures a) t)
unfolding finish
finish-Closes n fd a (next b c) e f k = (k.vid_fd ∙ e, k.vid_user_job_fd ∙ f)
finish-Closes n fd a (left b c) e f k = rw (e, f) (rw (k.vid_fd ∙ e) (refl, refl, refl))
finish-Closes n fd a broken e f k = tt

handling-loop :
    (fd : Ret) (es : List (List Move × RoundCalls)) (a : App) (c : Ctrl)
    → a.vid_user_job_fd ≡ some fd
    → handling true es a c ≡ loop es a c
unfolding handling
handling-loop fd es a c f = simp f

handling-Closes :
    (n : ℕ) (fd : Ret) (es : List (List Move × RoundCalls)) (a : App) (c : Ctrl)
    → a.vid_fd ≡ some n
    → a.vid_user_job_fd ≡ some fd
    → Closes (some n) fd (finish (closures a) (handling true es a c))
handling-Closes n fd es a c e f =
    subst (λ t. Closes (some n) fd (finish (closures a) t)) (sym (handling-loop fd es a c f))
      (finish-Closes n fd a (loop es a c) e f (loop-Keeps es a c))

opened_both :
    (n : ℕ) (ret fd : Ret) (a : App)
    → is_set ret ≡ false
    → record a { vid_fd = some n; vid_user_job_fd = some fd }
      ≡ open_vid_rx (some n) ret fd (record a { vid_fd = none; vid_user_job_fd = none })
unfolding open_vid_rx
opened_both n ret fd a e = rw e refl

-- Whatever the driver does between the rounds and whatever the calls return, `Run` leaves no descriptor open when it
-- ends and closes the device once, if it was opened; as long as it serves, the device and the job
-- descriptor are those that it opened.
pub run-Closes :
    (opened : Option ℕ) (ret fd : Ret) (started : Bool) (es : List (List Move × RoundCalls))
    (a : App) (c : Ctrl)
    → Closes opened fd (run opened ret fd started es a c)
unfolding run handling open_vid_rx finish
run-Closes none ret fd false es a c = (refl, refl, refl)
run-Closes none ret fd true es a c = tt
run-Closes (some n) ret fd false es a c = elim (Bool-cases (is_set ret)) [
  | inl e ↦ rw e (refl, refl, refl)
  | inr e ↦ rw e (refl, refl, refl)
]
run-Closes (some n) ret fd true es a c = elim (Bool-cases (is_set ret)) [
  | inl e ↦ rw e tt
  | inr e ↦
      let b : App = record a { vid_fd = some n; vid_user_job_fd = some fd } in
      subst (λ x. Closes (some n) fd (finish (closures x) (handling true es x c)))
        (opened_both n ret fd a e) (handling-Closes n fd es b c refl refl)
]
