-- ===== src/V4lCtl/Stored.antt =====
-- On `App::VidWaitForBuffer` of samples/01_v4l-ctl/main.cpp: the frames that it stores.
use v4l2_tuto.Prelude.{
  append-nil, append-snoc, ℕ, ◌-◌, ◌≤◌, ◌<◌, ◌≡◌, ◌⊎◌, inl, inr, refl, sym, ap, subst, ◌∙◌, true,
  false, leb, some, List, [], ◌∷◌, ◌++◌, length, arith, Bool-cases,
}
use v4l2_tuto.ZzUtils.{Outcome, goes, waits, undefined}
use v4l2_tuto.V4lCtl.{App, Mapping, Request, dqbuf, qbuf, request}
use v4l2_tuto.V4lCtl.Frames.{
  frame_of, frames_of, stops, some_stops, AllIn, Met, quiet, taken, kept, left, refused, round-Met,
  or-true, true-or,
}
use v4l2_tuto.V4lCtl.Loops.{Round, Turn, got, round, store, after_wait, wait_loop}

-- The calls for frames whose buffers are queued again.
abbrev pub requeues : List (ℕ × Mapping) → List Request
requeues [] = []
requeues ((i, m) ∷ fs) = dqbuf ∷ qbuf i ∷ requeues fs

-- From `a` the loop stored `fs` and came to `b`, where `more` are the calls behind those for them.
pub record Stores (a : App) (fs : List (ℕ × Mapping)) (more : List Request) (b : App) : Type 0 where
  pub files : b.world.files ≡ a.world.files ++ fs
  pub requests : b.world.requests ≡ a.world.requests ++ requeues fs ++ more
  pub table : b.world.mbuffers ≡ a.world.mbuffers

-- What the loop stores of the rounds `rs`, when it is to take `n` frames.
abbrev pub Stored : List Round → (n : ℕ) → App → Outcome App → Type 0
Stored rs n a undefined = ⊥
Stored rs n a (waits b) =
    let fs = frames_of a.world.mbuffers rs in
    Stores a fs [] b × (length fs < n) × (some_stops rs ≡ false)
Stored rs n a (goes b) =
    (fs : List (ℕ × Mapping)) × (rest : List (ℕ × Mapping)) × (more : List Request) × (frames_of
        a.world.mbuffers rs
      ≡ fs ++ rest)
    × Stores a fs more b
    × (((length fs ≡ n) × (more ≡ []))
        ⊎ ((length fs ≤ n) × ((more ≡ []) ⊎ (more ≡ dqbuf ∷ [])) × (some_stops rs ≡ true)))

-- A frame is stored before the others.
store-Stores :
    (i : ℕ) (m : Mapping) (a b : App) (fs : List (ℕ × Mapping)) (more : List Request)
    → Stores (store i m (request (qbuf i) (request dqbuf a))) fs more b
    → Stores a ((i, m) ∷ fs) more b
store-Stores i m a b fs more s = record {
  files = s.files ∙ append-snoc a.world.files (i, m) fs;
  requests =
      s.requests
      ∙ ap (λ l. l ++ more)
          (append-snoc (a.world.requests ++ dqbuf ∷ []) (qbuf i) (requeues fs)
            ∙ append-snoc a.world.requests dqbuf (qbuf i ∷ requeues fs));
  table = s.table;
}

-- A round without a frame stands before the others.
quiet-Stored :
    (r : Round) (rs : List Round) (n : ℕ) (a : App) (o : Outcome App)
    → frame_of a.world.mbuffers r ≡ []
    → stops r ≡ false
    → Stored rs n a o
    → Stored (r ∷ rs) n a o
quiet-Stored r rs n a undefined e c s = s
quiet-Stored r rs n a (waits b) e c (s, short, runs) = rw (e, c) (s, short, runs)
quiet-Stored r rs n a (goes b) e c (fs, rest, more, p, s, q) = (
  fs,
  rest,
  more,
  ap (λ l. l ++ frames_of a.world.mbuffers rs) e ∙ p,
  s,
  elim q [
    | inl full ↦ inl full
    | inr (le, short, st) ↦ inr (le, short, or-true (stops r) (some_stops rs) st)
  ],
)

-- A round with a frame, which is stored.
taken-Stored :
    (r : Round) (rs : List Round) (n : ℕ) (i : ℕ) (m : Mapping) (a : App) (o : Outcome App)
    → 1 < n
    → frame_of a.world.mbuffers r ≡ (i, m) ∷ []
    → stops r ≡ false
    → Stored rs (n - 1) (store i m (request (qbuf i) (request dqbuf a))) o
    → Stored (r ∷ rs) n a o
taken-Stored r rs n i m a undefined lt e c s = s
taken-Stored r rs n i m a (waits b) lt e c (s, short, runs) =
    rw (e, c) (store-Stores i m a b (frames_of a.world.mbuffers rs) [] s, omega arith, runs)
taken-Stored r rs n i m a (goes b) lt e c (fs, rest, more, p, s, q) = (
  (i, m) ∷ fs,
  rest,
  more,
  ap (λ l. l ++ frames_of a.world.mbuffers rs) e ∙ ap (λ l. (i, m) ∷ l) p,
  store-Stores i m a b fs more s,
  elim q [
    | inl (full, no_more) ↦ inl (omega arith, no_more)
    | inr (le, short, st) ↦ inr (omega arith, short, or-true (stops r) (some_stops rs) st)
  ],
)

here-Stores : (a : App) → Stores a [] [] a
here-Stores a = record {
  files = sym (append-nil a.world.files);
  requests = sym (append-nil (a.world.requests ++ []) ∙ append-nil a.world.requests);
  table = refl;
}

one-Stores :
    (i : ℕ) (m : Mapping) (a : App)
    → Stores a ((i, m) ∷ []) [] (store i m (request (qbuf i) (request dqbuf a)))
one-Stores i m a = store-Stores i m a _ [] [] (here-Stores _)

got-Stored :
    (r : Round) (rs : List Round) (n : ℕ) (i : ℕ) (m : Mapping) (a : App)
    → 0 < n
    → frame_of a.world.mbuffers r ≡ (i, m) ∷ []
    → stops r ≡ false
    → let b = store i m (request (qbuf i) (request dqbuf a)) in
      (1 < n → Stored rs (n - 1) b (wait_loop rs (n - 1) b))
      → Stored
          (r ∷ rs)
          n
          a
          (after_wait (wait_loop rs) n (got i m (request (qbuf i) (request dqbuf a))))
unfolding after_wait
got-Stored r rs n i m a pos e c ih = elim (Bool-cases (leb n 1)) [
  | inl le ↦ rw le (
    (i, m) ∷ [],
    frames_of a.world.mbuffers rs,
    [],
    ap (λ l. l ++ frames_of a.world.mbuffers rs) e,
    one-Stores i m a,
    inl (ground (arith, le, pos), refl),
  )
  | inr gt ↦ rw gt (taken-Stored r rs n i m a _ (ground (arith, gt)) e c (ih (ground (arith, gt))))
]

after_wait-Stored :
    (r : Round) (rs : List Round) (n : ℕ) (a : App) (t : Turn)
    → Met r a t
    → 0 < n
    → ((k : ℕ) (b : App)
        → 0 < k
        → b.world.mbuffers ≡ a.world.mbuffers
        → b.world.vid_fd ≡ a.world.vid_fd
        → Stored rs k b (wait_loop rs k b))
    → Stored (r ∷ rs) n a (after_wait (wait_loop rs) n t)
unfolding after_wait
after_wait-Stored r rs n a _ (quiet e c) pos ih =
    quiet-Stored r rs n a (wait_loop rs n a) e c (ih n a pos refl refl)
after_wait-Stored r rs n a _ (taken i m e c) pos ih =
    got-Stored r rs n i m a pos e c (λ lt. ih (n - 1) _ (omega arith) refl refl)
after_wait-Stored r rs n a _ (kept i m e s) pos ih = (
  (i, m) ∷ [],
  frames_of a.world.mbuffers rs,
  [],
  ap (λ l. l ++ frames_of a.world.mbuffers rs) e,
  one-Stores i m a,
  inr (omega arith, inl refl, true-or (stops r) (some_stops rs) s),
)
after_wait-Stored r rs n a _ (left s) pos ih = (
  [],
  _,
  [],
  refl,
  here-Stores a,
  inr (omega arith, inl refl, true-or (stops r) (some_stops rs) s),
)
after_wait-Stored r rs n a _ (refused s) pos ih = (
  [],
  _,
  dqbuf ∷ [],
  refl,
  record {
    files = sym (append-nil a.world.files);
    requests = ap (λ l. l ++ dqbuf ∷ []) (sym (append-nil a.world.requests));
    table = refl;
  },
  inr (omega arith, inr refl, true-or (stops r) (some_stops rs) s),
)

-- The loop that waits for `n` frames, at least one, runs on an open device which answers with buffers of the table.
-- The frames that it stores are the first that came, each with its area, and it makes the calls that
-- take and queue each of them again. It goes on until it has `n`, or a round ends it, in which a
-- call fails or `q` is typed; then at most one `VIDIOC_DQBUF` came besides. If it still waits, it has
-- stored all that came, and these are fewer than `n`. It reads no area outside the table.
pub wait_loop-Stored :
    (rs : List Round) (n : ℕ) (a : App) (fd : ℕ)
    → 0 < n
    → a.world.vid_fd ≡ some fd
    → AllIn a.world.mbuffers rs
    → Stored rs n a (wait_loop rs n a)
unfolding wait_loop
wait_loop-Stored [] n a fd pos e h = (here-Stores a, pos, refl)
wait_loop-Stored (r ∷ rs) n a fd pos e (h, hs) =
    after_wait-Stored r rs n a (round r a) (round-Met r a fd e h) pos (λ k b p same held.
      wait_loop-Stored rs k b fd p (held ∙ e) (subst (λ l. AllIn l rs) (sym same) hs))
