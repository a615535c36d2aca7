-- ===== src/QvioCtl/Runs.antt =====
-- Whole runs of the two daemons, samples/03_qvio-ctl/main.cpp and samples/04_qviod/main.cpp, as the driver sees them.
use v4l2_tuto.Prelude.{◌≡◌, refl, ap, ◌∙◌, Bool, true, false, ◌&&◌, List, [], ◌∷◌, ◌++◌, arith}
use v4l2_tuto.Qvio.UserJob.{
  JobId, JobArgs, Job, Ctrl, post, wait_for_user_job_done, file_ioctl, file_poll,
}
use v4l2_tuto.Qviod
use v4l2_tuto.Qviod.{RoundCalls, round}
use v4l2_tuto.Qviod.Run.{Move, posted, taken, moves, loop, after_round}
use v4l2_tuto.QvioCtl.Schedule.{Daemon}
use v4l2_tuto.QvioCtl.Serve.{
  Turn, next, left, broken, serve_round, seen, seen_of_qviod, small, small_first,
}
use v4l2_tuto.QvioCtl.Alike.{serve_round-round}

unfoldable pub after_serve : (Daemon → Ctrl → Turn) → Turn → Turn
after_serve rest (next d c) = rest d c
after_serve rest (left d c) = left d c
after_serve rest broken = broken

-- The loop of `App::VidUserJobHandling` in qvio-ctl. Before each round the driver makes moves, and the other threads of
-- the daemon do their work.
unfoldable pub serve_loop : List ((Daemon → Daemon) × List Move × RoundCalls) → Daemon → Ctrl → Turn
unfolding after_serve
serve_loop [] d c = next d c
serve_loop ((work, ms, k) ∷ es) d c =
    after_serve (serve_loop es) (serve_round k (work d) (moves ms c))

-- No job asks for 2^31 buffers or more.
abbrev pub all_small : List Job → Bool
all_small [] = true
all_small (j ∷ js) = small j && all_small js

abbrev small_job : JobId → JobArgs → Bool
small_job id args = small (record { id = id; sequence = 0; args = args })

abbrev pub SmallMoves : List Move → Type 0
SmallMoves [] = Unit
SmallMoves (posted id args ∷ ms) = (small_job id args ≡ true) × SmallMoves ms
SmallMoves (taken ∷ ms) = SmallMoves ms

-- What the driver sees of the rounds, without the work of the other threads.
abbrev pub driver_side :
    List ((Daemon → Daemon) × List Move × RoundCalls) → List (List Move × RoundCalls)
driver_side [] = []
driver_side ((work, ms, k) ∷ es) = (ms, k) ∷ driver_side es

abbrev pub SmallRounds : List ((Daemon → Daemon) × List Move × RoundCalls) → Type 0
SmallRounds [] = Unit
SmallRounds ((work, ms, k) ∷ es) = SmallMoves ms × SmallRounds es

all_small-first : (js : List Job) → all_small js ≡ true → small_first js ≡ true
all_small-first [] h = refl
all_small-first (j ∷ js) h = ground (arith, h)

all_small-snoc :
    (js : List Job) (j : Job)
    → all_small js ≡ true
    → small j ≡ true
    → all_small (js ++ j ∷ []) ≡ true
all_small-snoc [] j h k = ground (arith, k)
all_small-snoc (i ∷ js) j h k = ground (arith, all_small-snoc js j, h, k)

taken-job_list : (c : Ctrl) → (wait_for_user_job_done false c).0.job_list ≡ c.job_list
unfolding wait_for_user_job_done
taken-job_list c = ground arith

moves-small :
    (ms : List Move) (c : Ctrl)
    → all_small c.job_list ≡ true
    → SmallMoves ms
    → all_small (moves ms c).job_list ≡ true
unfolding moves post
moves-small [] c h s = h
moves-small (posted id args ∷ ms) c h (k, s) =
    moves-small ms (post c id args) (all_small-snoc c.job_list _ h k) s
moves-small (taken ∷ ms) c h s =
    moves-small ms (wait_for_user_job_done false c).0 (ap all_small (taken-job_list c) ∙ h) s

-- The jobs left for the next round, if there is one.
abbrev left_jobs : Qviod.Turn → List Job
left_jobs (Qviod.next b c) = c.job_list
left_jobs _ = []

round-small :
    (k : RoundCalls) (b : Qviod.App) (c : Ctrl) (js : List Job)
    → c.job_list ≡ js
    → all_small js ≡ true
    → all_small (left_jobs (round k b c)) ≡ true
unfolding round file_ioctl file_poll
round-small k b c [] e h = ground (arith, e)
round-small k b c (j ∷ js) e h = ground (arith, e, h)

after-alike :
    (rest : Daemon → Ctrl → Turn) (rest' : Qviod.App → Ctrl → Qviod.Turn)
    → ((d : Daemon) (b : Qviod.App) (c : Ctrl)
        → all_small c.job_list ≡ true
        → seen (rest d c) ≡ seen_of_qviod (rest' b c))
    → (t : Turn) (u : Qviod.Turn) → seen t ≡ seen_of_qviod u
    → all_small (left_jobs u) ≡ true
    → seen (after_serve rest t) ≡ seen_of_qviod (after_round rest' u)
unfolding after_serve after_round
after-alike rest rest' f (next d c) (Qviod.next b c') e h =
    let p : c ≡ c' = ground arith in
    f d b c (ap (λ x. all_small x.job_list) p ∙ h) ∙ ap (λ x. seen_of_qviod (rest' b x)) p
after-alike rest rest' f (next d c) (Qviod.left b c') e h = cc
after-alike rest rest' f (next d c) Qviod.broken e h = cc
after-alike rest rest' f (left d c) (Qviod.next b c') e h = cc
after-alike rest rest' f (left d c) (Qviod.left b c') e h = e
after-alike rest rest' f (left d c) Qviod.broken e h = e
after-alike rest rest' f broken (Qviod.next b c') e h = cc
after-alike rest rest' f broken (Qviod.left b c') e h = e
after-alike rest rest' f broken Qviod.broken e h = e

-- The two daemons are alike to the driver in whole runs of their loops: when the driver makes the same moves between
-- the rounds and the calls of the loop have the same outcomes, each leaves the same channel and serves on or
-- leaves its loop as the other does, whatever the other threads of qvio-ctl do before each of the rounds, if no
-- job that is listed or posted asks for 2^31 buffers or more.
pub serve_loop-loop :
    (es : List ((Daemon → Daemon) × List Move × RoundCalls)) (b : Qviod.App) (d : Daemon) (c : Ctrl)
    → all_small c.job_list ≡ true
    → SmallRounds es
    → seen (serve_loop es d c) ≡ seen_of_qviod (loop (driver_side es) b c)
unfolding serve_loop loop
serve_loop-loop [] b d c h s = refl
serve_loop-loop ((work, ms, k) ∷ es) b d c h (s, ss) =
    let c' : Ctrl = moves ms c in
    let h' = moves-small ms c h s in
    after-alike (serve_loop es) (loop (driver_side es))
      (λ d₁ b₁ c₁ h₁. serve_loop-loop es b₁ d₁ c₁ h₁ ss) (serve_round k (work d) c') (round k b c')
      (serve_round-round k b (work d) c' (all_small-first c'.job_list h'))
      (round-small k b c' c'.job_list refl h')
