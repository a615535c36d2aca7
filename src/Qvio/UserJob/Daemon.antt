-- ===== src/Qvio/UserJob/Daemon.antt =====
-- A daemon that goes on reading and answering jobs, while the driver goes on posting them, on the channel of
-- modules/qvio/user_job.c.
use v4l2_tuto.Prelude.{
  inr, inl, List-cases, ℕ, zero, suc, ◌+◌, ◌<◌, ◌≡◌, ◌∙◌, ap, refl, some, List, [], ◌∷◌, ◌++◌,
  length, get_elem?, length-append, arith,
}
use v4l2_tuto.Qvio.UserJob.{
  JobId, JobArgs, Job, Done, Ctrl, post, ioctl_user_job_get, ioctl_user_job_done,
}
use v4l2_tuto.Qvio.UserJob.Request.{serve}

-- What happens on the channel: the driver posts a job, or the daemon makes a round.
pub data Step : Type 0 where
  posted : JobId → JobArgs → Step
  served : Step

-- The rounds of the daemon among them.
abbrev pub rounds : List Step → ℕ
rounds [] = 0
rounds (posted id args ∷ ss) = rounds ss
rounds (served ∷ ss) = suc (rounds ss)

get_elem?-append {ℓ} :
    {A : Type ℓ} (xs ys : List A) (k : ℕ) (x : A)
    → get_elem? xs k ≡ some x
    → get_elem? (xs ++ ys) k ≡ some x
get_elem?-append [] ys k x h = absurd (ground arith)
get_elem?-append (y ∷ xs) ys zero x h = h
get_elem?-append (y ∷ xs) ys (suc k) x h = get_elem?-append xs ys k x h

get_elem?-snoc {ℓ} :
    {A : Type ℓ} (xs : List A) (x : A) → get_elem? (xs ++ x ∷ []) (length xs) ≡ some x
get_elem?-snoc [] x = refl
get_elem?-snoc (y ∷ xs) x = get_elem?-snoc xs x

module _ (answer : Job → Done) where
  abbrev pub run : List Step → Ctrl → Ctrl
  unfolding post serve
  run [] c = c
  run (posted id args ∷ ss) c = run ss (post c id args)
  run (served ∷ ss) c = run ss (serve answer c)

  post-lists :
      (c : Ctrl) (id : JobId) (args : JobArgs)
      → (j : Job) × ((post c id args).job_list ≡ c.job_list ++ j ∷ [])
        × ((post c id args).done_list ≡ c.done_list)
  unfolding post
  post-lists c id args = (_, refl, refl)

  serve-cons :
      (c : Ctrl) (j : Job) (js : List Job)
      → c.job_list ≡ j ∷ js
      → ((serve answer c).job_list ≡ js)
        × ((serve answer c).done_list ≡ c.done_list ++ answer j ∷ [])
  unfolding serve ioctl_user_job_get ioctl_user_job_done
  serve-cons c j js e = ground arith

  serve-nil : (c : Ctrl) → c.job_list ≡ [] → serve answer c ≡ c
  unfolding serve ioctl_user_job_get
  serve-nil c e = ground arith

  -- An answer stays where it is.
  run-keeps :
      (ss : List Step) (c : Ctrl) (i : ℕ) (d : Done)
      → get_elem? c.done_list i ≡ some d
      → get_elem? (run ss c).done_list i ≡ some d
  unfolding run
  run-keeps [] c i d h = h
  run-keeps (posted id args ∷ ss) c i d h =
      run-keeps ss (post c id args) i d (rw (post-lists c id args).2 h)
  run-keeps (served ∷ ss) c i d h = elim (List-cases c.job_list) [
    | inl e ↦ run-keeps ss (serve answer c) i d (rw (serve-nil c e) h)
    | inr (j, js, e) ↦
        run-keeps ss (serve answer c) i d
          (rw (serve-cons c j js e).1 (get_elem?-append c.done_list (answer j ∷ []) i d h))
  ]

  -- A job that is listed behind `k` others is answered once the daemon has made more than `k` rounds, whatever the
  -- driver posts in between: its answer stands behind the answers that were there and the `k` others'. In each round
  -- the daemon reads the first job, if there is one, and answers it, and every copy and allocation succeeds; in the
  -- meantime no caller collects an answer.
  pub run_answers :
      (ss : List Step) (c : Ctrl) (k : ℕ) (j : Job)
      → get_elem? c.job_list k ≡ some j
      → k < rounds ss
      → get_elem? (run ss c).done_list (length c.done_list + k) ≡ some (answer j)
  unfolding run
  run_answers [] c k j h lt = absurd (omega arith)
  run_answers (posted id args ∷ ss) c k j h lt =
      let (j', js, ds) = post-lists c id args in
      rw (← ds) (
        run_answers ss (post c id args) k j (rw js (get_elem?-append c.job_list (j' ∷ []) k j h))
          lt)
  run_answers (served ∷ ss) c zero j h lt = elim (List-cases c.job_list) [
    | inl e ↦ absurd (ground (arith, h, e))
    | inr (j', js, e) ↦
        let end : length c.done_list + 0 ≡ length c.done_list = omega arith in
        let same : some (answer j') ≡ some (answer j) =
          let found : some j' ≡ some j = rw e at h in
          let equal : j' ≡ j = ground (arith, found) in ap (λ x. some (answer x)) equal in
        run-keeps ss (serve answer c) (length c.done_list + 0) (answer j) (
          rw (serve-cons c j' js e).1
            (ap (get_elem? _) end ∙ get_elem?-snoc c.done_list (answer j') ∙ same))
  ]
  run_answers (served ∷ ss) c (suc k) j h lt = elim (List-cases c.job_list) [
    | inl e ↦ absurd (ground (arith, h, e))
    | inr (j', js, e) ↦
        let (listed, done) = serve-cons c j' js e in
        let rest = run_answers ss (serve answer c) k j (rw (listed) (rw e at h)) (omega arith) in
        let place : length c.done_list + suc k ≡ length (serve answer c).done_list + k =
          rw done (omega (arith, length-append c.done_list (answer j' ∷ []))) in
        rw place rest
  ]
