-- ===== src/DeferredTasks/Drain.antt =====
-- On the task queue of samples/common/ZzDeferredTasks.cpp: what its thread runs, and whether it ends.
use v4l2_tuto.Prelude.{
  Bool-cases, ap, subst, ◌⊎◌, ◌∙◌, sym, inr, inl, append_assoc, ℕ, zero, suc, ◌+◌, ◌≤◌, ◌≡◌, refl,
  Bool, true, false, ◌==◌, List, [], ◌∷◌, ◌++◌, length, append-snoc, length-append, if◌then◌else◌,
  arith,
}
use v4l2_tuto.DeferredTasks.{Tasks, Turn, TurnCalls, sleeps, leaves, takes, turn, stop, add_task}

-- The loop of `Main` while nothing is added: it has left, sleeps for good, or had no more fuel.
pub data Ended {ℓ ℓ'} (A : Type ℓ) (S : Type ℓ') : Type (ℓ ⊔ ℓ') where
  left asleep : S → Tasks A → Ended A S
  out_of_fuel : Ended A S

-- A turn whose calls succeed.
abbrev pub fine : TurnCalls
fine = record { selected = true; read = true }

turn_takes {ℓ} :
    {A : Type ℓ} (n : ℕ) (t : A) (ts : List A) (r : Bool)
    → turn fine (record { event = suc n; queue = t ∷ ts; running = r })
      ≡ takes t (record { event = n; queue = ts; running = r })
unfolding turn
turn_takes n t ts r = ground arith

module _ {ℓ ℓ'} {A : Type ℓ} {S : Type ℓ'} (run : A → S → S) where
  abbrev pub run_all : List A → S → S
  run_all [] s = s
  run_all (t ∷ ts) s = run_all ts (run t s)

  -- `ZzDeferredTasks::Main`, where `run` is the effect of a task.
  unfoldable pub main_loop : (fuel : ℕ) → Tasks A → S → Ended A S
  unfolding turn
  main_loop zero d s = out_of_fuel
  main_loop (suc n) d s = elim (turn fine d) [
    | sleeps ↦ asleep s d
    | leaves d' ↦ left s d'
    | takes t d' ↦ main_loop n d' (run t s)
  ]

  loop_takes :
      (fuel n : ℕ) (t : A) (ts : List A) (r : Bool) (s : S)
      → main_loop (suc fuel) (record { event = suc n; queue = t ∷ ts; running = r }) s
        ≡ main_loop fuel (record { event = n; queue = ts; running = r }) (run t s)
  unfolding main_loop
  loop_takes fuel n t ts r s = rw (main_loop, turn_takes n t ts r)

  -- With one signal more than tasks, the loop runs them all and leaves.
  pub main_loop_left :
      (ts : List A) (r : Bool) (s : S)
      → main_loop (suc (length ts)) (record { event = suc (length ts); queue = ts; running = r }) s
        ≡ left (run_all ts s) (record { event = 0; queue = []; running = r })
  unfolding main_loop turn
  main_loop_left [] r s = refl
  main_loop_left (t ∷ ts) r s =
      loop_takes (suc (length ts)) (suc (length ts)) t ts r s ∙ main_loop_left ts r (run t s)

  -- With at most one signal for each task, it runs as many as there are signals and sleeps.
  pub main_loop_asleep :
      (n : ℕ) (ts us : List A) (r : Bool) (s : S)
      → length ts ≤ n
      → main_loop (suc n) (record { event = length ts; queue = ts ++ us; running = r }) s
        ≡ asleep (run_all ts s) (record { event = 0; queue = us; running = r })
  unfolding main_loop turn
  main_loop_asleep n [] us r s h = refl
  main_loop_asleep zero (t ∷ ts) us r s h = absurd (omega (arith, h))
  main_loop_asleep (suc n) (t ∷ ts) us r s h =
      loop_takes (suc n) (length ts) t (ts ++ us) r s
      ∙ main_loop_asleep n ts us r (run t s) (omega (arith, h))

-- The queue with what was added and taken since the thread started, and how many signals were lost.
pub record Log {ℓ} (A : Type ℓ) : Type ℓ where
  pub tasks : Tasks A
  pub added : List A
  pub taken : List A
  pub lost : ℕ

-- A task is added, whose signal is written or not, or the thread makes a turn.
pub data Moves {ℓ} (A : Type ℓ) : Type ℓ where
  adds : (written : Bool) → A → Moves A
  turns : Moves A

module _ {ℓ} {A : Type ℓ} where
  after_turn : Log A → Turn A → Log A
  after_turn l sleeps = l
  after_turn l (leaves d) = record l { tasks = d }
  after_turn l (takes t d) = record l { tasks = d; taken = l.taken ++ t ∷ [] }

  unfoldable pub move : Moves A → Log A → Log A
  unfolding add_task turn after_turn
  move (adds written t) l = record {
    tasks = add_task written t l.tasks;
    added = l.added ++ t ∷ [];
    taken = l.taken;
    lost = if written then l.lost else l.lost + 1;
  }
  move turns l = after_turn l (turn fine l.tasks)

  unfoldable pub moves : List (Moves A) → Log A → Log A
  unfolding move
  moves [] l = l
  moves (m ∷ ms) l = moves ms (move m l)

  -- Tasks are taken in the order in which they were added, and a signal is there for each that waits,
  -- but for the lost ones.
  pub record InOrder (l : Log A) : Type ℓ where
    pub order : l.taken ++ l.tasks.queue ≡ l.added
    pub signals : l.tasks.event + l.lost ≡ length l.tasks.queue

  abbrev pub begin : Log A
  begin = record {
    tasks = record { event = 0; queue = []; running = true };
    added = [];
    taken = [];
    lost = 0;
  }

  turns-InOrder :
      (ts : List A) (l : Log A) → l.tasks.queue ≡ ts → InOrder l → InOrder (move turns l)
  unfolding move turn after_turn
  turns-InOrder [] l e i = ground (arith, i.order, i.signals)
  turns-InOrder (t ∷ ts) l e i = record {
    order = ground (arith, append-snoc l.taken t ts, i.order);
    signals = ground (arith, i.signals);
  }

  move-InOrder : (m : Moves A) (l : Log A) → InOrder l → InOrder (move m l)
  unfolding move add_task
  move-InOrder (adds true t) l i = record {
    order = rw (sym (append_assoc l.taken l.tasks.queue (t ∷ [])), i.order);
    signals = rw length-append (omega (arith, i.signals));
  }
  move-InOrder (adds false t) l i = record {
    order = rw (sym (append_assoc l.taken l.tasks.queue (t ∷ [])), i.order);
    signals = rw length-append (omega (arith, i.signals));
  }
  move-InOrder turns l i = turns-InOrder l.tasks.queue l refl i

  moves-InOrder : (ms : List (Moves A)) (l : Log A) → InOrder l → InOrder (moves ms l)
  unfolding moves
  moves-InOrder [] l i = i
  moves-InOrder (m ∷ ms) l i = moves-InOrder ms (move m l) (move-InOrder m l i)

  moves_ordered : (ms : List (Moves A)) → InOrder (moves ms begin)
  moves_ordered ms = moves-InOrder ms begin (record { order = refl; signals = refl })

  split_at :
      (n : ℕ) (q : List A)
      → n ≤ length q
      → (ts : List A) × (us : List A) × (q ≡ ts ++ us) × (length ts ≡ n)
  split_at zero q h = ([], q, refl, refl)
  split_at (suc n) [] h = absurd (omega (arith, h))
  split_at (suc n) (t ∷ q) h =
      let (ts, us, e, m) = split_at n q (omega (arith, h)) in
      (t ∷ ts, us, ap (λ l. t ∷ l) e, ap suc m)

module _ {ℓ ℓ'} {A : Type ℓ} {S : Type ℓ'} (run : A → S → S) where
  -- `Stop` after a queue with no lost signal.
  stop_drained :
      (l : Log A) (s : S)
      → InOrder l
      → l.lost ≡ 0
      → main_loop run (suc (length l.tasks.queue)) (stop true l.tasks) s
        ≡ left (run_all run l.tasks.queue s) (record (l.tasks) { event = 0; queue = [] })
  unfolding stop
  stop_drained l s i none_lost =
      subst
        (λ n.
          main_loop run (suc (length l.tasks.queue)) (record (l.tasks) { event = n }) s
          ≡ left (run_all run l.tasks.queue s) (record (l.tasks) { event = 0; queue = [] }))
        (omega (arith, i.signals, none_lost)) (main_loop_left run l.tasks.queue l.tasks.running s)

  stop_asleep :
      (l : Log A) (s : S)
      → InOrder l
      → 1 ≤ l.lost
      → (ts : List A) × (us : List A) × (l.tasks.queue ≡ ts ++ us)
        × (length us + 1 ≡ l.lost)
        × (main_loop run (suc (length l.tasks.queue)) (stop true l.tasks) s
            ≡ asleep (run_all run ts s) (record (l.tasks) { event = 0; queue = us }))
  unfolding stop
  stop_asleep l s i some_lost =
      let (ts, us, e, m) =
        split_at (l.tasks.event + 1) l.tasks.queue (omega (arith, i.signals, some_lost)) in
      (
        ts,
        us,
        e,
        omega (arith, i.signals, m, ap length e, length-append ts us),
        subst
            (λ n.
              main_loop run (suc (length l.tasks.queue)) (record (l.tasks) { event = n }) s
              ≡ asleep (run_all run ts s) (record (l.tasks) { event = 0; queue = us }))
            m
            (subst
              (λ q.
                main_loop run (suc (length q))
                  (record { event = length ts; queue = q; running = l.tasks.running }) s
                ≡ asleep (run_all run ts s) (record (l.tasks) { event = 0; queue = us }))
              (sym e)
              (main_loop_asleep run (length (ts ++ us)) ts us l.tasks.running s
                (omega (arith, length-append ts us)))),
      )

  -- The thread of deferred tasks starts with an empty queue, tasks are added and the thread makes turns in
  -- any order, a turn finding its calls successful, and then `Stop` writes its signal. The tasks
  -- that were taken and the tasks that wait are those that were added, in that order. If no task
  -- lost its signal to a failing `write`, the thread runs all that wait, in order, and leaves
  -- its loop, so the `join` returns. If some did, it runs the first of those that wait, leaves
  -- one task fewer behind than signals were lost, and sleeps for good.
  pub main_loop-stop :
      (ms : List (Moves A)) (s : S)
      → let l = moves ms begin in
        let end = main_loop run (suc (length l.tasks.queue)) (stop true l.tasks) s in
        (l.taken ++ l.tasks.queue ≡ l.added)
        × (((l.lost ≡ 0)
              × (end
                  ≡ left
                      (run_all run l.tasks.queue s)
                      (record (l.tasks) { event = 0; queue = [] })))
            ⊎ ((ts : List A) × (us : List A) × (l.tasks.queue ≡ ts ++ us)
                × (length us + 1 ≡ l.lost)
                × (end ≡ asleep (run_all run ts s) (record (l.tasks) { event = 0; queue = us }))))
  main_loop-stop ms s =
      let l = moves ms begin in
      let i = moves_ordered ms in
      (
        i.order,
        elim (Bool-cases (l.lost == 0)) [
          | inl e ↦ inl (ground (arith, e), stop_drained l s i (ground (arith, e)))
          | inr e ↦ inr (stop_asleep l s i (ground (arith, e)))
        ],
      )
