-- ===== src/Pool/Cond/Turns.antt =====
-- The goroutines of go/taskpool/cond.go in any order: each step is one hold of p.mu by a submitter, a
-- batch, a worker or stop, or the delivery of one Signal, which the code sends after it has let go of
-- the mutex.
use event_work_balance.Base.{
  ℕ, suc, ◌+◌, ◌-◌, ◌≡◌, List, [], ◌∷◌, ◌++◌, Option, some, length, take, if◌then◌else◌,
}
use event_work_balance.Pool.Cond.{
  CondPool, Submitted, parks, rejects, accepts, Batch, Worked, waits, exits, takes, new_cond_pool,
  submit, full_wait_over, submit_batch, batch_park, batch_resume, batch_finish, stop, worker,
  empty_wait_over, task_done,
}

-- Workers: `idle` are parked on notEmpty, `woken` are signalled and not yet back from Wait, `looping`
-- are about to look at the queue, `running` execute a task. Submitters: `full_idle` and `full_woken`
-- likewise on notFull; `batches` are the batches among them, each with what it has queued and what
-- is left. `signals` and `full_signals` are owed and not yet sent. `accepted` and `taken` are the
-- tasks that went into the queue and came out of it.
pub record State {ℓ} (A : Type ℓ) : Type ℓ where
  pub pool : CondPool A
  pub idle : ℕ
  pub woken : ℕ
  pub looping : ℕ
  pub running : ℕ
  pub full_idle : ℕ
  pub full_woken : ℕ
  pub batches : List (ℕ × List A)
  pub signals : ℕ
  pub full_signals : ℕ
  pub accepted : List A
  pub taken : List (Option A)

module _ {ℓ} {A : Type ℓ} where
  unfoldable pub started : ℕ → ℕ → State A
  started workers size = record {
    pool = new_cond_pool workers size;
    idle = 0;
    woken = 0;
    looping = workers;
    running = 0;
    full_idle = 0;
    full_woken = 0;
    batches = [];
    signals = 0;
    full_signals = 0;
    accepted = [];
    taken = [];
  }

  unfoldable pub submitted : State A → A → Submitted A → State A
  submitted s task (parks p) = record s { pool = p; full_idle = s.full_idle + 1 }
  submitted s task rejects = s
  submitted s task (accepts p wake) = record s {
    pool = p;
    signals = s.signals + (if wake then 1 else 0);
    accepted = s.accepted ++ (task ∷ []);
  }

  -- Whether the loop is left with tasks in a pool that runs: then it parks.
  unfoldable pub unsettled : State A → Batch A → List A → State A
  unfolding batch_park batch_finish
  unsettled next b [] = record next { pool = batch_finish b }
  unsettled next b (task ∷ tasks) =
      if b.pool.stopped then record next { pool = batch_finish b } else record next {
        pool = (batch_park b).pool;
        full_idle = next.full_idle + 1;
        batches = (b.submitted, b.rest) ∷ next.batches;
      }

  -- `tasks` are what the loop had left when it took the mutex.
  unfoldable pub batched : State A → List A → Batch A → State A
  unfolding unsettled
  batched s tasks b =
      let next = record s {
        signals = s.signals + b.wake;
        accepted = s.accepted ++ take (length tasks - length b.rest) tasks;
      } in
      unsettled next b b.rest

  unfoldable pub worked : State A → Worked A → State A
  worked s (waits p) = record s { pool = p; looping = s.looping - 1; idle = s.idle + 1 }
  worked s exits = record s { looping = s.looping - 1 }
  worked s (takes p task wake) = record s {
    pool = p;
    looping = s.looping - 1;
    running = s.running + 1;
    full_signals = s.full_signals + (if wake then 1 else 0);
    taken = s.taken ++ (task ∷ []);
  }

  -- A submitter that is back from notFull.Wait(), with `n` others to come.
  abbrev pub back : State A → ℕ → State A
  back s n = record s { pool = full_wait_over s.pool; full_woken = n }

  -- A batch that is back from notFull.Wait().
  abbrev pub resumed : State A → ℕ × List A → Batch A
  resumed s (n, rest) =
      batch_resume (record { pool = s.pool; rest = rest; submitted = n; wake = 0; wake_budget = 0 })

pub data Step {ℓ} {A : Type ℓ} (s t : State A) : Type ℓ where
  submits : (task : A) → t ≡ submitted s task (submit s.pool task) → Step s t
  resubmits :
      (task : A) (n : ℕ)
      → s.full_woken ≡ suc n
      → t ≡ submitted (back s n) task (submit (full_wait_over s.pool) task)
      → Step s t
  batches :
      (tasks : List A) (b : Batch A)
      → submit_batch s.pool tasks ≡ some b
      → t ≡ batched s tasks b
      → Step s t
  rebatches :
      (front rest_of : List (ℕ × List A)) (n : ℕ) (submitted : ℕ) (rest : List A)
      → s.full_woken ≡ suc n
      → s.batches ≡ front ++ ((submitted, rest) ∷ rest_of)
      → t
        ≡ batched
            (record (back s n) { batches = front ++ rest_of })
            rest
            (resumed s (submitted, rest))
      → Step s t
  -- Signal wakes a parked goroutine if there is one.
  signals :
      (n m : ℕ)
      → s.signals ≡ suc n
      → s.idle ≡ suc m
      → t ≡ record s { signals = n; idle = m; woken = s.woken + 1 }
      → Step s t
  signals_nobody :
      (n : ℕ) → s.signals ≡ suc n → s.idle ≡ 0 → t ≡ record s { signals = n } → Step s t
  full_signals :
      (n m : ℕ)
      → s.full_signals ≡ suc n
      → s.full_idle ≡ suc m
      → t ≡ record s { full_signals = n; full_idle = m; full_woken = s.full_woken + 1 }
      → Step s t
  full_signals_nobody :
      (n : ℕ)
      → s.full_signals ≡ suc n
      → s.full_idle ≡ 0
      → t ≡ record s { full_signals = n }
      → Step s t
  wakes :
      (n : ℕ)
      → s.woken ≡ suc n
      → t ≡ record s { pool = empty_wait_over s.pool; woken = n; looping = s.looping + 1 }
      → Step s t
  works : (n : ℕ) → s.looping ≡ suc n → t ≡ worked s (worker s.pool) → Step s t
  done :
      (n : ℕ)
      → s.running ≡ suc n
      → t ≡ record s { pool = task_done s.pool; running = n; looping = s.looping + 1 }
      → Step s t
  -- stop() sets the flag and wakes everyone; its wait for `pending` is what Wakeups is about.
  stops :
      t ≡ record s {
        pool = stop s.pool;
        idle = 0;
        woken = s.woken + s.idle;
        full_idle = 0;
        full_woken = s.full_woken + s.full_idle;
      }
      → Step s t

pub data Reach {ℓ} {A : Type ℓ} (s : State A) : State A → Type ℓ where
  here : Reach s s
  next : {t u : State A} → Reach s t → Step t u → Reach s u
