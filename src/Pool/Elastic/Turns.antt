-- ===== src/Pool/Elastic/Turns.antt =====
-- The goroutines of go/taskpool/elastic.go in any order: each step is what one of them does between two
-- moments at which another may come in.
use event_work_balance.Base.{ℕ, suc, ◌+◌, ◌-◌, ◌≡◌, List, [], ◌∷◌, ◌++◌, true, Option, none, some}
use event_work_balance.Pool.Elastic.{
  ElasticPool, Submitted, rejects, queues, forks, sends, new_elastic_pool, has_room, enqueue, fork,
  submit, stop, task_done,
}

-- The dispatcher waits in its select, has a task in hand, executes it itself, or has returned.
pub data Dispatcher : Type 0 where
  receives : Dispatcher
  holds : Dispatcher
  executes : Dispatcher
  returned : Dispatcher

-- Workers: `running` execute a task, `looking` are behind one and before the linger, `parked` linger,
-- `rousing` have received a task and `leaving` have timed out but still count as idle, `retiring` are
-- about to give up their slot. `sending` are the tasks of submitters that wait to send. `accepted` and
-- `started` are the tasks that submit took, and those that a worker or the dispatcher has.
pub record Fleet {ℓ} (A : Type ℓ) : Type ℓ where
  pub pool : ElasticPool A
  pub running : ℕ
  pub looking : ℕ
  pub parked : ℕ
  pub rousing : ℕ
  pub leaving : ℕ
  pub retiring : ℕ
  pub dispatcher : Dispatcher
  pub sending : List A
  pub accepted : List A
  pub started : List A

abbrev pub is_receiving : Dispatcher → ℕ
is_receiving receives = 1
is_receiving holds = 0
is_receiving executes = 0
is_receiving returned = 0

module _ {ℓ} {A : Type ℓ} where
  unfoldable pub founded : ℕ → ℕ → Fleet A
  unfolding new_elastic_pool
  founded max_concurrent queue_size = record {
    pool = new_elastic_pool max_concurrent queue_size;
    running = 0;
    looking = 0;
    parked = 0;
    rousing = 0;
    leaving = 0;
    retiring = 0;
    dispatcher = receives;
    sending = [];
    accepted = [];
    started = [];
  }

  abbrev pub receivers : Fleet A → ℕ
  receivers s = s.parked + is_receiving s.dispatcher

  unfoldable pub submitted : Fleet A → A → Submitted A → Fleet A
  submitted s task rejects = s
  submitted s task (queues p) = record s { pool = p; accepted = s.accepted ++ (task ∷ []) }
  submitted s task (forks p) = record s {
    pool = p;
    running = s.running + 1;
    accepted = s.accepted ++ (task ∷ []);
    started = s.started ++ (task ∷ []);
  }
  submitted s task (sends p) = record s {
    pool = p;
    sending = s.sending ++ (task ∷ []);
    accepted = s.accepted ++ (task ∷ []);
  }

  -- Someone has received the task at the front.
  abbrev pub received : Fleet A → A → List A → Fleet A
  received s task rest = record s {
    pool = record s.pool { tasks = rest };
    started = s.started ++ (task ∷ []);
  }

  abbrev dispatched : Fleet A → Option (ElasticPool A) → Fleet A
  dispatched s none = record s { dispatcher = executes }
  dispatched s (some p) = record s { pool = p; running = s.running + 1; dispatcher = receives }

  -- The dispatcher forks a worker for the task in its hand, or executes it.
  unfoldable pub dispatch : Fleet A → Fleet A
  unfolding fork
  dispatch s = dispatched s (fork s.pool)

pub data Step {ℓ} {A : Type ℓ} (s t : Fleet A) : Type ℓ where
  submits :
      (seen_idle : ℕ) (task : A)
      → t ≡ submitted s task (submit seen_idle (receivers s) s.pool task)
      → Step s t
  sends_on :
      (front rest : List A) (task : A)
      → s.sending ≡ front ++ (task ∷ rest)
      → has_room s.pool (receivers s) ≡ true
      → t ≡ record s { pool = enqueue s.pool task; sending = front ++ rest }
      → Step s t
  finishes :
      (n : ℕ)
      → s.running ≡ suc n
      → t ≡ record s { pool = task_done s.pool; running = n; looking = s.looking + 1 }
      → Step s t
  goes_on :
      (n : ℕ) (task : A) (rest : List A)
      → s.looking ≡ suc n
      → s.pool.tasks ≡ task ∷ rest
      → t ≡ record (received s task rest) { looking = n; running = s.running + 1 }
      → Step s t
  lingers :
      (n : ℕ)
      → s.looking ≡ suc n
      → t ≡ record s {
        pool = record s.pool { idle = s.pool.idle + 1 };
        looking = n;
        parked = s.parked + 1;
      }
      → Step s t
  wakes :
      (n : ℕ) (task : A) (rest : List A)
      → s.parked ≡ suc n
      → s.pool.tasks ≡ task ∷ rest
      → t ≡ record (received s task rest) { parked = n; rousing = s.rousing + 1 }
      → Step s t
  rouses :
      (n : ℕ)
      → s.rousing ≡ suc n
      → t ≡ record s {
        pool = record s.pool { idle = s.pool.idle - 1 };
        rousing = n;
        running = s.running + 1;
      }
      → Step s t
  times_out :
      (n : ℕ) → s.parked ≡ suc n → t ≡ record s { parked = n; leaving = s.leaving + 1 } → Step s t
  leaves :
      (n : ℕ)
      → s.leaving ≡ suc n
      → t ≡ record s {
        pool = record s.pool { idle = s.pool.idle - 1 };
        leaving = n;
        retiring = s.retiring + 1;
      }
      → Step s t
  retires :
      (n : ℕ)
      → s.retiring ≡ suc n
      → t ≡ record s { pool = record s.pool { active = s.pool.active - 1 }; retiring = n }
      → Step s t
  takes :
      (task : A) (rest : List A)
      → s.dispatcher ≡ receives
      → s.pool.tasks ≡ task ∷ rest
      → t ≡ record (received s task rest) { dispatcher = holds }
      → Step s t
  dispatches : s.dispatcher ≡ holds → t ≡ dispatch s → Step s t
  completes :
      s.dispatcher ≡ executes
      → t ≡ record s { pool = task_done s.pool; dispatcher = receives }
      → Step s t
  stops : t ≡ record s { pool = stop s.pool } → Step s t
  -- Once taskWG.Wait() is over stop closes p.dispatcher.
  closes :
      s.pool.stopped ≡ true
      → s.pool.pending ≡ 0
      → s.dispatcher ≡ receives
      → t ≡ record s { dispatcher = returned }
      → Step s t

pub data Reaches {ℓ} {A : Type ℓ} (s : Fleet A) : Fleet A → Type ℓ where
  here : Reaches s s
  onward : {t u : Fleet A} → Reaches s t → Step t u → Reaches s u
