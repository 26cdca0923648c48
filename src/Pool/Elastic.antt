-- ===== src/Pool/Elastic.antt =====
-- go/taskpool/elastic.go: workers are forked while there is capacity, linger when they are idle, and a
-- dispatcher takes what is queued. A channel is its buffer; one that waits in a receive is a place more.
pub mod Turns
pub mod Laws
mod Tests
use event_work_balance.Base.{
  ℕ, ◌+◌, ◌-◌, List, [], ◌∷◌, ◌++◌, Bool, true, false, ◌&&◌, Option, none, some, ltb, if◌then◌else◌,
  length,
}

-- The wait group of tasks is a count, `pending`.
pub record ElasticPool {ℓ} (A : Type ℓ) : Type ℓ where
  pub max_workers : ℕ
  pub active : ℕ
  pub tasks : List A
  pub size : ℕ
  pub idle : ℕ
  pub stopped : Bool
  pub pending : ℕ

-- What submit does with a task before it lets go of the mutex; one that is to wait is sent after it.
pub data Submitted {ℓ} (A : Type ℓ) : Type ℓ where
  rejects : Submitted A
  queues : ElasticPool A → Submitted A
  forks : ElasticPool A → Submitted A
  sends : ElasticPool A → Submitted A

module _ {ℓ} {A : Type ℓ} where
  unfoldable pub new_elastic_pool : ℕ → ℕ → ElasticPool A
  new_elastic_pool max_concurrent queue_size = record {
    max_workers = max_concurrent - 1;
    active = 0;
    tasks = [];
    size = queue_size;
    idle = 0;
    stopped = false;
    pending = 0;
  }

  -- Whether a send goes through at once, when `receivers` wait in a receive.
  abbrev pub has_room : ElasticPool A → ℕ → Bool
  has_room p receivers = ltb (length p.tasks) (p.size + receivers)

  abbrev pub enqueue : ElasticPool A → A → ElasticPool A
  enqueue p task = record p { tasks = p.tasks ++ (task ∷ []) }

  -- The pool with a worker more, if there is capacity.
  unfoldable pub fork : ElasticPool A → Option (ElasticPool A)
  fork p = if ltb p.active p.max_workers then some (record p { active = p.active + 1 }) else none

  abbrev forked : ElasticPool A → Option (ElasticPool A) → Submitted A
  forked p none = sends p
  forked p (some q) = forks q

  -- `seen_idle` is what p.idle.Load() gave, which others may have changed since.
  unfoldable pub submit : ℕ → ℕ → ElasticPool A → A → Submitted A
  unfolding fork
  submit seen_idle receivers p task =
      let q = record p { pending = p.pending + 1 } in
      if p.stopped
      then rejects
      else if ltb 0 seen_idle && has_room q receivers
      then queues (enqueue q task)
      else forked q (fork q)

  unfoldable pub stop : ElasticPool A → ElasticPool A
  stop p = record p { stopped = true }

  unfoldable pub task_done : ElasticPool A → ElasticPool A
  task_done p = record p { pending = p.pending - 1 }
