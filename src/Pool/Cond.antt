-- ===== src/Pool/Cond.antt =====
-- go/taskpool/cond.go: a bounded ring of tasks under one mutex. Each function is what happens under
-- one hold of p.mu; a goroutine that has to wait gives the mutex up and runs it again when woken.
pub mod Ring
pub mod Batches
pub mod Turns
pub mod Wakeups
mod Tests
use event_work_balance.Base.{
  ℕ, zero, suc, ◌+◌, ◌-◌, List, [], ◌∷◌, Bool, true, false, not, ◌&&◌, ◌||◌, Option, none, some,
  ◌==◌, ltb, if◌then◌else◌, length, get_elem?, set, replicate,
}

-- `workerTotal` is fixed, and the wait groups are counts: `pending` is what stop() waits for.
pub record CondPool {ℓ} (A : Type ℓ) : Type ℓ where
  pub queue : List (Option A)
  pub head : ℕ
  pub tail : ℕ
  pub count : ℕ
  pub waiters : ℕ
  pub full_waiters : ℕ
  pub stopped : Bool
  pub worker_total : ℕ
  pub pending : ℕ

-- `i++; if i == len(p.queue) { i = 0 }`
abbrev pub advance : ℕ → ℕ → ℕ
advance len i = if i + 1 == len then 0 else i + 1

-- One run of submit's loop: the caller parks on notFull, is turned away, or has its task queued
-- and wakes a parked worker if there is one.
pub data Submitted {ℓ} (A : Type ℓ) : Type ℓ where
  parks : CondPool A → Submitted A
  rejects : Submitted A
  accepts : CondPool A → Bool → Submitted A

-- The tasks that submitBatch puts in the queue before it is done, stopped or has to wait: the
-- pool, the tasks left, and how many it queued, has to wake, and may still wake.
pub record Batch {ℓ} (A : Type ℓ) : Type ℓ where
  pub pool : CondPool A
  pub rest : List A
  pub submitted : ℕ
  pub wake : ℕ
  pub wake_budget : ℕ

-- One run of a worker's loop: it parks on notEmpty, returns, or takes the head task and wakes a
-- parked submitter if there is one.
pub data Worked {ℓ} (A : Type ℓ) : Type ℓ where
  waits : CondPool A → Worked A
  exits : Worked A
  takes : CondPool A → Option A → Bool → Worked A

module _ {ℓ} {A : Type ℓ} where
  unfoldable pub new_cond_pool : ℕ → ℕ → CondPool A
  new_cond_pool worker_count queue_size = record {
    queue = replicate (if queue_size == 0 then 1 else queue_size) none;
    head = 0;
    tail = 0;
    count = 0;
    waiters = 0;
    full_waiters = 0;
    stopped = false;
    worker_total = worker_count;
    pending = 0;
  }

  unfoldable pub enqueue_locked : CondPool A → A → CondPool A
  enqueue_locked p task = record p {
    queue = set p.queue p.tail (some task);
    tail = advance (length p.queue) p.tail;
    count = p.count + 1;
  }

  abbrev pub is_full : CondPool A → Bool
  is_full p = p.count == length p.queue

  unfoldable pub submit : CondPool A → A → Submitted A
  unfolding enqueue_locked
  submit p task =
      if not p.stopped && is_full p
      then parks (record p { full_waiters = p.full_waiters + 1 })
      else if p.stopped
      then rejects
      else accepts (enqueue_locked (record p { pending = p.pending + 1 }) task) (ltb 0 p.waiters)

  -- Back from notFull.Wait().
  pub full_wait_over : CondPool A → CondPool A
  full_wait_over p = record p { full_waiters = p.full_waiters - 1 }

  batch_enqueue : A → Batch A → Batch A
  unfolding enqueue_locked
  batch_enqueue task b = record b {
    pool = enqueue_locked b.pool task;
    submitted = b.submitted + 1;
    wake = if ltb 0 b.wake_budget then b.wake + 1 else b.wake;
    wake_budget = b.wake_budget - 1;
  }

  unfoldable pub batch_run : List A → Batch A → Batch A
  unfolding batch_enqueue
  batch_run [] b = record b { rest = [] }
  batch_run (task ∷ tasks) b =
      let rest = batch_run tasks (batch_enqueue task b) in
      if b.pool.stopped || is_full b.pool then record b { rest = task ∷ tasks } else rest

  -- The start of submitBatch; `none` is a pool that had stopped.
  unfoldable pub submit_batch : CondPool A → List A → Option (Batch A)
  unfolding batch_run
  submit_batch p tasks =
      if p.stopped
      then none
      else some (
          batch_run tasks (record {
            pool = record p { pending = p.pending + length tasks };
            rest = tasks;
            submitted = 0;
            wake = 0;
            wake_budget = p.waiters;
          }))

  -- A batch that finds the queue full signals what it owes and parks on notFull.
  pub batch_park : Batch A → Batch A
  batch_park b = record b {
    pool = record b.pool { full_waiters = b.pool.full_waiters + 1 };
    wake = 0;
  }

  pub batch_resume : Batch A → Batch A
  unfolding batch_run full_wait_over
  batch_resume b =
      batch_run b.rest (record b { pool = full_wait_over b.pool; wake_budget = b.pool.waiters })

  -- The end of submitBatch gives back the tasks that it will not run.
  pub batch_finish : Batch A → CondPool A
  batch_finish b = record b.pool { pending = b.pool.pending - length b.rest }

  unfoldable pub stop : CondPool A → CondPool A
  stop p = record p { stopped = true }

  abbrev slot : Option (Option A) → Option A
  slot none = none
  slot (some o) = o

  unfoldable pub worker : CondPool A → Worked A
  worker p =
      if p.count == 0 && not p.stopped
      then waits (record p { waiters = p.waiters + 1 })
      else if p.count == 0 && p.stopped
      then exits
      else takes
          (record p {
            queue = set p.queue p.head none;
            head = advance (length p.queue) p.head;
            count = p.count - 1;
          })
          (slot (get_elem? p.queue p.head)) (ltb 0 p.full_waiters)

  -- Back from notEmpty.Wait().
  pub empty_wait_over : CondPool A → CondPool A
  empty_wait_over p = record p { waiters = p.waiters - 1 }

  -- After the task: p.pending.Done().
  pub task_done : CondPool A → CondPool A
  task_done p = record p { pending = p.pending - 1 }
