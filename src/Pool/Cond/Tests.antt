-- ===== src/Pool/Cond/Tests.antt =====
-- The pool of go/taskpool/cond.go on small runs.
use event_work_balance.Base.{ℕ, ◌+◌, ◌≡◌, ◌≤◌, refl, [], ◌∷◌, ◌++◌, some, true, arith, min, length}
use mathlib.Core.List.{map}
use event_work_balance.Pool.Cond.{
  submit, enqueue_locked, worker, exits, stop, empty_wait_over, task_done, new_cond_pool,
  submit_batch, batch_run, batch_enqueue, batch_park, batch_finish,
}
use event_work_balance.Pool.Cond.Ring.{contents}
use event_work_balance.Pool.Cond.Turns.{
  State, Reach, here, next, started, submitted, batched, unsettled, worked, submits, works, signals,
  wakes, done, stops, batches,
}
use event_work_balance.Pool.Cond.Wakeups.Steps.{
  no_worker_forgotten, no_submitter_forgotten, tasks_in_order, stop_waits_for_all,
  worker_leaves_nothing,
}

-- One worker that parks on the empty queue, and a task that is accepted while it sleeps.
abbrev asleep : State ℕ
asleep = worked (started 1 2) (worker (started {A = ℕ} 1 2).pool)

abbrev owes_wake : State ℕ
owes_wake = submitted asleep 7 (submit asleep.pool 7)

owes_wake-Reach : Reach (started 1 2) owes_wake
unfolding started new_cond_pool worker worked submit submitted enqueue_locked
owes_wake-Reach = next (next here (works 0 refl refl)) (submits 7 refl)

no_worker_forgotten_example :
    min owes_wake.pool.count owes_wake.idle
    ≤ owes_wake.signals + owes_wake.woken + owes_wake.looping
no_worker_forgotten_example = no_worker_forgotten 1 2 owes_wake-Reach

-- The worker is woken and takes the task, and another task comes.
abbrev woken_up : State ℕ
woken_up = record owes_wake { signals = 0; idle = 0; woken = 1 }

abbrev looping_again : State ℕ
looping_again = record woken_up { pool = empty_wait_over woken_up.pool; woken = 0; looping = 1 }

abbrev at_work : State ℕ
at_work = worked looping_again (worker looping_again.pool)

abbrev another : State ℕ
another = submitted at_work 8 (submit at_work.pool 8)

another-Reach : Reach (started 1 2) another
unfolding started new_cond_pool worker worked submit submitted enqueue_locked empty_wait_over
another-Reach =
    next
      (next (next (next owes_wake-Reach (signals 0 0 refl refl refl)) (wakes 0 refl refl))
        (works 0 refl refl))
      (submits 8 refl)

tasks_in_order_example : map some another.accepted ≡ another.taken ++ contents another.pool
tasks_in_order_example = tasks_in_order 1 2 another-Reach

another_is : (another.taken ≡ some 7 ∷ []) × (contents another.pool ≡ some 8 ∷ [])
unfolding started new_cond_pool worker worked submit submitted enqueue_locked empty_wait_over
another_is = (refl, refl)

-- One task that is run to its end before the pool stops.
abbrev one_task : State ℕ
one_task = submitted (started 1 1) 7 (submit (started {A = ℕ} 1 1).pool 7)

abbrev one_running : State ℕ
one_running = worked one_task (worker one_task.pool)

abbrev one_done : State ℕ
one_done = record one_running { pool = task_done one_running.pool; running = 0; looping = 1 }

abbrev one_stopped : State ℕ
one_stopped = record one_done { pool = stop one_done.pool }

one_stopped-Reach : Reach (started 1 1) one_stopped
unfolding started new_cond_pool worker worked submit submitted enqueue_locked task_done stop
one_stopped-Reach =
    next (next (next (next here (submits 7 refl)) (works 0 refl refl)) (done 0 refl refl))
      (stops refl)

one_stopped-pending : one_stopped.pool.pending ≡ 0
unfolding started new_cond_pool worker worked submit submitted enqueue_locked task_done stop
one_stopped-pending = refl

one_stopped-exits : worker one_stopped.pool ≡ exits
unfolding started new_cond_pool worker worked submit submitted enqueue_locked task_done stop
one_stopped-exits = refl

stop_waits_for_all_example :
    (map some one_stopped.accepted ≡ one_stopped.taken)
    × (one_stopped.running ≡ 0)
    × (one_stopped.batches ≡ [])
stop_waits_for_all_example = stop_waits_for_all 1 1 one_stopped-Reach one_stopped-pending

worker_leaves_nothing_example :
    (one_stopped.pool.stopped ≡ true) × (map some one_stopped.accepted ≡ one_stopped.taken)
worker_leaves_nothing_example = worker_leaves_nothing 1 1 one_stopped-Reach one_stopped-exits

-- A batch of two in a queue of one: it parks, and the worker that takes its first task owes it a
-- signal.
abbrev batch_parked : State ℕ
batch_parked = record (started 1 1) {
  pool = record (started {A = ℕ} 1 1).pool {
    queue = some 7 ∷ [];
    count = 1;
    full_waiters = 1;
    pending = 2;
  };
  full_idle = 1;
  batches = (1, 8 ∷ []) ∷ [];
  accepted = 7 ∷ [];
}

abbrev room_made : State ℕ
room_made = worked batch_parked (worker batch_parked.pool)

room_made-Reach : Reach (started 1 1) room_made
unfolding started new_cond_pool worker worked submit_batch batch_run batch_enqueue enqueue_locked
    batched unsettled batch_park batch_finish
room_made-Reach = next (next here (batches (7 ∷ 8 ∷ []) _ refl refl)) (works 0 refl refl)

room_made_parked : 1 ≤ room_made.full_idle
unfolding started new_cond_pool worker worked
room_made_parked = omega arith

no_submitter_forgotten_example :
    length room_made.pool.queue
    ≤ room_made.pool.count + room_made.full_signals + room_made.full_woken
no_submitter_forgotten_example = no_submitter_forgotten 1 1 room_made-Reach room_made_parked
