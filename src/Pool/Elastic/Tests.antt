-- ===== src/Pool/Elastic/Tests.antt =====
-- go/taskpool/elastic.go with one worker and a dispatcher, on given tasks.
use event_work_balance.Base.{ℕ, ◌+◌, ◌≤◌, ◌≡◌, refl, ◌==◌, arith, length}
use event_work_balance.Pool.Elastic.{submit, fork, task_done}
use event_work_balance.Pool.Elastic.Turns.{
  Fleet, founded, receivers, submitted, Reaches, here, onward, submits, finishes,
}
use event_work_balance.Pool.Elastic.Laws.{
  in_hand, tally, tasks_once, executing_at_most, stop_leaves_none,
}

-- The first task forks the worker, the second waits to be sent.
abbrev first : Fleet ℕ
first = submitted (founded 2 1) 7 (submit 0 1 (founded {A = ℕ} 2 1).pool 7)

abbrev second : Fleet ℕ
second = submitted first 8 (submit 0 (receivers first) first.pool 8)

first_reached : Reaches (founded 2 1) first
unfolding founded
first_reached = onward here (submits 0 7 refl)

second_reached : Reaches (founded 2 1) second
second_reached = onward first_reached (submits 0 8 refl)

tasks_once_example :
    tally (λ n. n == 8) second.accepted
    ≡ tally (λ n. n == 8) second.started
      + tally (λ n. n == 8) second.pool.tasks
      + tally (λ n. n == 8) second.sending
tasks_once_example = tasks_once 2 1 second (λ n. n == 8) second_reached

executing_at_most_example :
    (second.running + second.rousing + in_hand second.dispatcher ≤ 2)
    × (second.pool.idle + second.running ≤ second.pool.active)
executing_at_most_example = executing_at_most 2 1 second (omega arith) second_reached

-- The task of the worker is over.
abbrev idle_again : Fleet ℕ
idle_again = record first { pool = task_done first.pool; running = 0; looking = first.looking + 1 }

idle_again_reached : Reaches (founded 2 1) idle_again
unfolding founded submitted submit fork
idle_again_reached = onward first_reached (finishes 0 refl refl)

stop_leaves_none_example :
    (length idle_again.pool.tasks
        + length idle_again.sending
        + idle_again.running
        + idle_again.rousing
        + in_hand idle_again.dispatcher
      ≡ 0)
    × (tally (λ n. n == 7) idle_again.accepted ≡ tally (λ n. n == 7) idle_again.started)
unfolding founded submitted submit fork task_done
stop_leaves_none_example = stop_leaves_none 2 1 idle_again (λ n. n == 7) idle_again_reached refl
