-- ===== src/Pool/Cond/Wakeups/Batched.antt =====
-- A hold of the mutex by submitBatch of go/taskpool/cond.go keeps what holds of the pool.
use event_work_balance.Base.{
  ℕ, ◌+◌, ◌-◌, ◌≤◌, ◌<◌, ◌≡◌, ◌⊎◌, inl, inr, refl, sym, ap, ◌∙◌, List, [], ◌∷◌, ◌++◌, true, false,
  some, arith, length, take, append_assoc, length-append, take-append_le, take-all,
}
use mathlib.Core.List.{map, map-append}
use event_work_balance.Pool.Cond.{Batch, batch_run, batch_finish, batch_park, is_full}
use event_work_balance.Pool.Cond.Ring.{contents}
use event_work_balance.Pool.Cond.Batches.{Runs, batch_run-Runs}
use event_work_balance.Pool.Cond.Turns.{State, batched, unsettled}
use event_work_balance.Pool.Cond.Wakeups.{Inv, same-IsRing}

module _ {ℓ} {A : Type ℓ} where
  taken_off :
      (done rest : List A) → take (length (done ++ rest) - length rest) (done ++ rest) ≡ done
  taken_off done rest =
      let e : length (done ++ rest) - length rest ≡ length done =
        omega (arith, length-append done rest) in
      rw e (
        take-append_le (length done) done rest (omega arith)
        ∙ take-all (length done) done (omega arith))

  unsettled_cases :
      (s : State A) (b : Batch A) (task : A) (tasks : List A)
      → ((b.pool.stopped ≡ true)
          × (unsettled s b (task ∷ tasks) ≡ record s { pool = batch_finish b }))
        ⊎ ((b.pool.stopped ≡ false)
            × (unsettled s b (task ∷ tasks) ≡ record s {
              pool = (batch_park b).pool;
              full_idle = s.full_idle + 1;
              batches = (b.submitted, b.rest) ∷ s.batches;
            }))
  unfolding unsettled batch_park
  unsettled_cases s b task tasks = ground arith

  -- A run of the loop from `s`, and what it has queued.
  module _ (s : State A) (tasks : List A) (slack : ℕ) (n : ℕ) (r : Batch A) (done : List A)
      (small : slack ≤ length tasks) (v : Inv slack (length tasks) s)
      (w : Runs tasks
        (record {
          pool = s.pool;
          rest = tasks;
          submitted = n;
          wake = 0;
          wake_budget = s.pool.waiters;
        })
        r
        done) where
    abbrev after : State A
    after = record s {
      signals = s.signals + r.wake;
      accepted = s.accepted ++ take (length tasks - length r.rest) tasks;
    }

    queued : take (length tasks - length r.rest) tasks ≡ done
    queued = rw w.prefix (taken_off done r.rest)

    sizes : length tasks ≡ length done + length r.rest
    sizes = omega (arith, ap length w.prefix, length-append done r.rest)

    in_order :
        map some (s.accepted ++ take (length tasks - length r.rest) tasks)
        ≡ s.taken ++ contents r.pool
    in_order =
        ap (λ xs. map some (s.accepted ++ xs)) queued
        ∙ map-append some s.accepted done
        ∙ ap (λ xs. xs ++ map some done) v.order
        ∙ append_assoc s.taken (contents s.pool) (map some done)
        ∙ ap (λ xs. s.taken ++ xs) (sym w.queued)

    told : (s.idle ≤ s.signals + r.wake) ⊎ (r.pool.count ≤ s.signals + r.wake + s.woken + s.looping)
    told = ground (arith, v.told, w.owes, w.growth, v.waiting)

    finish-Inv :
        (r.rest ≡ []) ⊎ (r.pool.stopped ≡ true) → Inv 0 0 (record after { pool = batch_finish r })
    unfolding batch_finish
    finish-Inv why = record {
      ring = same-IsRing r.pool _ refl refl refl refl w.ring;
      waiting = w.waiters ∙ v.waiting;
      full_waiting = w.full_waiters ∙ v.full_waiting;
      told = told;
      room = elim why [
        | inl over ↦ ground (arith, v.room, w.size, w.growth, sizes, ap length over, small)
        | inr stopped ↦ inl (v.quiet (sym w.stopped ∙ stopped)).1
      ];
      counted = omega (arith, v.counted, w.pending, w.growth, sizes);
      order = in_order;
      quiet = λ h. v.quiet (sym w.stopped ∙ h);
      left_to_do = v.left_to_do;
    }

    park-Inv :
        0 < length r.rest
        → r.pool.stopped ≡ false
        → is_full r.pool ≡ true
        → Inv 0 0 (record after {
          pool = (batch_park r).pool;
          full_idle = s.full_idle + 1;
          batches = (r.submitted, r.rest) ∷ s.batches;
        })
    unfolding batch_park
    park-Inv tasks_left running full = record {
      ring = same-IsRing r.pool _ refl refl refl refl w.ring;
      waiting = w.waiters ∙ v.waiting;
      full_waiting = omega (arith, w.full_waiters, v.full_waiting);
      told = told;
      room = inr (ground arith);
      counted = omega (arith, v.counted, w.pending, w.growth, sizes);
      order = in_order;
      quiet = λ h. absurd (ground arith);
      left_to_do = (tasks_left, v.left_to_do);
    }

    full_if_left : 0 < length r.rest → r.pool.stopped ≡ false → is_full r.pool ≡ true
    full_if_left left running = elim w.halted [
      | inl over ↦ absurd (omega (arith, left, ap length over))
      | inr halted ↦ rw running at halted
    ]

    unsettled-Inv : (xs : List A) → r.rest ≡ xs → Inv 0 0 (unsettled after r xs)
    unfolding unsettled
    unsettled-Inv [] e = finish-Inv (inl e)
    unsettled-Inv (task ∷ rest) e =
        let left : 0 < length r.rest = omega (arith, ap length e) in
        elim (unsettled_cases after r task rest) [
          | inl (stopped, same) ↦ rw same (finish-Inv (inr stopped))
          | inr (running, same) ↦ rw same (park-Inv left running (full_if_left left running))
        ]

  pub batched-Inv :
      (s : State A) (tasks : List A) (slack n : ℕ)
      → slack ≤ length tasks
      → Inv slack (length tasks) s
      → Inv 0 0 (
          batched s tasks (
            batch_run tasks (record {
              pool = s.pool;
              rest = tasks;
              submitted = n;
              wake = 0;
              wake_budget = s.pool.waiters;
            })))
  unfolding batched
  batched-Inv s tasks slack n small v =
      let (done, w) = batch_run-Runs tasks _ v.ring in
      unsettled-Inv s tasks slack n _ done small v w _ refl
