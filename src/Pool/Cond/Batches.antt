-- ===== src/Pool/Cond/Batches.antt =====
-- submitBatch of go/taskpool/cond.go queues a prefix of its tasks, in order, and counts the wake-ups
-- that it owes.
use event_work_balance.Base.{
  ◌+◌, ◌-◌, ◌<◌, ◌≡◌, ◌⊎◌, inl, inr, refl, sym, ap, ◌∙◌, List, [], ◌∷◌, ◌++◌, true, false, some,
  arith, length, min, length-set, Bool-cases, append_assoc, append-nil, ◌||◌,
}
use mathlib.Core.List.{map}
use event_work_balance.Pool.Cond.{
  CondPool, Batch, is_full, batch_enqueue, batch_run, enqueue_locked,
}
use event_work_balance.Pool.Cond.Ring.{
  IsRing, contents, enqueue_locked-IsRing, enqueue_locked-contents,
}

module _ {ℓ} {A : Type ℓ} where
  -- What a run of the loop over `tasks` from `b` has done when it stops at `r` with `done` queued.
  pub record Runs (tasks : List A) (b r : Batch A) (done : List A) : Type ℓ where
    pub prefix : tasks ≡ done ++ r.rest
    pub ring : IsRing r.pool
    pub queued : contents r.pool ≡ contents b.pool ++ map some done
    pub counted : r.submitted ≡ b.submitted + length done
    pub owes : r.wake ≡ b.wake + min (length done) b.wake_budget
    pub waiters : r.pool.waiters ≡ b.pool.waiters
    pub growth : r.pool.count ≡ b.pool.count + length done
    pub size : length r.pool.queue ≡ length b.pool.queue
    pub full_waiters : r.pool.full_waiters ≡ b.pool.full_waiters
    pub pending : r.pool.pending ≡ b.pool.pending
    pub stopped : r.pool.stopped ≡ b.pool.stopped
    -- it stops for a reason: nothing is left, or the pool has stopped or is full
    pub halted : (r.rest ≡ []) ⊎ ((r.pool.stopped || is_full r.pool) ≡ true)

  not_full :
      (p : CondPool A) → IsRing p → (p.stopped || is_full p) ≡ false → p.count < length p.queue
  not_full p r h = ground (arith, r.count_in_range)

  batch_enqueue_shape :
      (task : A) (b : Batch A)
      → ((batch_enqueue task b).pool ≡ enqueue_locked b.pool task)
        × ((batch_enqueue task b).submitted ≡ b.submitted + 1)
        × ((batch_enqueue task b).wake ≡ b.wake + min 1 b.wake_budget)
        × ((batch_enqueue task b).wake_budget ≡ b.wake_budget - 1)
        × ((batch_enqueue task b).pool.waiters ≡ b.pool.waiters)
        × ((batch_enqueue task b).pool.count ≡ b.pool.count + 1)
        × (length (batch_enqueue task b).pool.queue ≡ length b.pool.queue)
        × ((batch_enqueue task b).pool.full_waiters ≡ b.pool.full_waiters)
        × ((batch_enqueue task b).pool.pending ≡ b.pool.pending)
        × ((batch_enqueue task b).pool.stopped ≡ b.pool.stopped)
  unfolding batch_enqueue enqueue_locked
  batch_enqueue_shape task b = (
    refl,
    refl,
    ground arith,
    refl,
    refl,
    refl,
    length-set b.pool.queue b.pool.tail (some task),
    refl,
    refl,
    refl,
  )

  pub batch_run-Runs :
      (tasks : List A) (b : Batch A)
      → IsRing b.pool
      → (done : List A) × Runs tasks b (batch_run tasks b) done
  unfolding batch_run
  batch_run-Runs [] b g = (
    [],
    record {
      prefix = refl;
      ring = g;
      queued = sym (append-nil (contents b.pool));
      counted = omega arith;
      owes = omega arith;
      waiters = refl;
      growth = omega arith;
      size = refl;
      full_waiters = refl;
      pending = refl;
      stopped = refl;
      halted = inl refl;
    },
  )
  batch_run-Runs (task ∷ tasks) b g = elim (Bool-cases (b.pool.stopped || is_full b.pool)) [
    | inl halts ↦ (
      [],
      rw halts (record {
        prefix = refl;
        ring = g;
        queued = sym (append-nil (contents b.pool));
        counted = omega arith;
        owes = omega arith;
        waiters = refl;
        growth = omega arith;
        size = refl;
        full_waiters = refl;
        pending = refl;
        stopped = refl;
        halted = inr halts;
      }),
    )
    | inr goes_on ↦
        let room = not_full b.pool g goes_on in
        let ring = enqueue_locked-IsRing b.pool task g room in
        let (done, v) = batch_run-Runs tasks (batch_enqueue task b) ring in
        let (pool, submitted, wake, budget, waiters, count, size, full, pending, stopped) =
          batch_enqueue_shape task b in
        (
          task ∷ done,
          rw goes_on (record {
            prefix = ap (◌∷◌ task) v.prefix;
            ring = v.ring;
            queued =
                v.queued
                ∙ ap (λ xs. xs ++ map some done) (enqueue_locked-contents b.pool task g room)
                ∙ append_assoc (contents b.pool) (some task ∷ []) (map some done);
            counted = omega (arith, v.counted, submitted);
            owes = omega (arith, v.owes, wake, budget);
            waiters = v.waiters ∙ waiters;
            growth = omega (arith, v.growth, count);
            size = v.size ∙ size;
            full_waiters = v.full_waiters ∙ full;
            pending = v.pending ∙ pending;
            stopped = v.stopped ∙ stopped;
            halted = v.halted;
          }),
        )
  ]
