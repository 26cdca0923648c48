-- ===== src/Pool/Cond/Wakeups/Steps.antt =====
-- Whatever the order in which submitters, batches, workers and signals of go/taskpool/cond.go take
-- their turns, nothing is lost, reordered or left asleep.
use event_work_balance.Base.{
  ℕ, suc, ◌+◌, ◌≤◌, ◌<◌, ◌≡◌, inl, inr, refl, sym, ap, ◌∙◌, List, [], ◌∷◌, ◌++◌, true, some, arith,
  length, All, min, append-nil,
}
use mathlib.Core.List.{map}
use event_work_balance.Pool.Cond.{
  CondPool, Batch, new_cond_pool, submit_batch, batch_run, batch_resume, full_wait_over,
  empty_wait_over, task_done, stop, worker, exits,
}
use event_work_balance.Pool.Cond.Ring.{contents, slots, new_cond_pool-IsRing}
use event_work_balance.Pool.Cond.Turns.{
  State, started, back, batched, Step, submits, resubmits, batches, rebatches, signals,
  signals_nobody, full_signals, full_signals_nobody, wakes, works, done, stops, Reach, here, next,
}
use event_work_balance.Pool.Cond.Wakeups.{
  Inv, owed, same-IsRing, submitted-Inv, worked-Inv, worker_cases,
}
use event_work_balance.Pool.Cond.Wakeups.Batched.{batched-Inv}

module _ {ℓ} {A : Type ℓ} where
  owed-middle :
      (front : List (ℕ × List A)) (n : ℕ) (rest : List A) (rest_of : List (ℕ × List A))
      → owed (front ++ ((n, rest) ∷ rest_of)) ≡ owed (front ++ rest_of) + length rest
  owed-middle [] n rest rest_of = omega arith
  owed-middle ((m, other) ∷ front) n rest rest_of = omega (arith, owed-middle front n rest rest_of)

  All-without :
      (P : ℕ × List A → Type 0) (front : List (ℕ × List A)) (x : ℕ × List A)
      (rest_of : List (ℕ × List A))
      → All P (front ++ (x ∷ rest_of))
      → P x × All P (front ++ rest_of)
  All-without P [] x rest_of h = h
  All-without P (y ∷ front) x rest_of h =
      let (p, q) = All-without P front x rest_of h.1 in (p, (h.0, q))

  -- A submitter comes back from its wait.
  back-Inv : (s : State A) (n : ℕ) → s.full_woken ≡ suc n → Inv 0 0 s → Inv 1 0 (back s n)
  unfolding full_wait_over
  back-Inv s n h v = record {
    ring = same-IsRing s.pool _ refl refl refl refl v.ring;
    waiting = v.waiting;
    full_waiting = omega (arith, v.full_waiting);
    told = v.told;
    room = ground (arith, v.room, h);
    counted = v.counted;
    order = v.order;
    quiet = v.quiet;
    left_to_do = v.left_to_do;
  }

  batch_back-Inv :
      (s : State A) (n : ℕ) (front rest_of : List (ℕ × List A)) (m : ℕ) (rest : List A)
      → s.full_woken ≡ suc n
      → s.batches ≡ front ++ ((m, rest) ∷ rest_of)
      → Inv 0 0 s
      → (0 < length rest) × Inv 1 (length rest) (record (back s n) { batches = front ++ rest_of })
  unfolding full_wait_over
  batch_back-Inv s n front rest_of m rest h e v =
      let (left, others) =
        All-without (λ b. 0 < length b.1) front (m, rest) rest_of (rw e at v.left_to_do) in
      (
        left,
        record {
          ring = same-IsRing s.pool _ refl refl refl refl v.ring;
          waiting = v.waiting;
          full_waiting = omega (arith, v.full_waiting);
          told = v.told;
          room = ground (arith, v.room, h);
          counted = omega (arith, v.counted, ap owed e, owed-middle front m rest rest_of);
          order = v.order;
          quiet = v.quiet;
          left_to_do = others;
        },
      )

  announced-Inv :
      (s : State A) (tasks : List A)
      → Inv 0 0 s
      → Inv 0
          (length tasks)
          (record s { pool = record s.pool { pending = s.pool.pending + length tasks } })
  announced-Inv s tasks v = record {
    ring = same-IsRing s.pool _ refl refl refl refl v.ring;
    waiting = v.waiting;
    full_waiting = v.full_waiting;
    told = v.told;
    room = v.room;
    counted = omega (arith, v.counted);
    order = v.order;
    quiet = v.quiet;
    left_to_do = v.left_to_do;
  }

  submit_batch_runs :
      (p : CondPool A) (tasks : List A) (b : Batch A)
      → submit_batch p tasks ≡ some b
      → b
        ≡ batch_run tasks (record {
          pool = record p { pending = p.pending + length tasks };
          rest = tasks;
          submitted = 0;
          wake = 0;
          wake_budget = p.waiters;
        })
  unfolding submit_batch
  submit_batch_runs p tasks b e = ground arith

  Step-Inv : {s t : State A} → Step s t → Inv 0 0 s → Inv 0 0 t
  unfolding stop empty_wait_over task_done batch_resume full_wait_over batched
  Step-Inv {s} (submits task e) v = rw e (submitted-Inv s task 0 (omega arith) v)
  Step-Inv {s} (resubmits task n h e) v =
      rw e (submitted-Inv (back s n) task 1 (omega arith) (back-Inv s n h v))
  Step-Inv {s} (batches tasks b r e) v = rw e (
      rw (submit_batch_runs s.pool tasks b r) (
        batched-Inv (record s { pool = record s.pool { pending = s.pool.pending + length tasks } })
          tasks 0 0 (omega arith) (announced-Inv s tasks v)))
  Step-Inv {s} (rebatches front rest_of n m rest h r e) v =
      let (left, w) = batch_back-Inv s n front rest_of m rest h r v in
      rw e (
        batched-Inv (record (back s n) { batches = front ++ rest_of }) rest 1 m
          (omega (arith, left)) w)
  Step-Inv {s} (signals n m h i e) v = rw e (record {
    ring = v.ring;
    waiting = omega (arith, v.waiting);
    full_waiting = v.full_waiting;
    told = ground (arith, v.told);
    room = v.room;
    counted = v.counted;
    order = v.order;
    quiet = λ q. absurd (omega (arith, (v.quiet q).0));
    left_to_do = v.left_to_do;
  })
  Step-Inv {s} (signals_nobody n h i e) v = rw e (record {
    ring = v.ring;
    waiting = v.waiting;
    full_waiting = v.full_waiting;
    told = inl (omega (arith, i));
    room = v.room;
    counted = v.counted;
    order = v.order;
    quiet = v.quiet;
    left_to_do = v.left_to_do;
  })
  Step-Inv {s} (full_signals n m h i e) v = rw e (record {
    ring = v.ring;
    waiting = v.waiting;
    full_waiting = omega (arith, v.full_waiting);
    told = v.told;
    room = ground (arith, v.room);
    counted = v.counted;
    order = v.order;
    quiet = λ q. absurd (omega (arith, (v.quiet q).1));
    left_to_do = v.left_to_do;
  })
  Step-Inv {s} (full_signals_nobody n h i e) v = rw e (record {
    ring = v.ring;
    waiting = v.waiting;
    full_waiting = v.full_waiting;
    told = v.told;
    room = inl i;
    counted = v.counted;
    order = v.order;
    quiet = v.quiet;
    left_to_do = v.left_to_do;
  })
  Step-Inv {s} (wakes n h e) v = rw e (record {
    ring = same-IsRing s.pool _ refl refl refl refl v.ring;
    waiting = omega (arith, v.waiting);
    full_waiting = v.full_waiting;
    told = ground (arith, v.told);
    room = v.room;
    counted = v.counted;
    order = v.order;
    quiet = v.quiet;
    left_to_do = v.left_to_do;
  })
  Step-Inv {s} (works n h e) v = rw e (worked-Inv s n h v)
  Step-Inv {s} (done n h e) v = rw e (record {
    ring = same-IsRing s.pool _ refl refl refl refl v.ring;
    waiting = v.waiting;
    full_waiting = v.full_waiting;
    told = ground (arith, v.told);
    room = v.room;
    counted = omega (arith, v.counted);
    order = v.order;
    quiet = v.quiet;
    left_to_do = v.left_to_do;
  })
  Step-Inv {s} (stops e) v = rw e (record {
    ring = same-IsRing s.pool _ refl refl refl refl v.ring;
    waiting = omega (arith, v.waiting);
    full_waiting = omega (arith, v.full_waiting);
    told = inl (omega arith);
    room = inl refl;
    counted = v.counted;
    order = v.order;
    quiet = λ _. (refl, refl);
    left_to_do = v.left_to_do;
  })

  started-Inv : (workers size : ℕ) → Inv 0 0 (started {A = A} workers size)
  unfolding started new_cond_pool
  started-Inv workers size = record {
    ring = new_cond_pool-IsRing workers size;
    waiting = refl;
    full_waiting = refl;
    told = inl (omega arith);
    room = inl refl;
    counted = refl;
    order = refl;
    quiet = λ _. (refl, refl);
    left_to_do = tt;
  }

  Reach-Inv : {s t : State A} → Inv 0 0 s → Reach s t → Inv 0 0 t
  Reach-Inv v here = v
  Reach-Inv v (next r st) = Step-Inv st (Reach-Inv v r)

  nobody_owes : (bs : List (ℕ × List A)) → All (λ b. 0 < length b.1) bs → owed bs ≡ 0 → bs ≡ []
  nobody_owes [] h e = refl
  nobody_owes ((n, rest) ∷ bs) h e = absurd (omega (arith, h.0))

  module _ (workers size : ℕ) {t : State A} (r : Reach (started workers size) t) where
    inv : Inv 0 0 t
    inv = Reach-Inv (started-Inv workers size) r

    -- No wake-up of a worker is lost, in any order of turns: while tasks are queued and workers are
    -- parked, at least as many signals, woken workers and workers about to look at the queue are on
    -- their way as there are such tasks, or as there are parked workers.
    pub no_worker_forgotten : min t.pool.count t.idle ≤ t.signals + t.woken + t.looping
    no_worker_forgotten = ground (arith, inv.told)

    -- No wake-up of a submitter is lost: while one is parked for want of room, every free slot of the
    -- queue has a signal or a woken submitter on its way to it.
    pub no_submitter_forgotten :
        0 < t.full_idle → length t.pool.queue ≤ t.pool.count + t.full_signals + t.full_woken
    no_submitter_forgotten parked = ground (arith, inv.room)

    -- The tasks that were accepted are those that workers have taken followed by those in the queue,
    -- in the order in which they were accepted: none is lost, repeated or overtaken.
    pub tasks_in_order : map some t.accepted ≡ t.taken ++ contents t.pool
    tasks_in_order = inv.order

    empty_queue : t.pool.count ≡ 0 → map some t.accepted ≡ t.taken
    empty_queue e =
        inv.order
        ∙ ap (λ n. t.taken ++ slots (length t.pool.queue) n t.pool.head t.pool.queue) e
        ∙ append-nil t.taken

    -- When the count that stop() waits for is 0, every accepted task has been taken, none still runs,
    -- and no batch still has tasks to queue.
    pub stop_waits_for_all :
        t.pool.pending ≡ 0 → (map some t.accepted ≡ t.taken) × (t.running ≡ 0) × (t.batches ≡ [])
    stop_waits_for_all e = (
      empty_queue (omega (arith, inv.counted)),
      omega (arith, inv.counted),
      nobody_owes t.batches inv.left_to_do (omega (arith, inv.counted)),
    )

    -- A worker returns only when the pool has stopped, and then every task accepted so far has been
    -- taken.
    pub worker_leaves_nothing :
        worker t.pool ≡ exits → (t.pool.stopped ≡ true) × (map some t.accepted ≡ t.taken)
    worker_leaves_nothing e = elim (worker_cases t.pool) [
      | inl (empty, running, w) ↦ absurd (cc (sym w ∙ e))
      | inr (inl (empty, stopped, w)) ↦ (stopped, empty_queue empty)
      | inr (inr (tasks, w)) ↦ absurd (cc (sym w ∙ e))
    ]
