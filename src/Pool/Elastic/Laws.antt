-- ===== src/Pool/Elastic/Laws.antt =====
-- What holds of go/taskpool/elastic.go in every order of its goroutines.
use event_work_balance.Base.{
  ℕ, ◌+◌, ◌-◌, ◌≤◌, ◌<◌, ◌≡◌, refl, sym, ap, subst, ltb→lt, ◌&&◌, List, [], ◌∷◌, ◌++◌, Bool, arith,
  length, Bool-cases, inl, inr, length-append, ltb, if◌then◌else◌,
}
use event_work_balance.Pool.Elastic.{has_room, enqueue, fork, submit, stop, task_done}
use event_work_balance.Pool.Elastic.Turns.{
  Dispatcher, receives, holds, executes, returned, Fleet, founded, receivers, submitted, dispatch,
  Step, Reaches, here, onward, submits, sends_on, finishes, goes_on, lingers, wakes, rouses,
  times_out, leaves, retires, takes, dispatches, completes, stops, closes,
}

-- One if the dispatcher has a task.
abbrev pub in_hand : Dispatcher → ℕ
in_hand receives = 0
in_hand holds = 1
in_hand executes = 1
in_hand returned = 0

-- How many of the tasks a test picks out.
abbrev pub tally {ℓ} : {A : Type ℓ} → (A → Bool) → List A → ℕ
tally f [] = 0
tally f (x ∷ xs) = (if f x then 1 else 0) + tally f xs

in_hand_one : (d : Dispatcher) → in_hand d ≤ 1
in_hand_one receives = omega arith
in_hand_one holds = omega arith
in_hand_one executes = omega arith
in_hand_one returned = omega arith

tally_none {ℓ} : {A : Type ℓ} (f : A → Bool) (xs : List A) → length xs ≡ 0 → tally f xs ≡ 0
tally_none f [] e = refl
tally_none f (x ∷ xs) e = absurd (omega (arith, e))

module _ {ℓ} {A : Type ℓ} (max_concurrent : ℕ) where
  pub record IsSound (s : Fleet A) : Type ℓ where
    pub within : s.pool.active ≤ s.pool.max_workers
    pub capped : s.pool.max_workers ≡ max_concurrent - 1
    pub manned :
        s.pool.active ≡ s.running + s.looking + s.parked + s.rousing + s.leaving + s.retiring
    pub idling : s.pool.idle ≡ s.parked + s.rousing + s.leaving
    pub waited_for :
        s.pool.pending
        ≡ length s.pool.tasks + length s.sending + s.running + s.rousing + in_hand s.dispatcher
    pub tallied :
        (f : A → Bool)
        → tally f s.accepted ≡ tally f s.started + tally f s.pool.tasks + tally f s.sending

  tally-append : (f : A → Bool) (xs ys : List A) → tally f (xs ++ ys) ≡ tally f xs + tally f ys
  tally-append f [] ys = omega arith
  tally-append f (x ∷ xs) ys = omega (arith, tally-append f xs ys)

  founded-IsSound : (queue_size : ℕ) → IsSound (founded max_concurrent queue_size)
  unfolding founded
  founded-IsSound queue_size = record {
    within = omega arith;
    capped = refl;
    manned = refl;
    idling = refl;
    waited_for = refl;
    tallied = λ f. refl;
  }

  submit-IsSound :
      (s : Fleet A) (seen_idle : ℕ) (task : A)
      → IsSound s
      → IsSound (submitted s task (submit seen_idle (receivers s) s.pool task))
  unfolding submit fork submitted
  submit-IsSound s seen_idle task i = elim (Bool-cases s.pool.stopped) [
    | inl over ↦ rw over (record {
      within = i.within;
      capped = i.capped;
      manned = i.manned;
      idling = i.idling;
      waited_for = i.waited_for;
      tallied = i.tallied;
    })
    | inr open_still ↦ elim (Bool-cases (ltb 0 seen_idle && has_room s.pool (receivers s))) [
      | inl room ↦
          rw (open_still, room)
            (record {
              within = i.within;
              capped = i.capped;
              manned = i.manned;
              idling = i.idling;
              waited_for = omega (arith, i.waited_for, length-append s.pool.tasks (task ∷ []));
              tallied = λ f. omega (
                arith,
                i.tallied f,
                tally-append f s.accepted (task ∷ []),
                tally-append f s.pool.tasks (task ∷ []),
              );
            })
      | inr full ↦ elim (Bool-cases (ltb s.pool.active s.pool.max_workers)) [
        | inl capacity ↦
            rw (open_still, full, capacity)
              (record {
                within = omega (arith, ltb→lt s.pool.active s.pool.max_workers capacity);
                capped = i.capped;
                manned = omega (arith, i.manned);
                idling = i.idling;
                waited_for = omega (arith, i.waited_for);
                tallied = λ f. omega (
                  arith,
                  i.tallied f,
                  tally-append f s.accepted (task ∷ []),
                  tally-append f s.started (task ∷ []),
                );
              })
        | inr none_left ↦
            rw (open_still, full, none_left)
              (record {
                within = i.within;
                capped = i.capped;
                manned = i.manned;
                idling = i.idling;
                waited_for = omega (arith, i.waited_for, length-append s.sending (task ∷ []));
                tallied = λ f. omega (
                  arith,
                  i.tallied f,
                  tally-append f s.accepted (task ∷ []),
                  tally-append f s.sending (task ∷ []),
                );
              })
      ]
    ]
  ]

  sent-IsSound :
      (s : Fleet A) (front rest : List A) (task : A)
      → s.sending ≡ front ++ (task ∷ rest)
      → IsSound s
      → IsSound (record s { pool = enqueue s.pool task; sending = front ++ rest })
  sent-IsSound s front rest task e i = record {
    within = i.within;
    capped = i.capped;
    manned = i.manned;
    idling = i.idling;
    waited_for = omega (
      arith,
      i.waited_for,
      ap length e,
      length-append front (task ∷ rest),
      length-append front rest,
      length-append s.pool.tasks (task ∷ []),
    );
    tallied = λ f. omega (
      arith,
      i.tallied f,
      ap (tally f) e,
      tally-append f front (task ∷ rest),
      tally-append f front rest,
      tally-append f s.pool.tasks (task ∷ []),
    );
  }

  -- What a task that is received leaves of the tally.
  received_tally :
      (s : Fleet A) (task : A) (rest : List A) (f : A → Bool)
      → s.pool.tasks ≡ task ∷ rest
      → IsSound s
      → tally f s.accepted ≡ tally f (s.started ++ (task ∷ [])) + tally f rest + tally f s.sending
  received_tally s task rest f e i =
      omega (arith, i.tallied f, ap (tally f) e, tally-append f s.started (task ∷ []))

  dispatch-IsSound : (s : Fleet A) → s.dispatcher ≡ holds → IsSound s → IsSound (dispatch s)
  unfolding dispatch fork
  dispatch-IsSound s e i = elim (Bool-cases (ltb s.pool.active s.pool.max_workers)) [
    | inl capacity ↦ rw capacity (record {
      within = omega (arith, ltb→lt s.pool.active s.pool.max_workers capacity);
      capped = i.capped;
      manned = omega (arith, i.manned);
      idling = i.idling;
      waited_for = omega (arith, i.waited_for, ap in_hand e);
      tallied = i.tallied;
    })
    | inr none_left ↦ rw none_left (record {
      within = i.within;
      capped = i.capped;
      manned = i.manned;
      idling = i.idling;
      waited_for = omega (arith, i.waited_for, ap in_hand e);
      tallied = i.tallied;
    })
  ]

  Step-IsSound : (s t : Fleet A) → Step s t → IsSound s → IsSound t
  unfolding task_done stop
  Step-IsSound s t (submits seen_idle task at) i =
      subst IsSound (sym at) (submit-IsSound s seen_idle task i)
  Step-IsSound s t (sends_on front rest task e room at) i =
      subst IsSound (sym at) (sent-IsSound s front rest task e i)
  Step-IsSound s t (finishes n e at) i = subst IsSound (sym at) (record {
    within = i.within;
    capped = i.capped;
    manned = omega (arith, e, i.manned);
    idling = i.idling;
    waited_for = omega (arith, e, i.waited_for);
    tallied = i.tallied;
  })
  Step-IsSound s t (goes_on n task rest e q at) i = subst IsSound (sym at) (record {
    within = i.within;
    capped = i.capped;
    manned = omega (arith, e, i.manned);
    idling = i.idling;
    waited_for = omega (arith, i.waited_for, ap length q);
    tallied = λ f. received_tally s task rest f q i;
  })
  Step-IsSound s t (lingers n e at) i = subst IsSound (sym at) (record {
    within = i.within;
    capped = i.capped;
    manned = omega (arith, e, i.manned);
    idling = omega (arith, i.idling);
    waited_for = i.waited_for;
    tallied = i.tallied;
  })
  Step-IsSound s t (wakes n task rest e q at) i = subst IsSound (sym at) (record {
    within = i.within;
    capped = i.capped;
    manned = omega (arith, e, i.manned);
    idling = omega (arith, e, i.idling);
    waited_for = omega (arith, i.waited_for, ap length q);
    tallied = λ f. received_tally s task rest f q i;
  })
  Step-IsSound s t (rouses n e at) i = subst IsSound (sym at) (record {
    within = i.within;
    capped = i.capped;
    manned = omega (arith, e, i.manned);
    idling = omega (arith, e, i.idling);
    waited_for = omega (arith, e, i.waited_for);
    tallied = i.tallied;
  })
  Step-IsSound s t (times_out n e at) i = subst IsSound (sym at) (record {
    within = i.within;
    capped = i.capped;
    manned = omega (arith, e, i.manned);
    idling = omega (arith, e, i.idling);
    waited_for = i.waited_for;
    tallied = i.tallied;
  })
  Step-IsSound s t (leaves n e at) i = subst IsSound (sym at) (record {
    within = i.within;
    capped = i.capped;
    manned = omega (arith, e, i.manned);
    idling = omega (arith, e, i.idling);
    waited_for = i.waited_for;
    tallied = i.tallied;
  })
  Step-IsSound s t (retires n e at) i = subst IsSound (sym at) (record {
    within = omega (arith, i.within);
    capped = i.capped;
    manned = omega (arith, e, i.manned);
    idling = i.idling;
    waited_for = i.waited_for;
    tallied = i.tallied;
  })
  Step-IsSound s t (takes task rest e q at) i = subst IsSound (sym at) (record {
    within = i.within;
    capped = i.capped;
    manned = i.manned;
    idling = i.idling;
    waited_for = omega (arith, i.waited_for, ap length q, ap in_hand e);
    tallied = λ f. received_tally s task rest f q i;
  })
  Step-IsSound s t (dispatches e at) i = subst IsSound (sym at) (dispatch-IsSound s e i)
  Step-IsSound s t (completes e at) i = subst IsSound (sym at) (record {
    within = i.within;
    capped = i.capped;
    manned = i.manned;
    idling = i.idling;
    waited_for = omega (arith, i.waited_for, ap in_hand e);
    tallied = i.tallied;
  })
  Step-IsSound s t (stops at) i = subst IsSound (sym at) (record {
    within = i.within;
    capped = i.capped;
    manned = i.manned;
    idling = i.idling;
    waited_for = i.waited_for;
    tallied = i.tallied;
  })
  Step-IsSound s t (closes over zero_left e at) i = subst IsSound (sym at) (record {
    within = i.within;
    capped = i.capped;
    manned = i.manned;
    idling = i.idling;
    waited_for = omega (arith, i.waited_for, ap in_hand e);
    tallied = i.tallied;
  })

  Reaches-IsSound :
      (queue_size : ℕ) (s : Fleet A) → Reaches (founded max_concurrent queue_size) s → IsSound s
  Reaches-IsSound queue_size s here = founded-IsSound queue_size
  Reaches-IsSound queue_size s (onward {t = t} steps step) =
      Step-IsSound t s step (Reaches-IsSound queue_size t steps)

  -- In every order of submitters, workers, timers, the dispatcher and stop, each task that submit took has
  -- been given to a worker or the dispatcher once, or is in the queue, or waits to be sent: a test picks
  -- out as many of the accepted tasks as of those three together.
  pub tasks_once :
      (queue_size : ℕ) (s : Fleet A) (f : A → Bool)
      → Reaches (founded max_concurrent queue_size) s
      → tally f s.accepted ≡ tally f s.started + tally f s.pool.tasks + tally f s.sending
  tasks_once queue_size s f steps = (Reaches-IsSound queue_size s steps).tallied f

  -- In every order of submitters, workers, timers, the dispatcher and stop no more tasks are in the hands of workers and of the dispatcher than the
  -- concurrency that the pool was made for, if that is not zero; and the idle workers that submit counts
  -- are workers that have their slot.
  pub executing_at_most :
      (queue_size : ℕ) (s : Fleet A)
      → 0 < max_concurrent
      → Reaches (founded max_concurrent queue_size) s
      → (s.running + s.rousing + in_hand s.dispatcher ≤ max_concurrent)
        × (s.pool.idle + s.running ≤ s.pool.active)
  executing_at_most queue_size s positive steps =
      let i = Reaches-IsSound queue_size s steps in
      let hand = in_hand_one s.dispatcher in
      (
        omega (arith, positive, i.within, i.capped, i.manned, hand),
        omega (arith, i.manned, i.idling),
      )

  -- When the count that stop waits for is zero, in whatever order the goroutines came, no task is executed, queued or waits to
  -- be sent, and every task that submit took has been given to a worker or the dispatcher once.
  pub stop_leaves_none :
      (queue_size : ℕ) (s : Fleet A) (f : A → Bool)
      → Reaches (founded max_concurrent queue_size) s
      → s.pool.pending ≡ 0
      → (length s.pool.tasks + length s.sending + s.running + s.rousing + in_hand s.dispatcher ≡ 0)
        × (tally f s.accepted ≡ tally f s.started)
  stop_leaves_none queue_size s f steps z =
      let i = Reaches-IsSound queue_size s steps in
      let none_queued = tally_none f s.pool.tasks (omega (arith, i.waited_for, z)) in
      let none_sending = tally_none f s.sending (omega (arith, i.waited_for, z)) in
      (omega (arith, i.waited_for, z), omega (arith, i.tallied f, none_queued, none_sending))
