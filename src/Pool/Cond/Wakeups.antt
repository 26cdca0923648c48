-- ===== src/Pool/Cond/Wakeups.antt =====
-- What holds of the pool of go/taskpool/cond.go between any two holds of its mutex.
pub mod Batched
pub mod Steps
use event_work_balance.Base.{
  ℕ, zero, suc, ◌+◌, ◌-◌, ◌≤◌, ◌<◌, ◌≡◌, ◌⊎◌, inl, inr, refl, sym, ap, subst, ◌∙◌, List, [], ◌∷◌,
  ◌++◌, Bool, true, false, not, ◌&&◌, ◌==◌, ltb, Option, none, some, arith, length, if◌then◌else◌,
  Bool-cases, All, append_assoc, append-nil, length-set, set, get_elem?,
}
use mathlib.Core.List.{map, map-append}
use event_work_balance.Pool.Cond.{
  CondPool, submit, parks, rejects, accepts, is_full, enqueue_locked, worker, Worked, waits, exits,
  takes, slot, advance,
}
use event_work_balance.Pool.Cond.Ring.{
  IsRing, contents, enqueue_locked-IsRing, enqueue_locked-contents, worker_takes,
}
use event_work_balance.Pool.Cond.Turns.{State, submitted, worked}

module _ {ℓ} {A : Type ℓ} where
  abbrev pub owed : List (ℕ × List A) → ℕ
  owed [] = 0
  owed ((n, rest) ∷ bs) = length rest + owed bs

  -- `told`: the signals owed reach every idle worker, or there are workers on their way for every
  -- task. `room`: likewise for the submitters and the free slots, of which a submitter that is just
  -- back from its wait has `slack`. `counted`: stop() waits for the tasks in the queue, those that
  -- run, and those of batches, of which `more` is in nobody's books.
  pub record Inv (slack more : ℕ) (s : State A) : Type ℓ where
    pub ring : IsRing s.pool
    pub waiting : s.pool.waiters ≡ s.idle + s.woken
    pub full_waiting : s.pool.full_waiters ≡ s.full_idle + s.full_woken
    pub told : (s.idle ≤ s.signals) ⊎ (s.pool.count ≤ s.signals + s.woken + s.looping)
    pub room :
        (s.full_idle ≡ 0)
        ⊎ (length s.pool.queue ≤ s.pool.count + s.full_signals + s.full_woken + slack)
    pub counted : s.pool.pending ≡ s.pool.count + s.running + owed s.batches + more
    pub order : map some s.accepted ≡ s.taken ++ contents s.pool
    pub quiet : s.pool.stopped ≡ true → (s.idle ≡ 0) × (s.full_idle ≡ 0)
    pub left_to_do : All (λ b. 0 < length b.1) s.batches

  pub same-IsRing :
      (p q : CondPool A)
      → q.queue ≡ p.queue
      → q.head ≡ p.head
      → q.tail ≡ p.tail
      → q.count ≡ p.count
      → IsRing p
      → IsRing q
  same-IsRing p q same head tail count r = record {
    nonempty = rw same r.nonempty;
    head_in_range = rw same (rw head r.head_in_range);
    count_in_range = rw same (rw count r.count_in_range);
    tail_at = rw same (rw head (rw tail (rw count r.tail_at)));
  }

  -- The queue takes a task.
  enqueue-Inv :
      (s : State A) (task : A) (slack : ℕ)
      → slack ≤ 1
      → Inv slack 0 s
      → s.pool.stopped ≡ false
      → s.pool.count < length s.pool.queue
      → Inv 0 0 (record s {
        pool = enqueue_locked (record s.pool { pending = s.pool.pending + 1 }) task;
        signals = s.signals + (if ltb 0 s.pool.waiters then 1 else 0);
        accepted = s.accepted ++ (task ∷ []);
      })
  unfolding enqueue_locked
  enqueue-Inv s task slack small v running room =
      let p = record s.pool { pending = s.pool.pending + 1 } in
      let ring = same-IsRing s.pool p refl refl refl refl v.ring in
      record {
        ring = enqueue_locked-IsRing p task ring room;
        waiting = v.waiting;
        full_waiting = v.full_waiting;
        told = ground (arith, v.told, v.waiting);
        room = ground (arith, v.room, length-set s.pool.queue s.pool.tail (some task), small);
        counted = omega (arith, v.counted);
        order =
            map-append some s.accepted (task ∷ [])
            ∙ ap (λ xs. xs ++ (some task ∷ [])) v.order
            ∙ append_assoc s.taken (contents s.pool) (some task ∷ [])
            ∙ ap (λ xs. s.taken ++ xs) (sym (enqueue_locked-contents p task ring room));
        quiet = λ h. cc;
        left_to_do = v.left_to_do;
      }

  submit_cases :
      (p : CondPool A) (task : A)
      → ((is_full p ≡ true)
          × (p.stopped ≡ false)
          × (submit p task ≡ parks (record p { full_waiters = p.full_waiters + 1 })))
        ⊎ ((p.stopped ≡ true) × (submit p task ≡ rejects))
        ⊎ ((is_full p ≡ false)
            × (p.stopped ≡ false)
            × (submit p task
                ≡ accepts
                    (enqueue_locked (record p { pending = p.pending + 1 }) task)
                    (ltb 0 p.waiters)))
  unfolding submit
  submit_cases p task = ground arith

  pub submitted-Inv :
      (s : State A) (task : A) (slack : ℕ)
      → slack ≤ 1
      → Inv slack 0 s
      → Inv 0 0 (submitted s task (submit s.pool task))
  unfolding submitted
  submitted-Inv s task slack small v = elim (submit_cases s.pool task) [
    | inl (full, running, e) ↦ rw e (record {
      ring = same-IsRing s.pool _ refl refl refl refl v.ring;
      waiting = v.waiting;
      full_waiting = omega (arith, v.full_waiting);
      told = v.told;
      room = inr (ground arith);
      counted = v.counted;
      order = v.order;
      quiet = λ h. absurd (ground arith);
      left_to_do = v.left_to_do;
    })
    | inr (inl (stopped, e)) ↦ rw e (record {
      ring = v.ring;
      waiting = v.waiting;
      full_waiting = v.full_waiting;
      told = v.told;
      room = inl (v.quiet stopped).1;
      counted = v.counted;
      order = v.order;
      quiet = v.quiet;
      left_to_do = v.left_to_do;
    })
    | inr (inr (room, running, e)) ↦
        rw e (enqueue-Inv s task slack small v running (ground (arith, v.ring.count_in_range)))
  ]

  pub worker_cases :
      (p : CondPool A)
      → ((p.count ≡ 0)
          × (p.stopped ≡ false)
          × (worker p ≡ waits (record p { waiters = p.waiters + 1 })))
        ⊎ ((p.count ≡ 0) × (p.stopped ≡ true) × (worker p ≡ exits))
        ⊎ ((0 < p.count)
            × (worker p
                ≡ takes
                    (record p {
                      queue = set p.queue p.head none;
                      head = advance (length p.queue) p.head;
                      count = p.count - 1;
                    })
                    (slot (get_elem? p.queue p.head))
                    (ltb 0 p.full_waiters)))
  unfolding worker
  worker_cases p = elim (Bool-cases (p.count == 0)) [
    | inl empty ↦ elim (Bool-cases p.stopped) [
      | inl stopped ↦ inr (inl (ground arith, stopped, ground arith))
      | inr running ↦ inl (ground arith, running, ground arith)
    ]
    | inr tasks ↦ inr (inr (ground arith, ground arith))
  ]

  pub worked-Inv :
      (s : State A) (n : ℕ) → s.looping ≡ suc n → Inv 0 0 s → Inv 0 0 (worked s (worker s.pool))
  unfolding worked
  worked-Inv s n h v = elim (worker_cases s.pool) [
    | inl (empty, running, e) ↦ rw e (record {
      ring = same-IsRing s.pool _ refl refl refl refl v.ring;
      waiting = omega (arith, v.waiting);
      full_waiting = v.full_waiting;
      told = inr (omega arith);
      room = v.room;
      counted = v.counted;
      order = v.order;
      quiet = λ h. absurd (ground arith);
      left_to_do = v.left_to_do;
    })
    | inr (inl (empty, stopped, e)) ↦ rw e (record {
      ring = v.ring;
      waiting = v.waiting;
      full_waiting = v.full_waiting;
      told = inr (omega arith);
      room = v.room;
      counted = v.counted;
      order = v.order;
      quiet = v.quiet;
      left_to_do = v.left_to_do;
    })
    | inr (inr (task, e)) ↦
        let (ring, queue) = worker_takes s.pool v.ring task _ _ _ e in
        rw e (record {
          ring = ring;
          waiting = v.waiting;
          full_waiting = v.full_waiting;
          told = ground (arith, v.told);
          room = ground (arith, v.room, v.full_waiting, length-set s.pool.queue s.pool.head none);
          counted = omega (arith, v.counted);
          order =
              v.order
              ∙ ap (λ xs. s.taken ++ xs) queue
              ∙ sym (append_assoc s.taken (slot (get_elem? s.pool.queue s.pool.head) ∷ []) _);
          quiet = v.quiet;
          left_to_do = v.left_to_do;
        })
  ]
