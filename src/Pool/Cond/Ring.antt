-- ===== src/Pool/Cond/Ring.antt =====
-- The ring of go/taskpool/cond.go as a first-in, first-out queue.
use event_work_balance.Base.{
  ℕ, zero, suc, ◌+◌, ◌-◌, ◌≤◌, ◌<◌, ◌≡◌, ◌≢◌, refl, sym, ap, subst, ◌∙◌, List, [], ◌∷◌, ◌++◌, Bool,
  Option, none, some, arith, ltb, if◌then◌else◌, length, get_elem?, set, length-set,
  get_elem?-set_self, get_elem?-set_ne, length-replicate, ◌==◌,
}
use native.Mathlib.Numerals.{add-one}
use event_work_balance.Pool.Cond.{
  CondPool, advance, enqueue_locked, slot, new_cond_pool, worker, takes,
}

abbrev pub wrap : ℕ → ℕ → ℕ
wrap len i = if ltb i len then i else i - len

module _ {ℓ} {A : Type ℓ} where
  -- `n` slots of a ring of length `len`, from `h` on.
  abbrev pub slots : ℕ → ℕ → ℕ → List (Option A) → List (Option A)
  slots len zero h q = []
  slots len (suc n) h q = slot (get_elem? q h) ∷ slots len n (advance len h) q

  -- The tasks in the queue, oldest first.
  abbrev pub contents : CondPool A → List (Option A)
  contents p = slots (length p.queue) p.count p.head p.queue

  pub record IsRing (p : CondPool A) : Type 0 where
    pub nonempty : 0 < length p.queue
    pub head_in_range : p.head < length p.queue
    pub count_in_range : p.count ≤ length p.queue
    pub tail_at : p.tail ≡ wrap (length p.queue) (p.head + p.count)

  -- A write past the slots that are read is not seen.
  slots-set :
      (len n j h : ℕ) (q : List (Option A)) (v : Option A)
      → h < len
      → n + j < len
      → slots len n h (set q (wrap len (h + (n + j))) v) ≡ slots len n h q
  slots-set len zero j h q v a b = refl
  slots-set len (suc n) j h q v a b =
      let here : wrap len (h + (suc n + j)) ≢ h = ground arith in
      let next : wrap len (advance len h + (n + j)) ≡ wrap len (h + (suc n + j)) = ground arith in
      let rest = slots-set len n j (advance len h) q v (ground arith) (omega arith) in
      rw (get_elem?-set_ne q (wrap len (h + (suc n + j))) h v here) (
        ap (◌∷◌ (slot (get_elem? q h)))
          (ap (λ t. slots len n (advance len h) (set q t v)) (sym next) ∙ rest))

  slots-snoc :
      (len n h : ℕ) (q : List (Option A))
      → h < len
      → n < len
      → slots len (suc n) h q ≡ slots len n h q ++ (slot (get_elem? q (wrap len (h + n))) ∷ [])
  slots-snoc len zero h q a b =
      let e : h ≡ wrap len (h + 0) = ground arith in ap (λ i. slot (get_elem? q i) ∷ []) e
  slots-snoc len (suc n) h q a b =
      let e : wrap len (advance len h + n) ≡ wrap len (h + suc n) = ground arith in
      ap (◌∷◌ (slot (get_elem? q h))) (
        slots-snoc len n (advance len h) q (ground arith) (omega arith)
        ∙ ap (λ i. slots len n (advance len h) q ++ (slot (get_elem? q i) ∷ [])) e)

  pub new_cond_pool-IsRing : (workers size : ℕ) → IsRing (new_cond_pool {A = A} workers size)
  unfolding new_cond_pool
  new_cond_pool-IsRing workers size =
      ground (arith, length-replicate {A = Option A} (if size == 0 then 1 else size) none)

  -- enqueueLocked, in a queue that is not full, puts the task behind all the others.
  module _ (p : CondPool A) (task : A) (r : IsRing p) (room : p.count < length p.queue) where
    pub enqueue_locked-IsRing : IsRing (enqueue_locked p task)
    unfolding enqueue_locked
    enqueue_locked-IsRing = record {
      nonempty = omega (arith, r.nonempty, length-set p.queue p.tail (some task));
      head_in_range = omega (arith, r.head_in_range, length-set p.queue p.tail (some task));
      count_in_range = omega (arith, room, length-set p.queue p.tail (some task));
      tail_at =
          ground (arith, r.tail_at, r.head_in_range, room, length-set p.queue p.tail (some task));
    }

    tail_in_range : p.tail < length p.queue
    tail_in_range = ground (arith, r.tail_at, r.head_in_range)

    pub enqueue_locked-contents : contents (enqueue_locked p task) ≡ contents p ++ (some task ∷ [])
    unfolding enqueue_locked
    enqueue_locked-contents =
        let len = length p.queue in
        let q = set p.queue p.tail (some task) in
        let at : wrap len (p.head + p.count) ≡ p.tail = sym r.tail_at in
        let past : wrap len (p.head + (p.count + 0)) ≡ p.tail = ground (arith, r.tail_at) in
        ap (λ l. slots l (p.count + 1) p.head q) (length-set p.queue p.tail (some task))
        ∙ ap (λ n. slots len n p.head q) (add-one p.count)
        ∙ slots-snoc len p.count p.head q r.head_in_range room
        ∙ ap (λ i. slots len p.count p.head q ++ (slot (get_elem? q i) ∷ [])) at
        ∙ ap (λ o. slots len p.count p.head q ++ (slot o ∷ []))
            (get_elem?-set_self p.queue p.tail (some task) tail_in_range)
        ∙ ap (λ xs. xs ++ (some task ∷ []))
            (ap (λ t. slots len p.count p.head (set p.queue t (some task))) (sym past)
              ∙ slots-set len p.count 0 p.head p.queue (some task) r.head_in_range (omega arith))

  -- A worker takes the oldest task, and leaves the others.
  module _ (p : CondPool A) (r : IsRing p) (some_task : 0 < p.count) where
    -- The pool that the worker leaves.
    abbrev left : CondPool A
    left = record p {
      queue = set p.queue p.head none;
      head = advance (length p.queue) p.head;
      count = p.count - 1;
    }

    left-IsRing : IsRing left
    left-IsRing = record {
      nonempty = omega (arith, r.nonempty, length-set p.queue p.head none);
      head_in_range = ground (arith, r.head_in_range, length-set p.queue p.head none);
      count_in_range = omega (arith, r.count_in_range, length-set p.queue p.head none);
      tail_at =
          ground
            (arith, r.tail_at, r.head_in_range, r.count_in_range, length-set p.queue p.head none);
    }

    left-contents : contents p ≡ slot (get_elem? p.queue p.head) ∷ contents left
    left-contents =
        let len = length p.queue in
        let h = advance len p.head in
        let n = p.count - 1 in
        let e : p.count ≡ suc n = omega arith in
        let at : wrap len (h + (n + (len - p.count))) ≡ p.head =
          ground (arith, r.head_in_range, r.count_in_range) in
        ap (λ k. slots len k p.head p.queue) e
        ∙ ap (◌∷◌ (slot (get_elem? p.queue p.head))) (
            sym (
              ap (λ l. slots l n h left.queue) (length-set p.queue p.head none)
              ∙ ap (λ t. slots len n h (set p.queue t none)) (sym at)
              ∙ slots-set len n (len - p.count) h p.queue none (ground (arith, r.head_in_range))
                  (omega (arith, r.count_in_range))))

    worker_shape : worker p ≡ takes left (slot (get_elem? p.queue p.head)) (ltb 0 p.full_waiters)
    unfolding worker
    worker_shape = ground arith

    pub worker_takes :
        (p' : CondPool A) (task : Option A) (wake : Bool)
        → worker p ≡ takes p' task wake
        → IsRing p' × (contents p ≡ task ∷ contents p')
    worker_takes p' task wake e =
        let same : left ≡ p' = cc (sym worker_shape ∙ e) in
        let head : slot (get_elem? p.queue p.head) ≡ task = cc (sym worker_shape ∙ e) in
        (
          subst IsRing same left-IsRing,
          left-contents
              ∙ ap (λ o. o ∷ contents left) head
              ∙ ap (λ (l : CondPool A). task ∷ contents l) same,
        )
