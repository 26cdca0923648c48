-- ===== src/Conn/SendQueue/Queueing.antt =====
-- queueLocked, queueOwnedLocked and SendFile's append (go/connection.go, go/sendfile_native.go) add
-- to the end of what the connection owes the socket.
use event_work_balance.Base.{
  ℕ, zero, suc, ◌≤◌, ◌≡◌, refl, sym, ap, ◌∙◌, List, [], ◌∷◌, ◌++◌, none, some, arith, length, take,
  drop, All, inl, inr, length-append, Bool-cases, ◌==◌, ==_iff, append_assoc, append-nil,
  drop-append_le, take-append_le, All-append, Option-cases, drop-all,
}
use event_work_balance.Conn.State.{FileSegment, SendItem, no_item, Connection}
use event_work_balance.Conn.SendQueue.{
  bytes_of, queued, merge_tail, rewind_if_drained, push_item, queue, queue_owned, queue_file,
}
use event_work_balance.Conn.SendQueue.Stream.{
  file_bytes, item_bytes, items_bytes, unsent, IsOwned, IsQueue,
}

pub items_bytes-append :
    (contents : ℕ → ℕ → ℕ) (xs ys : List SendItem)
    → items_bytes contents (xs ++ ys) ≡ items_bytes contents xs ++ items_bytes contents ys
items_bytes-append contents [] ys = refl
items_bytes-append contents (x ∷ xs) ys =
    ap (◌++◌ (item_bytes contents x)) (items_bytes-append contents xs ys)
    ∙ sym (append_assoc (item_bytes contents x) (items_bytes contents xs) (items_bytes contents ys))

rewind_cases {ℓ} :
    (P : Connection → Type ℓ) (c : Connection)
    → P c
    → (c.send_head ≡ length c.sends → P (record c { sends = []; send_head = 0 }))
    → P (rewind_if_drained c)
unfolding rewind_if_drained
rewind_cases P c kept rewound = elim (Bool-cases (c.send_head == length c.sends)) [
  | inl e ↦ rw e (rewound ((==_iff _ _).0 e))
  | inr e ↦ rw e kept
]

rewind_if_drained-IsQueue : (c : Connection) → IsQueue c → IsQueue (rewind_if_drained c)
rewind_if_drained-IsQueue c q =
    rewind_cases IsQueue c q λ _. record { head_in_range = omega arith; done = tt; owned = tt }

-- An empty queue owes nothing, so to restart it loses nothing.
rewind_if_drained-unsent :
    (contents : ℕ → ℕ → ℕ) (c : Connection)
    → unsent contents (rewind_if_drained c) ≡ unsent contents c
rewind_if_drained-unsent contents c =
    rewind_cases (λ d. unsent contents d ≡ unsent contents c) c refl
      λ e. sym (ap (items_bytes contents) (drop-all c.send_head c.sends (omega arith)))

push_item-IsQueue :
    (c : Connection) (item : SendItem) → IsQueue c → IsOwned item → IsQueue (push_item c item)
unfolding push_item
push_item-IsQueue c item q o = record {
  head_in_range = omega (arith, length-append c.sends (item ∷ []), q.head_in_range);
  done = rw (take-append_le c.send_head c.sends (item ∷ []) q.head_in_range) q.done;
  owned = All-append IsOwned c.sends (item ∷ []) q.owned (o, tt);
}

push_item-unsent :
    (contents : ℕ → ℕ → ℕ) (c : Connection) (item : SendItem)
    → IsQueue c
    → unsent contents (push_item c item) ≡ unsent contents c ++ item_bytes contents item
unfolding push_item
push_item-unsent contents c item q =
    ap (items_bytes contents) (drop-append_le c.send_head c.sends (item ∷ []) q.head_in_range)
    ∙ items_bytes-append contents (queued c) (item ∷ [])
    ∙ ap (◌++◌ (unsent contents c)) (append-nil (item_bytes contents item))

-- What every queueing path but the merge does.
module _ (c : Connection) (item : SendItem) (q : IsQueue c) where
  append_item-IsQueue : IsOwned item → IsQueue (push_item (rewind_if_drained c) item)
  append_item-IsQueue = push_item-IsQueue _ item (rewind_if_drained-IsQueue c q)

  append_item-unsent :
      (contents : ℕ → ℕ → ℕ)
      → unsent contents (push_item (rewind_if_drained c) item)
        ≡ unsent contents c ++ item_bytes contents item
  append_item-unsent contents =
      push_item-unsent contents _ item (rewind_if_drained-IsQueue c q)
      ∙ ap (λ xs. xs ++ item_bytes contents item) (rewind_if_drained-unsent contents c)

drop-zero {ℓ} : {A : Type ℓ} (n : ℕ) (xs : List A) → n ≡ 0 → drop n xs ≡ xs
drop-zero n xs e = rw e

module _ (first second : List ℕ) where
  -- A merge past the first of several items is one among the others.
  merge_tail-inner :
      (item item' : SendItem) (rest items' : List SendItem)
      → merge_tail (item ∷ item' ∷ rest) first second ≡ some items'
      → (xs : List SendItem) × (merge_tail (item' ∷ rest) first second ≡ some xs)
        × (items' ≡ item ∷ xs)
  unfolding merge_tail
  merge_tail-inner item item' rest items' e =
      elim (Option-cases (merge_tail (item' ∷ rest) first second)) [
        | inl m ↦ absurd (ground arith)
        | inr (xs, m) ↦ (xs, m, ground arith)
      ]

  -- A merge appends the parts to the trailing item of any list of owned items.
  merge_tail-bytes :
      (contents : ℕ → ℕ → ℕ) (items items' : List SendItem)
      → All IsOwned items
      → merge_tail items first second ≡ some items'
      → items_bytes contents items' ≡ items_bytes contents items ++ (first ++ second)
  unfolding merge_tail
  merge_tail-bytes contents [] items' o e = cc
  merge_tail-bytes contents (item ∷ []) items' o e = ground (
    arith,
    drop-zero item.offset (bytes_of item.chunk),
    append-nil (bytes_of item.chunk),
    append-nil (bytes_of item.chunk ++ (first ++ second)),
  )
  merge_tail-bytes contents (item ∷ item' ∷ rest) items' o e =
      let (xs, m, same) = merge_tail-inner item item' rest items' e in
      rw same (
        ap (◌++◌ (item_bytes contents item)) (merge_tail-bytes contents (item' ∷ rest) xs o.1 m)
        ∙ sym (append_assoc (item_bytes contents item) _ (first ++ second)))

  merge_tail-IsOwned :
      (items items' : List SendItem)
      → All IsOwned items
      → merge_tail items first second ≡ some items'
      → (length items' ≡ length items) × All IsOwned items'
  unfolding merge_tail
  merge_tail-IsOwned [] items' o e = cc
  merge_tail-IsOwned (item ∷ []) items' o e = ground arith
  merge_tail-IsOwned (item ∷ item' ∷ rest) items' o e =
      let (xs, m, same) = merge_tail-inner item item' rest items' e in
      let (len, own) = merge_tail-IsOwned (item' ∷ rest) xs o.1 m in
      rw same (ap suc len, (o.0, own))

  -- So it does to what is left behind the released items, none of which takes the merge.
  merge_tail-drop :
      (contents : ℕ → ℕ → ℕ) (k : ℕ) (items items' : List SendItem)
      → All IsOwned items
      → k ≤ length items
      → All (λ item. item ≡ no_item) (take k items)
      → merge_tail items first second ≡ some items'
      → (take k items' ≡ take k items)
        × (items_bytes contents (drop k items')
            ≡ items_bytes contents (drop k items) ++ (first ++ second))
  merge_tail-drop contents zero items items' o h d e =
      (refl, merge_tail-bytes contents items items' o e)
  merge_tail-drop contents (suc k) [] items' o h d e = absurd (omega arith)
  merge_tail-drop contents (suc k) (item ∷ []) items' o h d e = unfold merge_tail in ground arith
  merge_tail-drop contents (suc k) (item ∷ item' ∷ rest) items' o h d e =
      let (xs, m, same) = merge_tail-inner item item' rest items' e in
      let (front, back) = merge_tail-drop contents k (item' ∷ rest) xs o.1 (omega arith) d.1 m in
      rw same (ap (◌∷◌ item) front, back)

-- queueLocked: the parts go behind everything that is owed already, merged into the trailing buffer
-- or as an item of their own.
module _ (grow : ℕ → ℕ → ℕ) (pooled : ℕ) (c : Connection) (first second : List ℕ)
    (q : IsQueue c) where
  pub queue-IsQueue : IsQueue (queue grow pooled c first second)
  unfolding queue
  queue-IsQueue = elim (Option-cases (merge_tail c.sends first second)) [
    | inl e ↦ rw (e, queue) (append_item-IsQueue c _ q (refl, refl))
    | inr (sends, e) ↦
        let (len, own) = merge_tail-IsOwned first second c.sends sends q.owned e in
        let (front, _) =
          merge_tail-drop first second (λ _ _. 0) c.send_head c.sends sends q.owned q.head_in_range
            q.done e in
        rw (e, queue)
          (record {
            head_in_range = omega (arith, q.head_in_range);
            done = rw front q.done;
            owned = own;
          })
  ]

  -- queueLocked puts exactly the bytes of its two parts, in order, behind what a well-formed queue
  -- owes the socket.
  pub queue-unsent :
      (contents : ℕ → ℕ → ℕ)
      → unsent contents (queue grow pooled c first second) ≡ unsent contents c ++ (first ++ second)
  unfolding queue
  queue-unsent contents = elim (Option-cases (merge_tail c.sends first second)) [
    | inl e ↦
        rw (e, queue)
          (append_item-unsent c _ q contents
            ∙ ap (◌++◌ (unsent contents c)) (append-nil (first ++ second)))
    | inr (sends, e) ↦
        rw (e, queue)
          (merge_tail-drop first second contents c.send_head c.sends sends q.owned q.head_in_range
            q.done e).1
  ]

module _ (c : Connection) (q : IsQueue c) where
  pub queue_owned-IsQueue : (bytes : List ℕ) → IsQueue (queue_owned c bytes)
  unfolding queue_owned
  queue_owned-IsQueue bytes = append_item-IsQueue c _ q tt

  pub queue_owned-unsent :
      (contents : ℕ → ℕ → ℕ) (bytes : List ℕ)
      → unsent contents (queue_owned c bytes) ≡ unsent contents c ++ bytes
  unfolding queue_owned
  queue_owned-unsent contents bytes =
      append_item-unsent c _ q contents ∙ ap (◌++◌ (unsent contents c)) (append-nil bytes)

  pub queue_file-IsQueue : (s : FileSegment) → IsQueue (queue_file c s)
  unfolding queue_file
  queue_file-IsQueue s = append_item-IsQueue c _ q tt

  pub queue_file-unsent :
      (contents : ℕ → ℕ → ℕ) (s : FileSegment)
      → unsent contents (queue_file c s)
        ≡ unsent contents c ++ file_bytes contents s.fd s.offset s.remaining
  unfolding queue_file
  queue_file-unsent contents s = append_item-unsent c _ q contents

rewind_if_drained-All {ℓ} :
    (P : SendItem → Type ℓ) (c : Connection) → All P c.sends → All P (rewind_if_drained c).sends
rewind_if_drained-All P c a = rewind_cases (λ d. All P d.sends) c a (λ _. tt)

push_item-All {ℓ} :
    (P : SendItem → Type ℓ) (c : Connection) (item : SendItem)
    → All P c.sends
    → P item
    → All P (push_item (rewind_if_drained c) item).sends
unfolding push_item
push_item-All P c item a p =
    All-append P (rewind_if_drained c).sends (item ∷ []) (rewind_if_drained-All P c a) (p, tt)

-- A property of items that does not look at memory is kept by a merge and by every new item that
-- has no file.
module _ {ℓ} (P : SendItem → Type ℓ)
    (in_memory : (item : SendItem) → item.file ≡ none → P item) where
  merge_tail-All :
      (first second : List ℕ) (items items' : List SendItem)
      → All IsOwned items
      → All P items
      → merge_tail items first second ≡ some items'
      → All P items'
  unfolding merge_tail
  merge_tail-All first second [] items' o a e = cc
  merge_tail-All first second (item ∷ []) [] o a e = tt
  merge_tail-All first second (item ∷ []) (x ∷ []) o a e = (in_memory x (ground arith), tt)
  merge_tail-All first second (item ∷ []) (x ∷ y ∷ xs) o a e = absurd (ground arith)
  merge_tail-All first second (item ∷ item' ∷ rest) items' o a e =
      let (xs, m, same) = merge_tail-inner first second item item' rest items' e in
      rw same (a.0, merge_tail-All first second (item' ∷ rest) xs o.1 a.1 m)

  pub queue-All :
      (grow : ℕ → ℕ → ℕ) (pooled : ℕ) (c : Connection) (first second : List ℕ)
      → All IsOwned c.sends
      → All P c.sends
      → All P (queue grow pooled c first second).sends
  unfolding queue
  queue-All grow pooled c first second o a = elim (Option-cases (merge_tail c.sends first second)) [
    | inl e ↦ rw (e, queue) (push_item-All P c _ a (in_memory _ refl))
    | inr (sends, e) ↦ rw (e, queue) (merge_tail-All first second c.sends sends o a e)
  ]

  pub queue_owned-All :
      (c : Connection) (bytes : List ℕ) → All P c.sends → All P (queue_owned c bytes).sends
  unfolding queue_owned
  queue_owned-All c bytes a = push_item-All P c _ a (in_memory _ refl)

pub queue_file-All {ℓ} :
    (P : SendItem → Type ℓ) (c : Connection) (s : FileSegment)
    → P (record { chunk = none; offset = 0; buf = none; file = some s })
    → All P c.sends
    → All P (queue_file c s).sends
unfolding queue_file
queue_file-All P c s p a = push_item-All P c _ a p
