-- ===== src/Conn/SendQueue/Laws.antt =====
-- What consumeLocked and the queueing functions of go/connection.go do to the bytes that are owed.
use event_work_balance.Base.{
  append-nil, sym, inl, inr, length-take, All-append, All-take, All-drop, take-append_add,
  drop-append_add, ℕ, suc, ◌+◌, ◌-◌, ◌≤◌, ◌<◌, ◌≡◌, refl, List, [], ◌∷◌, ◌++◌, Option, none, some,
  arith, length, take, drop, All, length-append, length-drop, drop-append_le, drop-add, drop-nil,
  ap, ◌∙◌, drop-append_ge,
}
use event_work_balance.Conn.State.{FileSegment, SendItem, no_item, Connection}
use event_work_balance.Conn.SendQueue.{
  bytes_of, advance, queued, Consumed-cases, stops, released, consume_item, consume_items, consume,
}
use event_work_balance.Conn.SendQueue.Stream.{
  segment_bytes, item_bytes, items_bytes, unsent, IsOwned, IsQueue, reach_item, reach,
  drop-file_bytes, length-item_bytes,
}

module _ {ℓ} {A : Type ℓ} where
  -- `n` elements fewer of a staged chunk, and all of what was left of it.
  drop-chunk :
      (n offset : ℕ) (b tail : List A)
      → n < length b - offset
      → drop n (drop offset b ++ tail) ≡ drop (offset + n) b ++ tail
  drop-chunk n offset b tail h =
      drop-append_le n (drop offset b) tail (omega (arith, length-drop offset b))
      ∙ ap (λ xs. xs ++ tail) (drop-add offset n b)

  drop-chunk_end :
      (n offset : ℕ) (b tail : List A)
      → n ≡ length b - offset
      → drop n (drop offset b ++ tail) ≡ tail
  drop-chunk_end n offset b tail h =
      let e : n - length (drop offset b) ≡ 0 = omega (arith, length-drop offset b) in
      drop-append_ge n (drop offset b) tail (omega (arith, length-drop offset b))
      ∙ ap (λ m. drop m tail) e

module _ (contents : ℕ → ℕ → ℕ) where
  drop-segment : (n offset : ℕ) (file : Option FileSegment) → (elim file as (λ _. Type 0) [
    | none ↦ Unit {0}
    | some s ↦
        n ≤ s.remaining
        → drop n (drop offset [] ++ segment_bytes contents (some s))
          ≡ drop offset [] ++ segment_bytes contents (some (advance s n))
  ])
  unfolding advance
  drop-segment n offset none = tt
  drop-segment n offset (some s) =
      λ h. rw (drop-nil offset) (drop-file_bytes contents n s.fd s.offset s.remaining h)

  -- An item that takes all of the `n` bytes keeps the rest of its own.
  consume_item_stops :
      (n r : ℕ) (item item' : SendItem)
      → consume_item n item ≡ stops item'
      → n ≤ reach_item item r
      → (n ≤ length (item_bytes contents item))
        × (item_bytes contents item' ≡ drop n (item_bytes contents item))
  unfolding consume_item
  consume_item_stops n r item item' e h = ground (
    arith,
    length-item_bytes contents item,
    drop-segment n item.offset item.file,
    drop-chunk n item.offset (bytes_of item.chunk) (segment_bytes contents item.file),
    drop-chunk_end n item.offset (bytes_of item.chunk) (segment_bytes contents item.file),
  )

  -- An item that is released held at most `n` bytes.
  consume_item_released :
      (n r m : ℕ) (item : SendItem)
      → consume_item n item ≡ released m
      → (length (item_bytes contents item) ≤ n)
        × (m ≡ n - length (item_bytes contents item))
        × (n ≤ reach_item item r → m ≤ r)
  unfolding consume_item
  consume_item_released n r m item e = ground (arith, length-item_bytes contents item)

  -- `n` bytes that the socket took are gone from the front of what is owed, and no others.
  items_bytes-consume_items :
      (n : ℕ) (items : List SendItem)
      → n ≤ reach items
      → items_bytes contents (drop (consume_items n items).0 (consume_items n items).1)
        ≡ drop n (items_bytes contents items)
  unfolding consume_items
  items_bytes-consume_items n [] h = sym (drop-nil n)
  items_bytes-consume_items n (item ∷ items) h = elim (Consumed-cases (consume_item n item)) [
    | inl (item', e) ↦
        let (fits, same) = consume_item_stops n (reach items) item item' e h in
        rw (e, consume_items, same)
          (sym (drop-append_le n (item_bytes contents item) (items_bytes contents items) fits))
    | inr (m, e) ↦
        let (past, left, more) = consume_item_released n (reach items) m item e in
        rw (e, consume_items)
          (items_bytes-consume_items m items (more h)
            ∙ ap (λ k. drop k (items_bytes contents items)) left
            ∙ sym (drop-append_ge n (item_bytes contents item) (items_bytes contents items) past))
  ]

length-take_le {ℓ} : {A : Type ℓ} (n : ℕ) (xs : List A) → n ≤ length xs → length (take n xs) ≡ n
length-take_le n xs h = omega (arith, length-take n xs)

-- The items that `consume` leaves queued are those that its loop has left behind the released ones.
queued-consume :
    (c : Connection) (n : ℕ)
    → c.send_head ≤ length c.sends
    → queued (consume c n) ≡ drop (consume_items n (queued c)).0 (consume_items n (queued c)).1
unfolding consume
queued-consume c n h =
    let k = (consume_items n (queued c)).0 in
    let items = (consume_items n (queued c)).1 in
    let e = length-take_le c.send_head c.sends h in
    ap (λ m. drop (m + k) (take c.send_head c.sends ++ items)) (sym e)
    ∙ drop-append_add (take c.send_head c.sends) k items

-- On a well-formed queue, consumeLocked(n) takes exactly the first `n` bytes off what the connection
-- owes the socket, if one write can reach that far.
pub unsent-consume :
    (contents : ℕ → ℕ → ℕ) (c : Connection) (n : ℕ)
    → IsQueue c
    → n ≤ reach (queued c)
    → unsent contents (consume c n) ≡ drop n (unsent contents c)
unsent-consume contents c n q h =
    ap (items_bytes contents) (queued-consume c n q.head_in_range)
    ∙ items_bytes-consume_items contents n (queued c) h

consume_item-IsOwned :
    (n : ℕ) (item item' : SendItem)
    → consume_item n item ≡ stops item'
    → IsOwned item
    → IsOwned item'
unfolding consume_item
consume_item-IsOwned n item item' e o = ground arith

-- The loop keeps the number of items, and those that it counts as released are empty.
consume_items_shape :
    (n : ℕ) (items : List SendItem)
    → All IsOwned items
    → (length (consume_items n items).1 ≡ length items)
      × ((consume_items n items).0 ≤ length items)
      × All (λ item. item ≡ no_item) (take (consume_items n items).0 (consume_items n items).1)
      × All IsOwned (consume_items n items).1
unfolding consume_items
consume_items_shape n [] o = (refl, omega arith, tt, tt)
consume_items_shape n (item ∷ items) o = elim (Consumed-cases (consume_item n item)) [
  | inl (item', e) ↦
      rw (e, consume_items) (refl, omega arith, tt, (consume_item-IsOwned n item item' e o.0, o.1))
  | inr (m, e) ↦
      let (len, le, done, own) = consume_items_shape m items o.1 in
      rw (e, consume_items) (ap suc len, omega arith, (refl, done), (tt, own))
]

take-append_at {ℓ} :
    {A : Type ℓ} (k n : ℕ) (xs ys : List A)
    → length xs ≡ k
    → take (k + n) (xs ++ ys) ≡ xs ++ take n ys
take-append_at k n xs ys e = ap (λ m. take (m + n) (xs ++ ys)) (sym e) ∙ take-append_add xs n ys

pub consume-IsQueue : (c : Connection) (n : ℕ) → IsQueue c → IsQueue (consume c n)
unfolding consume
consume-IsQueue c n q =
    let (len, le, done, own) =
      consume_items_shape n (queued c) (All-drop IsOwned c.send_head c.sends q.owned) in
    let front = take c.send_head c.sends in
    let r = consume_items n (queued c) in
    let e = length-take_le c.send_head c.sends q.head_in_range in
    let whole = length-append front r.1 in
    let back = length-drop c.send_head c.sends in
    record {
      head_in_range = omega (arith, q.head_in_range);
      done =
          rw (take-append_at c.send_head r.0 front r.1 e)
            (All-append (λ item. item ≡ no_item) front (take r.0 r.1) q.done done);
      owned = All-append IsOwned front r.1 (All-take IsOwned c.send_head c.sends q.owned) own;
    }

-- The queued items replaced by others, behind the same released ones.
module _ (c : Connection) (items : List SendItem) (h : c.send_head ≤ length c.sends) where
  pub queued-front : drop c.send_head (take c.send_head c.sends ++ items) ≡ items
  queued-front =
      let e : c.send_head ≡ length (take c.send_head c.sends) + 0 =
        omega (arith, length-take_le c.send_head c.sends h) in
      ap (λ m. drop m (take c.send_head c.sends ++ items)) e
      ∙ drop-append_add (take c.send_head c.sends) 0 items

  pub taken-front : take c.send_head (take c.send_head c.sends ++ items) ≡ take c.send_head c.sends
  taken-front =
      let e : c.send_head ≡ c.send_head + 0 = omega arith in
      ap (λ m. take m (take c.send_head c.sends ++ items)) e
      ∙ take-append_at c.send_head 0 (take c.send_head c.sends) items
          (length-take_le c.send_head c.sends h)
      ∙ append-nil (take c.send_head c.sends)

pub front-IsQueue :
    (c : Connection) (items : List SendItem)
    → IsQueue c
    → All IsOwned items
    → IsQueue (record c { sends = take c.send_head c.sends ++ items })
front-IsQueue c items q o = record {
  head_in_range = omega (
    arith,
    length-append (take c.send_head c.sends) items,
    length-take_le c.send_head c.sends q.head_in_range,
  );
  done = rw (taken-front c items q.head_in_range) q.done;
  owned =
      All-append IsOwned (take c.send_head c.sends) items
        (All-take IsOwned c.send_head c.sends q.owned) o;
}

-- A property of items that a released item has, and that a partly sent one keeps.
module _ {ℓ} (P : SendItem → Type ℓ) (empty : P no_item)
    (kept : (n : ℕ) (item item' : SendItem)
      → consume_item n item ≡ stops item'
      → P item
      → P item') where
  consume_items-All :
      (n : ℕ) (items : List SendItem) → All P items → All P (consume_items n items).1
  unfolding consume_items
  consume_items-All n [] a = tt
  consume_items-All n (item ∷ items) a = elim (Consumed-cases (consume_item n item)) [
    | inl (item', e) ↦ rw (e, consume_items) (kept n item item' e a.0, a.1)
    | inr (m, e) ↦ rw (e, consume_items) (empty, consume_items-All m items a.1)
  ]

  pub consume-All : (c : Connection) (n : ℕ) → All P c.sends → All P (consume c n).sends
  unfolding consume
  consume-All c n a =
      All-append P (take c.send_head c.sends) (consume_items n (queued c)).1
        (All-take P c.send_head c.sends a)
        (consume_items-All n (queued c) (All-drop P c.send_head c.sends a))
