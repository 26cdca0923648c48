-- ===== src/Conn/SendQueue.antt =====
-- The send queue of go/connection.go: canWriteDirectlyLocked, rewindQueueLocked, consumeLocked,
-- queueLocked, queueOwnedLocked and hasQueuedOutput, each run with c.mu held.
pub mod Stream
pub mod Laws
pub mod Queueing
use event_work_balance.Base.{
  ℕ, suc, ◌+◌, ◌-◌, List, [], ◌∷◌, ◌++◌, Bool, not, ◌&&◌, Option, none, some, ltb, leb, ◌==◌, ◌≡◌,
  refl, ◌⊎◌, inl, inr, if◌then◌else◌, length, take, drop,
}
use event_work_balance.Conn.State.{FileSegment, SendBuffer, SendItem, no_item, Connection}

abbrev pub bytes_of : Option (List ℕ) → List ℕ
bytes_of none = []
bytes_of (some b) = b

-- What the socket has not taken yet: the items from `sendHead` on.
abbrev pub queued : Connection → List SendItem
queued c = drop c.send_head c.sends

unfoldable pub has_queued_output : Connection → Bool
has_queued_output c = not (c.send_head == length c.sends)

unfoldable pub can_write_directly : Connection → Bool
can_write_directly c = c.send_head == length c.sends && not c.flushing && not c.corked

-- Both branches of the source leave an empty slice; they differ in the array that they keep.
unfoldable pub rewind_queue : Connection → Connection
rewind_queue c = record c { sends = []; send_head = 0 }

unfoldable pub advance : FileSegment → ℕ → FileSegment
advance s n = record s { offset = s.offset + n; remaining = s.remaining - n }

-- One round of the loop at an item: what is left of it, and how many bytes go on to the next.
pub data Consumed : Type 0 where
  stops : SendItem → Consumed
  released : ℕ → Consumed

-- An item with a file and staged data is a chunk that was read from the file (Windows).
consume_staged : ℕ → SendItem → Option FileSegment → Consumed
consume_staged left item file =
    let remaining = length (bytes_of item.chunk) - item.offset in
    if ltb left remaining then stops (record item { offset = item.offset + left }) else elim file [
      | none ↦ released (left - remaining)
      | some s ↦
          if ltb 0 s.remaining
          then stops (record item { chunk = none; offset = 0 })
          else released (left - remaining)
    ]

consume_file : ℕ → SendItem → FileSegment → Consumed
unfolding advance
consume_file left item s =
    if ltb left s.remaining
    then stops (record item { file = some (advance s left) })
    else released (left - s.remaining)

consume_by : ℕ → SendItem → Option (List ℕ) → Option FileSegment → Consumed
unfolding consume_staged consume_file
consume_by left item none (some s) = consume_file left item s
consume_by left item none none = consume_staged left item none
consume_by left item (some b) file = consume_staged left item file

unfoldable pub consume_item : ℕ → SendItem → Consumed
unfolding consume_by
consume_item left item = consume_by left item item.chunk item.file

pub Consumed-cases :
    (r : Consumed) → ((item : SendItem) × (r ≡ stops item)) ⊎ ((m : ℕ) × (r ≡ released m))
Consumed-cases (stops item) = inl (item, refl)
Consumed-cases (released m) = inr (m, refl)

-- The loop over the queued items: how many it releases, and the items as it leaves them.
unfoldable pub consume_items : ℕ → List SendItem → ℕ × List SendItem
consume_items left [] = (0, [])
consume_items left (item ∷ items) = elim (consume_item left item) [
  | stops item' ↦ (0, item' ∷ items)
  | released left' ↦ let rest = consume_items left' items in (suc rest.0, no_item ∷ rest.1)
]

unfoldable pub consume : Connection → ℕ → Connection
consume c n =
    let r = consume_items n (queued c) in
    record c { sends = take c.send_head c.sends ++ r.1; send_head = c.send_head + r.0 }

-- The trailing item, when the parts may be appended to its buffer.
unfoldable pub merge_tail : List SendItem → List ℕ → List ℕ → Option (List SendItem)
merge_tail [] first second = none
merge_tail (item ∷ []) first second = elim item.buf [
  | none ↦ none
  | some b ↦
      if item.offset == 0 && leb (length b.bytes + length first + length second) b.capacity
      then (let grown = b.bytes ++ (first ++ second) in
          some (record item { chunk = some grown; buf = some (record b { bytes = grown }) } ∷ []))
      else none
]
merge_tail (item ∷ item' ∷ items) first second = elim (merge_tail (item' ∷ items) first second) [
  | none ↦ none
  | some items' ↦ some (item ∷ items')
]

-- `if c.sendHead == len(c.sends) { c.rewindQueueLocked() }`
unfoldable pub rewind_if_drained : Connection → Connection
unfolding rewind_queue
rewind_if_drained c = if c.send_head == length c.sends then rewind_queue c else c

unfoldable pub push_item : Connection → SendItem → Connection
push_item c item = record c { sends = c.sends ++ (item ∷ []) }

-- `grow` is the capacity that the runtime's `append` gives an array of some capacity that has to
-- hold some length; `pooled` is the capacity of the buffer that the engine's pool hands out.
module _ (grow : ℕ → ℕ → ℕ) where
  unfoldable pub new_buffer : ℕ → List ℕ → SendBuffer
  new_buffer pooled bytes = record {
    bytes = bytes;
    capacity = if leb (length bytes) pooled then pooled else grow pooled (length bytes);
  }

  unfoldable pub queue : ℕ → Connection → List ℕ → List ℕ → Connection
  unfolding merge_tail rewind_if_drained push_item new_buffer
  queue pooled c first second = elim (merge_tail c.sends first second) [
    | some sends ↦ record c { sends = sends }
    | none ↦
        let b = new_buffer pooled (first ++ second) in
        push_item (rewind_if_drained c)
          (record { chunk = some b.bytes; offset = 0; buf = some b; file = none })
  ]

unfoldable pub queue_owned : Connection → List ℕ → Connection
unfolding rewind_if_drained push_item
queue_owned c bytes =
    push_item (rewind_if_drained c)
      (record { chunk = some bytes; offset = 0; buf = none; file = none })

-- SendFile's `append(c.sends, sendItem{file: seg})`.
unfoldable pub queue_file : Connection → FileSegment → Connection
unfolding rewind_if_drained push_item
queue_file c s =
    push_item (rewind_if_drained c) (record { chunk = none; offset = 0; buf = none; file = some s })
