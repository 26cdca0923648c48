-- ===== src/Conn/SendQueue/Stream.antt =====
-- The bytes that a send queue of go/connection.go still owes the socket, in order.
use event_work_balance.Base.{
  ℕ, zero, suc, ◌+◌, ◌-◌, ◌≤◌, ◌≡◌, refl, List, [], ◌∷◌, ◌++◌, Option, none, some, arith, ltb,
  if◌then◌else◌, length, take, drop, All, length-append, length-drop,
}
use event_work_balance.Conn.State.{FileSegment, SendItem, no_item, Connection}
use event_work_balance.Conn.SendQueue.{bytes_of, queued}

-- `contents fd i` is the byte of the file `fd` at `i`.
module _ (contents : ℕ → ℕ → ℕ) where
  abbrev pub file_bytes : ℕ → ℕ → ℕ → List ℕ
  file_bytes fd offset zero = []
  file_bytes fd offset (suc n) = contents fd offset ∷ file_bytes fd (suc offset) n

  abbrev pub segment_bytes : Option FileSegment → List ℕ
  segment_bytes none = []
  segment_bytes (some s) = file_bytes s.fd s.offset s.remaining

  -- Staged data stands in front of what the file still holds.
  abbrev pub item_bytes : SendItem → List ℕ
  item_bytes item = drop item.offset (bytes_of item.chunk) ++ segment_bytes item.file

  abbrev pub items_bytes : List SendItem → List ℕ
  items_bytes [] = []
  items_bytes (item ∷ items) = item_bytes item ++ items_bytes items

  abbrev pub unsent : Connection → List ℕ
  unsent c = items_bytes (queued c)

-- A pooled buffer is the data of its item, and no item has both a buffer and a file.
abbrev pub IsOwned : SendItem → Type 0
IsOwned item = elim item.buf [
  | none ↦ Unit {0}
  | some b ↦ (item.chunk ≡ some b.bytes) × (item.file ≡ none)
]

-- Every item in front of `sendHead` has been released.
pub record IsQueue (c : Connection) : Type 0 where
  pub head_in_range : c.send_head ≤ length c.sends
  pub done : All (λ item. item ≡ no_item) (take c.send_head c.sends)
  pub owned : All IsOwned c.sends

-- How far one write can reach: to the end of the queue, or of the first staged chunk that has more
-- of its file behind it.
abbrev pub reach_item : SendItem → ℕ → ℕ
reach_item item rest = elim item.file [
  | none ↦ length (bytes_of item.chunk) - item.offset + rest
  | some s ↦ elim item.chunk [
    | none ↦ s.remaining + rest
    | some b ↦ if ltb 0 s.remaining then length b - item.offset else length b - item.offset + rest
  ]
]

abbrev pub reach : List SendItem → ℕ
reach [] = 0
reach (item ∷ items) = reach_item item (reach items)

module _ (contents : ℕ → ℕ → ℕ) where
  pub length-file_bytes : (fd offset n : ℕ) → length (file_bytes contents fd offset n) ≡ n
  length-file_bytes fd offset zero = refl
  length-file_bytes fd offset (suc n) = omega (arith, length-file_bytes fd (suc offset) n)

  pub drop-file_bytes :
      (n fd offset rem : ℕ)
      → n ≤ rem
      → drop n (file_bytes contents fd offset rem) ≡ file_bytes contents fd (offset + n) (rem - n)
  drop-file_bytes zero fd offset rem h =
      let e : offset + 0 ≡ offset = omega arith in
      let e' : rem - 0 ≡ rem = omega arith in rw (e, e')
  drop-file_bytes (suc n) fd offset zero h = absurd (omega arith)
  drop-file_bytes (suc n) fd offset (suc rem) h =
      let e : offset + suc n ≡ suc offset + n = omega arith in
      let e' : suc rem - suc n ≡ rem - n = omega arith in
      rw (e, e') (drop-file_bytes n fd (suc offset) rem (omega arith))

  pub length-segment_bytes :
      (file : Option FileSegment)
      → length (segment_bytes contents file) ≡ (elim file [ none ↦ 0 | some s ↦ s.remaining ])
  length-segment_bytes none = refl
  length-segment_bytes (some s) = length-file_bytes s.fd s.offset s.remaining

  pub length-item_bytes :
      (item : SendItem)
      → length (item_bytes contents item)
        ≡ length (bytes_of item.chunk)
          - item.offset
          + (elim item.file [ none ↦ 0 | some s ↦ s.remaining ])
  length-item_bytes item = omega (
    arith,
    length-append (drop item.offset (bytes_of item.chunk)) (segment_bytes contents item.file),
    length-drop item.offset (bytes_of item.chunk),
    length-segment_bytes item.file,
  )
