-- ===== src/Websocket/Frame/Feed.antt =====
-- Feeding bytes to the parser of go/websocket/frame.go, lent by the caller or its own.
use event_work_balance.Base.{
  ℕ, zero, suc, ◌+◌, ◌-◌, ◌%◌, ◌^◌, List, [], ◌∷◌, ◌++◌, Bool, true, false, ◌&&◌, ◌||◌, not, ◌==◌,
  ltb, leb, Option, none, some, if◌then◌else◌, length, take, drop,
}
use event_work_balance.Websocket.Utf8.{fresh}
use event_work_balance.Websocket.Frame.{Parser, Fragment, Event, Error, bit, big_endian}
use event_work_balance.Websocket.Frame.Next.{incomplete, failed, progress, consume, next}

abbrev pub is_empty : List ℕ → Bool
is_empty [] = true
is_empty (b ∷ bs) = false

abbrev pub size_of_length : ℕ → ℕ
size_of_length len = if len == 126 then 2 else if len == 127 then 8 else 0

unfoldable pub frame_header_size : List ℕ → ℕ
frame_header_size [] = 2
frame_header_size (first ∷ []) = 2
frame_header_size (first ∷ second ∷ rest) =
    2 + (if bit 7 second then 4 else 0) + size_of_length (second % 128)

abbrev pub length_of : ℕ → List ℕ → ℕ
length_of len data_bytes =
    if len == 126
    then big_endian (take 2 (drop 2 data_bytes)) 0
    else if len == 127
    then big_endian (take 8 (drop 2 data_bytes)) 0
    else len

-- The size of a frame whose head is there; an int has 64 bits.
unfoldable pub frame_size : List ℕ → Option ℕ
unfolding frame_header_size
frame_size [] = none
frame_size (first ∷ []) = none
frame_size (first ∷ second ∷ rest) =
    let data_bytes = first ∷ second ∷ rest in
    let header = frame_header_size data_bytes in
    let len = length_of (second % 128) data_bytes in
    if ltb (length data_bytes) header
    then none
    else if ltb (2 ^ 63 - 1 - header) len
    then none
    else some (header + len)

-- The bytes that the frame at the front of `buffer` still needs, as far as is known.
abbrev pub still_needs : List ℕ → ℕ
still_needs buffer = elim (frame_size buffer) [
  | none ↦ frame_header_size buffer - length buffer
  | some frame_end ↦ frame_end - length buffer
]

abbrev pub is_known : Option ℕ → Bool
is_known none = false
is_known (some n) = true

-- The frame at the front of `buffer` with what it needs of `data_bytes`, and the rest of them.
unfoldable pub append_current_frame : ℕ → List ℕ → List ℕ → Option (List ℕ × List ℕ)
unfolding frame_size frame_header_size
append_current_frame zero buffer data_bytes = none
append_current_frame (suc fuel) buffer data_bytes =
    let need = still_needs buffer in
    if need == 0 || leb (length data_bytes) need
    then some (buffer ++ data_bytes, [])
    else elim (is_known (frame_size buffer)) [
      | true ↦ some (buffer ++ take need data_bytes, drop need data_bytes)
      | false ↦ append_current_frame fuel (buffer ++ take need data_bytes) (drop need data_bytes)
    ]

-- What a call of FeedOne gives: an event, nothing yet, or the connection's end.
pub data Answer : Type 0 where
  gives : Event → Answer
  nothing : Answer
  fault : Error → Answer

unfoldable pub settle : Parser → Parser
unfolding consume
settle p =
    if p.pending_consume == 0
    then p
    else record (consume p p.pending_consume) { pending_consume = 0 }

abbrev pub tail_waits : Parser → Bool
tail_waits p = is_empty p.buffer && not (is_empty p.borrowed_tail)

abbrev pub take_tail : Parser → Parser
take_tail p = record p { buffer = p.borrowed_tail; borrowed_tail = []; borrowed_buffer = true }

unfoldable pub append_data : Bool → Parser → List ℕ → Option Parser
unfolding append_current_frame
append_data borrow p data_bytes =
    if borrow && is_empty p.buffer && not (is_empty data_bytes)
    then some (record p { buffer = data_bytes; borrowed_buffer = true })
    else if borrow && not p.borrowed_buffer && not (is_empty p.buffer) && not (is_empty data_bytes)
    then elim (append_current_frame (suc (length data_bytes)) p.buffer data_bytes) [
      | none ↦ none
      | some (buffer, tail) ↦ some (record p { buffer = buffer; borrowed_tail = tail })
    ]
    else some (record p { buffer = p.buffer ++ data_bytes })

unfoldable pub cleared : Parser → Parser
cleared p = record p {
  buffer = [];
  borrowed_buffer = false;
  borrowed_tail = [];
  fragment = none;
  text = fresh;
  text_checked = 0;
  window = [];
}

-- adopt copies what was lent.
abbrev pub adopt : Parser → Parser
adopt p =
    if p.borrowed_buffer && not (is_empty p.buffer) then record p { borrowed_buffer = false } else p

unfoldable pub release_borrowed : Parser → Parser
unfolding settle
release_borrowed p =
    let q = settle p in
    if q.borrowed_buffer
    then record q { borrowed_tail = []; buffer = []; borrowed_buffer = false }
    else record q { borrowed_tail = [] }

abbrev reset_fragment : Bool → Option Fragment → Option Fragment
reset_fragment outgrown none = none
reset_fragment outgrown (some f) =
    if outgrown then none else some (record f { opcode = 0; data_bytes = [] })

-- `outgrown` says that the array of the message in progress is too large to keep.
unfoldable pub reset : Bool → Parser → Parser
reset outgrown p = record p {
  buffer = [];
  fragment = reset_fragment outgrown p.fragment;
  text = fresh;
  text_checked = 0;
  window = [];
  pending_consume = 0;
  borrowed_buffer = false;
  borrowed_tail = [];
}

abbrev pub and_event :
    Event
    → Option (List Event × Option Error × Parser)
    → Option (List Event × Option Error × Parser)
and_event event none = none
and_event event (some (events, e, p)) = some (event ∷ events, e, p)

module _ (valid : List ℕ → Bool) (flate : List ℕ → List ℕ → List ℕ × Bool) where
  -- The loop of feedOne, on fuel.
  unfoldable pub feed_loop : ℕ → Bool → Parser → Option (Parser × Answer)
  unfolding next cleared
  feed_loop zero borrow p = none
  feed_loop (suc fuel) borrow p =
      let (q, outcome) = next valid flate borrow p in
      elim outcome [
        | failed e ↦ some (cleared q, fault e)
        | incomplete ↦ elim (tail_waits q) [
          | true ↦ feed_loop fuel borrow (take_tail q)
          | false ↦ some (adopt q, nothing)
        ]
        | progress event ↦ elim event [
          | none ↦ feed_loop fuel borrow q
          | some e ↦ some (q, gives e)
        ]
      ]

  unfoldable pub feed_one : ℕ → Bool → Parser → List ℕ → Option (Parser × Answer)
  unfolding feed_loop settle append_data
  feed_one fuel borrow p data_bytes =
      let q = settle p in
      let r = if tail_waits q then take_tail q else q in
      elim (append_data borrow r data_bytes) [ none ↦ none | some s ↦ feed_loop fuel borrow s ]

  -- All events up to an error or until more bytes are needed.
  unfoldable pub feed : ℕ → Parser → List ℕ → Option (List Event × Option Error × Parser)
  unfolding feed_one
  feed zero p data_bytes = none
  feed (suc fuel) p data_bytes = elim (feed_one (suc fuel) false p data_bytes) [
    | none ↦ none
    | some r ↦
        let (q, answer) = r in
        elim answer [
          | fault e ↦ some ([], some e, q)
          | nothing ↦ some ([], none, q)
          | gives event ↦ and_event event (feed fuel q [])
        ]
  ]
