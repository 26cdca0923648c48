-- ===== src/Websocket/Frame/Next.antt =====
-- One frame of go/websocket/frame.go, and the messages that its frames make. `valid` is utf8.Valid, and
-- `flate` what reading a compress/flate stream with a dictionary to its end gives: the bytes, and
-- whether it ended in io.EOF.
use event_work_balance.Base.{
  ℕ, zero, suc, ◌+◌, ◌-◌, List, [], ◌∷◌, ◌++◌, Bool, false, ◌&&◌, ◌||◌, not, ◌==◌, ltb, leb, Option,
  none, some, if◌then◌else◌, length, take, drop,
}
use event_work_balance.Websocket.Utf8.{Validator, fresh, write, complete}
use event_work_balance.Websocket.Frame.{
  Parser, Error, protocol, message_too_big, invalid_payload, Event, Fragment, Got, short, wrong,
  got, after, Head, is_control, is_data, read_head, unmask, is_text, big_endian,
}

abbrev deflate_tail : List ℕ
deflate_tail = 0 ∷ 0 ∷ 255 ∷ 255 ∷ 1 ∷ 0 ∷ 0 ∷ 255 ∷ 255 ∷ []

abbrev pub max_window_size : ℕ
max_window_size = 32768

unfoldable pub keep_window : List ℕ → List ℕ → List ℕ
keep_window window message =
    if leb max_window_size (length message)
    then drop (length message - max_window_size) message
    else drop (length window + length message - max_window_size) window ++ message

-- What a frame did: more bytes are needed, the connection fails, or the frame was taken and may have
-- ended a message. feedOne clears whatever next has changed of a parser that fails, so that a failure
-- gives the parser back as it was.
pub data Outcome : Type 0 where
  incomplete : Outcome
  failed : Error → Outcome
  progress : Option Event → Outcome

unfoldable pub consume : Parser → ℕ → Parser
consume p n = record p {
  buffer = drop n p.buffer;
  borrowed_buffer = p.borrowed_buffer && not (n == length p.buffer);
}

unfoldable pub finish_frame : Bool → Parser → ℕ → Parser
unfolding consume
finish_frame borrow p frame_end =
    if borrow then record p { pending_consume = frame_end } else consume p frame_end

unfoldable pub valid_close_code : ℕ → Bool
valid_close_code code =
    if leb 1000 code && leb code 1014
    then not (code == 1004 || code == 1005 || code == 1006)
    else leb 3000 code && leb code 4999

abbrev pub ended : Parser → Parser
ended p = record p { text = fresh; fragment = none }

module _ (valid : List ℕ → Bool) (flate : List ℕ → List ℕ → List ℕ × Bool) where
  unfoldable pub decompress_message : List ℕ → List ℕ → ℕ → Got (List ℕ)
  decompress_message compressed dict limit =
      let (bytes, ended) = flate (compressed ++ deflate_tail) dict in
      if ltb limit (length bytes)
      then wrong message_too_big
      else if ended
      then got bytes
      else wrong invalid_payload

  -- The message, and the parser with its window moved on.
  unfoldable pub inflate : Parser → List ℕ → Got (Parser × List ℕ)
  unfolding decompress_message keep_window
  inflate p compressed =
      after
        (decompress_message compressed (if p.context_takeover then p.window else [])
          p.max_message_bytes)
        λ message. got (
          if p.context_takeover then record p { window = keep_window p.window message } else p,
          message,
        )

  -- 512 bytes at a time, on fuel that is their number.
  unfoldable pub write_chunks : ℕ → Validator → List ℕ → Option Validator
  write_chunks zero v p = some v
  write_chunks (suc fuel) v [] = some v
  write_chunks (suc fuel) v (b ∷ bs) = elim (write valid v (take 512 (b ∷ bs))) [
    | none ↦ none
    | some w ↦ write_chunks fuel w (drop 512 (b ∷ bs))
  ]

  -- `available` is what there is of the payload, still masked.
  unfoldable pub check_partial_text : Parser → Head → List ℕ → Option Parser
  unfolding write_chunks
  check_partial_text p h available =
      let fresh_bytes = drop p.text_checked (unmask h available) in
      if leb (length available) p.text_checked
      then some p
      else elim (if h.masked
          then write_chunks (length fresh_bytes) p.text fresh_bytes
          else write valid p.text fresh_bytes) [
            | none ↦ none
            | some v ↦ some (record p { text = v; text_checked = length available })
          ]

  unfoldable pub check_close : List ℕ → Option Error
  unfolding valid_close_code
  check_close payload =
      if length payload == 1
        || (leb 2 (length payload) && not (valid_close_code (big_endian (take 2 payload) 0)))
      then some protocol
      else if ltb 2 (length payload) && not (valid (drop 2 payload))
      then some invalid_payload
      else none

  unfoldable pub finish_control : Bool → Parser → Head → List ℕ → Parser × Outcome
  unfolding check_close finish_frame
  finish_control borrow p h payload = elim (if h.opcode == 8 then check_close payload else none) [
    | some e ↦ (p, failed e)
    | none ↦ (
      finish_frame borrow p (h.offset + h.payload_len),
      progress (some (record { opcode = h.opcode; payload = payload })),
    )
  ]

  -- A whole message that was compressed.
  unfoldable pub emit_inflated :
      ℕ → Got (Parser × List ℕ) → (Parser → Parser) → Parser → Parser × Outcome
  emit_inflated opcode short finish p = (p, incomplete)
  emit_inflated opcode (wrong e) finish p = (p, failed e)
  emit_inflated opcode (got (q, message)) finish p =
      if opcode == 1 && not (valid message)
      then (p, failed invalid_payload)
      else (finish q, progress (some (record { opcode = opcode; payload = message })))

  -- A text that is whole now; the first `checked` bytes of its payload have been written.
  unfoldable pub whole_text : Parser → ℕ → List ℕ → Bool
  whole_text p checked payload =
      if checked == 0
      then valid payload
      else elim (write valid p.text (drop checked payload)) [ none ↦ false | some v ↦ complete v ]

  -- The validator after the rest of a frame's payload, if the frame is text.
  unfoldable pub more_text : Bool → Parser → ℕ → List ℕ → Option Validator
  more_text text p checked payload =
      if text then write valid p.text (drop checked payload) else some p.text

  unfoldable pub finish_data : Bool → Parser → Head → ℕ → List ℕ → Parser × Outcome
  unfolding inflate emit_inflated whole_text more_text finish_frame
  finish_data borrow p h checked payload =
      let frame_end = h.offset + h.payload_len in
      if h.fin && h.compressed
      then emit_inflated h.opcode (inflate p payload) (λ q. finish_frame borrow q frame_end) p
      else if h.fin
      then (if is_text p h && not (whole_text p checked payload)
          then (p, failed invalid_payload)
          else (
            finish_frame borrow (if is_text p h then record p { text = fresh } else p) frame_end,
            progress (some (record { opcode = h.opcode; payload = payload })),
          ))
      else elim (more_text (is_text p h) p checked payload) [
        | none ↦ (p, failed invalid_payload)
        | some v ↦ (
          consume
              (record p {
                text = v;
                fragment =
                    some (record {
                      opcode = h.opcode;
                      compressed = h.compressed;
                      data_bytes = payload;
                    });
              })
              frame_end,
          progress none,
        )
      ]

  unfoldable pub finish_continuation : Parser → Head → Fragment → ℕ → List ℕ → Parser × Outcome
  unfolding inflate emit_inflated more_text consume
  finish_continuation p h f checked payload =
      let whole = f.data_bytes ++ payload in
      elim (more_text (is_text p h) p checked payload) [
        | none ↦ (p, failed invalid_payload)
        | some v ↦
            let q =
              consume (record p { text = v; fragment = some (record f { data_bytes = whole }) })
                (h.offset + h.payload_len) in
            if is_text p h && h.fin && not (complete v)
            then (p, failed invalid_payload)
            else if not h.fin
            then (q, progress none)
            else if f.compressed
            then emit_inflated f.opcode (inflate q whole) ended q
            else (ended q, progress (some (record { opcode = f.opcode; payload = whole })))
      ]

  unfoldable pub finish : Bool → Parser → Head → ℕ → List ℕ → Parser × Outcome
  unfolding finish_control finish_data finish_continuation
  finish borrow p h checked payload =
      if is_control h.opcode
      then finish_control borrow p h payload
      else if is_data h.opcode
      then finish_data borrow p h checked payload
      else elim p.fragment [
        | none ↦ (p, failed protocol)
        | some f ↦ finish_continuation p h f checked payload
      ]

  unfoldable pub partial : Parser → Head → List ℕ → Parser × Outcome
  unfolding check_partial_text
  partial p h available =
      if is_text p h
      then elim (check_partial_text p h available) [
        | none ↦ (p, failed invalid_payload)
        | some q ↦ (q, incomplete)
      ]
      else (p, incomplete)

  unfoldable pub with_head : Bool → Parser → Head → Parser × Outcome
  unfolding partial finish
  with_head borrow p h =
      let available = drop h.offset p.buffer in
      if ltb (length available) h.payload_len
      then partial p h available
      else finish borrow (record p { text_checked = 0 }) h p.text_checked
          (unmask h (take h.payload_len available))

  unfoldable pub next_of : Bool → Parser → Got Head → Parser × Outcome
  unfolding with_head
  next_of borrow p short = (p, incomplete)
  next_of borrow p (wrong e) = (p, failed e)
  next_of borrow p (got h) = with_head borrow p h

  unfoldable pub next : Bool → Parser → Parser × Outcome
  unfolding next_of
  next borrow p = next_of borrow p (read_head p p.buffer)
