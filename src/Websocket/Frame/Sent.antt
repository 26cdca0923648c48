-- ===== src/Websocket/Frame/Sent.antt =====
-- A frame of MarshalFrame of go/websocket/frame.go, at the front of what a client has read.
use event_work_balance.Base.{
  ℕ, ◌+◌, ◌≤◌, ◌<◌, ◌^◌, ◌≡◌, inl, inr, refl, sym, ap, ◌∙◌, List, ◌∷◌, ◌++◌, Bool, true, false,
  ◌&&◌, ◌==◌, ltb, leb, none, some, arith, if◌then◌else◌, length, take, drop, Bool-cases,
  length-append, append_assoc, drop-append_add, take-append_le, take-all,
}
use event_work_balance.Websocket.Utf8.{fresh}
use event_work_balance.Websocket.Frame.{
  Parser, Head, got, is_control, is_data, is_text, read_head, unmask,
}
use event_work_balance.Websocket.Frame.Next.{
  progress, consume, finish_frame, check_close, finish_control, finish_data, whole_text, finish,
  with_head, next, next_of,
}
use event_work_balance.Websocket.Frame.Marshal.{
  is_sent, length_bytes, marshal_frame, plain_head, read_head-written,
}

marshal_frame-some :
    (opcode : ℕ) (payload bytes : List ℕ)
    → marshal_frame opcode payload ≡ some bytes
    → (is_sent opcode ≡ true)
      × ((leb 8 opcode && ltb 125 (length payload)) ≡ false)
      × (bytes ≡ ((128 + opcode) ∷ length_bytes (length payload)) ++ payload)
unfolding marshal_frame
marshal_frame-some opcode payload bytes e = ground (arith, e)

-- The parser behind a frame that was sent: it awaits a new text if the frame was text.
abbrev read_back : Parser → ℕ → Parser
read_back p opcode = if opcode == 1 then record p { text = fresh } else p

abbrev pub left_with : Parser → ℕ → List ℕ → Parser
left_with p opcode rest = record (read_back p opcode) { buffer = rest }

module _ (valid : List ℕ → Bool) (flate : List ℕ → List ℕ → List ℕ × Bool) where
  -- What next makes of such a frame.
  finish-written :
      (p : Parser) (opcode offset : ℕ) (payload : List ℕ)
      → is_sent opcode ≡ true
      → p.fragment ≡ none
      → (opcode ≡ 1 → valid payload ≡ true)
      → (opcode ≡ 8 → check_close valid flate payload ≡ none)
      → finish valid flate false p (plain_head opcode (length payload) offset) 0 payload ≡ (
        consume (read_back p opcode) (offset + length payload),
        progress (some (record { opcode = opcode; payload = payload })),
      )
  unfolding finish finish_control finish_data finish_frame whole_text is_text
  finish-written p opcode offset payload s f text close = elim (Bool-cases (is_control opcode)) [
    | inl c ↦
        let not_text : (opcode == 1) ≡ false = ground (arith, c) in
        let well_formed : (if opcode == 8 then check_close valid flate payload else none) ≡ none =
          elim (Bool-cases (opcode == 8)) [
            | inl is_close ↦ rw is_close (close (ground (arith, is_close)))
            | inr other ↦ rw other refl
          ] in
        rw (c, finish_control, well_formed, not_text) refl
    | inr c ↦
        let d : is_data opcode ≡ true = ground (arith, s, c) in
        elim (Bool-cases (opcode == 1)) [
          | inl t ↦ let utf8 = text (ground (arith, t)) in rw (c, d, t, utf8) refl
          | inr t ↦ rw (c, d, t, f) refl
        ]
  ]

  with_head-finish :
      (p : Parser) (h : Head)
      → ltb (length (drop h.offset p.buffer)) h.payload_len ≡ false
      → with_head valid flate false p h
        ≡ finish valid flate false
            (record p { text_checked = 0 })
            h
            p.text_checked
            (unmask h (take h.payload_len (drop h.offset p.buffer)))
  unfolding with_head
  with_head-finish p h all = rw all refl

  with_head-written :
      (p : Parser) (opcode offset : ℕ) (payload rest : List ℕ)
      → p.text_checked ≡ 0
      → drop offset p.buffer ≡ payload ++ rest
      → with_head valid flate false p (plain_head opcode (length payload) offset)
        ≡ finish valid flate false p (plain_head opcode (length payload) offset) 0 payload
  with_head-written p opcode offset payload rest z d =
      let h = plain_head opcode (length payload) offset in
      let size = length-append payload rest in
      let all : ltb (length (drop offset p.buffer)) (length payload) ≡ false =
        rw d (ground (arith, size)) in
      let front : take (length payload) (drop offset p.buffer) ≡ payload =
        ap (take (length payload)) d
        ∙ take-append_le (length payload) payload rest (omega arith)
        ∙ take-all (length payload) payload (omega arith) in
      with_head-finish p h all
      ∙ ap (finish valid flate false (record p { text_checked = 0 }) h p.text_checked) front
      ∙ ap (λ k. finish valid flate false (record p { text_checked = 0 }) h k payload) z
      ∙ ap (λ k. finish valid flate false (record p { text_checked = k }) h 0 payload) (sym z)

  next_written :
      (p : Parser) (h : Head)
      → read_head p p.buffer ≡ got h
      → next valid flate false p ≡ with_head valid flate false p h
  unfolding next next_of
  next_written p h e = rw (next, e) refl

  consume-written :
      (p : Parser) (opcode offset : ℕ) (front payload rest : List ℕ)
      → p.borrowed_buffer ≡ false
      → offset ≡ length front
      → p.buffer ≡ (front ++ payload) ++ rest
      → consume (read_back p opcode) (offset + length payload) ≡ left_with p opcode rest
  unfolding consume
  consume-written p opcode offset front payload rest own o b =
      let size : length (front ++ payload) ≡ offset + length payload =
        length-append front payload ∙ omega (arith, o) in
      let whole : offset + length payload ≡ length (front ++ payload) + 0 = omega (arith, size) in
      let behind : drop (offset + length payload) p.buffer ≡ rest =
        ap (drop (offset + length payload)) b
        ∙ ap (λ m. drop m ((front ++ payload) ++ rest)) whole
        ∙ drop-append_add (front ++ payload) 0 rest in
      elim (Bool-cases (opcode == 1)) [
        | inl t ↦ rw (t, behind, own) refl
        | inr t ↦ rw (t, behind, own) refl
      ]

  -- A parser of server frames, with what MarshalFrame wrote at the front of its own buffer and any bytes
  -- behind it, gives the opcode and the payload back, leaves the bytes behind, and awaits a new text if the
  -- frame was text. No message is in progress, none of the frame was checked, the payload is within the
  -- parser's limit and fits an int, a text payload is valid UTF-8, and a close payload is well formed.
  pub marshal_frame-next :
      (p : Parser) (opcode : ℕ) (payload bytes rest : List ℕ)
      → p.from_server ≡ true
      → p.fragment ≡ none
      → p.text_checked ≡ 0
      → p.borrowed_buffer ≡ false
      → length payload ≤ p.max_message_bytes
      → length payload < 2 ^ 63
      → (opcode ≡ 1 → valid payload ≡ true)
      → (opcode ≡ 8 → check_close valid flate payload ≡ none)
      → marshal_frame opcode payload ≡ some bytes
      → p.buffer ≡ bytes ++ rest
      → next valid flate false p
        ≡ (left_with p opcode rest, progress (some (record { opcode = opcode; payload = payload })))
  marshal_frame-next p opcode payload bytes rest server f z own le lt text close m b =
      let (s, c, whole) = marshal_frame-some opcode payload bytes m in
      let n = length payload in
      let front = (128 + opcode) ∷ length_bytes n in
      let offset = length front in
      let at : p.buffer ≡ (front ++ payload) ++ rest = b ∙ ap (λ x. x ++ rest) whole in
      let at' : p.buffer ≡ front ++ (payload ++ rest) = at ∙ append_assoc front payload rest in
      let h = plain_head opcode n offset in
      let one : 1 + length (length_bytes n) ≡ offset = omega arith in
      let plus : offset ≡ offset + 0 = omega arith in
      let head : read_head p p.buffer ≡ got h =
        ap (read_head p) at'
        ∙ read_head-written p opcode n (payload ++ rest) s server f le lt c
        ∙ ap (λ o. got (plain_head opcode n o)) one in
      let behind : drop offset p.buffer ≡ payload ++ rest =
        ap (drop offset) at'
        ∙ ap (λ k. drop k (front ++ (payload ++ rest))) plus
        ∙ drop-append_add front 0 (payload ++ rest) in
      next_written p h head
      ∙ with_head-written p opcode offset payload rest z behind
      ∙ finish-written p opcode offset payload s f text close
      ∙ ap (λ q. (q, progress (some (record { opcode = opcode; payload = payload }))))
          (consume-written p opcode offset front payload rest own refl at)
