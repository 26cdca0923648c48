-- ===== src/Websocket/Frame/Sizes.antt =====
-- frameSize of go/websocket/frame.go, by which lent bytes are cut, and next's own reading of a head.
use event_work_balance.Base.{
  ℕ, ◌+◌, ◌-◌, ◌%◌, ◌≤◌, ◌<◌, ◌^◌, ◌≡◌, inl, inr, refl, sym, ap, ◌∙◌, List, [], ◌∷◌, false, ◌==◌,
  ltb, some, arith, if◌then◌else◌, length, Bool-cases,
}
use event_work_balance.Websocket.Frame.{
  Parser, Head, got, bit, check_bits, check_order, first_head, read_length, read_mask, read_head,
}
use event_work_balance.Websocket.Frame.Heads.{after_got, read_length_within, read_sized_got}
use event_work_balance.Websocket.Frame.Feed.{
  frame_header_size, frame_size, length_of, size_of_length,
}

not_less : (a b : ℕ) → b ≤ a → ltb a b ≡ false
not_less a b le = ground (arith, le)

read_length_of :
    (len n offset : ℕ) (b : List ℕ)
    → read_length len b ≡ got (n, offset)
    → (n ≡ length_of len b) × (offset ≡ 2 + size_of_length len)
unfolding read_length
read_length_of len n offset b e = elim (Bool-cases (len == 126)) [
  | inl two ↦ let e' = rw two at e in rw two (ground (arith, e'))
  | inr not_two ↦ elim (Bool-cases (len == 127)) [
    | inl eight ↦ let e' = rw (not_two, eight) at e in rw (not_two, eight) (ground (arith, e'))
    | inr small ↦ let e' = rw (not_two, small) at e in rw (not_two, small) (ground (arith, e'))
  ]
]

read_mask_of :
    (h h' : Head) (b : List ℕ)
    → read_mask h b ≡ got h'
    → h.offset ≤ length b
    → (h'.payload_len ≡ h.payload_len)
      × (h'.offset ≡ h.offset + (if h.masked then 4 else 0))
      × (h'.offset ≤ length b)
unfolding read_mask
read_mask_of h h' b e le = ground (arith, e, le)

frame_header_size_of :
    (first second : ℕ) (rest : List ℕ)
    → frame_header_size (first ∷ second ∷ rest)
      ≡ 2 + size_of_length (second % 128) + (if bit 7 second then 4 else 0)
unfolding frame_header_size
frame_header_size_of first second rest = omega arith

-- Whenever next reads the head of the frame at the front of the buffer, frameSize knows where that frame
-- ends, and says the same place as next, if that place fits an int.
pub read_head-frame_size :
    (p : Parser) (b : List ℕ) (h : Head)
    → read_head p b ≡ got h
    → h.offset + h.payload_len < 2 ^ 63
    → frame_size b ≡ some (h.offset + h.payload_len)
unfolding read_head frame_size
read_head-frame_size p [] h e lt = absurd cc
read_head-frame_size p (first ∷ []) h e lt = absurd cc
read_head-frame_size p (first ∷ second ∷ rest) h e lt =
    let h0 = first_head first second in
    let b = first ∷ second ∷ rest in
    elim (Bool-cases (check_bits p h0 first second)) [
      | inl bad ↦ absurd (cc (rw bad at e))
      | inr fine ↦ elim (Bool-cases (check_order p h0 second)) [
        | inl bad ↦ absurd (cc (rw (fine, bad) at e))
        | inr in_order ↦
            let ((len, offset), l, s) =
              after_got (read_length (second % 128) b) _ h (rw (fine, in_order) at e) in
            let (size, start) = read_length_of (second % 128) len offset b l in
            let (low, high) = read_length_within (second % 128) b len offset (omega arith) l in
            let (same, end, within) =
              read_mask_of (record h0 { payload_len = len; offset = offset }) h b
                (read_sized_got p h0 h b len offset s) high in
            let header : frame_header_size b ≡ h.offset =
              frame_header_size_of first second rest
              ∙ sym (end ∙ ap (λ n. n + (if bit 7 second then 4 else 0)) start) in
            let length_read : length_of (second % 128) b ≡ h.payload_len = sym (same ∙ size) in
            let there : ltb (length b) h.offset ≡ false = not_less (length b) h.offset within in
            let fits : ltb (2 ^ 63 - 1 - h.offset) h.payload_len ≡ false =
              not_less (2 ^ 63 - 1 - h.offset) h.payload_len (omega (arith, lt)) in
            rw (header, length_read, there, fits) refl
      ]
    ]
