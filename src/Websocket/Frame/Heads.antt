-- ===== src/Websocket/Frame/Heads.antt =====
-- The head of a frame of go/websocket/frame.go, once it is read or refused, does not change with the
-- bytes that come after.
use event_work_balance.Base.{
  ℕ, ◌+◌, ◌%◌, ◌≤◌, ◌≡◌, ◌⊎◌, inl, inr, refl, ap, ◌∙◌, List, [], ◌∷◌, ◌++◌, true, false, not, ◌==◌,
  ltb, Option, none, some, arith, length, take, drop, Bool-cases, Option-cases, length-append,
  length-drop, drop-append_le, take-append_le,
}
use event_work_balance.Websocket.Frame.{
  Parser, Fragment, Got, short, wrong, got, after, Head, first_head, check_bits, check_order,
  check_size, read_length, read_mask, read_sized, read_head, is_control, is_data, is_some,
}

-- An answer that more bytes leave alone.
abbrev pub Grows {ℓ} : {A : Type ℓ} → Got A → Got A → Type ℓ
Grows r r' = (r ≡ short) ⊎ (r' ≡ r)

Grows-after {ℓ₁ ℓ₂} :
    {A : Type ℓ₁} {B : Type ℓ₂} (r r' : Got A) (k k' : A → Got B)
    → Grows r r'
    → ((a : A) → r ≡ got a → Grows (k a) (k' a))
    → Grows (after r k) (after r' k')
Grows-after short r' k k' g h = inl refl
Grows-after (wrong e) r' k k' (inl s) h = absurd cc
Grows-after (wrong e) r' k k' (inr s) h = inr (ap (λ r. after r k') s)
Grows-after (got a) r' k k' (inl s) h = absurd cc
Grows-after (got a) r' k k' (inr s) h = elim (h a refl) [
  | inl t ↦ inl t
  | inr t ↦ inr (ap (λ r. after r k') s ∙ t)
]

slice-append :
    (n m : ℕ) (xs ys : List ℕ) → n + m ≤ length xs → take m (drop n (xs ++ ys)) ≡ take m (drop n xs)
slice-append n m xs ys h =
    ap (take m) (drop-append_le n xs ys (omega (arith, h)))
    ∙ take-append_le m (drop n xs) ys (omega (arith, h, length-drop n xs))

read_mask-Grows : (h : Head) (xs ys : List ℕ) → Grows (read_mask h xs) (read_mask h (xs ++ ys))
unfolding read_mask
read_mask-Grows h xs ys = elim (Bool-cases (not h.masked)) [
  | inl plain ↦ rw plain (inr refl)
  | inr masked ↦ rw masked (elim (Bool-cases (ltb (length xs) (h.offset + 4))) [
    | inl few ↦ rw few (inl refl)
    | inr enough ↦
        let more : ltb (length (xs ++ ys)) (h.offset + 4) ≡ false =
          ground (arith, length-append xs ys) in
        rw (enough, more, slice-append h.offset 4 xs ys (ground arith)) (inr refl)
  ])
]

read_length-Grows :
    (len : ℕ) (xs ys : List ℕ) → Grows (read_length len xs) (read_length len (xs ++ ys))
unfolding read_length
read_length-Grows len xs ys = elim (Bool-cases (len == 126)) [
  | inl two ↦ rw two (elim (Bool-cases (ltb (length xs) 4)) [
    | inl few ↦ rw few (inl refl)
    | inr enough ↦
        let more : ltb (length (xs ++ ys)) 4 ≡ false = ground (arith, length-append xs ys) in
        rw (enough, more, slice-append 2 2 xs ys (ground arith)) (inr refl)
  ])
  | inr not_two ↦ rw not_two (elim (Bool-cases (len == 127)) [
    | inl eight ↦ rw eight (elim (Bool-cases (ltb (length xs) 10)) [
      | inl few ↦ rw few (inl refl)
      | inr enough ↦
          let more : ltb (length (xs ++ ys)) 10 ≡ false = ground (arith, length-append xs ys) in
          rw (enough, more, slice-append 2 8 xs ys (ground arith)) (inr refl)
    ])
    | inr small ↦ rw small (inr refl)
  ])
]

read_sized-Grows :
    (p : Parser) (h : Head) (xs ys : List ℕ) (a : ℕ × ℕ)
    → Grows (read_sized p h xs a) (read_sized p h (xs ++ ys) a)
unfolding read_sized
read_sized-Grows p h xs ys (len, offset) = elim (Option-cases (check_size p h len)) [
  | inl e ↦
      rw (read_sized, e) (read_mask-Grows (record h { payload_len = len; offset = offset }) xs ys)
  | inr (x, e) ↦ rw (read_sized, e) (inr refl)
]

-- Whatever bytes follow, the head of a frame that was read is read the same, and one that was refused is
-- refused with the same error; only a head that was too short to tell may change.
pub read_head-Grows :
    (p : Parser) (xs ys : List ℕ) → Grows (read_head p xs) (read_head p (xs ++ ys))
unfolding read_head
read_head-Grows p [] ys = inl refl
read_head-Grows p (first ∷ []) ys = inl refl
read_head-Grows p (first ∷ second ∷ rest) ys =
    let h = first_head first second in
    let xs = first ∷ second ∷ rest in
    elim (Bool-cases (check_bits p h first second)) [
      | inl bad ↦ rw bad (inr refl)
      | inr fine ↦ rw fine (elim (Bool-cases (check_order p h second)) [
        | inl out_of_order ↦ rw out_of_order (inr refl)
        | inr in_order ↦ rw in_order (
            Grows-after (read_length (second % 128) xs) (read_length (second % 128) (xs ++ ys)) _ _
              (read_length-Grows (second % 128) xs ys) (λ a _. read_sized-Grows p h xs ys a))
      ])
    ]

-- What a head that was read says of the parser.
pub record IsTimely (p : Parser) (buffer : List ℕ) (h : Head) : Type 0 where
  pub starts : is_control h.opcode ≡ false → is_data h.opcode ≡ true → p.fragment ≡ none
  pub goes_on :
      is_control h.opcode ≡ false
      → is_data h.opcode ≡ false
      → (f : Fragment) × (p.fragment ≡ some f)
  pub in_range : h.offset ≤ length buffer
  pub some_bytes : 2 ≤ h.offset

fragment_there : (o : Option Fragment) → is_some o ≡ true → (f : Fragment) × (o ≡ some f)
fragment_there none e = absurd cc
fragment_there (some f) e = (f, refl)

fragment_gone : (o : Option Fragment) → is_some o ≡ false → o ≡ none
fragment_gone none e = refl
fragment_gone (some f) e = absurd cc

pub after_got {ℓ₁ ℓ₂} :
    {A : Type ℓ₁} {B : Type ℓ₂} (r : Got A) (k : A → Got B) (b : B)
    → after r k ≡ got b
    → (a : A) × (r ≡ got a) × (k a ≡ got b)
after_got short k b h = absurd cc
after_got (wrong e) k b h = absurd cc
after_got (got a) k b h = (a, refl, h)

-- What the parts of a head leave of its first bits, and where it ends.
record Extends (h h' : Head) (n : ℕ) : Type 0 where
  same_opcode : h'.opcode ≡ h.opcode
  same_fin : h'.fin ≡ h.fin
  within : h'.offset ≤ n
  beyond : h.offset ≤ h'.offset

read_mask-Extends :
    (h h' : Head) (b : List ℕ)
    → h.offset ≤ length b
    → read_mask h b ≡ got h'
    → Extends h h' (length b)
unfolding read_mask
read_mask-Extends h h' b n e = ground arith

pub read_length_within :
    (len : ℕ) (b : List ℕ) (n offset : ℕ)
    → 2 ≤ length b
    → read_length len b ≡ got (n, offset)
    → (2 ≤ offset) × (offset ≤ length b)
unfolding read_length
read_length_within len b n offset h e = ground arith

check_order_data :
    (p : Parser) (h : Head) (second : ℕ)
    → check_order p h second ≡ false
    → is_control h.opcode ≡ false
    → is_data h.opcode ≡ true
    → is_some p.fragment ≡ false
unfolding check_order
check_order_data p h second e c d = ground arith

check_order_continuation :
    (p : Parser) (h : Head) (second : ℕ)
    → check_order p h second ≡ false
    → is_control h.opcode ≡ false
    → is_data h.opcode ≡ false
    → is_some p.fragment ≡ true
unfolding check_order
check_order_continuation p h second e c d = ground arith

pub read_sized_got :
    (p : Parser) (h h' : Head) (b : List ℕ) (len offset : ℕ)
    → read_sized p h b (len, offset) ≡ got h'
    → read_mask (record h { payload_len = len; offset = offset }) b ≡ got h'
unfolding read_sized
read_sized_got p h h' b len offset e = elim (Option-cases (check_size p h len)) [
  | inl fine ↦ rw (read_sized, fine) at e
  | inr (x, bad) ↦ absurd (cc (rw (read_sized, bad) at e))
]

pub read_head-IsTimely :
    (p : Parser) (b : List ℕ) (h : Head) → read_head p b ≡ got h → IsTimely p b h
unfolding read_head
read_head-IsTimely p [] h e = absurd cc
read_head-IsTimely p (first ∷ []) h e = absurd cc
read_head-IsTimely p (first ∷ second ∷ rest) h e =
    let h0 = first_head first second in
    let b = first ∷ second ∷ rest in
    elim (Bool-cases (check_bits p h0 first second)) [
      | inl bad ↦ absurd (cc (rw bad at e))
      | inr fine ↦ elim (Bool-cases (check_order p h0 second)) [
        | inl bad ↦ absurd (cc (rw (fine, bad) at e))
        | inr in_order ↦
            let ((len, offset), l, s) =
              after_got (read_length (second % 128) b) _ h (rw (fine, in_order) at e) in
            let (low, high) = read_length_within (second % 128) b len offset (omega arith) l in
            let x =
              read_mask-Extends (record h0 { payload_len = len; offset = offset }) h b high
                (read_sized_got p h0 h b len offset s) in
            record {
              starts = λ c d. fragment_gone p.fragment (
                  check_order_data p h0 second in_order (rw x.same_opcode at c)
                    (rw x.same_opcode at d));
              goes_on = λ c d. fragment_there p.fragment (
                  check_order_continuation p h0 second in_order (rw x.same_opcode at c)
                    (rw x.same_opcode at d));
              in_range = x.within;
              some_bytes = omega (arith, low, x.beyond);
            }
      ]
    ]
