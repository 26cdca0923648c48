-- ===== src/Websocket/Frame/Again.antt =====
-- What next of go/websocket/frame.go makes of a parser whose validator differs in what does not matter.
use event_work_balance.Base.{
  ℕ, ◌≤◌, ◌≡◌, ◌↔◌, ◌⊎◌, inl, inr, refl, sym, ◌∙◌, List, [], ◌++◌, Bool, true, false, ltb, Option,
  none, some, arith, length, take, drop, Bool-cases, length-drop, length-append,
}
use event_work_balance.Websocket.Utf8.{Validator, complete}
use event_work_balance.Websocket.Utf8.WellFormed.{IsUtf8}
use event_work_balance.Websocket.Utf8.Bulk.{normal}
use event_work_balance.Websocket.Frame.{
  Parser, Head, got, Fragment, is_data, is_text, unmask, read_head, check_bits, check_order,
  check_size, read_sized,
}
use event_work_balance.Websocket.Frame.Heads.{read_head-Grows, read_head-IsTimely}
use event_work_balance.Websocket.Frame.Next.{partial, with_head, next, next_of}
use event_work_balance.Websocket.Frame.Reads.{reads, reads-normal}
use event_work_balance.Websocket.Frame.Stable.{
  plain, view, text_partial, text_finish, start_text, continue_text, normal_again,
}
use event_work_balance.Websocket.Frame.Texts.{text_not_control}
use event_work_balance.Websocket.Frame.Plain.{Got-cases, finish-plain}
use event_work_balance.Websocket.Frame.Mores.{more}
use event_work_balance.Websocket.Frame.Splits.{text_of, with_head-text}

-- A parser that has only the bytes of its own buffer.
abbrev pub IsOwn : Parser → Type 0
IsOwn p = (p.borrowed_buffer ≡ false) × (p.borrowed_tail ≡ []) × (p.pending_consume ≡ 0)

-- A parser whose buffer is its own, and whose validator is in the middle of a sequence only in the
-- middle of a message or of a text frame at the front of the buffer.
pub record IsReady (p : Parser) : Type 0 where
  pub owns : IsOwn p
  pub at_rest : p.fragment ≡ none → p.text_checked ≡ 0 → p.text.need ≡ 0
  pub in_text :
      (p.text_checked ≡ 0)
      ⊎ ((h : Head) × (read_head p p.buffer ≡ got h)
          × (is_text p h ≡ true)
          × (p.text_checked ≤ length (drop h.offset p.buffer)))

-- A head is read from what the parser has of options and of a message.
pub read_head_same :
    (p : Parser) (v : Validator) (k : ℕ) (b bytes : List ℕ)
    → read_head (record p { text = v; text_checked = k; buffer = b }) bytes ≡ read_head p bytes
unfolding read_head read_sized check_bits check_order check_size
read_head_same p v k b bytes = refl

text_partial_same :
    (p : Parser) (v : Validator) (k n : ℕ) (o : Option Validator)
    → view (text_partial (record p { text = v; text_checked = k }) n o) ≡ view (text_partial p n o)
text_partial_same p v k n none = refl
text_partial_same p v k n (some w) = refl

start_text_same :
    (p : Parser) (v w : Validator) (h : Head) (payload : List ℕ)
    → view (start_text (record p { text = v }) h payload (some w))
      ≡ view (start_text p h payload (some w))
start_text_same p v w h payload = elim (Bool-cases h.fin) [
  | inl fin ↦ elim (Bool-cases (complete w)) [ inl c ↦ rw (fin, c) refl | inr c ↦ rw (fin, c) refl ]
  | inr fin ↦ rw fin refl
]

continue_text_same :
    (p : Parser) (v w : Validator) (h : Head) (payload : List ℕ) (f : Option Fragment)
    → view (continue_text (record p { text = v }) h payload f (some w))
      ≡ view (continue_text p h payload f (some w))
continue_text_same p v w h payload none = refl
continue_text_same p v w h payload (some f) = elim (Bool-cases h.fin) [
  | inl fin ↦ elim (Bool-cases (complete w)) [ inl c ↦ rw (fin, c) refl | inr c ↦ rw (fin, c) refl ]
  | inr fin ↦ rw fin refl
]

text_finish_same :
    (p : Parser) (v : Validator) (h : Head) (payload : List ℕ) (o : Option Validator)
    → view (text_finish (record p { text = v }) h payload o) ≡ view (text_finish p h payload o)
text_finish_same p v h payload none = elim (Bool-cases (is_data h.opcode)) [
  | inl d ↦ rw d refl
  | inr d ↦ rw d refl
]
text_finish_same p v h payload (some w) = elim (Bool-cases (is_data h.opcode)) [
  | inl d ↦ rw d (start_text_same p v w h payload)
  | inr d ↦ rw d (continue_text_same p v w h payload p.fragment)
]

-- What is made of a text frame depends on what its bytes read to, from the start of what is new.
pub text_of_same :
    (p : Parser) (v : Validator) (k : ℕ) (h : Head) (a : List ℕ)
    → reads v (drop k (unmask h a)) ≡ reads p.text (drop p.text_checked (unmask h a))
    → reads v (drop k (unmask h (take h.payload_len a)))
      ≡ reads p.text (drop p.text_checked (unmask h (take h.payload_len a)))
    → text_of (record p { text = v; text_checked = k }) h a ≡ text_of p h a
text_of_same p v k h a part whole = elim (Bool-cases (ltb (length a) h.payload_len)) [
  | inl few ↦ rw (few, part) (text_partial_same p v k (length a) _)
  | inr all ↦
      rw (all, whole)
        (text_finish_same (record p { text_checked = 0 }) v h (unmask h (take h.payload_len a)) _)
]

pub got_same {ℓ} : {A : Type ℓ} (a b : A) → got a ≡ got b → a ≡ b
got_same a b e = cc

pub head_more :
    (p : Parser) (h : Head) (ys : List ℕ)
    → read_head p p.buffer ≡ got h
    → read_head (more p ys) (more p ys).buffer ≡ got h
head_more p h ys e =
    read_head_same p p.text p.text_checked (p.buffer ++ ys) (p.buffer ++ ys)
    ∙ elim (read_head-Grows p p.buffer ys) [ inl s ↦ absurd (cc (sym s ∙ e)) | inr s ↦ s ∙ e ]

-- What next does with a text frame at the front of the buffer.
pub checked_there :
    (p : Parser) (h : Head)
    → IsReady p
    → read_head p p.buffer ≡ got h
    → p.text_checked ≤ length (drop h.offset p.buffer)
checked_there p h r e = elim r.in_text [
  | inl none_checked ↦ omega (arith, none_checked)
  | inr (h', e', t, le) ↦ let same : h' ≡ h = got_same h' h (sym e' ∙ e) in rw same at le
]

pub IsReady-plain : (p : Parser) → IsReady p → IsReady (plain p)
unfolding is_text
IsReady-plain p r = record {
  owns = r.owns;
  at_rest = λ f k. let z = r.at_rest f k in ground (arith, z);
  in_text = elim r.in_text [
    | inl none_checked ↦ inl none_checked
    | inr (h, e, t, le) ↦
        inr (h, read_head_same p (normal p.text) p.text_checked p.buffer p.buffer ∙ e, t, le)
  ];
}

-- More bytes behind those that are there.
pub IsReady-more : (p : Parser) (ys : List ℕ) → IsReady p → IsReady (more p ys)
unfolding is_text
IsReady-more p ys r = record {
  owns = r.owns;
  at_rest = r.at_rest;
  in_text = elim r.in_text [
    | inl none_checked ↦ inl none_checked
    | inr (h, e, t, le) ↦ inr (
      h,
      head_more p h ys e,
      t,
      omega (
        arith,
        le,
        length-drop h.offset p.buffer,
        length-drop h.offset (p.buffer ++ ys),
        length-append p.buffer ys,
      ),
    )
  ];
}

module _ (valid : List ℕ → Bool) (flate : List ℕ → List ℕ → List ℕ × Bool)
    (documented : (p : List ℕ) → (valid p ≡ true) ↔ IsUtf8 p) where
  pub with_head-Ready :
      (p : Parser) (h : Head)
      → IsReady p
      → read_head p p.buffer ≡ got h
      → is_text p h ≡ true
      → view (with_head valid flate false p h) ≡ text_of p h (drop h.offset p.buffer)
  with_head-Ready p h r e t =
      let timely = read_head-IsTimely p p.buffer h e in
      with_head-text valid flate documented p h t
        (λ d. r.at_rest (timely.starts (text_not_control p h t) d)) (checked_there p h r e)

  with_head-plain :
      (p : Parser) (h : Head)
      → IsReady p
      → read_head p p.buffer ≡ got h
      → view (with_head valid flate false (plain p) h) ≡ view (with_head valid flate false p h)
  unfolding with_head partial is_text
  with_head-plain p h r e = elim (Bool-cases (is_text p h)) [
    | inl t ↦
        with_head-Ready (plain p) h (IsReady-plain p r)
          (read_head_same p (normal p.text) p.text_checked p.buffer p.buffer ∙ e) t
        ∙ text_of_same p (normal p.text) p.text_checked h (drop h.offset p.buffer)
            (reads-normal p.text _) (reads-normal p.text _)
        ∙ sym (with_head-Ready p h r e t)
    | inr t ↦ elim (Bool-cases (ltb (length (drop h.offset p.buffer)) h.payload_len)) [
      | inl few ↦ rw (few, t, normal_again p.text) refl
      | inr all ↦ rw all (
          finish-plain valid flate (record p { text_checked = 0 }) h p.text_checked
            (unmask h (take h.payload_len (drop h.offset p.buffer))) t)
    ]
  ]

  pub next-plain :
      (p : Parser)
      → IsReady p
      → view (next valid flate false (plain p)) ≡ view (next valid flate false p)
  unfolding next next_of
  next-plain p r =
      let same = read_head_same p (normal p.text) p.text_checked p.buffer p.buffer in
      elim (Got-cases (read_head p p.buffer)) [
        | inl e ↦ rw (next, same, e, normal_again p.text) refl
        | inr (inl (x, e)) ↦ rw (next, same, e) refl
        | inr (inr (h, e)) ↦ rw (next, same, e) (with_head-plain p h r e)
      ]
