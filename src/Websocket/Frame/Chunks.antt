-- ===== src/Websocket/Frame/Chunks.antt =====
-- go/websocket/frame.go: what next makes of a text frame, part of which it has checked before.
use event_work_balance.Base.{
  subst, ℕ, ◌+◌, ◌-◌, ◌≤◌, ◌<◌, ◌≡◌, ◌↔◌, inl, inr, refl, sym, ap, ◌∙◌, List, ◌++◌, Bool, true,
  false, ltb, none, some, arith, length, take, drop, Bool-cases, drop-append_le, take-append_add,
}
use event_work_balance.Websocket.Utf8.{Validator}
use event_work_balance.Websocket.Utf8.WellFormed.{IsUtf8}
use event_work_balance.Websocket.Utf8.Bulk.{normal}
use event_work_balance.Websocket.Frame.{
  Parser, Head, Error, got, invalid_payload, is_data, is_text, unmask, read_head,
}
use event_work_balance.Websocket.Frame.Heads.{read_head-IsTimely}
use event_work_balance.Websocket.Frame.Next.{
  Outcome, incomplete, failed, progress, with_head, next, next_of,
}
use event_work_balance.Websocket.Frame.Reads.{reads, then_reads}
use event_work_balance.Websocket.Frame.Stable.{plain, view}
use event_work_balance.Websocket.Frame.Mores.{more}
use event_work_balance.Websocket.Frame.Splits.{text_of, reads-ahead}
use event_work_balance.Websocket.Frame.Again.{
  IsReady, IsReady-plain, IsReady-more, read_head_same, head_more, text_of_same, with_head-Ready,
  next-plain,
}

IsReady_back : (p : Parser) → IsReady (plain p) → IsReady p
unfolding is_text
IsReady_back p r = record {
  owns = r.owns;
  at_rest = λ f k. let z = r.at_rest f k in ground (arith, z);
  in_text = elim r.in_text [
    | inl none_checked ↦ inl none_checked
    | inr (h, e, t, le) ↦
        inr (h, sym (read_head_same p (normal p.text) p.text_checked p.buffer p.buffer) ∙ e, t, le)
  ];
}

IsReady_same : (p q : Parser) → plain q ≡ plain p → IsReady p → IsReady q
IsReady_same p q e r = IsReady_back q (subst IsReady (sym e) (IsReady-plain p r))

pub view-failed :
    (r : Parser × Outcome) (x : Error)
    → view r ≡ (none, failed x)
    → (q : Parser) × (r ≡ (q, failed x))
view-failed (q, incomplete) x e = absurd cc
view-failed (q, failed y) x e =
    let same : failed y ≡ failed x = ap (λ r. r.1) e in (q, ap (λ o. (q, o)) same)
view-failed (q, progress event) x e = absurd cc

pub text_of-none :
    (p : Parser) (h : Head) (a : List ℕ)
    → reads p.text (drop p.text_checked (unmask h a)) ≡ none
    → reads p.text (drop p.text_checked (unmask h (take h.payload_len a))) ≡ none
    → text_of p h a ≡ (none, failed invalid_payload)
text_of-none p h a part whole = elim (Bool-cases (ltb (length a) h.payload_len)) [
  | inl few ↦ rw (few, part) refl
  | inr all ↦ elim (Bool-cases (is_data h.opcode)) [
    | inl d ↦ rw (all, whole, d) refl
    | inr d ↦ rw (all, whole, d) refl
  ]
]

module _ (valid : List ℕ → Bool) (flate : List ℕ → List ℕ → List ℕ × Bool)
    (documented : (p : List ℕ) → (valid p ≡ true) ↔ IsUtf8 p) where
  pub next_at :
      (p : Parser) (h : Head)
      → read_head p p.buffer ≡ got h
      → next valid flate false p ≡ with_head valid flate false p h
  unfolding next next_of
  next_at p h e = rw (next, e) refl

  pub swap :
      (p q : Parser) (ys : List ℕ)
      → plain q ≡ plain p
      → IsReady p
      → IsReady q
        × (view (next valid flate false (more q ys)) ≡ view (next valid flate false (more p ys)))
  swap p q ys e r =
      let r' = IsReady_same p q e r in
      (
        r',
        sym (next-plain valid flate documented (more q ys) (IsReady-more q ys r'))
            ∙ ap (λ x. view (next valid flate false (more x ys))) e
            ∙ next-plain valid flate documented (more p ys) (IsReady-more p ys r),
      )

  pub drop-more :
      (p : Parser) (h : Head) (ys : List ℕ)
      → read_head p p.buffer ≡ got h
      → drop h.offset (more p ys).buffer ≡ drop h.offset p.buffer ++ ys
  drop-more p h ys e =
      drop-append_le h.offset p.buffer ys (read_head-IsTimely p p.buffer h e).in_range

  -- A text frame, of which `a` was there, when more comes: what was checked need not be again.
  ahead :
      (p : Parser) (h : Head) (w : Validator) (a z : List ℕ)
      → p.text_checked ≤ length a
      → reads p.text (drop p.text_checked (unmask h a)) ≡ some w
      → reads w (drop (length a) (unmask h (a ++ z)))
        ≡ reads p.text (drop p.text_checked (unmask h (a ++ z)))
  ahead p h w a z le e = sym (
      reads-ahead h p.text p.text_checked a z le
      ∙ ap (λ o. then_reads o (drop (length a) (unmask h (a ++ z)))) e)

  -- What there is of the payload of the frame is more of it than there was.
  pub taken_more :
      (n : ℕ) (a ys : List ℕ) → length a < n → take n (a ++ ys) ≡ a ++ take (n - length a) ys
  taken_more n a ys lt =
      let size : n ≡ length a + (n - length a) = omega (arith, lt) in
      ap (λ m. take m (a ++ ys)) size ∙ take-append_add a (n - length a) ys

  pub checked_more :
      (p : Parser) (h : Head) (w : Validator) (ys : List ℕ)
      → (let a = drop h.offset p.buffer in
          IsReady p
          → read_head p p.buffer ≡ got h
          → is_text p h ≡ true
          → length a < h.payload_len
          → p.text_checked < length a
          → reads p.text (drop p.text_checked (unmask h a)) ≡ some w
          → IsReady (record p { text = w; text_checked = length a })
            × (view (
                  next valid flate false (more (record p { text = w; text_checked = length a }) ys))
                ≡ view (next valid flate false (more p ys))))
  unfolding is_text
  checked_more p h w ys r e t part new reads_w =
      let a = drop h.offset p.buffer in
      let n = length a in
      let k = p.text_checked in
      let p' = record p { text = w; text_checked = n } in
      let e' = read_head_same p w n p.buffer p.buffer ∙ e in
      let r' : IsReady p' = record {
        owns = r.owns;
        at_rest = λ f z. absurd (omega (arith, z, new));
        in_text = inr (h, e', t, omega arith);
      } in
      let b = drop h.offset (more p ys).buffer in
      let grown_b = drop-more p h ys e in
      let step : (z : List ℕ)
          → reads w (drop n (unmask h (a ++ z))) ≡ reads p.text (drop k (unmask h (a ++ z))) =
        λ z. ahead p h w a z (omega (arith, new)) reads_w in
      let partly : reads w (drop n (unmask h b)) ≡ reads p.text (drop k (unmask h b)) =
        rw grown_b (step ys) in
      let wholly : reads w (drop n (unmask h (take h.payload_len b)))
          ≡ reads p.text (drop k (unmask h (take h.payload_len b))) =
        rw (grown_b, taken_more h.payload_len a ys part) (step (take (h.payload_len - n) ys)) in
      (
        r',
        ap view (next_at (more p' ys) h (head_more p' h ys e'))
            ∙ with_head-Ready valid flate documented (more p' ys) h (IsReady-more p' ys r')
                (head_more p' h ys e') t
            ∙ text_of_same (more p ys) w n h b partly wholly
            ∙ sym (
                with_head-Ready valid flate documented (more p ys) h (IsReady-more p ys r)
                  (head_more p h ys e) t)
            ∙ sym (ap view (next_at (more p ys) h (head_more p h ys e))),
      )
