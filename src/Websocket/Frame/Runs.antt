-- ===== src/Websocket/Frame/Runs.antt =====
-- go/websocket/frame.go: the loop over next gives the same events and errors however the bytes come.
use event_work_balance.Base.{
  subst, ℕ, ◌+◌, ◌-◌, ◌<◌, ◌≡◌, ◌↔◌, inl, inr, sym, ap, ◌∙◌, List, ◌++◌, Bool, true, false, Option,
  none, arith, length, take, drop, Bool-cases, Option-cases,
}
use event_work_balance.Websocket.Utf8.WellFormed.{IsUtf8}
use event_work_balance.Websocket.Frame.{
  Parser, Head, Error, wrong, got, invalid_payload, Event, is_text, unmask, read_head,
}
use event_work_balance.Websocket.Frame.Heads.{read_head-Grows, read_head-IsTimely}
use event_work_balance.Websocket.Frame.Next.{failed, progress, next}
use event_work_balance.Websocket.Frame.Reads.{reads, then_reads}
use event_work_balance.Websocket.Frame.Stable.{view, text_partial}
use event_work_balance.Websocket.Frame.Plain.{Got-cases}
use event_work_balance.Websocket.Frame.Mores.{more, grown}
use event_work_balance.Websocket.Frame.Splits.{reads-ahead}
use event_work_balance.Websocket.Frame.Again.{
  IsReady, IsReady-more, read_head_same, head_more, with_head-Ready, checked_there,
}
use event_work_balance.Websocket.Frame.Ready.{IsRested, Rests}
use event_work_balance.Websocket.Frame.Chunks.{
  view-failed, text_of-none, next_at, drop-more, taken_more,
}
use event_work_balance.Websocket.Frame.Answers.{
  whole_at, next_short, next_wrong, next_part, part_text, partial-other, whole-more, whole-Rests,
}

module _ (valid : List ℕ → Bool) (flate : List ℕ → List ℕ → List ℕ × Bool)
    (documented : (p : List ℕ) → (valid p ≡ true) ↔ IsUtf8 p) where
  IsReady_rested : (m : ℕ) (p : Parser) → IsRested m p → IsReady p
  IsReady_rested m p r = record {
    owns = r.owns;
    at_rest = λ f z. r.at_rest f;
    in_text = inl r.none_checked;
  }

  text_fails :
      (p q : Parser) (h : Head) (x : Error) (ys : List ℕ)
      → IsReady p
      → read_head p p.buffer ≡ got h
      → whole_at valid flate documented p h ≡ false
      → is_text p h ≡ true
      → next valid flate false p ≡ (q, failed x)
      → (s : Parser) × (next valid flate false (more p ys) ≡ (s, failed x))
  unfolding is_text
  text_fails p q h x ys r g w t e =
      let a = drop h.offset p.buffer in
      let n = length a in
      let k = p.text_checked in
      let v = part_text valid flate documented p h r g w t in
      elim (Option-cases (reads p.text (drop k (unmask h a)))) [
        | inl bad ↦
            let same : failed x ≡ failed invalid_payload =
              ap (λ r. r.1) (sym (ap view e) ∙ v ∙ ap (λ o. view (text_partial p n o)) bad) in
            let le = checked_there p h r g in
            let step : (z : List ℕ) → reads p.text (drop k (unmask h (a ++ z))) ≡ none = λ z.
              reads-ahead h p.text k a z le
              ∙ ap (λ o. then_reads o (drop n (unmask h (a ++ z)))) bad in
            let b = drop h.offset (more p ys).buffer in
            let grown_b = drop-more valid flate documented p h ys g in
            let partly : reads p.text (drop k (unmask h b)) ≡ none = rw grown_b (step ys) in
            let wholly : reads p.text (drop k (unmask h (take h.payload_len b))) ≡ none =
              rw (grown_b, taken_more valid flate documented h.payload_len a ys (ground (arith, w)))
                (step (take (h.payload_len - n) ys)) in
            view-failed (next valid flate false (more p ys)) x (
              ap view (next_at valid flate documented (more p ys) h (head_more p h ys g))
              ∙ with_head-Ready valid flate documented (more p ys) h (IsReady-more p ys r)
                  (head_more p h ys g) t
              ∙ text_of-none (more p ys) h b partly wholly
              ∙ ap (λ o. (none, o)) (sym same))
        | inr (u, good) ↦
            absurd (cc (sym (ap view e) ∙ v ∙ ap (λ o. view (text_partial p n o)) good))
      ]

  wrong_more :
      (p : Parser) (x : Error) (ys : List ℕ)
      → read_head p p.buffer ≡ wrong x
      → next valid flate false (more p ys) ≡ (more p ys, failed x)
  wrong_more p x ys e = next_wrong valid flate documented (more p ys) x (
      read_head_same p p.text p.text_checked (p.buffer ++ ys) (p.buffer ++ ys)
      ∙ elim (read_head-Grows p p.buffer ys) [ inl s ↦ absurd (cc (sym s ∙ e)) | inr s ↦ s ∙ e ])

  -- Bytes behind those that a parser fails on do not save it.
  pub next_fails :
      (p q : Parser) (x : Error) (ys : List ℕ)
      → IsReady p
      → next valid flate false p ≡ (q, failed x)
      → (s : Parser) × (next valid flate false (more p ys) ≡ (s, failed x))
  next_fails p q x ys r e = elim (Got-cases (read_head p p.buffer)) [
    | inl s ↦ absurd (cc (sym e ∙ next_short valid flate documented p s))
    | inr (inl (y, s)) ↦
        let same : failed y ≡ failed x =
          ap (λ r. r.1) (sym (next_wrong valid flate documented p y s) ∙ e) in
        (more p ys, wrong_more p y ys s ∙ ap (λ o. (more p ys, o)) same)
    | inr (inr (h, g)) ↦ elim (Bool-cases (whole_at valid flate documented p h)) [
      | inl w ↦ (more q ys, whole-more valid flate documented p h ys r g w ∙ ap (grown ys) e)
      | inr w ↦ elim (Bool-cases (is_text p h)) [
        | inr t ↦ absurd (
            cc (
              sym e
              ∙ next_part valid flate documented p h g w
              ∙ partial-other valid flate documented p h (drop h.offset p.buffer) t))
        | inl t ↦ text_fails p q h x ys r g w t e
      ]
    ]
  ]

  part_stays :
      (p q : Parser) (h : Head) (event : Option Event)
      → IsReady p
      → read_head p p.buffer ≡ got h
      → whole_at valid flate documented p h ≡ false
      → ¬ (next valid flate false p ≡ (q, progress event))
  part_stays p q h event r g w e = elim (Bool-cases (is_text p h)) [
    | inr t ↦ cc (
        sym e
        ∙ next_part valid flate documented p h g w
        ∙ partial-other valid flate documented p h (drop h.offset p.buffer) t)
    | inl t ↦
        let a = drop h.offset p.buffer in
        let v = part_text valid flate documented p h r g w t in
        elim (Option-cases (reads p.text (drop p.text_checked (unmask h a)))) [
          | inl bad ↦ cc (sym (ap view e) ∙ v ∙ ap (λ o. view (text_partial p (length a) o)) bad)
          | inr (u, good) ↦
              cc (sym (ap view e) ∙ v ∙ ap (λ o. view (text_partial p (length a) o)) good)
        ]
  ]

  -- A frame is taken in the same way when there are bytes behind it, and the parser is ready again.
  pub next_takes :
      (p q : Parser) (event : Option Event) (ys : List ℕ)
      → IsReady p
      → next valid flate false p ≡ (q, progress event)
      → IsReady q
        × (length q.buffer < length p.buffer)
        × (next valid flate false (more p ys) ≡ (more q ys, progress event))
  next_takes p q event ys r e = elim (Got-cases (read_head p p.buffer)) [
    | inl s ↦ absurd (cc (sym e ∙ next_short valid flate documented p s))
    | inr (inl (y, s)) ↦ absurd (cc (sym e ∙ next_wrong valid flate documented p y s))
    | inr (inr (h, g)) ↦ elim (Bool-cases (whole_at valid flate documented p h)) [
      | inl w ↦
          let m = length p.buffer - (h.offset + h.payload_len) in
          let rested = subst (Rests m) e (whole-Rests valid flate documented p h r g w) in
          let t = read_head-IsTimely p p.buffer h g in
          (
            IsReady_rested m q rested,
            omega (arith, rested.size, t.some_bytes, t.in_range),
            whole-more valid flate documented p h ys r g w ∙ ap (grown ys) e,
          )
      | inr w ↦ absurd (part_stays p q h event r g w e)
    ]
  ]
