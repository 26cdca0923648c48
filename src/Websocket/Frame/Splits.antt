-- ===== src/Websocket/Frame/Splits.antt =====
-- A frame of go/websocket/frame.go that comes in two parts.
use event_work_balance.Base.{
  ℕ, ◌≤◌, ◌<◌, ◌≡◌, ◌↔◌, inl, inr, refl, sym, ap, ◌∙◌, List, [], ◌++◌, Bool, true, false, ◌==◌, leb,
  ltb, Option, none, some, arith, if◌then◌else◌, length, take, drop, Bool-cases, Option-cases,
  take-append-drop, take-append_le, drop-append_le, take-all, drop-all,
}
use event_work_balance.Websocket.Utf8.{Validator, steps}
use event_work_balance.Websocket.Utf8.WellFormed.{IsUtf8}
use event_work_balance.Websocket.Frame.{Parser, Head, invalid_payload, is_data, is_text, unmask}
use event_work_balance.Websocket.Frame.Next.{
  Outcome, incomplete, failed, check_partial_text, partial, with_head,
}
use event_work_balance.Websocket.Frame.Reads.{
  reads, then_reads, reads-append, length-unmask, take-unmask, written, written-reads,
  checked_so_far, check_partial_text_new,
}
use event_work_balance.Websocket.Frame.Stable.{
  plain, view, text_partial, text_partial-seen, text_finish, normal_again,
}
use event_work_balance.Websocket.Frame.Texts.{finish-text}

-- What is behind the first `k` bytes of a payload, when some of it was there before.
drop-unmask :
    (h : Head) (k : ℕ) (a z : List ℕ)
    → k ≤ length a
    → drop k (unmask h (a ++ z)) ≡ drop k (unmask h a) ++ drop (length a) (unmask h (a ++ z))
drop-unmask h k a z le =
    let n = length a in
    let all = unmask h (a ++ z) in
    let front : take n all ≡ unmask h a =
      take-unmask h.masked n h.mask (a ++ z)
      ∙ ap (unmask h) (take-append_le n a z (omega arith) ∙ take-all n a (omega arith)) in
    ap (drop k) (sym (take-append-drop n all))
    ∙ ap (λ x. drop k (x ++ drop n all)) front
    ∙ drop-append_le k (unmask h a) (drop n all)
        (omega (arith, le, length-unmask h.masked h.mask a))

pub reads-ahead :
    (h : Head) (v : Validator) (k : ℕ) (a z : List ℕ)
    → k ≤ length a
    → reads v (drop k (unmask h (a ++ z)))
      ≡ then_reads (reads v (drop k (unmask h a))) (drop (length a) (unmask h (a ++ z)))
reads-ahead h v k a z le =
    ap (reads v) (drop-unmask h k a z le)
    ∙ reads-append v (drop k (unmask h a)) (drop (length a) (unmask h (a ++ z)))

-- What is made of a text frame, of which the bytes `a` of the payload are there.
abbrev pub text_of : Parser → Head → List ℕ → Option Parser × Outcome
text_of p h a =
    if ltb (length a) h.payload_len
    then view (text_partial p (length a) (reads p.text (drop p.text_checked (unmask h a))))
    else (let payload = unmask h (take h.payload_len a) in
        view (
          text_finish (record p { text_checked = 0 }) h payload
            (reads p.text (drop p.text_checked payload))))

module _ (valid : List ℕ → Bool) (flate : List ℕ → List ℕ → List ℕ × Bool)
    (documented : (p : List ℕ) → (valid p ≡ true) ↔ IsUtf8 p) where
  abbrev checked_outcome : Parser → Option Parser → Parser × Outcome
  checked_outcome p none = (p, failed invalid_payload)
  checked_outcome p (some q) = (q, incomplete)

  partial-checked :
      (p : Parser) (h : Head) (a : List ℕ)
      → is_text p h ≡ true
      → partial valid flate p h a ≡ checked_outcome p (check_partial_text valid flate p h a)
  unfolding partial
  partial-checked p h a t = elim (Option-cases (check_partial_text valid flate p h a)) [
    | inl e ↦ rw (partial, t, e) refl
    | inr (q, e) ↦ rw (partial, t, e) refl
  ]

  checked_outcome-text :
      (p : Parser) (n : ℕ) (o : Option Validator)
      → checked_outcome p (checked_so_far valid flate documented p n o) ≡ text_partial p n o
  checked_outcome-text p n none = refl
  checked_outcome-text p n (some v) = refl

  partial_new :
      (p : Parser) (h : Head) (a : List ℕ)
      → is_text p h ≡ true
      → p.text_checked < length a
      → view (partial valid flate p h a)
        ≡ view (text_partial p (length a) (reads p.text (drop p.text_checked (unmask h a))))
  partial_new p h a t new =
      let o = written valid flate documented p h (drop p.text_checked (unmask h a)) in
      ap view (
        partial-checked p h a t
        ∙ ap (checked_outcome p) (check_partial_text_new valid flate documented p h a new)
        ∙ checked_outcome-text p (length a) o)
      ∙ text_partial-seen p (length a) o
      ∙ ap (λ o. view (text_partial p (length a) o))
          (written-reads valid flate documented p h (drop p.text_checked (unmask h a)))

  pub partial_old :
      (p : Parser) (h : Head) (a : List ℕ)
      → length a ≤ p.text_checked
      → view (partial valid flate p h a) ≡ (some (plain p), incomplete)
  unfolding partial check_partial_text
  partial_old p h a old =
      let nothing_new : leb (length a) p.text_checked ≡ true = ground (arith, old) in
      elim (Bool-cases (is_text p h)) [ inl t ↦ rw (t, nothing_new) refl | inr t ↦ rw t refl ]

  partial_same :
      (p : Parser) (h : Head) (a : List ℕ)
      → p.text_checked ≡ length a
      → view (partial valid flate p h a)
        ≡ view (text_partial p (length a) (reads p.text (drop p.text_checked (unmask h a))))
  unfolding steps
  partial_same p h a same =
      let nothing : drop p.text_checked (unmask h a) ≡ [] =
        drop-all p.text_checked (unmask h a)
          (omega (arith, same, length-unmask h.masked h.mask a)) in
      partial_old p h a (omega (arith, same))
      ∙ sym (
          rw (nothing, normal_again p.text)
            (ap (λ n. (some (record (plain p) { text_checked = n }), incomplete)) (sym same)))

  partial-text :
      (p : Parser) (h : Head) (a : List ℕ)
      → is_text p h ≡ true
      → p.text_checked ≤ length a
      → view (partial valid flate p h a)
        ≡ view (text_partial p (length a) (reads p.text (drop p.text_checked (unmask h a))))
  partial-text p h a t le = elim (Bool-cases (p.text_checked == length a)) [
    | inl same ↦ partial_same p h a (ground (arith, same))
    | inr new ↦ partial_new p h a t (ground (arith, new, le))
  ]

  -- A text frame, of which nothing that was checked has gone.
  pub with_head-text :
      (p : Parser) (h : Head)
      → is_text p h ≡ true
      → (is_data h.opcode ≡ true → p.text_checked ≡ 0 → p.text.need ≡ 0)
      → p.text_checked ≤ length (drop h.offset p.buffer)
      → view (with_head valid flate false p h) ≡ text_of p h (drop h.offset p.buffer)
  unfolding with_head is_text
  with_head-text p h t z le =
      elim (Bool-cases (ltb (length (drop h.offset p.buffer)) h.payload_len)) [
        | inl part ↦ rw part (partial-text p h (drop h.offset p.buffer) t le)
        | inr whole ↦ rw whole (
            finish-text valid flate documented (record p { text_checked = 0 }) h p.text_checked
              (unmask h (take h.payload_len (drop h.offset p.buffer))) t z)
      ]
