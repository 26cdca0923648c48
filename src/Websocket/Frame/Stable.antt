-- ===== src/Websocket/Frame/Stable.antt =====
-- A frame of text in go/websocket/frame.go, whatever part of it has been checked before.
use event_work_balance.Base.{
  ℕ, ◌+◌, ◌≡◌, ◌↔◌, inl, inr, refl, sym, ap, ◌∙◌, List, ◌++◌, Bool, true, false, ◌==◌, Option, none,
  some, arith, if◌then◌else◌, drop, Bool-cases, Option-cases,
}
use event_work_balance.Websocket.Utf8.{Validator, fresh, steps, write, complete}
use event_work_balance.Websocket.Utf8.WellFormed.{IsUtf8, steps_iff_IsUtf8}
use event_work_balance.Websocket.Utf8.Bulk.{normal, seen, write-steps}
use event_work_balance.Websocket.Frame.{Parser, Head, protocol, invalid_payload, Fragment, is_data}
use event_work_balance.Websocket.Frame.Next.{
  Outcome, incomplete, failed, progress, consume, whole_text, ended,
}
use event_work_balance.Websocket.Frame.Reads.{reads, good}

-- The parser with what no longer matters of its validator forgotten.
abbrev pub plain : Parser → Parser
plain p = record p { text = normal p.text }

-- What the caller of next can tell: a parser that has failed is cleared.
abbrev pub view : Parser × Outcome → Option Parser × Outcome
view (p, incomplete) = (some (plain p), incomplete)
view (p, failed e) = (none, failed e)
view (p, progress event) = (some (plain p), progress event)

pub normal_again : (v : Validator) → normal (normal v) ≡ normal v
normal_again v = ground arith

pub complete-normal : (v : Validator) → complete (normal v) ≡ complete v
complete-normal v = ground arith

-- What is made of a text frame that is not whole, when `o` is the validator behind its bytes.
abbrev pub text_partial : Parser → ℕ → Option Validator → Parser × Outcome
text_partial p n none = (p, failed invalid_payload)
text_partial p n (some v) = (record p { text = v; text_checked = n }, incomplete)

pub text_partial-seen :
    (p : Parser) (n : ℕ) (o : Option Validator)
    → view (text_partial p n o) ≡ view (text_partial p n (seen o))
text_partial-seen p n none = refl
text_partial-seen p n (some v) = rw (normal_again v) refl

abbrev pub whole_frame : Parser → Head → List ℕ → Validator → Parser × Outcome
whole_frame p h payload v =
    if h.fin
    then (if complete v
        then (
          consume (record p { text = fresh }) (h.offset + h.payload_len),
          progress (some (record { opcode = h.opcode; payload = payload })),
        )
        else (p, failed invalid_payload))
    else (
      consume
          (record p {
            text = v;
            fragment =
                some
                  (record { opcode = h.opcode; compressed = h.compressed; data_bytes = payload });
          })
          (h.offset + h.payload_len),
      progress none,
    )

abbrev pub whole_continuation :
    Parser → Head → List ℕ → Validator → Option Fragment → Parser × Outcome
whole_continuation p h payload v none = (p, failed protocol)
whole_continuation p h payload v (some f) =
    let whole = f.data_bytes ++ payload in
    let q =
      consume (record p { text = v; fragment = some (record f { data_bytes = whole }) })
        (h.offset + h.payload_len) in
    if h.fin
    then (if complete v
        then (ended q, progress (some (record { opcode = f.opcode; payload = whole })))
        else (p, failed invalid_payload))
    else (q, progress none)

abbrev pub continue_text :
    Parser → Head → List ℕ → Option Fragment → Option Validator → Parser × Outcome
continue_text p h payload f none = (p, failed invalid_payload)
continue_text p h payload f (some v) = whole_continuation p h payload v f

abbrev pub start_text : Parser → Head → List ℕ → Option Validator → Parser × Outcome
start_text p h payload none = (p, failed invalid_payload)
start_text p h payload (some v) = whole_frame p h payload v

-- What is made of a text frame that is whole, when `o` is the validator behind its bytes.
abbrev pub text_finish : Parser → Head → List ℕ → Option Validator → Parser × Outcome
text_finish p h payload o =
    if is_data h.opcode then start_text p h payload o else continue_text p h payload p.fragment o

module _ (valid : List ℕ → Bool) (flate : List ℕ → List ℕ → List ℕ × Bool)
    (documented : (p : List ℕ) → (valid p ≡ true) ↔ IsUtf8 p) where
  valid-good : (v : Validator) (p : List ℕ) → v.need ≡ 0 → valid p ≡ good (reads v p)
  valid-good v p z = elim (Bool-cases (valid p)) [
    | inl well ↦
        let (w, s, closed) = (steps_iff_IsUtf8 v p z).1 ((documented p).0 well) in
        well ∙ sym (ap (λ o. good (seen o)) s ∙ complete-normal w ∙ ground (arith, closed))
    | inr ill ↦
        ill
        ∙ sym (elim (Option-cases (steps v p)) [
          | inl refused ↦ ap (λ o. good (seen o)) refused
          | inr (w, s) ↦
              ap (λ o. good (seen o)) s ∙ complete-normal w ∙ (elim (Bool-cases (complete w)) [
                | inl closed ↦ absurd (
                    cc (
                      sym ill
                      ∙ (documented p).1
                          ((steps_iff_IsUtf8 v p z).0 (w, s, ground (arith, closed)))))
                | inr midway ↦ midway
              ])
        ])
  ]

  good-seen : (o : Option Validator) → good (seen o) ≡ good o
  good-seen none = refl
  good-seen (some v) = complete-normal v

  whole_text_late :
      (p : Parser) (checked : ℕ) (payload : List ℕ)
      → (checked == 0) ≡ false
      → whole_text valid flate p checked payload ≡ good (write valid p.text (drop checked payload))
  unfolding whole_text
  whole_text_late p checked payload late =
      elim (Option-cases (write valid p.text (drop checked payload))) [
        | inl e ↦ rw (whole_text, late, e) refl
        | inr (v, e) ↦ rw (whole_text, late, e) refl
      ]

  pub whole_text-reads :
      (p : Parser) (checked : ℕ) (payload : List ℕ)
      → (checked ≡ 0 → p.text.need ≡ 0)
      → whole_text valid flate p checked payload ≡ good (reads p.text (drop checked payload))
  unfolding whole_text
  whole_text-reads p checked payload h = elim (Bool-cases (checked == 0)) [
    | inl early ↦
        let none_checked : checked ≡ 0 = ground (arith, early) in
        rw none_checked (valid-good p.text payload (h none_checked))
    | inr late ↦
        whole_text_late p checked payload late
        ∙ sym (good-seen (write valid p.text (drop checked payload)))
        ∙ ap good (write-steps valid documented p.text (drop checked payload))
  ]
