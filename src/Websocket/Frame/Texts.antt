-- ===== src/Websocket/Frame/Texts.antt =====
-- A frame of text in go/websocket/frame.go that is whole, whatever part of it has been checked before.
use event_work_balance.Base.{
  ℕ, ◌≡◌, ◌↔◌, inl, inr, refl, sym, ap, ◌∙◌, List, Bool, true, false, Option, some, arith, drop,
  Bool-cases, Option-cases,
}
use event_work_balance.Websocket.Utf8.{Validator, write, complete}
use event_work_balance.Websocket.Utf8.WellFormed.{IsUtf8}
use event_work_balance.Websocket.Utf8.Bulk.{write-steps}
use event_work_balance.Websocket.Frame.{Parser, Head, Fragment, is_control, is_data, is_text}
use event_work_balance.Websocket.Frame.Next.{
  finish_frame, more_text, finish_data, finish_continuation, finish,
}
use event_work_balance.Websocket.Frame.Reads.{reads, good}
use event_work_balance.Websocket.Frame.Stable.{
  view, normal_again, complete-normal, text_finish, start_text, continue_text, whole_text-reads,
}
use event_work_balance.Websocket.Frame.Plain.{fragment_some}

pub text_plain :
    (p : Parser) (h : Head) → is_text p h ≡ true → is_data h.opcode ≡ true → h.compressed ≡ false
unfolding is_text
text_plain p h t d = elim (Option-cases p.fragment) [
  | inl e ↦ let t' = rw e at t in ground (arith, t', d)
  | inr (f, e) ↦ let t' = rw e at t in ground (arith, t', d)
]

pub text_not_control : (p : Parser) (h : Head) → is_text p h ≡ true → is_control h.opcode ≡ false
unfolding is_text
text_not_control p h t = elim (Option-cases p.fragment) [
  | inl e ↦ let t' = rw e at t in ground (arith, t')
  | inr (f, e) ↦ let t' = rw e at t in ground (arith, t')
]

text_fragment :
    (p : Parser) (h : Head) (f : Fragment)
    → is_text p h ≡ true
    → is_data h.opcode ≡ false
    → p.fragment ≡ some f
    → f.compressed ≡ false
unfolding is_text
text_fragment p h f t d e = let t' = rw e at t in ground (arith, t', d)

fragment_there :
    (p : Parser) (h : Head)
    → is_text p h ≡ true
    → is_data h.opcode ≡ false
    → (f : Fragment) × (p.fragment ≡ some f)
unfolding is_text
fragment_there p h t d = elim (Option-cases p.fragment) [
  | inl e ↦ let t' = rw e at t in absurd (ground (arith, t', d))
  | inr there ↦ there
]

text_rest :
    (p : Parser) (h : Head) (f : Fragment) (payload : List ℕ) (o : Option Validator)
    → is_data h.opcode ≡ false
    → p.fragment ≡ some f
    → text_finish p h payload o ≡ continue_text p h payload (some f) o
text_rest p h f payload o d e = rw d (ap (λ g. continue_text p h payload g o) e)

module _ (valid : List ℕ → Bool) (flate : List ℕ → List ℕ → List ℕ × Bool)
    (documented : (p : List ℕ) → (valid p ≡ true) ↔ IsUtf8 p) where
  finish_data_fin :
      (p : Parser) (h : Head) (checked : ℕ) (payload : List ℕ)
      → is_text p h ≡ true
      → is_data h.opcode ≡ true
      → (checked ≡ 0 → p.text.need ≡ 0)
      → h.fin ≡ true
      → view (finish_data valid flate false p h checked payload)
        ≡ view (start_text p h payload (reads p.text (drop checked payload)))
  unfolding finish_data finish_frame
  finish_data_fin p h checked payload t d z fin =
      let o = reads p.text (drop checked payload) in
      let whole = whole_text-reads valid flate documented p checked payload z in
      elim (Option-cases o) [
        | inl e ↦ let bad = whole ∙ ap good e in rw (t, fin, text_plain p h t d, bad, e) refl
        | inr (v, e) ↦ elim (Bool-cases (complete v)) [
          | inl c ↦
              let fine = whole ∙ ap good e ∙ c in rw (t, fin, text_plain p h t d, fine, e, c) refl
          | inr c ↦
              let bad = whole ∙ ap good e ∙ c in rw (t, fin, text_plain p h t d, bad, e, c) refl
        ]
      ]

  finish_data_more :
      (p : Parser) (h : Head) (checked : ℕ) (payload : List ℕ)
      → is_text p h ≡ true
      → is_data h.opcode ≡ true
      → h.fin ≡ false
      → view (finish_data valid flate false p h checked payload)
        ≡ view (start_text p h payload (reads p.text (drop checked payload)))
  unfolding finish_data more_text
  finish_data_more p h checked payload t d fin =
      let same = write-steps valid documented p.text (drop checked payload) in
      elim (Option-cases (write valid p.text (drop checked payload))) [
        | inl e ↦ rw (finish_data, more_text, t, fin, e, sym same, e) refl
        | inr (v, e) ↦ rw (finish_data, more_text, t, fin, e, sym same, e, normal_again v) refl
      ]

  finish_continuation-text :
      (p : Parser) (h : Head) (f : Fragment) (checked : ℕ) (payload : List ℕ)
      → is_text p h ≡ true
      → f.compressed ≡ false
      → view (finish_continuation valid flate p h f checked payload)
        ≡ view (continue_text p h payload (some f) (reads p.text (drop checked payload)))
  unfolding finish_continuation more_text
  finish_continuation-text p h f checked payload t c =
      let same = write-steps valid documented p.text (drop checked payload) in
      elim (Option-cases (write valid p.text (drop checked payload))) [
        | inl e ↦ rw (finish_continuation, more_text, t, e, sym same, e) refl
        | inr (v, e) ↦ elim (Bool-cases h.fin) [
          | inl fin ↦ elim (Bool-cases (complete v)) [
            | inl whole ↦
                rw
                  (
                    finish_continuation,
                    more_text,
                    t,
                    e,
                    t,
                    fin,
                    sym same,
                    e,
                    complete-normal v,
                    whole,
                    c,
                  )
                  refl
            | inr open_end ↦
                rw
                  (
                    finish_continuation,
                    more_text,
                    t,
                    e,
                    t,
                    fin,
                    sym same,
                    e,
                    complete-normal v,
                    open_end,
                  )
                  refl
          ]
          | inr more ↦
              rw (finish_continuation, more_text, t, e, t, more, sym same, e, normal_again v) refl
        ]
      ]

  -- Only what the text reads to matters of what is known of a whole text frame.
  pub finish-text :
      (p : Parser) (h : Head) (checked : ℕ) (payload : List ℕ)
      → is_text p h ≡ true
      → (is_data h.opcode ≡ true → checked ≡ 0 → p.text.need ≡ 0)
      → view (finish valid flate false p h checked payload)
        ≡ view (text_finish p h payload (reads p.text (drop checked payload)))
  unfolding finish
  finish-text p h checked payload t z =
      let not_control = text_not_control p h t in
      elim (Bool-cases (is_data h.opcode)) [
        | inl d ↦ elim (Bool-cases h.fin) [
          | inl fin ↦ rw (not_control, d) (finish_data_fin p h checked payload t d (z d) fin)
          | inr more ↦ rw (not_control, d) (finish_data_more p h checked payload t d more)
        ]
        | inr d ↦
            (let (f, e) = fragment_there p h t d in
              ap view (fragment_some valid flate p h f checked payload not_control d e)
              ∙ finish_continuation-text p h f checked payload t (text_fragment p h f t d e)
              ∙ ap view (sym (text_rest p h f payload (reads p.text (drop checked payload)) d e)))
      ]
