-- ===== src/Websocket/Frame/Plain.antt =====
-- What next of go/websocket/frame.go makes of a frame that is not text does not depend on the validator.
use event_work_balance.Base.{
  ℕ, ◌+◌, ◌≡◌, ◌⊎◌, inl, inr, refl, sym, ap, ◌∙◌, List, [], ◌++◌, Bool, true, false, ◌&&◌, not,
  ◌==◌, none, some, if◌then◌else◌, Bool-cases, Option-cases,
}
use event_work_balance.Websocket.Frame.{
  Parser, Head, Error, Got, short, wrong, got, protocol, Fragment, is_control, is_data, is_text,
}
use event_work_balance.Websocket.Frame.Next.{
  keep_window, failed, progress, consume, finish_frame, finish_control, decompress_message, inflate,
  emit_inflated, more_text, finish_data, finish_continuation, finish, ended, check_close,
}
use event_work_balance.Websocket.Frame.Stable.{plain, view, normal_again}

pub Got-cases {ℓ} :
    {A : Type ℓ} (g : Got A)
    → (g ≡ short) ⊎ (((e : Error) × (g ≡ wrong e)) ⊎ ((a : A) × (g ≡ got a)))
Got-cases short = inl refl
Got-cases (wrong e) = inr (inl (e, refl))
Got-cases (got a) = inr (inr (a, refl))

-- What keeps the window of a parser leaves its validator alone.
kept :
    (f : Parser → Parser) (p : Parser) (w : List ℕ)
    → ((q : Parser) → plain (f (plain q)) ≡ plain (f q))
    → (c : Bool)
    → plain (f (if c then record (plain p) { window = w } else plain p))
      ≡ plain (f (if c then record p { window = w } else p))
kept f p w h true = h (record p { window = w })
kept f p w h false = h p

module _ (valid : List ℕ → Bool) (flate : List ℕ → List ℕ → List ℕ × Bool) where
  finish_control-plain :
      (p : Parser) (h : Head) (payload : List ℕ)
      → view (finish_control valid flate false (plain p) h payload)
        ≡ view (finish_control valid flate false p h payload)
  unfolding finish_control finish_frame consume
  finish_control-plain p h payload =
      elim (Option-cases (if h.opcode == 8 then check_close valid flate payload else none)) [
        | inl e ↦ rw (finish_control, e, normal_again p.text) refl
        | inr (x, e) ↦ rw (finish_control, e) refl
      ]

  emit_inflated-plain :
      (opcode : ℕ) (f : Parser → Parser) (p : Parser) (compressed : List ℕ)
      → ((q : Parser) → plain (f (plain q)) ≡ plain (f q))
      → view
          (emit_inflated valid flate opcode (inflate valid flate (plain p) compressed) f (plain p))
        ≡ view (emit_inflated valid flate opcode (inflate valid flate p compressed) f p)
  unfolding inflate emit_inflated
  emit_inflated-plain opcode f p compressed h =
      let dict = if p.context_takeover then p.window else [] in
      elim (Got-cases (decompress_message valid flate compressed dict p.max_message_bytes)) [
        | inl e ↦ rw (e, normal_again p.text) refl
        | inr (inl (x, e)) ↦ rw e refl
        | inr (inr (message, e)) ↦ rw e (elim (Bool-cases (opcode == 1 && not (valid message))) [
          | inl bad ↦ rw bad refl
          | inr fine ↦ rw fine (
              ap (λ q. (some q, progress (some (record { opcode = opcode; payload = message }))))
                (kept f p (keep_window p.window message) h p.context_takeover))
        ])
      ]

  finish_data-plain :
      (p : Parser) (h : Head) (checked : ℕ) (payload : List ℕ)
      → is_text p h ≡ false
      → view (finish_data valid flate false (plain p) h checked payload)
        ≡ view (finish_data valid flate false p h checked payload)
  unfolding finish_data finish_frame consume more_text is_text
  finish_data-plain p h checked payload t = elim (Bool-cases (h.fin && h.compressed)) [
    | inl deflated ↦ rw deflated (
        emit_inflated-plain h.opcode (λ q. finish_frame false q (h.offset + h.payload_len)) p
          payload (λ q. rw (normal_again q.text) refl))
    | inr raw ↦
        rw (t, raw)
          (elim (Bool-cases h.fin) [
            | inl fin ↦ rw (fin, normal_again p.text) refl
            | inr more ↦ rw (more, normal_again p.text) refl
          ])
  ]

  finish_continuation-plain :
      (p : Parser) (h : Head) (f : Fragment) (checked : ℕ) (payload : List ℕ)
      → is_text p h ≡ false
      → view (finish_continuation valid flate (plain p) h f checked payload)
        ≡ view (finish_continuation valid flate p h f checked payload)
  unfolding finish_continuation consume more_text is_text
  finish_continuation-plain p h f checked payload t =
      let whole = f.data_bytes ++ payload in
      let q =
        consume (record p { fragment = some (record f { compressed = true; data_bytes = whole }) })
          (h.offset + h.payload_len) in
      elim (Bool-cases h.fin) [
        | inl fin ↦ elim (Bool-cases f.compressed) [
          | inl deflated ↦
              rw (finish_continuation, more_text, t, t, fin, deflated)
                (emit_inflated-plain f.opcode ended q whole (λ q. refl))
          | inr raw ↦ rw (finish_continuation, more_text, t, t, fin, raw) refl
        ]
        | inr more ↦ rw (finish_continuation, more_text, t, t, more, normal_again p.text) refl
      ]

  pub fragment_none :
      (p : Parser) (h : Head) (checked : ℕ) (payload : List ℕ)
      → is_control h.opcode ≡ false
      → is_data h.opcode ≡ false
      → p.fragment ≡ none
      → finish valid flate false p h checked payload ≡ (p, failed protocol)
  unfolding finish
  fragment_none p h checked payload c d e = simp (finish, c, d, e)

  pub fragment_some :
      (p : Parser) (h : Head) (f : Fragment) (checked : ℕ) (payload : List ℕ)
      → is_control h.opcode ≡ false
      → is_data h.opcode ≡ false
      → p.fragment ≡ some f
      → finish valid flate false p h checked payload
        ≡ finish_continuation valid flate p h f checked payload
  unfolding finish
  fragment_some p h f checked payload c d e = simp (finish, c, d, e)

  pub finish-plain :
      (p : Parser) (h : Head) (checked : ℕ) (payload : List ℕ)
      → is_text p h ≡ false
      → view (finish valid flate false (plain p) h checked payload)
        ≡ view (finish valid flate false p h checked payload)
  unfolding finish
  finish-plain p h checked payload t = elim (Bool-cases (is_control h.opcode)) [
    | inl c ↦ rw c (finish_control-plain p h payload)
    | inr c ↦ elim (Bool-cases (is_data h.opcode)) [
      | inl d ↦ rw (c, d) (finish_data-plain p h checked payload t)
      | inr d ↦ elim (Option-cases p.fragment) [
        | inl e ↦
            ap view (fragment_none (plain p) h checked payload c d e)
            ∙ sym (ap view (fragment_none p h checked payload c d e))
        | inr (f, e) ↦
            ap view (fragment_some (plain p) h f checked payload c d e)
            ∙ finish_continuation-plain p h f checked payload t
            ∙ sym (ap view (fragment_some p h f checked payload c d e))
      ]
    ]
  ]
