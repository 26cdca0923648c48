-- ===== src/Websocket/Frame/Mores.antt =====
-- What next of go/websocket/frame.go makes of a frame that is whole leaves the bytes behind it alone.
use event_work_balance.Base.{
  ℕ, ◌+◌, ◌≤◌, ◌≡◌, inl, inr, refl, sym, ap, ◌∙◌, List, [], ◌++◌, Bool, true, false, ◌&&◌, not,
  ◌==◌, none, some, if◌then◌else◌, length, Bool-cases, Option-cases, drop-append_le,
}
use event_work_balance.Websocket.Utf8.{fresh, complete}
use event_work_balance.Websocket.Frame.{Parser, Head, Event, Fragment, is_control, is_data, is_text}
use event_work_balance.Websocket.Frame.Next.{
  keep_window, Outcome, progress, consume, finish_frame, finish_control, decompress_message,
  inflate, emit_inflated, more_text, finish_data, finish_continuation, finish, ended, check_close,
  whole_text,
}
use event_work_balance.Websocket.Frame.Plain.{Got-cases, fragment_none, fragment_some}

-- The parser once the bytes `ys` have come as well.
abbrev pub more : Parser → List ℕ → Parser
more p ys = record p { buffer = p.buffer ++ ys }

abbrev pub grown : List ℕ → Parser × Outcome → Parser × Outcome
grown ys (p, o) = (more p ys, o)

consume-more :
    (p : Parser) (n : ℕ) (ys : List ℕ)
    → p.borrowed_buffer ≡ false
    → n ≤ length p.buffer
    → consume (more p ys) n ≡ more (consume p n) ys
unfolding consume
consume-more p n ys own le = rw (drop-append_le n p.buffer ys le, own) refl

kept :
    (f : Parser → Parser) (p : Parser) (w ys : List ℕ)
    → ((w : List ℕ) → f (record (more p ys) { window = w }) ≡ more (f (record p { window = w })) ys)
    → (c : Bool)
    → f (if c then record (more p ys) { window = w } else more p ys)
      ≡ more (f (if c then record p { window = w } else p)) ys
kept f p w ys h true = h w
kept f p w ys h false = h p.window

module _ (valid : List ℕ → Bool) (flate : List ℕ → List ℕ → List ℕ × Bool) where
  emit_inflated-more :
      (opcode : ℕ) (f : Parser → Parser) (p : Parser) (compressed ys : List ℕ)
      → ((w : List ℕ)
          → f (record (more p ys) { window = w }) ≡ more (f (record p { window = w })) ys)
      → emit_inflated valid flate opcode (inflate valid flate (more p ys) compressed) f (more p ys)
        ≡ grown ys (emit_inflated valid flate opcode (inflate valid flate p compressed) f p)
  unfolding inflate emit_inflated
  emit_inflated-more opcode f p compressed ys h =
      let dict = if p.context_takeover then p.window else [] in
      elim (Got-cases (decompress_message valid flate compressed dict p.max_message_bytes)) [
        | inl e ↦ rw e refl
        | inr (inl (x, e)) ↦ rw e refl
        | inr (inr (message, e)) ↦ rw e (elim (Bool-cases (opcode == 1 && not (valid message))) [
          | inl bad ↦ rw bad refl
          | inr fine ↦ rw fine (
              ap (λ q. (q, progress (some (record { opcode = opcode; payload = message }))))
                (kept f p (keep_window p.window message) ys h p.context_takeover))
        ])
      ]

  finish_control-more :
      (p : Parser) (h : Head) (payload ys : List ℕ)
      → p.borrowed_buffer ≡ false
      → h.offset + h.payload_len ≤ length p.buffer
      → finish_control valid flate false (more p ys) h payload
        ≡ grown ys (finish_control valid flate false p h payload)
  unfolding finish_control finish_frame
  finish_control-more p h payload ys own le =
      elim (Option-cases (if h.opcode == 8 then check_close valid flate payload else none)) [
        | inl e ↦ rw (finish_control, e, consume-more p (h.offset + h.payload_len) ys own le) refl
        | inr (x, e) ↦ rw (finish_control, e) refl
      ]

  finish_data-more :
      (p : Parser) (h : Head) (checked : ℕ) (payload ys : List ℕ)
      → p.borrowed_buffer ≡ false
      → h.offset + h.payload_len ≤ length p.buffer
      → finish_data valid flate false (more p ys) h checked payload
        ≡ grown ys (finish_data valid flate false p h checked payload)
  unfolding finish_data finish_frame more_text is_text whole_text
  finish_data-more p h checked payload ys own le =
      let n = h.offset + h.payload_len in
      elim (Bool-cases (h.fin && h.compressed)) [
        | inl deflated ↦ rw deflated (
            emit_inflated-more h.opcode (λ q. finish_frame false q n) p payload ys
              (λ w. consume-more (record p { window = w }) n ys own le))
        | inr raw ↦ rw raw (elim (Bool-cases h.fin) [
          | inl fin ↦ elim (Bool-cases (is_text p h)) [
            | inl t ↦ elim (Bool-cases (whole_text valid flate p checked payload)) [
              | inl good ↦
                  rw (t, good, fin, consume-more (record p { text = fresh }) n ys own le) refl
              | inr bad ↦ rw (t, bad, fin) refl
            ]
            | inr t ↦ rw (t, fin, consume-more p n ys own le) refl
          ]
          | inr going_on ↦
              elim (Option-cases (more_text valid flate (is_text p h) p checked payload)) [
                | inl e ↦ rw (finish_data, e, going_on) refl
                | inr (v, e) ↦
                    rw (finish_data, e, going_on)
                      (let f : Fragment = record {
                        opcode = h.opcode;
                        compressed = h.compressed;
                        data_bytes = payload;
                      } in
                        ap (λ q. (q, progress none))
                          (consume-more (record p { text = v; fragment = some f }) n ys own le))
              ]
        ])
      ]

  finish_continuation-more :
      (p : Parser) (h : Head) (f : Fragment) (checked : ℕ) (payload ys : List ℕ)
      → p.borrowed_buffer ≡ false
      → h.offset + h.payload_len ≤ length p.buffer
      → finish_continuation valid flate (more p ys) h f checked payload
        ≡ grown ys (finish_continuation valid flate p h f checked payload)
  unfolding finish_continuation more_text is_text
  finish_continuation-more p h f checked payload ys own le =
      let n = h.offset + h.payload_len in
      let whole = f.data_bytes ++ payload in
      elim (Option-cases (more_text valid flate (is_text p h) p checked payload)) [
        | inl e ↦ rw (finish_continuation, e) refl
        | inr (v, e) ↦
            let p' = record p { text = v; fragment = some (record f { data_bytes = whole }) } in
            let moved = consume-more p' n ys own le in
            elim (Bool-cases (is_text p h && h.fin && not (complete v))) [
              | inl bad ↦ rw (finish_continuation, e, bad) refl
              | inr fine ↦ elim (Bool-cases (not h.fin)) [
                | inl going_on ↦ rw (finish_continuation, e, fine, going_on, moved) refl
                | inr fin ↦ elim (Bool-cases f.compressed) [
                  | inl deflated ↦
                      let p'' = record p {
                        text = v;
                        fragment =
                            some
                              (record { opcode = f.opcode; compressed = true; data_bytes = whole });
                      } in
                      rw (finish_continuation, e, fine, fin, deflated)
                        (ap
                            (λ q.
                              emit_inflated valid flate f.opcode (inflate valid flate q whole) ended
                                q)
                            (consume-more p'' n ys own le)
                          ∙ emit_inflated-more f.opcode ended (consume p'' n) whole ys (λ w. refl))
                  | inr raw ↦
                      let event : Event = record { opcode = f.opcode; payload = whole } in
                      rw (finish_continuation, e, fine, fin, raw)
                        (ap (λ q. (ended q, progress (some event))) moved)
                ]
              ]
            ]
      ]

  pub finish-more :
      (p : Parser) (h : Head) (checked : ℕ) (payload ys : List ℕ)
      → p.borrowed_buffer ≡ false
      → h.offset + h.payload_len ≤ length p.buffer
      → finish valid flate false (more p ys) h checked payload
        ≡ grown ys (finish valid flate false p h checked payload)
  unfolding finish
  finish-more p h checked payload ys own le = elim (Bool-cases (is_control h.opcode)) [
    | inl c ↦ rw c (finish_control-more p h payload ys own le)
    | inr c ↦ elim (Bool-cases (is_data h.opcode)) [
      | inl d ↦ rw (c, d) (finish_data-more p h checked payload ys own le)
      | inr d ↦ elim (Option-cases p.fragment) [
        | inl e ↦
            fragment_none valid flate (more p ys) h checked payload c d e
            ∙ sym (ap (grown ys) (fragment_none valid flate p h checked payload c d e))
        | inr (f, e) ↦
            fragment_some valid flate (more p ys) h f checked payload c d e
            ∙ finish_continuation-more p h f checked payload ys own le
            ∙ sym (ap (grown ys) (fragment_some valid flate p h f checked payload c d e))
      ]
    ]
  ]
