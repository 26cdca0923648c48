-- ===== src/Websocket/Frame/Ready.antt =====
-- go/websocket/frame.go: the parser is ready again behind a frame.
use event_work_balance.Base.{
  ℕ, ◌+◌, ◌-◌, ◌≤◌, ◌≡◌, inl, inr, refl, sym, ◌∙◌, List, [], ◌++◌, Bool, true, false, ◌&&◌, not,
  ◌==◌, Option, none, some, arith, if◌then◌else◌, length, Bool-cases, Option-cases, length-drop,
}
use event_work_balance.Websocket.Utf8.{Validator, fresh, complete}
use event_work_balance.Websocket.Frame.{Parser, Head, short, Fragment, is_control, is_data, is_text}
use event_work_balance.Websocket.Frame.Next.{
  Outcome, incomplete, failed, progress, keep_window, consume, finish_frame, finish_control,
  decompress_message, inflate, emit_inflated, more_text, whole_text, finish_data,
  finish_continuation, ended, check_close, finish,
}
use event_work_balance.Websocket.Frame.Texts.{text_not_control, text_plain}
use event_work_balance.Websocket.Frame.Plain.{Got-cases, fragment_none, fragment_some}
use event_work_balance.Websocket.Frame.Again.{IsOwn}

-- A parser between two frames, with `m` bytes at most.
pub record IsRested (m : ℕ) (p : Parser) : Type 0 where
  pub owns : IsOwn p
  pub size : length p.buffer ≤ m
  pub none_checked : p.text_checked ≡ 0
  pub at_rest : p.fragment ≡ none → p.text.need ≡ 0

-- What a frame that is whole makes of it: it is never incomplete.
abbrev pub Rests : ℕ → Parser × Outcome → Type 0
Rests m (p, incomplete) = false ≡ true
Rests m (p, failed e) = Unit
Rests m (p, progress event) = IsRested m p

consume-IsRested : (m : ℕ) (p : Parser) (n : ℕ) → IsRested m p → IsRested (m - n) (consume p n)
unfolding consume
consume-IsRested m p n r = record {
  owns = (rw r.owns.0 refl, r.owns.1, r.owns.2);
  size = omega (arith, r.size, length-drop n p.buffer);
  none_checked = r.none_checked;
  at_rest = r.at_rest;
}

kept-IsRested :
    (m : ℕ) (f : Parser → Parser) (p : Parser) (w : List ℕ)
    → ((w : List ℕ) → IsRested m (f (record p { window = w })))
    → (c : Bool) → IsRested m (f (if c then record p { window = w } else p))
kept-IsRested m f p w h true = h w
kept-IsRested m f p w h false = h p.window

in_message :
    (p : Parser) (v : Validator) (f : Fragment)
    → IsOwn p
    → p.text_checked ≡ 0
    → IsRested (length p.buffer) (record p { text = v; fragment = some f })
in_message p v f own zero_checked = record {
  owns = own;
  size = omega arith;
  none_checked = zero_checked;
  at_rest = λ e. absurd cc;
}

refreshed :
    (p : Parser) (f : Option Fragment) (w : List ℕ)
    → IsOwn p
    → p.text_checked ≡ 0
    → IsRested (length p.buffer) (record p { text = fresh; fragment = f; window = w })
refreshed p f w own zero_checked = record {
  owns = own;
  size = omega arith;
  none_checked = zero_checked;
  at_rest = λ e. refl;
}

control_not_text : (p : Parser) (h : Head) → is_control h.opcode ≡ true → is_text p h ≡ false
control_not_text p h c = elim (Bool-cases (is_text p h)) [
  | inl t ↦ absurd (cc (sym c ∙ text_not_control p h t))
  | inr t ↦ t
]

module _ (valid : List ℕ → Bool) (flate : List ℕ → List ℕ → List ℕ × Bool) where
  never_short :
      (compressed dict : List ℕ) (limit : ℕ)
      → ¬ (decompress_message valid flate compressed dict limit ≡ short)
  unfolding decompress_message
  never_short compressed dict limit e = ground (arith, e)

  emit_inflated-Rests :
      (m opcode : ℕ) (f : Parser → Parser) (p : Parser) (compressed : List ℕ)
      → ((w : List ℕ) → IsRested m (f (record p { window = w })))
      → Rests m (emit_inflated valid flate opcode (inflate valid flate p compressed) f p)
  unfolding inflate emit_inflated
  emit_inflated-Rests m opcode f p compressed h =
      let dict = if p.context_takeover then p.window else [] in
      elim (Got-cases (decompress_message valid flate compressed dict p.max_message_bytes)) [
        | inl e ↦ absurd (never_short compressed dict p.max_message_bytes e)
        | inr (inl (x, e)) ↦ rw e tt
        | inr (inr (message, e)) ↦ rw e (elim (Bool-cases (opcode == 1 && not (valid message))) [
          | inl bad ↦ rw bad tt
          | inr fine ↦
              rw fine (kept-IsRested m f p (keep_window p.window message) h p.context_takeover)
        ])
      ]

  finish_control-Rests :
      (p : Parser) (h : Head) (payload : List ℕ)
      → IsRested (length p.buffer) p
      → Rests
          (length p.buffer - (h.offset + h.payload_len))
          (finish_control valid flate false p h payload)
  unfolding finish_control finish_frame
  finish_control-Rests p h payload r =
      elim (Option-cases (if h.opcode == 8 then check_close valid flate payload else none)) [
        | inl e ↦
            rw (finish_control, e)
              (consume-IsRested (length p.buffer) p (h.offset + h.payload_len) r)
        | inr (x, e) ↦ rw (finish_control, e) tt
      ]

  finish_data-Rests :
      (p : Parser) (h : Head) (checked : ℕ) (payload : List ℕ)
      → is_data h.opcode ≡ true
      → IsOwn p
      → p.text_checked ≡ 0
      → (is_text p h ≡ false → p.fragment ≡ none → p.text.need ≡ 0)
      → Rests
          (length p.buffer - (h.offset + h.payload_len))
          (finish_data valid flate false p h checked payload)
  unfolding finish_data finish_frame
  finish_data-Rests p h checked payload d own zero_checked rest =
      let n = h.offset + h.payload_len in
      elim (Bool-cases (h.fin && h.compressed)) [
        | inl deflated ↦ elim (Bool-cases (is_text p h)) [
          | inl t ↦
              let plain_text = text_plain p h t d in absurd (ground (arith, plain_text, deflated))
          | inr t ↦ rw deflated (
              emit_inflated-Rests (length p.buffer - n) h.opcode (λ q. finish_frame false q n) p
                payload
                λ w.
                  consume-IsRested (length p.buffer) (record p { window = w }) n
                    (record {
                      owns = own;
                      size = omega arith;
                      none_checked = zero_checked;
                      at_rest = rest t;
                    }))
        ]
        | inr raw ↦ elim (Bool-cases h.fin) [
          | inl fin ↦ elim (Bool-cases (is_text p h)) [
            | inl t ↦ elim (Bool-cases (whole_text valid flate p checked payload)) [
              | inl good ↦
                  rw (raw, t, good, fin)
                    (consume-IsRested (length p.buffer) (record p { text = fresh }) n
                      (refreshed p p.fragment p.window own zero_checked))
              | inr bad ↦ rw (raw, t, bad, fin) tt
            ]
            | inr t ↦
                rw (raw, t, fin)
                  (consume-IsRested (length p.buffer) p n (record {
                    owns = own;
                    size = omega arith;
                    none_checked = zero_checked;
                    at_rest = rest t;
                  }))
          ]
          | inr going_on ↦
              elim (Option-cases (more_text valid flate (is_text p h) p checked payload)) [
                | inl e ↦ rw (finish_data, e, raw, going_on) tt
                | inr (v, e) ↦
                    let f : Fragment = record {
                      opcode = h.opcode;
                      compressed = h.compressed;
                      data_bytes = payload;
                    } in
                    rw (finish_data, e, raw, going_on)
                      (consume-IsRested (length p.buffer) (record p { text = v; fragment = some f })
                        n (in_message p v f own zero_checked))
              ]
        ]
      ]

  finish_continuation-Rests :
      (p : Parser) (h : Head) (f : Fragment) (checked : ℕ) (payload : List ℕ)
      → IsOwn p
      → p.text_checked ≡ 0
      → Rests
          (length p.buffer - (h.offset + h.payload_len))
          (finish_continuation valid flate p h f checked payload)
  unfolding finish_continuation consume
  finish_continuation-Rests p h f checked payload own zero_checked =
      let n = h.offset + h.payload_len in
      let whole = f.data_bytes ++ payload in
      elim (Option-cases (more_text valid flate (is_text p h) p checked payload)) [
        | inl e ↦ rw (finish_continuation, e) tt
        | inr (v, e) ↦ elim (Bool-cases (is_text p h && h.fin && not (complete v))) [
          | inl bad ↦ rw (finish_continuation, e, bad) tt
          | inr fine ↦ elim (Bool-cases (not h.fin)) [
            | inl going_on ↦
                rw (finish_continuation, e, fine, going_on)
                  (record {
                    owns = (rw own.0 refl, own.1, own.2);
                    size = omega (arith, length-drop n p.buffer);
                    none_checked = zero_checked;
                    at_rest = λ e. absurd cc;
                  })
            | inr fin ↦ elim (Bool-cases f.compressed) [
              | inl deflated ↦
                  let f' : Fragment = record {
                    opcode = f.opcode;
                    compressed = true;
                    data_bytes = whole;
                  } in
                  rw (finish_continuation, e, fine, fin, deflated)
                    (emit_inflated-Rests (length p.buffer - n) f.opcode ended
                      (consume (record p { text = v; fragment = some f' }) n) whole
                      λ w. record {
                        owns = (rw own.0 refl, own.1, own.2);
                        size = omega (arith, length-drop n p.buffer);
                        none_checked = zero_checked;
                        at_rest = λ e. refl;
                      })
              | inr raw ↦
                  rw (finish_continuation, e, fine, fin, raw)
                    (record {
                      owns = (rw own.0 refl, own.1, own.2);
                      size = omega (arith, length-drop n p.buffer);
                      none_checked = zero_checked;
                      at_rest = λ e. refl;
                    })
            ]
          ]
        ]
      ]

  pub finish-Rests :
      (p : Parser) (h : Head) (checked : ℕ) (payload : List ℕ)
      → IsOwn p
      → p.text_checked ≡ 0
      → (is_text p h ≡ false → p.fragment ≡ none → p.text.need ≡ 0)
      → Rests
          (length p.buffer - (h.offset + h.payload_len))
          (finish valid flate false p h checked payload)
  unfolding finish
  finish-Rests p h checked payload own zero_checked rest = elim (Bool-cases (is_control h.opcode)) [
    | inl c ↦ rw c (
        finish_control-Rests p h payload (record {
          owns = own;
          size = omega arith;
          none_checked = zero_checked;
          at_rest = rest (control_not_text p h c);
        }))
    | inr c ↦ elim (Bool-cases (is_data h.opcode)) [
      | inl d ↦ rw (c, d) (finish_data-Rests p h checked payload d own zero_checked rest)
      | inr d ↦ elim (Option-cases p.fragment) [
        | inl e ↦ rw (fragment_none valid flate p h checked payload c d e) tt
        | inr (f, e) ↦
            rw (fragment_some valid flate p h f checked payload c d e)
              (finish_continuation-Rests p h f checked payload own zero_checked)
      ]
    ]
  ]
