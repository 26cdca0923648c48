-- ===== src/Websocket/Frame/Answers.antt =====
-- go/websocket/frame.go: an answer of next stands when more bytes come.
use event_work_balance.Base.{
  subst, ℕ, ◌+◌, ◌-◌, ◌≤◌, ◌<◌, ◌≡◌, ◌↔◌, inl, inr, refl, sym, ap, ◌∙◌, List, Bool, true, false,
  not, leb, ltb, some, arith, length, take, drop, Bool-cases, Option-cases, length-drop,
  take-append_le, length-append,
}
use event_work_balance.Websocket.Utf8.WellFormed.{IsUtf8}
use event_work_balance.Websocket.Frame.{
  Parser, Head, Error, short, wrong, got, is_text, unmask, read_head,
}
use event_work_balance.Websocket.Frame.Heads.{read_head-IsTimely}
use event_work_balance.Websocket.Frame.Next.{
  Outcome, incomplete, failed, finish, partial, with_head, next, next_of,
}
use event_work_balance.Websocket.Frame.Reads.{reads}
use event_work_balance.Websocket.Frame.Stable.{plain, view, text_partial}
use event_work_balance.Websocket.Frame.Plain.{Got-cases}
use event_work_balance.Websocket.Frame.Mores.{more, grown, finish-more}
use event_work_balance.Websocket.Frame.Splits.{partial_old}
use event_work_balance.Websocket.Frame.Again.{IsReady, head_more, with_head-Ready, got_same}
use event_work_balance.Websocket.Frame.Ready.{Rests, finish-Rests}
use event_work_balance.Websocket.Frame.Chunks.{swap, next_at, drop-more, checked_more}

pub some_same {ℓ} : {A : Type ℓ} (a b : A) → some a ≡ some b → a ≡ b
some_same a b e = cc

-- A parser that waits is told by what can be seen of it.
waits_as :
    (r : Parser × Outcome) (q s : Parser)
    → r ≡ (q, incomplete)
    → view r ≡ (some (plain s), incomplete)
    → plain q ≡ plain s
waits_as r q s e v =
    let same = sym (ap view e) ∙ v in some_same (plain q) (plain s) (ap (λ r. r.0) same)

module _ (valid : List ℕ → Bool) (flate : List ℕ → List ℕ → List ℕ × Bool)
    (documented : (p : List ℕ) → (valid p ≡ true) ↔ IsUtf8 p) where
  -- Whether the frame at the front of the buffer is whole.
  abbrev pub whole_at : Parser → Head → Bool
  whole_at p h = not (ltb (length (drop h.offset p.buffer)) h.payload_len)

  with_head-whole :
      (p : Parser) (h : Head)
      → whole_at p h ≡ true
      → with_head valid flate false p h
        ≡ finish valid flate false
            (record p { text_checked = 0 })
            h
            p.text_checked
            (unmask h (take h.payload_len (drop h.offset p.buffer)))
  unfolding with_head
  with_head-whole p h w =
      let all : ltb (length (drop h.offset p.buffer)) h.payload_len ≡ false = ground arith in
      rw all refl

  with_head-part :
      (p : Parser) (h : Head)
      → whole_at p h ≡ false
      → with_head valid flate false p h ≡ partial valid flate p h (drop h.offset p.buffer)
  unfolding with_head
  with_head-part p h w =
      let few : ltb (length (drop h.offset p.buffer)) h.payload_len ≡ true = ground arith in
      rw few refl

  pub partial-other :
      (p : Parser) (h : Head) (a : List ℕ)
      → is_text p h ≡ false
      → partial valid flate p h a ≡ (p, incomplete)
  unfolding partial
  partial-other p h a t = rw t refl

  -- A frame that is whole is taken, or refused, whatever is behind it.
  pub whole-more :
      (p : Parser) (h : Head) (ys : List ℕ)
      → IsReady p
      → read_head p p.buffer ≡ got h
      → whole_at p h ≡ true
      → next valid flate false (more p ys) ≡ grown ys (next valid flate false p)
  whole-more p h ys r e w =
      let t = read_head-IsTimely p p.buffer h e in
      let a = drop h.offset p.buffer in
      let enough : h.payload_len ≤ length a = ground (arith, w) in
      let size : h.offset + h.payload_len ≤ length p.buffer =
        omega (arith, t.in_range, enough, length-drop h.offset p.buffer) in
      let same = drop-more valid flate documented p h ys e in
      let w' : whole_at (more p ys) h ≡ true =
        rw same (ground (arith, enough, length-append a ys)) in
      next_at valid flate documented (more p ys) h (head_more p h ys e)
      ∙ with_head-whole (more p ys) h w'
      ∙ ap
          (λ b.
            finish valid flate false (record (more p ys) { text_checked = 0 }) h p.text_checked
              (unmask h b))
          (ap (take h.payload_len) same ∙ take-append_le h.payload_len a ys enough)
      ∙ finish-more valid flate (record p { text_checked = 0 }) h p.text_checked
          (unmask h (take h.payload_len a)) ys r.owns.0 size
      ∙ ap (grown ys) (sym (with_head-whole p h w))
      ∙ ap (grown ys) (sym (next_at valid flate documented p h e))

  pub whole-Rests :
      (p : Parser) (h : Head)
      → IsReady p
      → read_head p p.buffer ≡ got h
      → whole_at p h ≡ true
      → Rests (length p.buffer - (h.offset + h.payload_len)) (next valid flate false p)
  unfolding is_text
  whole-Rests p h r e w =
      let payload = unmask h (take h.payload_len (drop h.offset p.buffer)) in
      let start = next_at valid flate documented p h e ∙ with_head-whole p h w in
      subst (Rests (length p.buffer - (h.offset + h.payload_len))) (sym start) (
        finish-Rests valid flate (record p { text_checked = 0 }) h p.text_checked payload r.owns
          refl
          λ t f. elim r.in_text [
            | inl z ↦ r.at_rest f z
            | inr (h', e', t', le) ↦
                let same : h' ≡ h = got_same h' h (sym e' ∙ e) in
                absurd (cc (sym t ∙ ap (is_text p) (sym same) ∙ t'))
          ])

  pub next_short :
      (p : Parser) → read_head p p.buffer ≡ short → next valid flate false p ≡ (p, incomplete)
  unfolding next next_of
  next_short p e = rw (next, e) refl

  pub next_wrong :
      (p : Parser) (x : Error)
      → read_head p p.buffer ≡ wrong x
      → next valid flate false p ≡ (p, failed x)
  unfolding next next_of
  next_wrong p x e = rw (next, e) refl

  pub next_part :
      (p : Parser) (h : Head)
      → read_head p p.buffer ≡ got h
      → whole_at p h ≡ false
      → next valid flate false p ≡ partial valid flate p h (drop h.offset p.buffer)
  next_part p h e w = next_at valid flate documented p h e ∙ with_head-part p h w

  -- What is made of a part of a text frame, when some of it is new.
  pub part_text :
      (p : Parser) (h : Head)
      → IsReady p
      → read_head p p.buffer ≡ got h
      → whole_at p h ≡ false
      → is_text p h ≡ true
      → (let a = drop h.offset p.buffer in
          view (next valid flate false p)
          ≡ view (text_partial p (length a) (reads p.text (drop p.text_checked (unmask h a)))))
  part_text p h r e w t =
      let few : ltb (length (drop h.offset p.buffer)) h.payload_len ≡ true = ground arith in
      ap view (next_at valid flate documented p h e)
      ∙ with_head-Ready valid flate documented p h r e t
      ∙ rw few refl

  waits_text :
      (p q : Parser) (h : Head) (ys : List ℕ)
      → IsReady p
      → read_head p p.buffer ≡ got h
      → whole_at p h ≡ false
      → is_text p h ≡ true
      → p.text_checked < length (drop h.offset p.buffer)
      → next valid flate false p ≡ (q, incomplete)
      → IsReady q
        × (view (next valid flate false (more q ys)) ≡ view (next valid flate false (more p ys)))
  waits_text p q h ys r g w t new e =
      let a = drop h.offset p.buffer in
      let v = part_text p h r g w t in
      elim (Option-cases (reads p.text (drop p.text_checked (unmask h a)))) [
        | inl bad ↦
            let bad_view = v ∙ ap (λ o. view (text_partial p (length a) o)) bad in
            absurd (cc (sym (ap view e) ∙ bad_view))
        | inr (u, good) ↦
            let p' = record p { text = u; text_checked = length a } in
            let same =
              waits_as (next valid flate false p) q p' e
                (v ∙ ap (λ o. view (text_partial p (length a) o)) good) in
            let (r', ahead) =
              checked_more valid flate documented p h u ys r g t (ground (arith, w)) new good in
            let (s, swapped) = swap valid flate documented p' q ys same r' in (s, swapped ∙ ahead)
      ]

  -- Bytes that come while the parser waits are as good as bytes that were there before.
  pub next_waits :
      (p q : Parser) (ys : List ℕ)
      → IsReady p
      → next valid flate false p ≡ (q, incomplete)
      → IsReady q
        × (view (next valid flate false (more q ys)) ≡ view (next valid flate false (more p ys)))
  next_waits p q ys r e =
      let still : next valid flate false p ≡ (p, incomplete)
          → IsReady q
            × (view (next valid flate false (more q ys))
                ≡ view (next valid flate false (more p ys))) =
        λ s.
          swap valid flate documented p q ys (waits_as (next valid flate false p) q p e (ap view s))
            r in
      elim (Got-cases (read_head p p.buffer)) [
        | inl s ↦ still (next_short p s)
        | inr (inl (x, s)) ↦ absurd (cc (sym e ∙ next_wrong p x s))
        | inr (inr (h, g)) ↦ elim (Bool-cases (whole_at p h)) [
          | inl w ↦ absurd (
              cc (
                subst (Rests (length p.buffer - (h.offset + h.payload_len))) e
                  (whole-Rests p h r g w)))
          | inr w ↦ elim (Bool-cases (is_text p h)) [
            | inr t ↦ still (next_part p h g w ∙ partial-other p h (drop h.offset p.buffer) t)
            | inl t ↦ elim (Bool-cases (leb (length (drop h.offset p.buffer)) p.text_checked)) [
              | inl old ↦
                  swap valid flate documented p q ys
                    (waits_as (next valid flate false p) q p e (
                      ap view (next_part p h g w)
                      ∙ partial_old valid flate documented p h (drop h.offset p.buffer)
                          (ground (arith, old))))
                    r
              | inr new ↦ waits_text p q h ys r g w t (ground (arith, new)) e
            ]
          ]
        ]
      ]
