-- ===== src/Websocket/Frame/Feeds.antt =====
-- Feed of go/websocket/frame.go, with fuel enough, and the runs of next.
use event_work_balance.Base.{
  subst, ℕ, zero, suc, ◌+◌, ◌<◌, ◌≡◌, ◌↔◌, ◌⊎◌, inl, inr, refl, ap, ◌∙◌, List, [], ◌∷◌, ◌++◌, Bool,
  true, false, ◌==◌, Option, none, some, arith, if◌then◌else◌, length, Bool-cases, length-append,
  append-nil,
}
use event_work_balance.Websocket.Utf8.WellFormed.{IsUtf8}
use event_work_balance.Websocket.Frame.{Parser, Error, Event}
use event_work_balance.Websocket.Frame.Next.{Outcome, incomplete, failed, progress, next}
use event_work_balance.Websocket.Frame.Mores.{more}
use event_work_balance.Websocket.Frame.Again.{IsReady, IsReady-more}
use event_work_balance.Websocket.Frame.Answers.{next_waits}
use event_work_balance.Websocket.Frame.Runs.{next_takes}
use event_work_balance.Websocket.Frame.Feed.{
  Answer, gives, nothing, fault, cleared, tail_waits, take_tail, adopt, settle, append_data,
  feed_loop, feed_one, feed, and_event,
}
use event_work_balance.Websocket.Frame.Chunked.{Runs, waits, fails, skips, emits}

outcome_cases :
    (r : Parser × Outcome)
    → ((q : Parser) × (r ≡ (q, incomplete)))
      ⊎ (((q : Parser) × (x : Error) × (r ≡ (q, failed x)))
          ⊎ (((q : Parser) × (r ≡ (q, progress none)))
              ⊎ ((q : Parser) × (event : Event) × (r ≡ (q, progress (some event))))))
outcome_cases (q, incomplete) = inl (q, refl)
outcome_cases (q, failed x) = inr (inl (q, x, refl))
outcome_cases (q, progress none) = inr (inr (inl (q, refl)))
outcome_cases (q, progress (some event)) = inr (inr (inr (q, event, refl)))

-- What an answer says of the run from `p`, with `q` left.
abbrev Follows :
    (List ℕ → Bool) → (List ℕ → List ℕ → List ℕ × Bool) → Parser → Parser → Answer → Type 0
Follows valid flate p q (fault x) = Runs valid flate p [] (some x) q
Follows valid flate p q nothing = Runs valid flate p [] none q × IsReady q
Follows valid flate p q (gives event) =
    IsReady q
    × (length q.buffer < length p.buffer)
    × ((es : List Event) (r : Option Error) (s : Parser)
        → Runs valid flate q es r s
        → Runs valid flate p (event ∷ es) r s)

module _ (valid : List ℕ → Bool) (flate : List ℕ → List ℕ → List ℕ × Bool)
    (documented : (p : List ℕ) → (valid p ≡ true) ↔ IsUtf8 p) where
  abbrev loop_rest : ℕ → Parser × Outcome → Option (Parser × Answer)
  loop_rest fuel (q, failed e) = some (cleared q, fault e)
  loop_rest fuel (q, incomplete) =
      if tail_waits q
      then feed_loop valid flate fuel false (take_tail q)
      else some (adopt q, nothing)
  loop_rest fuel (q, progress none) = feed_loop valid flate fuel false q
  loop_rest fuel (q, progress (some event)) = some (q, gives event)

  feed_loop-rest :
      (fuel : ℕ) (p : Parser) (r : Parser × Outcome)
      → next valid flate false p ≡ r
      → feed_loop valid flate (suc fuel) false p ≡ loop_rest fuel r
  unfolding feed_loop
  feed_loop-rest fuel p (q, failed x) e = rw (feed_loop, e, e) refl
  feed_loop-rest fuel p (q, incomplete) e = elim (Bool-cases (tail_waits q)) [
    | inl there ↦ rw (feed_loop, e, e, there, e) refl
    | inr gone ↦ rw (feed_loop, e, e, gone, e) refl
  ]
  feed_loop-rest fuel p (q, progress none) e = rw (feed_loop, e, e) refl
  feed_loop-rest fuel p (q, progress (some event)) e = rw (feed_loop, e, e) refl

  waiting : (q : Parser) → IsReady q → (tail_waits q ≡ false) × (adopt q ≡ q)
  waiting q r = (rw (r.owns.1) (ground arith), rw (r.owns.0) refl)

  skipped :
      (p q s : Parser) (a : Answer)
      → next valid flate false p ≡ (q, progress none)
      → Follows valid flate q s a
      → length q.buffer < length p.buffer
      → Follows valid flate p s a
  skipped p q s (fault x) e run shorter = skips e run
  skipped p q s nothing e (run, rs) shorter = (skips e run, rs)
  skipped p q s (gives event) e (rs, lt, onward) shorter =
      (rs, omega (arith, lt, shorter), λ es r t run. skips e (onward es r t run))

  -- With more fuel than bytes the loop comes to an answer, and it is what a run says.
  feed_loop-Follows :
      (fuel : ℕ) (p : Parser)
      → IsReady p
      → length p.buffer < fuel
      → (q : Parser) × (a : Answer) × (feed_loop valid flate fuel false p ≡ some (q, a))
        × Follows valid flate p q a
  feed_loop-Follows zero p r lt = absurd (omega (arith, lt))
  feed_loop-Follows (suc fuel) p r lt = elim (outcome_cases (next valid flate false p)) [
    | inl (q, e) ↦
        let (rq, v) = next_waits valid flate documented p q [] r e in
        let (no_tail, same) = waiting q rq in
        (
          q,
          nothing,
          feed_loop-rest fuel p (q, incomplete) e ∙ rw no_tail (ap (λ q. some (q, nothing)) same),
          (waits e, rq),
        )
    | inr (inl (q, x, e)) ↦ (cleared q, fault x, feed_loop-rest fuel p (q, failed x) e, fails e)
    | inr (inr (inl (q, e))) ↦
        let (rq, shorter, e') = next_takes valid flate documented p q none [] r e in
        let (s, a, f, follows) = feed_loop-Follows fuel q rq (omega (arith, lt, shorter)) in
        (s, a, feed_loop-rest fuel p (q, progress none) e ∙ f, skipped p q s a e follows shorter)
    | inr (inr (inr (q, event, e))) ↦
        let (rq, shorter, e') = next_takes valid flate documented p q (some event) [] r e in
        (
          q,
          gives event,
          feed_loop-rest fuel p (q, progress (some event)) e,
          (rq, shorter, λ es r s run. emits e run),
        )
  ]

  abbrev feed_rest : ℕ → Option (Parser × Answer) → Option (List Event × Option Error × Parser)
  feed_rest fuel none = none
  feed_rest fuel (some (q, fault e)) = some ([], some e, q)
  feed_rest fuel (some (q, nothing)) = some ([], none, q)
  feed_rest fuel (some (q, gives event)) = and_event event (feed valid flate fuel q [])

  feed_one-ready :
      (fuel : ℕ) (p : Parser) (data_bytes : List ℕ)
      → IsReady p
      → feed_one valid flate fuel false p data_bytes
        ≡ feed_loop valid flate fuel false (more p data_bytes)
  unfolding feed_one settle append_data
  feed_one-ready fuel p data_bytes r =
      let at_once : (p.pending_consume == 0) ≡ true = rw (r.owns.2) refl in
      let no_tail : tail_waits p ≡ false = (waiting p r).0 in rw (at_once, no_tail) refl

  feed-rest :
      (fuel : ℕ) (p : Parser) (data_bytes : List ℕ) (o : Option (Parser × Answer))
      → feed_one valid flate (suc fuel) false p data_bytes ≡ o
      → feed valid flate (suc fuel) p data_bytes ≡ feed_rest fuel o
  unfolding feed
  feed-rest fuel p data_bytes none e = rw (feed, e) refl
  feed-rest fuel p data_bytes (some (q, fault x)) e = rw (feed, e) refl
  feed-rest fuel p data_bytes (some (q, nothing)) e = rw (feed, e) refl
  feed-rest fuel p data_bytes (some (q, gives event)) e = rw (feed, e) refl

  abbrev Fed : Parser → Option (List Event × Option Error × Parser) → Type 0
  Fed p o =
      (es : List Event) × (r : Option Error) × (q : Parser) × (o ≡ some (es, r, q))
      × Runs valid flate p es r q
      × (r ≡ none → IsReady q)

  answered :
      (fuel : ℕ) (p : Parser) (data_bytes : List ℕ) (q : Parser) (a : Answer)
      → feed valid flate (suc fuel) p data_bytes ≡ feed_rest fuel (some (q, a))
      → Follows valid flate (more p data_bytes) q a
      → (IsReady q
          → length q.buffer < length (p.buffer ++ data_bytes)
          → Fed (more q []) (feed valid flate fuel q []))
      → Fed (more p data_bytes) (feed valid flate (suc fuel) p data_bytes)
  answered fuel p data_bytes q (fault x) e run again = ([], some x, q, e, run, λ z. absurd cc)
  answered fuel p data_bytes q nothing e (run, rq) again = ([], none, q, e, run, λ z. rq)
  answered fuel p data_bytes q (gives event) e (rq, shorter, onward) again =
      let (es, r, s, f, run, rs) = again rq shorter in
      let same : more q [] ≡ q = ap (λ b. record q { buffer = b }) (append-nil q.buffer) in
      (
        event ∷ es,
        r,
        s,
        e ∙ ap (and_event event) f,
        onward es r s (subst (λ x. Runs valid flate x es r s) same run),
        rs,
      )

  -- With more fuel than it has bytes Feed returns: the events and the error are those of calling next until
  -- it waits or fails, on the parser with the bytes behind those of its buffer, and a parser that has not
  -- failed is ready for more. The parser was ready, and utf8.Valid answers true for exactly the
  -- well-formed texts.
  pub feed-Runs :
      (fuel : ℕ) (p : Parser) (data_bytes : List ℕ)
      → IsReady p
      → length p.buffer + length data_bytes < fuel
      → (es : List Event) × (r : Option Error) × (q : Parser) × (feed valid flate fuel p data_bytes
          ≡ some (es, r, q))
        × Runs valid flate (more p data_bytes) es r q
        × (r ≡ none → IsReady q)
  feed-Runs zero p data_bytes rp lt = absurd (omega (arith, lt))
  feed-Runs (suc fuel) p data_bytes rp lt =
      let size = length-append p.buffer data_bytes in
      let (q, a, e, follows) =
        feed_loop-Follows (suc fuel) (more p data_bytes) (IsReady-more p data_bytes rp)
          (omega (arith, size, lt)) in
      answered fuel p data_bytes q a
        (feed-rest fuel p data_bytes (some (q, a)) (feed_one-ready (suc fuel) p data_bytes rp ∙ e))
        follows (λ rq shorter. feed-Runs fuel q [] rq (omega (arith, shorter, size, lt)))
