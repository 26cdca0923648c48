-- ===== src/Websocket/Frame/Parts.antt =====
-- Feed of go/websocket/frame.go does not depend on how the bytes are cut into reads.
use event_work_balance.Base.{
  subst, ℕ, ◌+◌, ◌<◌, ◌≡◌, ◌↔◌, refl, sym, ap, ◌∙◌, List, ◌∷◌, ◌++◌, Bool, true, Option, none, some,
  arith, length, length-append, append_assoc,
}
use event_work_balance.Websocket.Utf8.WellFormed.{IsUtf8}
use event_work_balance.Websocket.Frame.{Parser, Error, Event}
use event_work_balance.Websocket.Frame.Stable.{plain}
use event_work_balance.Websocket.Frame.Mores.{more}
use event_work_balance.Websocket.Frame.Again.{IsReady, IsReady-more}
use event_work_balance.Websocket.Frame.Answers.{some_same}
use event_work_balance.Websocket.Frame.Feed.{feed}
use event_work_balance.Websocket.Frame.Chunked.{
  Runs, waits, fails, skips, emits, Rest, Runs-Rest, Runs-more, Runs-stuck,
}
use event_work_balance.Websocket.Frame.Feeds.{feed-Runs}

module _ (valid : List ℕ → Bool) (flate : List ℕ → List ℕ → List ℕ × Bool)
    (documented : (p : List ℕ) → (valid p ≡ true) ↔ IsUtf8 p) where
  -- There is one run.
  Runs-one :
      (p : Parser) (es es' : List Event) (r r' : Option Error) (s s' : Parser)
      → Runs valid flate p es r s
      → Runs valid flate p es' r' s'
      → (es' ≡ es) × (r' ≡ r) × (s' ≡ s)
  Runs-one p es es' r r' s s' (waits {q = q} e) other =
      subst (λ x. Rest valid flate x es' r' s') e
        (Runs-Rest valid flate documented p es' r' s' other)
  Runs-one p es es' r r' s s' (fails e) other =
      subst (λ x. Rest valid flate x es' r' s') e
        (Runs-Rest valid flate documented p es' r' s' other)
  Runs-one p es es' r r' s s' (skips {q = q} e rest) other = Runs-one q es es' r r' s s' rest (
      subst (λ x. Rest valid flate x es' r' s') e
        (Runs-Rest valid flate documented p es' r' s' other))
  Runs-one p es es' r r' s s' (emits {q = q} {event = event} {es = fs} e rest) other =
      let (fs', head, rest') =
        subst (λ x. Rest valid flate x es' r' s') e
          (Runs-Rest valid flate documented p es' r' s' other) in
      let (a, b, c) = Runs-one q fs fs' r r' s s' rest rest' in (head ∙ ap (◌∷◌ event) a, b, c)

  -- What Feed returned was the run, when the fuel is enough.
  feed_run :
      (fuel : ℕ) (p q : Parser) (bytes : List ℕ) (es : List Event) (r : Option Error)
      → IsReady p
      → length p.buffer + length bytes < fuel
      → feed valid flate fuel p bytes ≡ some (es, r, q)
      → Runs valid flate (more p bytes) es r q × (r ≡ none → IsReady q)
  feed_run fuel p q bytes es r rp lt e =
      let (es', r', q', e', run, rq) = feed-Runs valid flate documented fuel p bytes rp lt in
      let same = some_same (es', r', q') (es, r, q) (sym e' ∙ e) in
      subst (λ x. Runs valid flate (more p bytes) x.0 x.1 x.2 × (x.1 ≡ none → IsReady x.2)) same
        (run, rq)

  feed_of_run :
      (fuel : ℕ) (p q : Parser) (bytes : List ℕ) (es : List Event) (r : Option Error)
      → IsReady p
      → length p.buffer + length bytes < fuel
      → Runs valid flate (more p bytes) es r q
      → feed valid flate fuel p bytes ≡ some (es, r, q)
  feed_of_run fuel p q bytes es r rp lt run =
      let (es', r', q', e', run', rq) = feed-Runs valid flate documented fuel p bytes rp lt in
      let (a, b, c) = Runs-one (more p bytes) es es' r r' q q' run run' in
      e' ∙ ap (λ x. some (x, r', q')) a ∙ ap (λ x. some (es, x, q')) b ∙ ap (λ x. some (es, r, x)) c

  more-more : (p : Parser) (xs ys : List ℕ) → more (more p xs) ys ≡ more p (xs ++ ys)
  more-more p xs ys = ap (λ b. record p { buffer = b }) (append_assoc p.buffer xs ys)

  -- However the bytes of a connection are cut in two, Feed gives the events of the first part and then
  -- those of the second, and ends as it ends when the two parts come at once: with the same events, in
  -- the same order, the same error if there is one, and a parser that is as good if there is none. The
  -- second call, and the call with all bytes, return a result. The parser is ready, as a new one is and as
  -- Feed leaves it, the first part gave no error, utf8.Valid answers true for exactly the well-formed
  -- texts, and the fuel of each call is more than the bytes that it has.
  pub feed-append :
      (m n : ℕ) (p q : Parser) (xs ys : List ℕ) (es : List Event)
      → IsReady p
      → length p.buffer + length xs + length ys < m
      → length q.buffer + length ys < n
      → feed valid flate m p xs ≡ some (es, none, q)
      → (fs : List Event) × (r : Option Error) × (s : Parser) × (t : Parser) × (feed valid flate n q
            ys
          ≡ some (fs, r, s))
        × (feed valid flate m p (xs ++ ys) ≡ some (es ++ fs, r, t))
        × (r ≡ none → plain t ≡ plain s)
  feed-append m n p q xs ys es rp lt lt' first =
      let (run, ready) = feed_run m p q xs es none rp (omega (arith, lt)) first in
      let (fs, r, s, second, run', rs) = feed-Runs valid flate documented n q ys (ready refl) lt' in
      let (t, whole, same) =
        Runs-more valid flate documented (more p xs) q s es fs none r ys (IsReady-more p xs rp) refl
          run run' in
      (
        fs,
        r,
        s,
        t,
        second,
        feed_of_run m p t (xs ++ ys) (es ++ fs) r rp (omega (arith, lt, length-append xs ys))
            (subst (λ x. Runs valid flate x (es ++ fs) r t) (more-more p xs ys) whole),
        same,
      )

  -- Bytes that fail the connection fail it when more bytes come with them: Feed gives the same events and
  -- the same error. The parser is ready, utf8.Valid answers true for exactly the well-formed texts, and
  -- the fuel is more than the bytes.
  pub feed-append_fault :
      (m : ℕ) (p q : Parser) (xs ys : List ℕ) (es : List Event) (x : Error)
      → IsReady p
      → length p.buffer + length xs + length ys < m
      → feed valid flate m p xs ≡ some (es, some x, q)
      → (t : Parser) × (feed valid flate m p (xs ++ ys) ≡ some (es, some x, t))
  feed-append_fault m p q xs ys es x rp lt first =
      let (run, ready) = feed_run m p q xs es (some x) rp (omega (arith, lt)) first in
      let (t, whole) =
        Runs-stuck valid flate documented (more p xs) q es x (some x) ys (IsReady-more p xs rp) refl
          run in
      (
        t,
        feed_of_run m p t (xs ++ ys) es (some x) rp (omega (arith, lt, length-append xs ys))
            (subst (λ y. Runs valid flate y es (some x) t) (more-more p xs ys) whole),
      )
