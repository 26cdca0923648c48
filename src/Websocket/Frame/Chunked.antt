-- ===== src/Websocket/Frame/Chunked.antt =====
-- go/websocket/frame.go: bytes fed in two parts give the events and the error that they give at once.
use event_work_balance.Base.{
  subst, ℕ, ◌≡◌, ◌↔◌, refl, sym, ap, ◌∙◌, List, [], ◌∷◌, ◌++◌, Bool, true, false, Option, none,
  some,
}
use event_work_balance.Websocket.Utf8.WellFormed.{IsUtf8}
use event_work_balance.Websocket.Frame.{Parser, Error, Event}
use event_work_balance.Websocket.Frame.Next.{Outcome, incomplete, failed, progress, next}
use event_work_balance.Websocket.Frame.Stable.{plain, view}
use event_work_balance.Websocket.Frame.Mores.{more}
use event_work_balance.Websocket.Frame.Again.{IsReady, IsReady-more, next-plain}
use event_work_balance.Websocket.Frame.Chunks.{view-failed}
use event_work_balance.Websocket.Frame.Answers.{next_waits, some_same}
use event_work_balance.Websocket.Frame.Runs.{next_fails, next_takes}
use event_work_balance.Websocket.Frame.Feed.{cleared}

-- The loop over next until more bytes are needed or the connection fails: the events, the error, and the
-- parser that is left.
pub data Runs (valid : List ℕ → Bool) (flate : List ℕ → List ℕ → List ℕ × Bool)
    : Parser → List Event → Option Error → Parser → Type 0 where
  waits : {p q : Parser} → next valid flate false p ≡ (q, incomplete) → Runs valid flate p [] none q
  fails :
      {p q : Parser} {x : Error}
      → next valid flate false p ≡ (q, failed x)
      → Runs valid flate p [] (some x) (cleared q)
  skips :
      {p q s : Parser} {es : List Event} {r : Option Error}
      → next valid flate false p ≡ (q, progress none)
      → Runs valid flate q es r s
      → Runs valid flate p es r s
  emits :
      {p q s : Parser} {event : Event} {es : List Event} {r : Option Error}
      → next valid flate false p ≡ (q, progress (some event))
      → Runs valid flate q es r s
      → Runs valid flate p (event ∷ es) r s

-- What the rest of a run is, by what next has answered.
abbrev pub Rest :
    (List ℕ → Bool)
    → (List ℕ → List ℕ → List ℕ × Bool)
    → Parser × Outcome
    → List Event
    → Option Error
    → Parser
    → Type 0
Rest valid flate (q, incomplete) es r s = (es ≡ []) × (r ≡ none) × (s ≡ q)
Rest valid flate (q, failed x) es r s = (es ≡ []) × (r ≡ some x) × (s ≡ cleared q)
Rest valid flate (q, progress none) es r s = Runs valid flate q es r s
Rest valid flate (q, progress (some event)) es r s =
    (fs : List Event) × (es ≡ event ∷ fs) × Runs valid flate q fs r s

-- A run with these answers, that ends in a parser that is as good.
abbrev pub Ends :
    (List ℕ → Bool)
    → (List ℕ → List ℕ → List ℕ × Bool)
    → Parser
    → List Event
    → Option Error
    → Parser
    → Type 0
Ends valid flate p es r s =
    (t : Parser) × Runs valid flate p es r t × (r ≡ none → plain t ≡ plain s)

seen_as :
    (r : Parser × Outcome) (q : Parser) (o : Outcome)
    → view r ≡ (some (plain q), o)
    → (t : Parser) × (r ≡ (t, o)) × (plain t ≡ plain q)
seen_as (t, incomplete) q o e =
    (t, ap (λ o. (t, o)) (ap (λ r. r.1) e), some_same (plain t) (plain q) (ap (λ r. r.0) e))
seen_as (t, failed x) q o e = absurd cc
seen_as (t, progress event) q o e =
    (t, ap (λ o. (t, o)) (ap (λ r. r.1) e), some_same (plain t) (plain q) (ap (λ r. r.0) e))

module _ (valid : List ℕ → Bool) (flate : List ℕ → List ℕ → List ℕ × Bool)
    (documented : (p : List ℕ) → (valid p ≡ true) ↔ IsUtf8 p) where
  pub Runs-Rest :
      (p : Parser) (es : List Event) (r : Option Error) (s : Parser)
      → Runs valid flate p es r s
      → Rest valid flate (next valid flate false p) es r s
  Runs-Rest p es r s (waits {q = q} e) =
      subst (λ x. Rest valid flate x [] none q) (sym e) (refl, refl, refl)
  Runs-Rest p es r s (fails {q = q} {x = x} e) =
      subst (λ y. Rest valid flate y [] (some x) (cleared q)) (sym e) (refl, refl, refl)
  Runs-Rest p es r s (skips e rest) = subst (λ x. Rest valid flate x es r s) (sym e) rest
  Runs-Rest p es r s (emits {event = event} {es = fs} e rest) =
      subst (λ x. Rest valid flate x (event ∷ fs) r s) (sym e) (fs, refl, rest)

  same_next :
      (a b : Parser)
      → IsReady a
      → IsReady b
      → plain b ≡ plain a
      → view (next valid flate false b) ≡ view (next valid flate false a)
  same_next a b ra rb e =
      sym (next-plain valid flate documented b rb)
      ∙ ap (λ x. view (next valid flate false x)) e
      ∙ next-plain valid flate documented a ra

  pub taken :
      (p q : Parser) (event : Option Event)
      → IsReady p
      → next valid flate false p ≡ (q, progress event)
      → IsReady q
  taken p q event r e = (next_takes valid flate documented p q event [] r e).0

  -- A run goes on as it does from a parser of which next sees the same.
  Runs-Ends :
      (a b : Parser) (es : List Event) (r : Option Error) (s : Parser)
      → IsReady a
      → IsReady b
      → view (next valid flate false b) ≡ view (next valid flate false a)
      → Runs valid flate a es r s
      → Ends valid flate b es r s
  Runs-Ends a b es r s ra rb v (waits {q = q} e) =
      let (t, f, same) = seen_as (next valid flate false b) q incomplete (v ∙ ap view e) in
      (t, waits f, λ z. same)
  Runs-Ends a b es r s ra rb v (fails {x = x} e) =
      let (t, f) = view-failed (next valid flate false b) x (v ∙ ap view e) in
      (cleared t, fails f, λ z. absurd cc)
  Runs-Ends a b es r s ra rb v (skips {q = q} e rest) =
      let (t, f, same) = seen_as (next valid flate false b) q (progress none) (v ∙ ap view e) in
      let rq = taken a q none ra e in
      let rt = taken b t none rb f in
      let (u, run, good) = Runs-Ends q t es r s rq rt (same_next q t rq rt same) rest in
      (u, skips f run, good)
  Runs-Ends a b es r s ra rb v (emits {q = q} {event = event} {es = fs} e rest) =
      let (t, f, same) =
        seen_as (next valid flate false b) q (progress (some event)) (v ∙ ap view e) in
      let rq = taken a q (some event) ra e in
      let rt = taken b t (some event) rb f in
      let (u, run, good) = Runs-Ends q t fs r s rq rt (same_next q t rq rt same) rest in
      (u, emits f run, good)

  -- A run, and then one on the bytes that come after it.
  pub Runs-more :
      (p q s : Parser) (es fs : List Event) (r0 r : Option Error) (ys : List ℕ)
      → IsReady p
      → r0 ≡ none
      → Runs valid flate p es r0 q
      → Runs valid flate (more q ys) fs r s
      → Ends valid flate (more p ys) (es ++ fs) r s
  Runs-more p q s es fs r0 r ys rp z (waits e) second =
      let (rq, v) = next_waits valid flate documented p q ys rp e in
      Runs-Ends (more q ys) (more p ys) fs r s (IsReady-more q ys rq) (IsReady-more p ys rp) (sym v)
        second
  Runs-more p q s es fs r0 r ys rp z (fails e) second = absurd cc
  Runs-more p q s es fs r0 r ys rp z (skips {q = q'} e rest) second =
      let (rq, lt, e') = next_takes valid flate documented p q' none ys rp e in
      let (t, run, good) = Runs-more q' q s es fs r0 r ys rq z rest second in
      (t, skips e' run, good)
  Runs-more p q s es fs r0 r ys rp z (emits {q = q'} {event = event} {es = gs} e rest) second =
      let (rq, lt, e') = next_takes valid flate documented p q' (some event) ys rp e in
      let (t, run, good) = Runs-more q' q s gs fs r0 r ys rq z rest second in
      (t, emits e' run, good)

  -- A run that fails does so whatever comes after.
  pub Runs-stuck :
      (p q : Parser) (es : List Event) (x : Error) (r0 : Option Error) (ys : List ℕ)
      → IsReady p
      → r0 ≡ some x
      → Runs valid flate p es r0 q
      → (t : Parser) × Runs valid flate (more p ys) es (some x) t
  Runs-stuck p q es x r0 ys rp z (waits e) = absurd cc
  Runs-stuck p q es x r0 ys rp z (fails {q = q'} {x = y} e) =
      let same = some_same y x z in
      let (t, f) =
        next_fails valid flate documented p q' x ys rp (e ∙ ap (λ y. (q', failed y)) same) in
      (cleared t, fails f)
  Runs-stuck p q es x r0 ys rp z (skips {q = q'} e rest) =
      let (rq, lt, e') = next_takes valid flate documented p q' none ys rp e in
      let (t, run) = Runs-stuck q' q es x r0 ys rq z rest in (t, skips e' run)
  Runs-stuck p q es x r0 ys rp z (emits {q = q'} {event = event} {es = gs} e rest) =
      let (rq, lt, e') = next_takes valid flate documented p q' (some event) ys rp e in
      let (t, run) = Runs-stuck q' q gs x r0 ys rq z rest in (t, emits e' run)
