-- ===== src/Conn/Transfer/Flush/Ends.antt =====
-- The loop of flushOutput (go/connection.go) ends, when every system call makes progress.
use event_work_balance.Base.{
  ℕ, ◌<◌, ◌≢◌, ◌≡◌, refl, sym, ap, ◌∙◌, List, [], ◌∷◌, ◌++◌, Option, some, arith, length, take,
  length-append, length-take, subst,
}
use event_work_balance.Conn.State.{SendItem}
use event_work_balance.Conn.SendQueue.{queued}
use event_work_balance.Conn.SendQueue.Stream.{unsent}
use event_work_balance.Conn.Engine.{World, Errno, sub_pending}
use event_work_balance.Conn.Transfer.Calls.{Calls, Sent}
use event_work_balance.Conn.Transfer.Flush.{
  Next, continues, returns, offer, note_segment, after_call, after_offer, flush_items, flush_round,
  flush_rounds, flushed, go_on,
}
use event_work_balance.Conn.Transfer.Flush.Laws.{IsSound, Answers, accepted, flush_round_keeps}

-- The system calls return, and each takes something.
abbrev pub Progresses : (ℕ → ℕ → ℕ) → Calls → World → Type 0
Progresses contents calls w =
    queued w.conn ≢ []
    → (sent : Sent) × (offer contents w.engine.use_writev calls (queued w.conn) ≡ some sent)
      × (0 < sent.n)

-- The socket keeps this up along the rounds.
abbrev pub Serves : (ℕ → ℕ → ℕ) → List Calls → World → Type 0
Serves contents [] w = Unit {0}
Serves contents (calls ∷ rest) w =
    Answers contents calls w
    × Progresses contents calls w
    × ((w' : World) → flush_round contents calls w ≡ some (w', continues) → Serves contents rest w')

after_call_wire :
    (sent : Sent) (w : World)
    → 0 < sent.n
    → (after_call sent w).0.wire ≡ w.wire ++ take sent.n sent.offered
unfolding after_call sub_pending
after_call_wire sent w h = ground arith

flushed_ends : (w : World) → (flushed w).1 ≢ continues
unfolding flushed
flushed_ends w e = ground arith

module _ (contents : ℕ → ℕ → ℕ) (calls : Calls) (w : World) (a : Answers contents calls w)
    (p : Progresses contents calls w) where
  -- A round returns, and goes on only with more bytes on the wire.
  flush_items_step :
      (items : List SendItem)
      → queued w.conn ≡ items
      → (r : World × Next) × (flush_items contents calls w items ≡ some r)
        × (r.1 ≡ continues → length w.wire < length r.0.wire)
  unfolding flush_items flushed
  flush_items_step [] q = (flushed w, refl, λ e. absurd (flushed_ends w e))
  flush_items_step (head ∷ items) q =
      let (sent, offered, h) = p (λ none_left. cc) in
      let o : offer contents w.engine.use_writev calls (head ∷ items) ≡ some sent =
        rw q at offered in
      let v = record w { conn = note_segment sent.segment w.conn } in
      let within = a sent offered in
      (
        after_call sent v,
        rw (o, after_offer),
        λ _. omega (
          arith,
          ap length (after_call_wire sent v h),
          length-append w.wire (take sent.n sent.offered),
          length-take sent.n sent.offered,
        ),
      )

  flush_round_step :
      (r : World × Next) × (flush_round contents calls w ≡ some r)
      × (r.1 ≡ continues → length w.wire < length r.0.wire)
  unfolding flush_round
  flush_round_step = flush_items_step (queued w.conn) refl

flush_rounds-go_on :
    (contents : ℕ → ℕ → ℕ) (calls : Calls) (rest : List Calls) (w w' : World) (next : Next)
    → flush_round contents calls w ≡ some (w', next)
    → flush_rounds contents (calls ∷ rest) w ≡ go_on contents rest w' next
unfolding flush_rounds go_on
flush_rounds-go_on contents calls rest w w' continues e = rw (e, flush_rounds)
flush_rounds-go_on contents calls rest w w' (returns x) e = rw (e, flush_rounds)

-- A result that keeps the accepted bytes of `w`.
abbrev pub Ends : (ℕ → ℕ → ℕ) → World → Option (World × Option Errno) → Type 0
Ends contents w o =
    (r : World × Option Errno) × (o ≡ some r)
    × IsSound r.0
    × (accepted contents r.0 ≡ accepted contents w)

go_on-Ends :
    (contents : ℕ → ℕ → ℕ) (rest : List Calls) (w w' : World) (next : Next)
    → IsSound w'
    → accepted contents w' ≡ accepted contents w
    → (next ≡ continues → Ends contents w' (flush_rounds contents rest w'))
    → Ends contents w (go_on contents rest w' next)
unfolding go_on
go_on-Ends contents rest w w' (returns x) s e later = ((w', x), refl, s, e)
go_on-Ends contents rest w w' continues s e later =
    let (r, returned, sound, same) = later refl in (r, returned, sound, same ∙ e)

-- On a well-formed queue, with system calls that return, take something in every round and no more
-- than they are offered, the loop of flushOutput returns if it is given more rounds than there are
-- bytes to send, and leaves a well-formed queue and the same bytes on the wire and in the queue.
pub flush_rounds_return :
    (contents : ℕ → ℕ → ℕ) (calls : List Calls) (w : World)
    → IsSound w
    → Serves contents calls w
    → length (unsent contents w.conn) < length calls
    → Ends contents w (flush_rounds contents calls w)
flush_rounds_return contents [] w s v h = absurd (omega arith)
flush_rounds_return contents (calls ∷ rest) w s (a, p, later) h =
    let ((w', next), e, more) = flush_round_step contents calls w a p in
    let (sound, same) = flush_round_keeps contents calls w w' next s a e in
    subst (Ends contents w) (sym (flush_rounds-go_on contents calls rest w w' next e)) (
      go_on-Ends contents rest w w' next sound same λ c.
        flush_rounds_return contents rest w' sound (later w' (e ∙ ap (λ n. some (w', n)) c)) (
          omega (
            arith,
            ap length same,
            more c,
            length-append w.wire (unsent contents w.conn),
            length-append w'.wire (unsent contents w'.conn),
          )))
