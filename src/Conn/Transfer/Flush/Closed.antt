-- ===== src/Conn/Transfer/Flush/Closed.antt =====
-- A flush round of go/connection.go and a connection that has been closed.
use event_work_balance.Base.{ℕ, ◌≡◌, sym, ap, ◌∙◌, List, [], ◌∷◌, Option, none, some, arith}
use mathlib.Core.Option.{some-injective}
use event_work_balance.Conn.State.{SendItem, FileSegment, Connection}
use event_work_balance.Conn.SendQueue.{consume, queued}
use event_work_balance.Conn.Engine.{World, close_with_error, sub_pending}
use event_work_balance.Conn.Transfer.Calls.{Calls, Sent}
use event_work_balance.Conn.Transfer.Flush.{
  Next, offer, flush_round, flushed, after_call, note_segment, after_offer, flush_items,
}

note_segment-closed :
    (s : Option FileSegment) (c : Connection) → (note_segment s c).closed ≡ c.closed
unfolding note_segment
note_segment-closed s c = ground arith

consume-closed : (c : Connection) (n : ℕ) → (consume c n).closed ≡ c.closed
unfolding consume
consume-closed c n = ground arith

-- One call's bytes have left the queue.
after_call-closed : (sent : Sent) (w : World) → (after_call sent w).0.conn.closed ≡ w.conn.closed
unfolding after_call sub_pending consume
after_call-closed sent w = ground arith

flushed-closed : (w : World) → (flushed w).0.conn.closed ≡ w.conn.closed
unfolding flushed close_with_error
flushed-closed w = ground arith

after_offer-closed :
    (w w' : World) (next : Next) (r : Option Sent)
    → after_offer w r ≡ some (w', next)
    → w'.conn.closed ≡ w.conn.closed
unfolding after_offer
after_offer-closed w w' next none e = cc
after_offer-closed w w' next (some sent) e =
    let v = record w { conn = note_segment sent.segment w.conn } in
    let q = some-injective (after_call sent v) (w', next) e in
    sym (ap (λ (p : World × Next). p.0.conn.closed) q)
    ∙ after_call-closed sent v
    ∙ note_segment-closed sent.segment w.conn

flush_items-closed :
    (contents : ℕ → ℕ → ℕ) (calls : Calls) (w w' : World) (next : Next) (items : List SendItem)
    → flush_items contents calls w items ≡ some (w', next)
    → w'.conn.closed ≡ w.conn.closed
unfolding flush_items
flush_items-closed contents calls w w' next [] e =
    sym (ap (λ (p : World × Next). p.0.conn.closed) (some-injective (flushed w) (w', next) e))
    ∙ flushed-closed w
flush_items-closed contents calls w w' next (head ∷ items) e =
    after_offer-closed w w' next (offer contents w.engine.use_writev calls (head ∷ items)) e

-- A round of flushOutput neither closes a connection nor opens one.
pub flush_round-closed :
    (contents : ℕ → ℕ → ℕ) (calls : Calls) (w w' : World) (next : Next)
    → flush_round contents calls w ≡ some (w', next)
    → w'.conn.closed ≡ w.conn.closed
unfolding flush_round
flush_round-closed contents calls w w' next e =
    flush_items-closed contents calls w w' next (queued w.conn) e
