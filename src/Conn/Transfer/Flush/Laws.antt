-- ===== src/Conn/Transfer/Flush/Laws.antt =====
-- A flush round of go/connection.go moves bytes from the queue to the wire, in order, and keeps the
-- queue well formed.
use event_work_balance.Base.{
  ℕ, ◌≤◌, ◌≡◌, refl, sym, ap, subst, ◌∙◌, ◌⊎◌, inl, inr, List, [], ◌∷◌, ◌++◌, Bool, true, Option,
  none, some, arith, length, take, All, append_assoc, All-append, All-take, All-drop,
}
use mathlib.Core.Option.{some-injective}
use event_work_balance.Conn.State.{FileSegment, SendItem, Connection}
use event_work_balance.Conn.SendQueue.{queued, consume, consume_item, stops}
use event_work_balance.Conn.SendQueue.Stream.{items_bytes, unsent, IsOwned, IsQueue, reach}
use event_work_balance.Conn.SendQueue.Laws.{
  unsent-consume, consume-IsQueue, consume-All, queued-front, front-IsQueue,
}
use event_work_balance.Conn.Engine.{World, sub_pending, close_with_error}
use event_work_balance.Conn.Transfer.Calls.{Calls, Sent}
use event_work_balance.Conn.Transfer.Flush.{
  Next, offer, note_segment, after_call, after_offer, flushed, flush_items, flush_round,
}
use event_work_balance.Conn.Transfer.Flush.Offers.{
  IsUnstaged, IsOffer, offer-IsOffer, offer_segment, take-drop-Starts,
}

-- The bytes that were accepted: those on the wire, then those still owed.
abbrev pub accepted : (ℕ → ℕ → ℕ) → World → List ℕ
accepted contents w = w.wire ++ unsent contents w.conn

-- What a round's system call may do to the queue and the wire.
abbrev Moved : Sent → World → World → Type 0
Moved sent w w' =
    ((w'.conn.sends ≡ w.conn.sends) × (w'.conn.send_head ≡ w.conn.send_head) × (w'.wire ≡ w.wire))
    ⊎ ((w'.conn.sends ≡ (consume w.conn sent.n).sends)
        × (w'.conn.send_head ≡ (consume w.conn sent.n).send_head)
        × (w'.wire ≡ w.wire ++ take sent.n sent.offered))

after_call-Moved : (sent : Sent) (w : World) → Moved sent w (after_call sent w).0
unfolding after_call consume sub_pending
after_call-Moved sent w = ground arith

module _ (c d : Connection) (s : d.sends ≡ c.sends) (h : d.send_head ≡ c.send_head) where
  same_queue-IsQueue : IsQueue c → IsQueue d
  same_queue-IsQueue q = record {
    head_in_range = rw (s, h) q.head_in_range;
    done = rw (s, h) q.done;
    owned = rw s q.owned;
  }

  same_queue-unsent : (contents : ℕ → ℕ → ℕ) → unsent contents d ≡ unsent contents c
  same_queue-unsent contents = rw (s, h)

after_call_lem :
    (contents : ℕ → ℕ → ℕ) (sent : Sent) (w : World)
    → IsQueue w.conn
    → IsOffer contents (queued w.conn) sent
    → sent.n ≤ length sent.offered
    → IsQueue (after_call sent w).0.conn
      × (accepted contents (after_call sent w).0 ≡ accepted contents w)
after_call_lem contents sent w q o n =
    let w' = (after_call sent w).0 in
    let c = consume w.conn sent.n in
    elim (after_call-Moved sent w) [
      | inl (s, h, e) ↦ (
        same_queue-IsQueue w.conn w'.conn s h q,
        ap (◌++◌ w'.wire) (same_queue-unsent w.conn w'.conn s h contents)
            ∙ ap (λ xs. xs ++ unsent contents w.conn) e,
      )
      | inr (s, h, e) ↦ (
        same_queue-IsQueue c w'.conn s h (consume-IsQueue w.conn sent.n q),
        ap (◌++◌ w'.wire) (same_queue-unsent c w'.conn s h contents)
            ∙ ap (λ xs. xs ++ unsent contents c) e
            ∙ append_assoc w.wire (take sent.n sent.offered) (unsent contents c)
            ∙ ap (λ xs. w.wire ++ (take sent.n sent.offered ++ xs))
                (unsent-consume contents w.conn sent.n q (omega (arith, o.within)))
            ∙ ap (◌++◌ w.wire) (take-drop-Starts sent.n sent.offered _ o.starts n),
      )
    ]

-- A file at the head that is marked for copying holds the same bytes.
module _ (s : FileSegment) (head : SendItem) (items : List SendItem) (c : Connection)
    (q : IsQueue c) (e : queued c ≡ head ∷ items) where
  note_segment_lem :
      note_segment (some s) c
      ≡ record c { sends = take c.send_head c.sends ++ (record head { file = some s } ∷ items) }
  unfolding note_segment
  note_segment_lem = rw (e, note_segment)

  note_segment-queued : queued (note_segment (some s) c) ≡ record head { file = some s } ∷ items
  note_segment-queued = ap queued note_segment_lem ∙ queued-front c _ q.head_in_range

  note_segment-IsQueue : (t : FileSegment) → head.file ≡ some t → IsQueue (note_segment (some s) c)
  note_segment-IsQueue t f =
      let owned : All IsOwned (head ∷ items) =
        rw e at (All-drop IsOwned c.send_head c.sends q.owned) in
      rw note_segment_lem (front-IsQueue c _ q ((ground arith), owned.1))

-- Nor does the mark change what a write can reach.
module _ (contents : ℕ → ℕ → ℕ) (s t : FileSegment) (head : SendItem) (items : List SendItem)
    (f : head.file ≡ some t) (m : (s ≡ t) ⊎ (s ≡ record t { copying = true })) where
  noted_bytes :
      items_bytes contents (record head { file = some s } ∷ items)
      ≡ items_bytes contents (head ∷ items)
  noted_bytes = rw f (ground arith)

  noted_reach : reach (record head { file = some s } ∷ items) ≡ reach (head ∷ items)
  noted_reach = ground arith

-- A round's connection, as its system call leaves it, still offers what was offered.
note_segment-offer :
    (contents : ℕ → ℕ → ℕ) (use_writev : Bool) (calls : Calls) (c : Connection) (sent : Sent)
    (head : SendItem) (items : List SendItem)
    → IsQueue c
    → All IsUnstaged c.sends
    → queued c ≡ head ∷ items
    → offer contents use_writev calls (head ∷ items) ≡ some sent
    → let c' = note_segment sent.segment c in
      IsQueue c'
      × IsOffer contents (queued c') sent
      × (unsent contents c' ≡ unsent contents c)
      × All IsUnstaged c'.sends
unfolding note_segment
note_segment-offer contents use_writev calls c sent head items q u e o =
    let v : All IsUnstaged (head ∷ items) = rw e at (All-drop IsUnstaged c.send_head c.sends u) in
    let whole = offer-IsOffer contents use_writev calls (head ∷ items) sent v o in
    let noted = λ (seg : Option FileSegment).
      IsQueue (note_segment seg c)
      × IsOffer contents (queued (note_segment seg c)) sent
      × (unsent contents (note_segment seg c) ≡ unsent contents c)
      × All IsUnstaged (note_segment seg c).sends in
    elim (offer_segment contents use_writev calls head items sent o) [
      | inl left ↦ subst noted (sym left) (q, rw e whole, refl, u)
      | inr (s, t, left, f, m) ↦
          let queue = note_segment-queued s head items c q e in
          let bytes = noted_bytes contents s t head items f m in
          let whole' : IsOffer contents (record head { file = some s } ∷ items) sent = record {
            starts = rw bytes whole.starts;
            within = rw (noted_reach contents s t head items f m) whole.within;
          } in
          subst noted (sym left) (
            note_segment-IsQueue s head items c q e t f,
            rw queue whole',
            ap (items_bytes contents) queue ∙ bytes ∙ ap (items_bytes contents) (sym e),
            rw (note_segment_lem s head items c q e) (
                All-append IsUnstaged (take c.send_head c.sends)
                  (record head { file = some s } ∷ items)
                  (All-take IsUnstaged c.send_head c.sends u) ((ground arith), v.1)),
          )
    ]

IsUnstaged-kept :
    (n : ℕ) (item item' : SendItem)
    → consume_item n item ≡ stops item'
    → IsUnstaged item
    → IsUnstaged item'
unfolding consume_item
IsUnstaged-kept n item item' e u = ground arith

-- The connection as a flush finds it and leaves it.
pub record IsSound (w : World) : Type 0 where
  pub queue : IsQueue w.conn
  pub unstaged : All IsUnstaged w.conn.sends

-- What leaves the queue and the wire alone keeps both.
pub same_world :
    (contents : ℕ → ℕ → ℕ) (w v : World)
    → (v.conn.sends ≡ w.conn.sends) × (v.conn.send_head ≡ w.conn.send_head) × (v.wire ≡ w.wire)
    → IsSound w
    → IsSound v × (accepted contents v ≡ accepted contents w)
same_world contents w v (sends, head, wire) s = (
  record {
    queue = same_queue-IsQueue w.conn v.conn sends head s.queue;
    unstaged = rw sends s.unstaged;
  },
  ap (λ xs. xs ++ unsent contents v.conn) wire
      ∙ ap (◌++◌ w.wire) (same_queue-unsent w.conn v.conn sends head contents),
)

-- No system call answers more than it was offered.
abbrev pub Answers : (ℕ → ℕ → ℕ) → Calls → World → Type 0
Answers contents calls w =
    (sent : Sent)
    → offer contents w.engine.use_writev calls (queued w.conn) ≡ some sent
    → sent.n ≤ length sent.offered

flushed_shape :
    (w : World)
    → let w' = (flushed w).0 in (w'.conn.sends ≡ []) × (w'.conn.send_head ≡ 0) × (w'.wire ≡ w.wire)
unfolding flushed close_with_error
flushed_shape w = ground arith

flushed_lem :
    (contents : ℕ → ℕ → ℕ) (w : World)
    → queued w.conn ≡ []
    → IsSound (flushed w).0 × (accepted contents (flushed w).0 ≡ accepted contents w)
flushed_lem contents w e =
    let w' = (flushed w).0 in
    let (sends, head, wire) = flushed_shape w in
    (
      record {
        queue = record {
          head_in_range = rw (sends, head) (omega arith);
          done = rw (sends, head) tt;
          owned = rw sends tt;
        };
        unstaged = rw sends tt;
      },
      ap (λ xs. xs ++ unsent contents w'.conn) wire
          ∙ ap (λ xs. w.wire ++ xs) (rw (sends, head, e) refl),
    )

after_call-IsSound :
    (contents : ℕ → ℕ → ℕ) (sent : Sent) (w : World)
    → IsSound w
    → IsOffer contents (queued w.conn) sent
    → sent.n ≤ length sent.offered
    → IsSound (after_call sent w).0
after_call-IsSound contents sent w s o n = record {
  queue = (after_call_lem contents sent w s.queue o n).0;
  unstaged = elim (after_call-Moved sent w) [
    | inl (same, _, _) ↦ rw same s.unstaged
    | inr (same, _, _) ↦
        rw same (consume-All IsUnstaged tt IsUnstaged-kept w.conn sent.n s.unstaged)
  ];
}

module _ (contents : ℕ → ℕ → ℕ) (calls : Calls) (w w' : World) (next : Next) (s : IsSound w) where
  result_world : (p : World × Next) → some p ≡ some (w', next) → p.0 ≡ w'
  result_world p e = ap (λ (q : World × Next). q.0) (some-injective p (w', next) e)

  after_offer_keeps :
      (head : SendItem) (items : List SendItem) (r : Option Sent)
      → queued w.conn ≡ head ∷ items
      → offer contents w.engine.use_writev calls (head ∷ items) ≡ r
      → ((sent : Sent) → r ≡ some sent → sent.n ≤ length sent.offered)
      → after_offer w r ≡ some (w', next)
      → IsSound w' × (accepted contents w' ≡ accepted contents w)
  unfolding after_offer
  after_offer_keeps head items none q o a e = cc
  after_offer_keeps head items (some sent) q o a e =
      let (queue, offers, same, unstaged) =
        note_segment-offer contents w.engine.use_writev calls w.conn sent head items s.queue
          s.unstaged q o in
      let v = record w { conn = note_segment sent.segment w.conn } in
      subst (λ w'. IsSound w' × (accepted contents w' ≡ accepted contents w)) (result_world _ e)
        (
          after_call-IsSound contents sent v (record { queue = queue; unstaged = unstaged }) offers
              (a sent refl),
          (after_call_lem contents sent v queue offers (a sent refl)).1 ∙ ap (◌++◌ w.wire) same,
        )

  flush_items_keeps :
      (items : List SendItem)
      → queued w.conn ≡ items
      → ((sent : Sent)
          → offer contents w.engine.use_writev calls items ≡ some sent
          → sent.n ≤ length sent.offered)
      → flush_items contents calls w items ≡ some (w', next)
      → IsSound w' × (accepted contents w' ≡ accepted contents w)
  unfolding flush_items
  flush_items_keeps [] q a e =
      subst (λ w'. IsSound w' × (accepted contents w' ≡ accepted contents w)) (result_world _ e)
        (flushed_lem contents w q)
  flush_items_keeps (head ∷ items) q a e = after_offer_keeps head items _ q refl a e

-- A round of flushOutput on a well-formed queue, whose system calls take no more than they are
-- offered, leaves, if it returns, a well-formed queue, and the same bytes on the wire and in the
-- queue, in the same order.
pub flush_round_keeps :
    (contents : ℕ → ℕ → ℕ) (calls : Calls) (w w' : World) (next : Next)
    → IsSound w
    → Answers contents calls w
    → flush_round contents calls w ≡ some (w', next)
    → IsSound w' × (accepted contents w' ≡ accepted contents w)
unfolding flush_round
flush_round_keeps contents calls w w' next s a e =
    flush_items_keeps contents calls w w' next s (queued w.conn) refl a e
