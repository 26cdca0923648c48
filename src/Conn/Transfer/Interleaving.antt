-- ===== src/Conn/Transfer/Interleaving.antt =====
-- Any interleaving of senders, flush rounds and the loop's own changes on one connection
-- (go/connection.go): each step is what happens under one hold of c.mu, the loop's closing of the
-- connection included, which drops the queue.
use event_work_balance.Base.{
  ℕ, ◌≤◌, ◌≡◌, ◌⊎◌, refl, sym, ap, ◌∙◌, List, [], ◌++◌, Bool, true, false, some, length, All,
  append_assoc, arith, append-nil, Bool-cases, inl, inr,
}
use event_work_balance.Conn.State.{FileSegment}
use event_work_balance.Conn.SendQueue.Stream.{file_bytes, unsent}
use event_work_balance.Conn.SendQueue.Queueing.{
  queue_file-IsQueue, queue_file-unsent, queue_file-All,
}
use event_work_balance.Conn.Engine.{World}
use event_work_balance.Conn.Transfer.Calls.{Calls, SysResult}
use event_work_balance.Conn.Transfer.Flush.{Next, flush_round}
use event_work_balance.Conn.Transfer.Flush.Laws.{
  accepted, Answers, IsSound, flush_round_keeps, same_world,
}
use event_work_balance.Conn.Transfer.Flush.Offers.{IsUnstaged}
use event_work_balance.Conn.Transfer.Sends.{added, send_keeps, send_parts_keeps}
use event_work_balance.Conn.Transfer.Flush.Closed.{flush_round-closed}
use event_work_balance.Conn.Transfer.Turns.{Aside, Aside-Leaves}
use event_work_balance.Conn.Transfer.Closed.{send-closed, send_parts-closed, send_file-closed}
use event_work_balance.Conn.Transfer.{
  Outcome, send, send_parts, send_file, stopped_sending, close_connection,
}

module _ (contents : ℕ → ℕ → ℕ) (grow : ℕ → ℕ → ℕ) where
  -- A step from `w` to `w'` that accepts the bytes `more`.
  pub data Step (w w' : World) (more : List ℕ) : Type 0 where
    sends :
        (pooled : ℕ) (copy_data : Bool) (bytes : List ℕ) (calls : List SysResult) (r : Outcome)
        → All (λ (c : SysResult). c.count ≤ length bytes) calls
        → send grow pooled copy_data bytes calls w ≡ some (w', r)
        → more ≡ added r bytes
        → Step w w' more
    sends_parts :
        (pooled : ℕ) (first second : List ℕ) (calls : List SysResult) (r : Outcome)
        → All (λ (c : SysResult). c.count ≤ length (first ++ second)) calls
        → send_parts grow pooled first second calls w ≡ some (w', r)
        → more ≡ added r (first ++ second)
        → Step w w' more
    sends_file :
        (s : FileSegment)
        → w' ≡ (send_file s w).0
        → more ≡ added (send_file s w).1 (file_bytes contents s.fd s.offset s.remaining)
        → Step w w' more
    flushes :
        (calls : Calls) (next : Next)
        → Answers contents calls w
        → flush_round contents calls w ≡ some (w', next)
        → more ≡ []
        → Step w w' more
    turns : Aside w w' → more ≡ [] → Step w w' more
    -- The event loop closes the connection.
    closes : w' ≡ close_connection w → more ≡ [] → Step w w' more

  pub data History (w : World) : World → List ℕ → Type 0 where
    begins : {xs : List ℕ} → xs ≡ [] → History w w xs
    steps :
        {u v : World} {xs more all : List ℕ}
        → History w u xs
        → Step u v more
        → all ≡ xs ++ more
        → History w v all

  send_file_keeps :
      (s : FileSegment) (w : World)
      → IsSound w
      → IsSound (send_file s w).0
        × (accepted contents (send_file s w).0
            ≡ accepted contents w
              ++ added (send_file s w).1 (file_bytes contents s.fd s.offset s.remaining))
  unfolding send_file
  send_file_keeps s w sound = elim (Bool-cases (stopped_sending w.conn)) [
    | inl stopped ↦ rw stopped (sound, sym (append-nil (accepted contents w)))
    | inr open_ ↦ rw open_ (
      record {
        queue = queue_file-IsQueue w.conn sound.queue s;
        unstaged = queue_file-All IsUnstaged w.conn s refl sound.unstaged;
      },
      ap (◌++◌ w.wire) (queue_file-unsent w.conn sound.queue contents s)
          ∙ sym (append_assoc w.wire (unsent contents w.conn) _),
    )
  ]

  kept : (w : World) (lost : List ℕ) → lost ≡ [] → accepted contents w ≡ accepted contents w ++ lost
  kept w lost e = sym (ap (◌++◌ (accepted contents w)) e ∙ append-nil (accepted contents w))

  -- What a step from `w` that accepts `more` leaves: a well-formed queue, and no byte gone that was
  -- accepted, unless the connection has been closed.
  abbrev Keeps : World → List ℕ → World → Type 0
  Keeps w more v =
      IsSound v
      × ((gone : List ℕ) × (accepted contents v ++ gone ≡ accepted contents w ++ more)
          × ((gone ≡ []) ⊎ (v.conn.closed ≡ true)))

  all-Keeps :
      (w v : World) (more : List ℕ)
      → IsSound v × (accepted contents v ≡ accepted contents w ++ more)
      → Keeps w more v
  all-Keeps w v more (sound, e) = (sound, ([], append-nil (accepted contents v) ∙ e, inl refl))

  close_connection_twice : (w : World) → w.conn.closed ≡ true → close_connection w ≡ w
  unfolding close_connection
  close_connection_twice w closed = ground arith

  close_connection_once-Keeps :
      (w : World) → w.conn.closed ≡ false → IsSound w → Keeps w [] (close_connection w)
  unfolding close_connection
  close_connection_once-Keeps w open_ s = rw open_ (
    record { queue = record { head_in_range = omega arith; done = tt; owned = tt }; unstaged = tt },
    (
      unsent contents w.conn,
      ap (λ xs. xs ++ unsent contents w.conn) (append-nil w.wire)
          ∙ sym (append-nil (accepted contents w)),
      inr refl,
    ),
  )

  close_connection-Keeps : (w : World) → IsSound w → Keeps w [] (close_connection w)
  close_connection-Keeps w s = elim (Bool-cases w.conn.closed) [
    | inl closed ↦
        rw (close_connection_twice w closed)
          (all-Keeps w w [] (s, sym (append-nil (accepted contents w))))
    | inr open_ ↦ close_connection_once-Keeps w open_ s
  ]

  Step-Keeps : {w v : World} {more : List ℕ} → IsSound w → Step w v more → Keeps w more v
  Step-Keeps {w} {v} s (sends pooled copy_data bytes calls r a e m) = rw m (
      all-Keeps w v (added r bytes)
        (send_keeps contents grow pooled copy_data bytes calls w (v, r) s a e))
  Step-Keeps {w} {v} s (sends_parts pooled first second calls r a e m) = rw m (
      all-Keeps w v (added r (first ++ second))
        (send_parts_keeps contents grow pooled first second calls w (v, r) s a e))
  Step-Keeps {w} {v} s (sends_file seg e m) =
      rw (m, e) (all-Keeps w (send_file seg w).0 _ (send_file_keeps seg w s))
  Step-Keeps {w} {v} s (flushes calls next a e m) =
      let (sound, same) = flush_round_keeps contents calls w v next s a e in
      rw m (all-Keeps w v [] (sound, same ∙ sym (append-nil (accepted contents w))))
  Step-Keeps {w} {v} s (turns turn m) =
      let (items, head, wire, _) = Aside-Leaves turn in
      let (sound, e) = same_world contents w v (items, head, wire) s in
      rw m (all-Keeps w v [] (sound, e ∙ sym (append-nil (accepted contents w))))
  Step-Keeps {w} {v} s (closes e m) = rw (m, e) (close_connection-Keeps w s)

  -- A closed connection stays closed, and accepts nothing more.
  Step-closed :
      {w v : World} {more : List ℕ}
      → w.conn.closed ≡ true
      → Step w v more
      → (more ≡ []) × (v.conn.closed ≡ true)
  Step-closed {w} {v} c (sends pooled copy_data bytes calls r a e m) =
      rw m (send-closed grow pooled copy_data bytes calls w (v, r) c e)
  Step-closed {w} {v} c (sends_parts pooled first second calls r a e m) =
      rw m (send_parts-closed grow pooled first second calls w (v, r) c e)
  Step-closed {w} c (sends_file seg e m) = rw (m, e) (send_file-closed seg w _ c)
  Step-closed {w} {v} c (flushes calls next a e m) =
      (m, flush_round-closed contents calls w v next e ∙ c)
  Step-closed c (turns turn m) = let (_, _, _, same) = Aside-Leaves turn in (m, same ∙ c)
  Step-closed c (closes e m) =
      (m, ap (λ (u : World). u.conn.closed) (e ∙ close_connection_twice _ c) ∙ c)

  -- From a well-formed queue on, however sends, rounds of a flush and the other turns of the workers,
  -- the callers and the loop interleave, the queue is well formed, and the bytes on the wire, those
  -- queued and those gone, in this order, are those accepted before followed by those that the steps
  -- accepted, in the order of the steps; and none are gone unless the loop has closed the connection.
  pub wire_in_order :
      {w v : World} {xs : List ℕ}
      → IsSound w
      → History w v xs
      → IsSound v
        × ((gone : List ℕ) × ((v.wire ++ unsent contents v.conn) ++ gone
              ≡ accepted contents w ++ xs)
            × ((gone ≡ []) ⊎ (v.conn.closed ≡ true)))
  wire_in_order {w} s (begins e) =
      rw e (all-Keeps w w [] (s, sym (append-nil (accepted contents w))))
  wire_in_order {w} {v} s (steps {u = u} {xs = xs} {more = more} h st e) =
      let (before, (lost, same, why)) = wire_in_order s h in
      let (after, (more_lost, grown, why')) = Step-Keeps before st in
      rw e (
        after,
        elim why [
          | inl none_lost ↦ (
            more_lost,
            grown
                ∙ ap (λ ys. ys ++ more) (kept u lost none_lost ∙ same)
                ∙ append_assoc (accepted contents w) xs more,
            why',
          )
          | inr closed ↦
              let (nothing, closed') = Step-closed closed st in
              (
                more_lost ++ lost,
                sym (append_assoc (accepted contents v) more_lost lost)
                    ∙ ap (λ ys. ys ++ lost) grown
                    ∙ ap (λ ys. (accepted contents u ++ ys) ++ lost) nothing
                    ∙ ap (λ ys. ys ++ lost) (append-nil (accepted contents u))
                    ∙ same
                    ∙ sym (
                        ap (λ ys. accepted contents w ++ (xs ++ ys)) nothing
                        ∙ ap (◌++◌ (accepted contents w)) (append-nil xs)),
                inr closed',
              )
        ],
      )
