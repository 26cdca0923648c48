-- ===== src/Conn/Transfer/Sends.antt =====
-- Send, SendOwned and SendParts of go/connection.go: every byte of a send that answers nil is on the
-- wire or queued, in order, and a send that fails adds nothing.
use event_work_balance.Base.{
  ℕ, ◌-◌, ◌≤◌, ◌≡◌, refl, sym, ap, ◌∙◌, ◌⊎◌, inl, inr, List, [], ◌∷◌, ◌++◌, Bool, true, false,
  Option, none, some, arith, length, take, drop, All, append_assoc, append-nil, if◌then◌else◌, ltb,
  Bool-cases, take-append-drop, drop-append_le, drop-append_ge, drop-all, take-all, ◌==◌,
}
use event_work_balance.Conn.State.{SendItem, Connection}
use event_work_balance.Conn.SendQueue.{queued, queue, queue_owned, can_write_directly}
use event_work_balance.Conn.SendQueue.Stream.{items_bytes, unsent, IsQueue}
use event_work_balance.Conn.SendQueue.Queueing.{
  queue-IsQueue, queue-unsent, queue_owned-IsQueue, queue_owned-unsent, queue-All, queue_owned-All,
}
use event_work_balance.Conn.Engine.{World, Errno, close_with_error}
use event_work_balance.Conn.Transfer.Calls.{
  SysResult, Attempt, took, blocked, broken, write_retrying,
}
use event_work_balance.Conn.Transfer.Flush.Laws.{accepted, IsSound, same_world}
use event_work_balance.Conn.Transfer.Flush.Offers.{IsUnstaged}
use event_work_balance.Conn.Transfer.{
  Outcome, ok, datagram, err, store_rest, on_wire, after_queue, send_directly, send_bytes, send,
  send_parts, queue_parts,
}

-- What a send adds to the accepted bytes.
abbrev pub added : Outcome → List ℕ → List ℕ
added ok bytes = bytes
added datagram bytes = []
added (err e) bytes = []

took_within :
    (len : ℕ) (calls : List SysResult) (n : ℕ)
    → All (λ r. r.count ≤ len) calls
    → write_retrying calls ≡ some (took n)
    → n ≤ len
unfolding write_retrying
took_within len [] n a e = cc
took_within len (r ∷ rs) n a e = ground (arith, took_within len rs n a.1)

-- `store` queues the bytes behind the first `sent`.
abbrev Stores : (ℕ → ℕ → ℕ) → (Connection → ℕ → Connection) → List ℕ → Type 0
Stores contents store bytes =
    (c : Connection) (sent : ℕ)
    → IsQueue c
    → All IsUnstaged c.sends
    → sent ≤ length bytes
    → IsQueue (store c sent)
      × All IsUnstaged (store c sent).sends
      × (unsent contents (store c sent) ≡ unsent contents c ++ drop sent bytes)

module _ (contents : ℕ → ℕ → ℕ) (store : Connection → ℕ → Connection) (bytes : List ℕ)
    (stores : Stores contents store bytes) where
  after_queue_shape :
      (n : ℕ) (w : World)
      → ((after_queue n w).conn.sends ≡ w.conn.sends)
        × ((after_queue n w).conn.send_head ≡ w.conn.send_head)
        × ((after_queue n w).wire ≡ w.wire)
  unfolding after_queue
  after_queue_shape n w = ground arith

  -- The world after a send, as the accepted bytes see it.
  abbrev Keeps : World → List ℕ → World → Type 0
  Keeps w more w' = IsSound w' × (accepted contents w' ≡ accepted contents w ++ more)

  store_rest-Keeps :
      (n : ℕ) (w : World)
      → IsSound w
      → n ≤ length bytes
      → Keeps w (drop n bytes) (store_rest store bytes n w)
  unfolding store_rest
  store_rest-Keeps n w s h =
      let v = record w { conn = store w.conn n } in
      let (queue, unstaged, owes) = stores w.conn n s.queue s.unstaged h in
      let (sound, same) =
        same_world contents v (after_queue (length bytes - n) v)
          (after_queue_shape (length bytes - n) v)
          (record { queue = queue; unstaged = unstaged }) in
      (
        sound,
        same
            ∙ ap (◌++◌ w.wire) owes
            ∙ sym (append_assoc w.wire (unsent contents w.conn) (drop n bytes)),
      )

  close_shape :
      (e : Option Errno) (w : World)
      → ((close_with_error e w).conn.sends ≡ w.conn.sends)
        × ((close_with_error e w).conn.send_head ≡ w.conn.send_head)
        × ((close_with_error e w).wire ≡ w.wire)
  unfolding close_with_error
  close_shape e w = ground arith

  on_wire_accepted :
      (xs : List ℕ) (w : World)
      → unsent contents w.conn ≡ []
      → accepted contents (on_wire xs w) ≡ accepted contents w ++ xs
  on_wire_accepted xs w e = rw (e, append-nil (w.wire ++ xs), append-nil w.wire) refl

  send_directly-Keeps :
      (attempt : Attempt) (w : World)
      → IsSound w
      → unsent contents w.conn ≡ []
      → ((n : ℕ) → attempt ≡ took n → n ≤ length bytes)
      → Keeps w
          (added (send_directly store bytes attempt w).1 bytes)
          (send_directly store bytes attempt w).0
  unfolding send_directly
  send_directly-Keeps (broken e) w s q a =
      let (sound, same) = same_world contents w _ (close_shape (some e) w) s in
      (sound, same ∙ sym (append-nil (accepted contents w)))
  send_directly-Keeps blocked w s q a = store_rest-Keeps 0 w s (omega arith)
  send_directly-Keeps (took n) w s q a = elim (Bool-cases (n == length bytes)) [
    | inl all ↦
        let e : take n bytes ≡ bytes = take-all n bytes (ground arith) in
        rw all (
          record { queue = s.queue; unstaged = s.unstaged },
          on_wire_accepted (take n bytes) w q ∙ ap (◌++◌ (accepted contents w)) e,
        )
    | inr part ↦
        let (sound, same) =
          store_rest-Keeps n (on_wire (take n bytes) w)
            (record { queue = s.queue; unstaged = s.unstaged }) (a n refl) in
        rw part (
          sound,
          same
              ∙ ap (λ xs. xs ++ drop n bytes) (on_wire_accepted (take n bytes) w q)
              ∙ append_assoc (accepted contents w) (take n bytes) (drop n bytes)
              ∙ ap (◌++◌ (accepted contents w)) (take-append-drop n bytes),
        )
  ]

  no_bytes : length bytes ≡ 0 → bytes ≡ []
  no_bytes e = drop-all 0 bytes (omega arith)

  -- A direct write that has returned, on an empty queue.
  abbrev Direct : World → World × Outcome → Option Attempt → Type 0
  Direct w p none = ⊥
  Direct w p (some attempt) =
      (w.conn.send_head ≡ length w.conn.sends) × (p ≡ send_directly store bytes attempt w)

  -- The ways to return.
  send_bytes_returns :
      (calls : List SysResult) (w : World) (p : World × Outcome)
      → send_bytes store bytes calls w ≡ some p
      → ((p.0 ≡ w) × (added p.1 bytes ≡ []))
        ⊎ (p ≡ (store_rest store bytes 0 w, ok))
        ⊎ Direct w p (write_retrying calls)
  unfolding send_bytes can_write_directly
  send_bytes_returns calls w p e = ground (arith, no_bytes)

  Direct-Keeps :
      (calls : List SysResult) (w : World) (p : World × Outcome)
      → IsSound w
      → All (λ (c : SysResult). c.count ≤ length bytes) calls
      → (o : Option Attempt) → write_retrying calls ≡ o
      → Direct w p o
      → Keeps w (added p.1 bytes) p.0
  Direct-Keeps calls w p s a none r d = absurd d
  Direct-Keeps calls w p s a (some attempt) r (drained, direct) = rw direct (
      send_directly-Keeps attempt w s
        (ap (items_bytes contents) (drop-all w.conn.send_head w.conn.sends (omega arith)))
        (λ n t. took_within (length bytes) calls n a (r ∙ ap some t)))

  send_bytes-Keeps :
      (calls : List SysResult) (w : World) (p : World × Outcome)
      → IsSound w
      → All (λ (c : SysResult). c.count ≤ length bytes) calls
      → send_bytes store bytes calls w ≡ some p
      → Keeps w (added p.1 bytes) p.0
  send_bytes-Keeps calls w p s a e = elim (send_bytes_returns calls w p e) [
    | inl (same, nothing) ↦ rw (same, nothing) (s, sym (append-nil (accepted contents w)))
    | inr (inl queued) ↦ rw queued (store_rest-Keeps 0 w s (omega arith))
    | inr (inr direct) ↦ Direct-Keeps calls w p s a (write_retrying calls) refl direct
  ]

in_memory-IsUnstaged : (item : SendItem) → item.file ≡ none → IsUnstaged item
in_memory-IsUnstaged item f = rw f tt

module _ (contents : ℕ → ℕ → ℕ) (grow : ℕ → ℕ → ℕ) (pooled : ℕ) where
  send-Stores :
      (copy_data : Bool) (bytes : List ℕ)
      → Stores contents
          (λ c sent.
            let queued = drop sent bytes in
            if copy_data then queue grow pooled c queued [] else queue_owned c queued)
          bytes
  send-Stores true bytes c sent q u h = (
    queue-IsQueue grow pooled c _ _ q,
    queue-All IsUnstaged in_memory-IsUnstaged grow pooled c _ _ q.owned u,
    queue-unsent grow pooled c (drop sent bytes) [] q contents
        ∙ ap (◌++◌ (unsent contents c)) (append-nil (drop sent bytes)),
  )
  send-Stores false bytes c sent q u h = (
    queue_owned-IsQueue c q _,
    queue_owned-All IsUnstaged in_memory-IsUnstaged c _ u,
    queue_owned-unsent c q contents (drop sent bytes),
  )

  parts-Stores :
      (first second : List ℕ)
      → Stores contents (queue_parts grow pooled first second) (first ++ second)
  unfolding queue_parts
  parts-Stores first second c sent q u h = elim (Bool-cases (ltb sent (length first))) [
    | inl inside ↦ rw inside (
      queue-IsQueue grow pooled c _ _ q,
      queue-All IsUnstaged in_memory-IsUnstaged grow pooled c _ _ q.owned u,
      queue-unsent grow pooled c (drop sent first) second q contents
          ∙ ap (◌++◌ (unsent contents c)) (sym (drop-append_le sent first second (ground arith))),
    )
    | inr past ↦ rw past (
      queue-IsQueue grow pooled c _ _ q,
      queue-All IsUnstaged in_memory-IsUnstaged grow pooled c _ _ q.owned u,
      queue-unsent grow pooled c (drop (sent - length first) second) [] q contents
          ∙ ap (◌++◌ (unsent contents c)) (
              append-nil (drop (sent - length first) second)
              ∙ sym (drop-append_ge sent first second (ground arith))),
    )
  ]

  -- Send and SendOwned, on a well-formed queue and with no call that takes more than it was given:
  -- when one returns, the queue is well formed, and the accepted bytes have grown by the bytes of the
  -- call if the answer is nil, and by nothing if it is an error.
  pub send_keeps :
      (copy_data : Bool) (bytes : List ℕ) (calls : List SysResult) (w : World) (p : World × Outcome)
      → IsSound w
      → All (λ (c : SysResult). c.count ≤ length bytes) calls
      → send grow pooled copy_data bytes calls w ≡ some p
      → IsSound p.0 × (accepted contents p.0 ≡ accepted contents w ++ added p.1 bytes)
  unfolding send
  send_keeps copy_data bytes = send_bytes-Keeps contents _ bytes (send-Stores copy_data bytes)

  -- SendParts, on a well-formed queue and with no call that takes more than it was given: when it
  -- returns, the queue is well formed, and the accepted bytes have grown by the first part and then
  -- the second if the answer is nil, and by nothing if it is an error.
  pub send_parts_keeps :
      (first second : List ℕ) (calls : List SysResult) (w : World) (p : World × Outcome)
      → IsSound w
      → All (λ (c : SysResult). c.count ≤ length (first ++ second)) calls
      → send_parts grow pooled first second calls w ≡ some p
      → IsSound p.0 × (accepted contents p.0 ≡ accepted contents w ++ added p.1 (first ++ second))
  unfolding send_parts
  send_parts_keeps first second =
      send_bytes-Keeps contents _ (first ++ second) (parts-Stores first second)
