-- ===== src/Conn/Transfer/Closed.antt =====
-- The sends of go/connection.go and go/sendfile_unix.go on a connection that has been closed.
use event_work_balance.Base.{
  ℕ, ◌≡◌, List, [], ◌++◌, true, Bool, some, arith, length, drop, drop-all, if◌then◌else◌,
}
use event_work_balance.Conn.State.{FileSegment, Connection}
use event_work_balance.Conn.SendQueue.{queue, queue_owned}
use event_work_balance.Conn.Engine.{World}
use event_work_balance.Conn.Transfer.Calls.{SysResult}
use event_work_balance.Conn.Transfer.Sends.{added}
use event_work_balance.Conn.Transfer.{Outcome, queue_parts, send_bytes, send, send_parts, send_file}

no_bytes : (bytes : List ℕ) → length bytes ≡ 0 → bytes ≡ []
no_bytes bytes e = drop-all 0 bytes (omega (arith, e))

send_bytes-closed :
    (store : Connection → ℕ → Connection) (bytes : List ℕ) (calls : List SysResult) (w : World)
    (p : World × Outcome)
    → w.conn.closed ≡ true
    → send_bytes store bytes calls w ≡ some p
    → (added p.1 bytes ≡ []) × (p.0.conn.closed ≡ true)
unfolding send_bytes
send_bytes-closed store bytes calls w p c e = ground (arith, no_bytes bytes)

module _ (grow : ℕ → ℕ → ℕ) (pooled : ℕ) where
  pub send-closed :
      (copy_data : Bool) (bytes : List ℕ) (calls : List SysResult) (w : World) (p : World × Outcome)
      → w.conn.closed ≡ true
      → send grow pooled copy_data bytes calls w ≡ some p
      → (added p.1 bytes ≡ []) × (p.0.conn.closed ≡ true)
  unfolding send
  send-closed copy_data bytes =
      send_bytes-closed
        (λ c sent.
          let queued = drop sent bytes in
          if copy_data then queue grow pooled c queued [] else queue_owned c queued)
        bytes

  pub send_parts-closed :
      (first second : List ℕ) (calls : List SysResult) (w : World) (p : World × Outcome)
      → w.conn.closed ≡ true
      → send_parts grow pooled first second calls w ≡ some p
      → (added p.1 (first ++ second) ≡ []) × (p.0.conn.closed ≡ true)
  unfolding send_parts
  send_parts-closed first second =
      send_bytes-closed (queue_parts grow pooled first second) (first ++ second)

pub send_file-closed :
    (s : FileSegment) (w : World) (bytes : List ℕ)
    → w.conn.closed ≡ true
    → (added (send_file s w).1 bytes ≡ []) × ((send_file s w).0.conn.closed ≡ true)
unfolding send_file
send_file-closed s w bytes c = ground arith
