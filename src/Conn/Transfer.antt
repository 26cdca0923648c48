-- ===== src/Conn/Transfer.antt =====
-- Send, SendOwned, SendParts, CloseAfterSend's trigger, flushOutput and SendFile's system call of
-- go/connection.go and go/sendfile_unix.go, on the readiness backends (go/engine_unix.go), where
-- writeBusyLocked is false and awaitWritableLocked does nothing.
--
-- A system call's result is an argument: the count (0 for -1) and the error. What a call puts on
-- the wire is the first `n` bytes of what it was given.
pub mod Calls
pub mod Flush
pub mod Sends
pub mod Turns
pub mod Closed
pub mod Interleaving
use event_work_balance.Base.{
  ℕ, ◌+◌, ◌-◌, List, [], ◌∷◌, ◌++◌, Bool, true, false, not, ◌&&◌, ◌||◌, Option, none, some, ◌==◌,
  ltb, if◌then◌else◌, length, take, drop,
}
use event_work_balance.Conn.State.{FileSegment, Connection}
use event_work_balance.Conn.SendQueue.{
  can_write_directly, queue, queue_owned, queue_file, has_queued_output,
}
use event_work_balance.Conn.Engine.{
  Errno, Command, World, refresh, request, epipe, add_pending, pause_state_changed,
  close_with_error,
}
use Calls.{SysResult, Attempt, took, blocked, broken, write_retrying}

-- `datagram` stands for the path of a UDP connection, which has no send queue.
pub data Outcome : Type 0 where
  ok : Outcome
  datagram : Outcome
  err : Errno → Outcome

abbrev pub stopped_sending : Connection → Bool
stopped_sending c = c.closing || c.closed || c.close_after_send

unfoldable pub request_refresh_if : Bool → World → World
request_refresh_if changed w = if changed then record w { engine = request refresh w.engine } else w

abbrev pub on_wire : List ℕ → World → World
on_wire bytes w = record w { wire = w.wire ++ bytes }

-- The end of Send and SendParts, once the unsent part is in the queue.
unfoldable pub after_queue : ℕ → World → World
unfolding add_pending request_refresh_if
after_queue n w =
    let w' = add_pending n w in
    request_refresh_if (not w'.conn.corked && pause_state_changed w'.engine w'.conn) w'

-- `store` puts the unsent bytes into the queue.
module _ (store : Connection → ℕ → Connection) (bytes : List ℕ) where
  store_rest : ℕ → World → World
  unfolding after_queue
  store_rest sent w = after_queue (length bytes - sent) (record w { conn = store w.conn sent })

  send_directly : Attempt → World → World × Outcome
  unfolding store_rest
  send_directly (broken e) w = (close_with_error (some e) w, err e)
  send_directly blocked w = (store_rest 0 w, ok)
  send_directly (took n) w =
      let w' = on_wire (take n bytes) w in
      if n == length bytes then (w', ok) else (store_rest n w', ok)

  -- `calls` are the results of the write as it is retried; `none` is a call that has not returned.
  send_bytes : List SysResult → World → Option (World × Outcome)
  send_bytes calls w =
      if w.conn.is_udp
      then some (w, datagram)
      else if length bytes == 0
      then some (w, ok)
      else if stopped_sending w.conn
      then some (w, err epipe)
      else if can_write_directly w.conn
      then (elim (write_retrying calls) [
        | none ↦ none
        | some attempt ↦ some (send_directly attempt w)
      ])
      else some (store_rest 0 w, ok)

-- `grow` and `pooled` are as for `queue`.
module _ (grow : ℕ → ℕ → ℕ) (pooled : ℕ) where
  unfoldable pub send : Bool → List ℕ → List SysResult → World → Option (World × Outcome)
  unfolding send_bytes send_directly store_rest
  send copy_data bytes =
      send_bytes
        (λ c sent.
          let queued = drop sent bytes in
          if copy_data then queue grow pooled c queued [] else queue_owned c queued)
        bytes

  pub queue_parts : List ℕ → List ℕ → Connection → ℕ → Connection
  queue_parts first second c sent =
      if ltb sent (length first)
      then queue grow pooled c (drop sent first) second
      else queue grow pooled c (drop (sent - length first) second) []

  -- sysWrite2 writes the two parts as one.
  unfoldable pub send_parts : List ℕ → List ℕ → List SysResult → World → Option (World × Outcome)
  unfolding send_bytes send_directly store_rest queue_parts
  send_parts first second = send_bytes (queue_parts first second) (first ++ second)

-- SendFile, once the descriptor has been duplicated: the file goes to the end of the queue, and the
-- caller flushes if nothing stood in front of it (the second result).
unfoldable pub send_file : FileSegment → World → World × Outcome × Bool
send_file s w =
    if stopped_sending w.conn
    then (w, err epipe, false)
    else (record w { conn = queue_file w.conn s }, ok, can_write_directly w.conn)

-- The start of drainInput, and uncork's first half: whether a flush has to follow.
unfoldable pub cork : World → World
cork w = record w { conn = record w.conn { corked = true; read_stalled = false } }

unfoldable pub uncork : World → World × Bool
unfolding has_queued_output
uncork w = (
  record w { conn = record w.conn { corked = false } },
  w.conn.corked && has_queued_output w.conn,
)

-- The loop's closeConnection, on a connection that is not being dialed: the queue goes, and with it
-- the connection's share of the budget. The detaching and the callback are outside.
unfoldable pub close_connection : World → World
close_connection w = if w.conn.closed then w else record w {
  conn = record w.conn {
    closed = true;
    closing = true;
    sends = [];
    send_head = 0;
    budget_paused = false;
    pending_bytes = 0;
  };
  engine = record w.engine { pending_total = w.engine.pending_total - w.conn.pending_bytes };
}
