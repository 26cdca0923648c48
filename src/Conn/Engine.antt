-- ===== src/Conn/Engine.antt =====
-- The engine's side of one connection: the budget counters of go/connection.go (addPending,
-- subPending, pauseDecision), the command queue and the refresh of go/engine.go.
pub mod Backpressure
use event_work_balance.Base.{
  ℕ, suc, ◌+◌, ◌-◌, List, [], ◌∷◌, ◌++◌, Bool, true, false, not, ◌&&◌, ◌||◌, Option, none, min, ltb,
  leb, ◌==◌, ◌/◌, length, if◌then◌else◌,
}
use event_work_balance.Conn.State.{Connection}

-- The errors that the code tells apart. `refused` is EINVAL, ENOTSUP, EOPNOTSUPP or ENOTSOCK, after
-- which a file is copied; `other` is any other number.
pub data Errno : Type 0 where
  eintr would_block refused unexpected_eof epipe eof handler_panic : Errno
  other : ℕ → Errno

-- The commands of one connection.
pub data Command : Type 0 where
  refresh : Command
  close : Option Errno → Command

-- A watermark or budget that is not positive switches its test off; here that is 0.
pub record Engine : Type 0 where
  pub use_writev : Bool
  pub write_high : ℕ
  pub write_low : ℕ
  pub max_pending : ℕ
  pub budget_resume : ℕ
  pub pending_total : ℕ
  pub reads_paused_by_watermark : ℕ
  pub reads_paused_by_budget : ℕ
  pub reads_resumed : ℕ
  pub commands : List Command
  pub commands_closed : Bool

-- A connection, its engine, and the bytes that the socket has taken so far.
pub record World : Type 0 where
  pub engine : Engine
  pub conn : Connection
  pub wire : List ℕ

-- newEngine's derived limits.
unfoldable pub low_watermark : ℕ → ℕ
low_watermark high = high / 4

unfoldable pub request : Command → Engine → Engine
request cmd e = if e.commands_closed then e else record e { commands = e.commands ++ (cmd ∷ []) }

unfoldable pub add_pending : ℕ → World → World
add_pending n w = record w {
  conn = record w.conn { pending_bytes = w.conn.pending_bytes + n };
  engine = record w.engine { pending_total = w.engine.pending_total + n };
}

-- The decrement is trimmed to what the connection has pending.
unfoldable pub sub_pending : ℕ → World → World
sub_pending n w = record w {
  conn = record w.conn { pending_bytes = w.conn.pending_bytes - n };
  engine = record w.engine { pending_total = w.engine.pending_total - min n w.conn.pending_bytes };
}

-- (pause, by the budget)
unfoldable pub pause_decision : Engine → Connection → Bool → Bool × Bool
pause_decision e c read_paused =
    if c.is_udp
    then (false, false)
    else if ltb 0 e.max_pending && leb e.max_pending e.pending_total
    then (true, true)
    else if e.write_high == 0
    then (false, false)
    else if leb e.write_high c.pending_bytes
    then (true, false)
    else (read_paused && ltb e.write_low c.pending_bytes, false)

abbrev pub bool_eq : Bool → Bool → Bool
bool_eq true b = b
bool_eq false b = not b

unfoldable pub pause_state_changed : Engine → Connection → Bool
unfolding pause_decision
pause_state_changed e c = not (bool_eq (pause_decision e c c.read_paused).0 c.read_paused)

unfoldable pub over_write_watermark : Engine → Connection → Bool
unfolding pause_decision
over_write_watermark e c = (pause_decision e c false).0

-- closeWithError: only the first call asks the loop to close.
unfoldable pub close_with_error : Option Errno → World → World
unfolding request
close_with_error err w =
    let first = not w.conn.closing && not w.conn.closed in
    record w {
      conn = record w.conn { closing = true };
      engine = if first then request (close err) w.engine else w.engine;
    }

-- closeAfterSendRaw
unfoldable pub close_after_send_raw : World → World
unfolding close_with_error
close_after_send_raw w =
    if w.conn.closing || w.conn.closed || w.conn.close_after_send
    then w
    else (let w' = record w { conn = record w.conn { close_after_send = true } } in
        if w.conn.send_head == length w.conn.sends && not w.conn.flushing
        then close_with_error none w'
        else w')

-- What refreshConnection decides, apart from the event loop's own lists.
pub record Refreshed : Type 0 where
  pub engine : Engine
  pub conn : Connection
  -- the connection goes on the list of those that wait for the budget
  pub track : Bool
  -- a stalled read is handed back
  pub redeliver : Bool
  -- the backend's read interest is set to the connection's `readPaused`
  pub set_read_paused : Bool

count_change : Bool → Bool → Bool → Engine → Engine
count_change false pause by_budget e = e
count_change true false by_budget e = record e { reads_resumed = suc e.reads_resumed }
count_change true true true e = record e { reads_paused_by_budget = suc e.reads_paused_by_budget }
count_change true true false e = record e {
  reads_paused_by_watermark = suc e.reads_paused_by_watermark;
}

unfoldable pub refresh_connection : Engine → Connection → Refreshed
unfolding count_change
refresh_connection e c =
    let usable = not c.closing && not c.closed in
    let pause = (pause_decision e c c.read_paused).0 in
    let by_budget = (pause_decision e c c.read_paused).1 in
    let changed = not (bool_eq c.read_paused pause) in
    let track = usable && pause && by_budget && not c.budget_paused in
    let settled = c.read_stalled && not pause in
    record {
      engine = count_change changed pause by_budget e;
      conn = record c {
        read_paused = pause;
        budget_paused = pause && (track || c.budget_paused);
        read_stalled = c.read_stalled && pause;
      };
      track = track;
      redeliver = settled && usable && not changed;
      set_read_paused = usable && changed;
    }
