-- ===== src/Conn/Transfer/Turns.antt =====
-- What else happens to a connection under one hold of c.mu (go/connection.go, go/engine.go): turns
-- that leave its queue and its wire alone.
use event_work_balance.Base.{◌≡◌, refl, true, Option, arith}
use event_work_balance.Conn.State.{Events, Connection}
use event_work_balance.Conn.Engine.{
  Errno, Engine, World, close_with_error, close_after_send_raw, refresh_connection,
}
use event_work_balance.Conn.Sched.{note_event, process_begin}
use event_work_balance.Conn.Transfer.Flush.{flush_start}
use event_work_balance.Conn.Transfer.{cork, uncork}

-- The other turns that the workers, the loop and the callers take on the connection.
pub data Aside (w w' : World) : Type 0 where
  corks : w' ≡ cork w → Aside w w'
  uncorks : w' ≡ (uncork w).0 → Aside w w'
  begins_flush : w' ≡ (flush_start w).0 → Aside w w'
  refreshes :
      w' ≡ record w {
        conn = (refresh_connection w.engine w.conn).conn;
        engine = (refresh_connection w.engine w.conn).engine;
      }
      → Aside w w'
  asks_to_close : (e : Option Errno) → w' ≡ close_with_error e w → Aside w w'
  closes_after_send : w' ≡ close_after_send_raw w → Aside w w'
  notes : (events : Events) → w' ≡ record w { conn = (note_event w.conn events).0 } → Aside w w'
  begins_round :
      (deferred : Events) → w' ≡ record w { conn = (process_begin deferred w.conn).0 } → Aside w w'
  -- A worker marks the read that it cannot make yet.
  stalls : w' ≡ record w { conn = record w.conn { read_stalled = true } } → Aside w w'
  -- The engine's other connections, and the loop taking the commands.
  others : (e : Engine) → w' ≡ record w { engine = e } → Aside w w'

-- The queue, the wire and whether the connection is closed are as they were.
abbrev pub Leaves : World → World → Type 0
Leaves w v =
    (v.conn.sends ≡ w.conn.sends)
    × (v.conn.send_head ≡ w.conn.send_head)
    × (v.wire ≡ w.wire)
    × (v.conn.closed ≡ w.conn.closed)

close_with_error-Leaves : (e : Option Errno) (w : World) → Leaves w (close_with_error e w)
unfolding close_with_error
close_with_error-Leaves e w = ground arith

close_after_send_raw-Leaves : (w : World) → Leaves w (close_after_send_raw w)
unfolding close_after_send_raw close_with_error
close_after_send_raw-Leaves w = ground arith

refresh_connection-Leaves :
    (e : Engine) (c : Connection)
    → let c' = (refresh_connection e c).conn in
      (c'.sends ≡ c.sends) × (c'.send_head ≡ c.send_head) × (c'.closed ≡ c.closed)
unfolding refresh_connection
refresh_connection-Leaves e c = (refl, refl, refl)

note_event-Leaves :
    (c : Connection) (events : Events)
    → let c' = (note_event c events).0 in
      (c'.sends ≡ c.sends) × (c'.send_head ≡ c.send_head) × (c'.closed ≡ c.closed)
unfolding note_event
note_event-Leaves c events = ground arith

process_begin-Leaves :
    (d : Events) (c : Connection)
    → let c' = (process_begin d c).0 in
      (c'.sends ≡ c.sends) × (c'.send_head ≡ c.send_head) × (c'.closed ≡ c.closed)
unfolding process_begin
process_begin-Leaves d c = ground arith

flush_start-Leaves : (w : World) → Leaves w (flush_start w).0
unfolding flush_start
flush_start-Leaves w = ground arith

pub Aside-Leaves : {w v : World} → Aside w v → Leaves w v
unfolding cork uncork
Aside-Leaves (corks e) = rw e (refl, refl, refl, refl)
Aside-Leaves (uncorks e) = rw e (refl, refl, refl, refl)
Aside-Leaves {w} (begins_flush e) = rw e (flush_start-Leaves w)
Aside-Leaves {w} (refreshes e) =
    let (sends, head, closed) = refresh_connection-Leaves w.engine w.conn in
    rw e (sends, head, refl, closed)
Aside-Leaves {w} (asks_to_close err e) = rw e (close_with_error-Leaves err w)
Aside-Leaves {w} (closes_after_send e) = rw e (close_after_send_raw-Leaves w)
Aside-Leaves {w} (notes events e) =
    let (sends, head, closed) = note_event-Leaves w.conn events in rw e (sends, head, refl, closed)
Aside-Leaves {w} (begins_round d e) =
    let (sends, head, closed) = process_begin-Leaves d w.conn in rw e (sends, head, refl, closed)
Aside-Leaves (stalls e) = rw e (refl, refl, refl, refl)
Aside-Leaves (others engine e) = rw e (refl, refl, refl, refl)
