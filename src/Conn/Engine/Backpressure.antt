-- ===== src/Conn/Engine/Backpressure.antt =====
-- What pauseDecision and refreshConnection (go/connection.go, go/engine.go) guarantee of reads.
use event_work_balance.Base.{◌≤◌, ◌<◌, ◌≡◌, ◌⊎◌, Bool, true, false, arith, ◌↔◌, leb, ltb, ◌&&◌}
use event_work_balance.Conn.State.{Connection}
use event_work_balance.Conn.Engine.{Engine, pause_decision, pause_state_changed, refresh_connection}

abbrev pub budget_exhausted : Engine → Bool
budget_exhausted e = ltb 0 e.max_pending && leb e.max_pending e.pending_total

-- Within the budget, and with a watermark set, a stream connection is paused from the high mark on,
-- and a paused one until its backlog is at the low mark or below.
pub pause_band :
    (e : Engine) (c : Connection)
    → c.is_udp ≡ false
    → budget_exhausted e ≡ false
    → 0 < e.write_high
    → e.write_low ≤ e.write_high
    → (((pause_decision e c false).0 ≡ true) ↔ (e.write_high ≤ c.pending_bytes))
      × (((pause_decision e c true).0 ≡ true)
          ↔ ((e.write_low < c.pending_bytes) ⊎ (e.write_high ≤ c.pending_bytes)))
unfolding pause_decision
pause_band e c u b h l = ground arith

-- One refresh settles a connection: asked again at once, the decision does not change.
pub refresh_settles :
    (e : Engine) (c : Connection)
    → pause_state_changed (refresh_connection e c).engine (refresh_connection e c).conn ≡ false
unfolding refresh_connection pause_state_changed pause_decision
refresh_settles e c = ground arith

-- A stalled read of a usable connection is never forgotten: it stays marked under a pause, or is
-- handed back to the loop, or the read interest is armed again, which reports waiting bytes.
pub refresh_keeps_stalled :
    (e : Engine) (c : Connection)
    → c.closing ≡ false
    → c.closed ≡ false
    → c.read_stalled ≡ true
    → let r = refresh_connection e c in
      ((r.conn.read_paused ≡ true) × (r.conn.read_stalled ≡ true))
      ⊎ ((r.conn.read_paused ≡ false) × (r.redeliver ≡ true))
      ⊎ ((r.conn.read_paused ≡ false) × (r.set_read_paused ≡ true))
unfolding refresh_connection
refresh_keeps_stalled e c p q s = ground arith
