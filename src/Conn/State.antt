-- ===== src/Conn/State.antt =====
-- The data of go/connection.go (readBuffer, sendItem, Connection) and of go/sendfile_unix.go
-- (fileSegment). A byte slice is a list of numbers; a pooled buffer carries the capacity that the
-- code compares. `int64` counters are numbers: the code's own clamp keeps them at or above zero.
use event_work_balance.Base.{ℕ, List, [], Bool, false, Option, none}

-- `copying` stands for `copyBuf != nil`: sendfile has refused this pair of descriptors.
pub record FileSegment : Type 0 where
  pub fd : ℕ
  pub offset : ℕ
  pub remaining : ℕ
  pub copying : Bool

pub record SendBuffer : Type 0 where
  pub bytes : List ℕ
  pub capacity : ℕ

-- `chunk` is the source's `data`, a slice that may be nil.
pub record SendItem : Type 0 where
  pub chunk : Option (List ℕ)
  pub offset : ℕ
  pub buf : Option SendBuffer
  pub file : Option FileSegment

-- `sendItem{}`
abbrev pub no_item : SendItem
no_item = record { chunk = none; offset = 0; buf = none; file = none }

-- The readiness bits `evIn` to `evRdHup`, one field each.
pub record Events : Type 0 where
  pub ev_in : Bool
  pub ev_pri : Bool
  pub ev_out : Bool
  pub ev_err : Bool
  pub ev_hup : Bool
  pub ev_rd_hup : Bool

abbrev pub no_events : Events
no_events = record {
  ev_in = false;
  ev_pri = false;
  ev_out = false;
  ev_err = false;
  ev_hup = false;
  ev_rd_hup = false;
}

pub record Connection : Type 0 where
  pub pending_events : Events
  pub sends : List SendItem
  pub send_head : ℕ
  pub scheduled : Bool
  pub closing : Bool
  pub closed : Bool
  pub read_paused : Bool
  pub budget_paused : Bool
  pub read_stalled : Bool
  pub flushing : Bool
  pub corked : Bool
  pub close_after_send : Bool
  pub pending_bytes : ℕ
  pub is_udp : Bool

-- A connection as `&Connection{…}` makes it.
abbrev pub new_connection : Connection
new_connection = record {
  pending_events = no_events;
  sends = [];
  send_head = 0;
  scheduled = false;
  closing = false;
  closed = false;
  read_paused = false;
  budget_paused = false;
  read_stalled = false;
  flushing = false;
  corked = false;
  close_after_send = false;
  pending_bytes = 0;
  is_udp = false;
}
