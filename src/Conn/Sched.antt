-- ===== src/Conn/Sched.antt =====
-- Scheduling a connection: noteEvent of go/engine.go, and Connection.process of go/connection.go, of
-- which each hold of c.mu is a function here. What the calls between them answer is an argument.
pub mod Rounds
pub mod Ownership
use event_work_balance.Base.{
  ℕ, ◌/◌, ◌%◌, ◌^◌, List, [], ◌∷◌, ◌++◌, Bool, true, false, not, ◌&&◌, ◌||◌, Option, none, some,
  ◌==◌, length, if◌then◌else◌,
}
use event_work_balance.Conn.State.{Events, no_events, Connection}
use event_work_balance.Conn.Engine.{Errno, eof}

abbrev bit_set : ℕ → ℕ → Bool
bit_set mask k = mask / 2 ^ k % 2 == 1

-- `events &= evAll` on a raw uint32.
pub events_of : ℕ → Events
events_of mask = record {
  ev_in = bit_set mask 0;
  ev_pri = bit_set mask 1;
  ev_out = bit_set mask 2;
  ev_err = bit_set mask 3;
  ev_hup = bit_set mask 4;
  ev_rd_hup = bit_set mask 13;
}

abbrev pub join : Events → Events → Events
join a b = record {
  ev_in = a.ev_in || b.ev_in;
  ev_pri = a.ev_pri || b.ev_pri;
  ev_out = a.ev_out || b.ev_out;
  ev_err = a.ev_err || b.ev_err;
  ev_hup = a.ev_hup || b.ev_hup;
  ev_rd_hup = a.ev_rd_hup || b.ev_rd_hup;
}

abbrev same_bit : Bool → Bool → Bool
same_bit true b = b
same_bit false b = not b

abbrev pub same_events : Events → Events → Bool
same_events a b =
    same_bit a.ev_in b.ev_in
    && same_bit a.ev_pri b.ev_pri
    && same_bit a.ev_out b.ev_out
    && same_bit a.ev_err b.ev_err
    && same_bit a.ev_hup b.ev_hup
    && same_bit a.ev_rd_hup b.ev_rd_hup

abbrev pub only_out : Events
only_out = record no_events { ev_out = true }

-- noteEvent: the connection, and whether it has to be submitted.
unfoldable pub note_event : Connection → Events → Connection × Bool
note_event c events =
    if c.closing || c.closed
    then (c, false)
    else if same_events events no_events
    then (c, false)
    else if same_events events only_out
        && c.send_head == length c.sends
        && same_events c.pending_events no_events
    then (c, false)
    else (
      record c { pending_events = join c.pending_events events; scheduled = true },
      not c.scheduled,
    )

-- The first hold of c.mu in a round: the events to act on and whether the connection is closed, or
-- `none` when the worker lets go of the connection.
unfoldable pub process_begin : Events → Connection → Connection × Option (Events × Bool)
process_begin deferred c =
    let pending = join c.pending_events deferred in
    if same_events pending deferred
    then (record c { pending_events = pending; scheduled = false }, none)
    else (record c { pending_events = no_events }, some (pending, c.closed || c.closing))

-- What the round's calls answer: whether output is queued before the flush and before the read, and
-- the errors of flushOutput, drainPriorityInput, drainInput and socketError.
pub record Answers : Type 0 where
  pub queued_at_out : Bool
  pub flush_error : Option Errno
  pub pri_error : Option Errno
  pub queued_at_in : Bool
  pub read_error : Option Errno
  pub socket_error : Errno

pub data Action : Type 0 where
  flushed drained_pri drained_in drained_datagrams : Action

-- The rest of a round: the calls made, the readiness carried over, and the close that is asked for.
pub record Round : Type 0 where
  pub actions : List Action
  pub deferred : Events
  pub close : Option (Option Errno)

abbrev pub fine : Option Errno → Bool
fine none = true
fine (some e) = false

-- `closeErr` and `alive` after each stage of the round.
record Stage : Type 0 where
  actions : List Action
  deferred : Events
  close_err : Option Errno
  alive : Bool

flush_stage : Answers → Events → Bool → Stage
flush_stage a events closed =
    if not closed && events.ev_out && a.queued_at_out
    then (record {
      actions = flushed ∷ [];
      deferred = no_events;
      close_err = a.flush_error;
      alive = fine a.flush_error;
    })
    else (record { actions = []; deferred = no_events; close_err = none; alive = not closed })

pri_stage : Answers → Events → Stage → Stage
pri_stage a events s =
    if s.alive && events.ev_pri
    then (record s {
      actions = s.actions ++ (drained_pri ∷ []);
      close_err = a.pri_error;
      alive = fine a.pri_error;
    })
    else s

in_stage : Answers → Events → Stage → Stage
in_stage a events s =
    if s.alive && events.ev_in
    then (if a.queued_at_in
        then record s { deferred = record no_events { ev_in = true; ev_rd_hup = events.ev_rd_hup } }
        else record s {
          actions = s.actions ++ (drained_in ∷ []);
          close_err = a.read_error;
          alive = fine a.read_error;
        })
    else s

end_stage : Answers → Events → Stage → Stage
end_stage a events s =
    if s.alive && events.ev_err
    then record s { close_err = some a.socket_error; alive = false }
    else if s.alive && (events.ev_hup || (events.ev_rd_hup && not s.deferred.ev_rd_hup))
    then record s { close_err = some eof; alive = false }
    else s

unfoldable pub process_round : Answers → Bool → Events → Bool → Round
unfolding flush_stage pri_stage in_stage end_stage
process_round a is_udp events closed =
    if is_udp
    then (record {
      actions = if not closed && events.ev_in then drained_datagrams ∷ [] else [];
      deferred = no_events;
      close = none;
    })
    else (let s =
          end_stage a events
            (in_stage a events (pri_stage a events (flush_stage a events closed))) in
        record {
          actions = s.actions;
          deferred = s.deferred;
          close = if s.alive then none else some s.close_err;
        })
