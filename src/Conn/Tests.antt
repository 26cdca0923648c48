-- ===== src/Conn/Tests.antt =====
-- Runs of the connection's operations on small inputs, and the theorems at such inputs.
use event_work_balance.Base.{
  ℕ, ◌+◌, ◌≡◌, ◌≢◌, ◌⊎◌, refl, sym, ap, subst, ◌∙◌, List, [], ◌∷◌, ◌++◌, true, false, none, some,
  arith,
}
use mathlib.Core.Option.{some-injective}
use event_work_balance.Conn.State.{SendItem, no_item, Events, no_events, Connection, new_connection}
use event_work_balance.Conn.SendQueue.{
  consume, consume_items, consume_item, queue, new_buffer, can_write_directly,
}
use event_work_balance.Conn.SendQueue.Stream.{unsent}
use event_work_balance.Conn.SendQueue.Laws.{unsent-consume}
use event_work_balance.Conn.SendQueue.Queueing.{queue-unsent}
use event_work_balance.Conn.Engine.{
  Errno, Engine, World, would_block, add_pending, sub_pending, pause_state_changed,
  refresh_connection,
}
use event_work_balance.Conn.Engine.Backpressure.{refresh_keeps_stalled}
use event_work_balance.Conn.Sched
use event_work_balance.Conn.Sched.{process_round, process_begin, note_event, join, only_out}
use event_work_balance.Conn.Sched.Rounds.{
  IsMet, reads, round_reads, round_defers_half_close, round_half_close_ends,
}
use event_work_balance.Conn.Sched.Ownership.{
  System, Reach, here, next, notes, submits, starts, begins, ends, at_top, in_round, opened,
  IsDeferrable, one_owner, only_reads_wait,
}
use event_work_balance.Conn.Transfer.Interleaving.{wire_in_order, steps, sends}
use event_work_balance.Conn.Transfer.Interleaving
use event_work_balance.Conn.Transfer.Calls.{SysResult, Calls, write_retrying}
use event_work_balance.Conn.Transfer.{ok, send, send_parts, close_connection}
use event_work_balance.Conn.Transfer.Flush.{Next, continues, flush_round, flush_rounds, offer}
use event_work_balance.Conn.Transfer.Flush.Laws.{accepted, IsSound, Answers, flush_round_keeps}
use event_work_balance.Conn.Transfer.Flush.Ends.{flush_rounds_return, Ends, Serves}
use event_work_balance.Conn.Transfer.Sends.{send_keeps, send_parts_keeps}

abbrev limits : Engine
limits = record {
  use_writev = true;
  write_high = 4;
  write_low = 1;
  max_pending = 100;
  budget_resume = 25;
  pending_total = 0;
  reads_paused_by_watermark = 0;
  reads_paused_by_budget = 0;
  reads_resumed = 0;
  commands = [];
  commands_closed = false;
}

abbrev fresh : World
fresh = record { engine = limits; conn = new_connection; wire = [] }

fresh-IsSound : IsSound fresh
fresh-IsSound = record {
  queue = record { head_in_range = omega arith; done = tt; owned = tt };
  unstaged = tt;
}

abbrev no_file : ℕ → ℕ → ℕ
no_file fd i = 0

abbrev double : ℕ → ℕ → ℕ
double cap need = cap + need

abbrev wrote : ℕ → SysResult
wrote n = record { count = n; error = none }

abbrev full : SysResult
full = record { count = 0; error = some would_block }

abbrev hello : List ℕ
hello = 104 ∷ 101 ∷ 108 ∷ 108 ∷ 111 ∷ []

-- What is left after a send of which the socket took two bytes.
abbrev tail_item : SendItem
tail_item = record {
  chunk = some (108 ∷ 108 ∷ 111 ∷ []);
  offset = 0;
  buf = some (record { bytes = 108 ∷ 108 ∷ 111 ∷ []; capacity = 16 });
  file = none;
}

abbrev backlog : World
backlog = record {
  engine = record limits { pending_total = 3 };
  conn = record new_connection { sends = tail_item ∷ []; pending_bytes = 3 };
  wire = 104 ∷ 101 ∷ [];
}

backlog-IsSound : IsSound backlog
backlog-IsSound = record {
  queue = record { head_in_range = omega arith; done = tt; owned = ((refl, refl), tt) };
  unstaged = (tt, tt);
}

sent_hello : send double 16 true hello (wrote 2 ∷ []) fresh ≡ some (backlog, ok)
unfolding send can_write_directly queue new_buffer add_pending pause_state_changed write_retrying
sent_hello = refl

send_keeps_example : IsSound backlog × (accepted no_file backlog ≡ hello)
send_keeps_example =
    send_keeps no_file double 16 true hello (wrote 2 ∷ []) fresh (backlog, ok) fresh-IsSound
      (omega arith) sent_hello

parts_sent :
    send_parts double 16 (104 ∷ 101 ∷ []) (108 ∷ 108 ∷ 111 ∷ []) (wrote 2 ∷ []) fresh
    ≡ some (backlog, ok)
unfolding send_parts can_write_directly queue new_buffer add_pending pause_state_changed
    write_retrying
parts_sent = refl

send_parts_keeps_example : IsSound backlog × (accepted no_file backlog ≡ hello)
send_parts_keeps_example =
    send_parts_keeps no_file double 16 (104 ∷ 101 ∷ []) (108 ∷ 108 ∷ 111 ∷ []) (wrote 2 ∷ []) fresh
      (backlog, ok) fresh-IsSound (omega arith) parts_sent

-- The flush of what is left: one round takes it, the next finds the queue empty.
abbrev answers : ℕ → Calls
answers n = record { write = wrote n; splice = []; pread = wrote 0 }

abbrev drained : World
drained = record {
  engine = limits;
  conn = record new_connection { sends = no_item ∷ []; send_head = 1 };
  wire = hello;
}

flushed_once : flush_round no_file (answers 3) backlog ≡ some (drained, continues)
unfolding flush_round offer consume consume_items consume_item sub_pending
flushed_once = refl

backlog_answers : Answers no_file (answers 3) backlog
unfolding offer
backlog_answers sent e = ground arith

flush_round_keeps_example : IsSound drained × (accepted no_file drained ≡ hello)
flush_round_keeps_example =
    flush_round_keeps no_file (answers 3) backlog drained continues backlog-IsSound backlog_answers
      flushed_once

drained_served : Serves no_file (answers 1 ∷ answers 1 ∷ answers 1 ∷ []) drained
unfolding flush_round offer
drained_served = (λ sent e. cc, λ left. absurd (left refl), λ w' e. cc)

backlog_served : Serves no_file (answers 3 ∷ answers 1 ∷ answers 1 ∷ answers 1 ∷ []) backlog
unfolding offer
backlog_served = (
  backlog_answers,
  λ _. (
    record {
      n = 3;
      attempted = 3;
      from_file = false;
      error = none;
      offered = 108 ∷ 108 ∷ 111 ∷ [];
      segment = none;
    },
    refl,
    omega arith,
  ),
  λ w' e.
      subst (Serves no_file (answers 1 ∷ answers 1 ∷ answers 1 ∷ []))
        (ap (λ (p : World × Next). p.0)
          (some-injective (drained, continues) (w', continues) (sym flushed_once ∙ e)))
        drained_served,
)

flush_rounds_return_example :
    Ends no_file backlog
      (flush_rounds no_file (answers 3 ∷ answers 1 ∷ answers 1 ∷ answers 1 ∷ []) backlog)
flush_rounds_return_example =
    flush_rounds_return no_file (answers 3 ∷ answers 1 ∷ answers 1 ∷ answers 1 ∷ []) backlog
      backlog-IsSound backlog_served (omega arith)

unsent-consume_example : unsent no_file (consume backlog.conn 1) ≡ 108 ∷ 111 ∷ []
unsent-consume_example = unsent-consume no_file backlog.conn 1 backlog-IsSound.queue (omega arith)

queue-unsent_example :
    unsent no_file (queue double 16 backlog.conn (33 ∷ []) (10 ∷ []))
    ≡ 108 ∷ 108 ∷ 111 ∷ 33 ∷ 10 ∷ []
queue-unsent_example =
    queue-unsent double 16 backlog.conn (33 ∷ []) (10 ∷ []) backlog-IsSound.queue no_file

abbrev stalled : Connection
stalled = record new_connection { read_stalled = true }

refresh_keeps_stalled_example :
    let r = refresh_connection limits stalled in
    ((r.conn.read_paused ≡ true) × (r.conn.read_stalled ≡ true))
    ⊎ ((r.conn.read_paused ≡ false) × (r.redeliver ≡ true))
    ⊎ ((r.conn.read_paused ≡ false) × (r.set_read_paused ≡ true))
refresh_keeps_stalled_example = refresh_keeps_stalled limits stalled refl refl refl

-- A round that is given a read and a half-close while output is queued.
abbrev waiting_answers : Sched.Answers
waiting_answers = record {
  queued_at_out = true;
  flush_error = none;
  pri_error = none;
  queued_at_in = true;
  read_error = none;
  socket_error = would_block;
}

abbrev half_closed : Events
half_closed = record no_events { ev_in = true; ev_rd_hup = true }

round_reads_example :
    let r = process_round waiting_answers false half_closed false in
    ((reads r.actions ≡ true) × (true ≡ false))
    ⊎ ((reads r.actions ≡ false) × (r.deferred.ev_in ≡ true) × (true ≡ true))
    ⊎ ((reads r.actions ≡ false) × (r.close ≢ none))
round_reads_example = round_reads waiting_answers half_closed refl

deferred_read : (process_round waiting_answers false half_closed false).deferred.ev_in ≡ true
unfolding process_round
deferred_read = refl

round_defers_half_close_example :
    let r = process_round waiting_answers false half_closed false in
    (r.deferred.ev_rd_hup ≡ true) × (r.close ≡ none)
round_defers_half_close_example =
    round_defers_half_close waiting_answers half_closed deferred_read refl refl

abbrev idle_answers : Sched.Answers
idle_answers = record waiting_answers { queued_at_out = false; queued_at_in = false }

read_at_once : (process_round idle_answers false half_closed false).deferred.ev_in ≡ false
unfolding process_round
read_at_once = refl

round_half_close_ends_example :
    (e : Errno) × ((process_round idle_answers false half_closed false).close ≡ some (some e))
    × IsMet idle_answers e
round_half_close_ends_example =
    round_half_close_ends idle_answers half_closed refl refl read_at_once

-- A connection that is noted, submitted, started and begun.
abbrev noted : System
noted = record opened {
  conn = record new_connection { pending_events = half_closed; scheduled = true };
  ready = 1;
}

abbrev running : System
running = record noted { ready = 0; workers = at_top no_events ∷ [] }

run : Reach opened running
unfolding note_event
run = next (next (next here (notes half_closed refl)) (submits 0 refl refl)) (starts 0 refl refl)

one_owner_example : 0 + 0 + 1 ≡ 1
one_owner_example = one_owner run

-- The round puts the read off, and the worker lets the connection go.
abbrev in_hand : System
in_hand = record noted {
  conn = record new_connection { scheduled = true };
  ready = 0;
  workers = in_round half_closed false ∷ [];
}

abbrev put_off : System
put_off = record in_hand { workers = at_top half_closed ∷ [] }

abbrev let_go : System
let_go = record opened { conn = record new_connection { pending_events = half_closed } }

released_run : Reach opened let_go
unfolding process_begin process_round
released_run =
    next
      (next {u = put_off} (next {u = in_hand} run (begins [] [] no_events refl refl))
        (ends [] [] waiting_answers half_closed false refl refl))
      (begins [] [] half_closed refl refl)

only_reads_wait_example : IsDeferrable half_closed
only_reads_wait_example = only_reads_wait released_run refl refl refl

-- A send that the socket blocks half-way, and then the loop closes the connection.
wire_in_order_example :
    IsSound (close_connection backlog)
    × ((gone : List ℕ) × (((close_connection backlog).wire
              ++ unsent no_file (close_connection backlog).conn)
            ++ gone
          ≡ hello)
        × ((gone ≡ []) ⊎ ((close_connection backlog).conn.closed ≡ true)))
wire_in_order_example =
    wire_in_order no_file double {w = fresh} {v = close_connection backlog} {xs = hello}
      fresh-IsSound
      (steps {u = backlog} {xs = hello} {more = []}
        (steps {u = fresh} {xs = []} {more = hello} (Interleaving.begins refl)
          (sends 16 true hello (wrote 2 ∷ []) ok (omega arith) sent_hello refl) refl)
        (Interleaving.closes refl refl) refl)
