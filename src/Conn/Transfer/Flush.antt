-- ===== src/Conn/Transfer/Flush.antt =====
-- flushOutput of go/connection.go, a round at a time: c.mu is released between the rounds, so other
-- goroutines' sends may fall there.
pub mod Offers
pub mod Laws
pub mod Ends
pub mod Closed
use event_work_balance.Base.{
  ℕ, zero, suc, ◌-◌, List, [], ◌∷◌, ◌++◌, Bool, true, false, not, ◌&&◌, ◌||◌, Option, none, some,
  ltb, if◌then◌else◌, length, take, drop,
}
use event_work_balance.Conn.State.{FileSegment, SendItem, Connection}
use event_work_balance.Conn.SendQueue.{bytes_of, queued, rewind_queue, consume}
use event_work_balance.Conn.Engine.{
  Errno, World, epipe, sub_pending, pause_state_changed, close_with_error,
}
use event_work_balance.Conn.Transfer.Calls.{
  SysResult, Calls, Sent, is_eintr, is_would_block, sys_send_file,
}
use event_work_balance.Conn.Transfer.{on_wire, request_refresh_if}

pub data Next : Type 0 where
  continues : Next
  returns : Option Errno → Next

abbrev pub max_writev_items : ℕ
max_writev_items = 64

-- The items that one writev takes: at most `k`, up to the first file.
abbrev pub batch : ℕ → List SendItem → List ℕ
batch zero items = []
batch (suc k) [] = []
batch (suc k) (item ∷ items) = elim item.file [
  | none ↦ drop item.offset (bytes_of item.chunk) ++ batch k items
  | some s ↦ []
]

-- How many items are offered: all up to the limit by writev, else the first.
abbrev pub batch_size : Bool → List SendItem → ℕ
batch_size use_writev items = if use_writev && ltb 1 (length items) then max_writev_items else 1

-- A round's system call on the items that are queued, the first of which is given.
offer_head :
    (ℕ → ℕ → ℕ) → Bool → Calls → SendItem → List SendItem → Option FileSegment → Option Sent
offer_head contents use_writev calls head items (some s) = sys_send_file contents s calls
offer_head contents use_writev calls head items none =
    let bytes = batch (batch_size use_writev items) items in
    some (record {
      n = calls.write.count;
      attempted = length bytes;
      from_file = false;
      error = calls.write.error;
      offered = bytes;
      segment = none;
    })

unfoldable pub offer : (ℕ → ℕ → ℕ) → Bool → Calls → List SendItem → Option Sent
unfolding offer_head
offer contents use_writev calls [] = none
offer contents use_writev calls (head ∷ items) =
    offer_head contents use_writev calls head (head ∷ items) head.file

-- The system call may leave a note on the file at the head: it has to be copied.
note_segment : Option FileSegment → Connection → Connection
note_segment none c = c
note_segment (some s) c = elim (queued c) [
  | [] ↦ c
  | head ∷ items ↦ record c {
    sends = take c.send_head c.sends ++ (record head { file = some s } ∷ items);
  }
]

stop_flushing : World → World
unfolding request_refresh_if
stop_flushing w =
    let w' = record w { conn = record w.conn { flushing = false } } in
    request_refresh_if (pause_state_changed w'.engine w'.conn) w'

after_call : Sent → World → World × Next
unfolding stop_flushing
after_call sent w =
    if ltb 0 sent.n
    then (let w1 = on_wire (take sent.n sent.offered) w in
        let w2 = if sent.from_file then w1 else sub_pending sent.n w1 in
        let w3 = record w2 { conn = consume w2.conn sent.n } in
        if ltb sent.n sent.attempted then (stop_flushing w3, returns none) else (w3, continues))
    else if is_eintr sent.error
    then (w, continues)
    else if is_would_block sent.error
    then (stop_flushing w, returns none)
    else (record w { conn = record w.conn { flushing = false } }, returns sent.error)

-- The round that finds the queue empty.
flushed : World → World × Next
unfolding stop_flushing rewind_queue
flushed w =
    let w' = record w { conn = record (rewind_queue w.conn) { flushing = false } } in
    if w.conn.close_after_send
    then (close_with_error none w', returns none)
    else (stop_flushing w', returns none)

after_offer : World → Option Sent → Option (World × Next)
unfolding note_segment after_call
after_offer w none = none
after_offer w (some sent) =
    some (after_call sent (record w { conn = note_segment sent.segment w.conn }))

flush_items : (ℕ → ℕ → ℕ) → Calls → World → List SendItem → Option (World × Next)
unfolding flushed after_offer
flush_items contents calls w [] = some (flushed w)
flush_items contents calls w (head ∷ items) =
    after_offer w (offer contents w.engine.use_writev calls (head ∷ items))

-- One round of the loop; `none` is a system call that has not returned.
unfoldable pub flush_round : (ℕ → ℕ → ℕ) → Calls → World → Option (World × Next)
unfolding flush_items
flush_round contents calls w = flush_items contents calls w (queued w.conn)

-- The test on entry: whether the flush goes on, or what it answers at once.
unfoldable pub flush_start : World → World × Next
flush_start w =
    let c = w.conn in
    if c.closing || c.closed
    then (w, returns (some epipe))
    else if c.flushing
    then (w, returns none)
    else (record w { conn = record c { flushing = true } }, continues)

-- The rounds, with nobody in between.
unfoldable pub flush_rounds : (ℕ → ℕ → ℕ) → List Calls → World → Option (World × Option Errno)
unfolding flush_round
flush_rounds contents [] w = none
flush_rounds contents (calls ∷ rest) w = elim (flush_round contents calls w) [
  | none ↦ none
  | some (w', returns e) ↦ some (w', e)
  | some (w', continues) ↦ flush_rounds contents rest w'
]

go_on : (ℕ → ℕ → ℕ) → List Calls → World → Next → Option (World × Option Errno)
unfolding flush_rounds
go_on contents calls w (returns e) = some (w, e)
go_on contents calls w continues = flush_rounds contents calls w

unfoldable pub flush_output : (ℕ → ℕ → ℕ) → List Calls → World → Option (World × Option Errno)
unfolding flush_start go_on
flush_output contents calls w = go_on contents calls (flush_start w).0 (flush_start w).1
