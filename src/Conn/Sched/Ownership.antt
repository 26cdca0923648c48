-- ===== src/Conn/Sched/Ownership.antt =====
-- A connection belongs to one worker at most, whatever the order in which the event loop, the task
-- pool, the workers and other goroutines take their turns (go/engine.go, go/connection.go).
use event_work_balance.Base.{
  ℕ, suc, ◌+◌, ◌≡◌, refl, sym, subst, ap, ◌∙◌, Bool-cases, List, [], ◌∷◌, ◌++◌, Bool, true, false,
  Option, none, some, arith, length, if◌then◌else◌, length-append, All, All-append, inl, inr,
}
use event_work_balance.Conn.State.{Events, no_events, Connection, new_connection}
use event_work_balance.Conn.Sched.{
  note_event, process_begin, process_round, Answers, same_events, join, Stage, flush_stage,
  pri_stage, in_stage, end_stage,
}

-- A worker in `process`: at the top of the loop with the readiness it carries over, or in the round
-- that the begin gave it.
pub data Worker : Type 0 where
  at_top : Events → Worker
  in_round : Events → Bool → Worker

-- The connection; how often it stands in the round's ready list and in the task pool; its workers;
-- and how many goroutines have given it up and are about to close it.
pub record System : Type 0 where
  pub conn : Connection
  pub ready : ℕ
  pub tasks : ℕ
  pub workers : List Worker
  pub closers : ℕ

abbrev one_if : Bool → ℕ
one_if b = if b then 1 else 0

abbrev begun : Option (Events × Bool) → List Worker → List Worker
begun none rest = rest
begun (some (events, closed)) rest = in_round events closed ∷ rest

-- A change that is none of scheduling's: it leaves `scheduled` and `pendingEvents` alone, and opens
-- nothing that is closing.
abbrev pub Leaves : Connection → Connection → Type 0
Leaves c d =
    (d.scheduled ≡ c.scheduled)
    × (d.pending_events ≡ c.pending_events)
    × (c.closing ≡ true → d.closing ≡ true)
    × (c.closed ≡ true → d.closed ≡ true)

pub data Step (s t : System) : Type 0 where
  -- The event loop folds an event in, and lists the connection if it has to be submitted.
  notes :
      (events : Events)
      → t ≡ record s {
        conn = (note_event s.conn events).0;
        ready = s.ready + one_if (note_event s.conn events).1;
      }
      → Step s t
  -- submitReady: the pool takes the task, or refuses it and the connection is given up.
  submits : (n : ℕ) → s.ready ≡ suc n → t ≡ record s { ready = n; tasks = suc s.tasks } → Step s t
  refuses :
      (n : ℕ)
      → s.ready ≡ suc n
      → t ≡ record s {
        ready = n;
        conn = record s.conn { scheduled = false };
        closers = suc s.closers;
      }
      → Step s t
  -- A worker of the pool takes the task.
  starts :
      (n : ℕ)
      → s.tasks ≡ suc n
      → t ≡ record s { tasks = n; workers = at_top no_events ∷ s.workers }
      → Step s t
  begins :
      (front back : List Worker) (deferred : Events)
      → s.workers ≡ front ++ (at_top deferred ∷ back)
      → t ≡ record s {
        conn = (process_begin deferred s.conn).0;
        workers = front ++ begun (process_begin deferred s.conn).1 back;
      }
      → Step s t
  -- The round's own effects on the connection come as turns; here it ends.
  ends :
      (front back : List Worker) (a : Answers) (events : Events) (closed : Bool)
      → s.workers ≡ front ++ (in_round events closed ∷ back)
      → t ≡ record s {
        workers = front ++ (at_top (process_round a s.conn.is_udp events closed).deferred ∷ back);
      }
      → Step s t
  -- A handler panics: the deferred function gives the connection up.
  panics :
      (front back : List Worker) (events : Events) (closed : Bool)
      → s.workers ≡ front ++ (in_round events closed ∷ back)
      → t ≡ record s {
        conn = record s.conn { scheduled = false };
        workers = front ++ back;
        closers = suc s.closers;
      }
      → Step s t
  -- In another hold of the lock: closeWithError of one who gave the connection up.
  closes :
      (n : ℕ)
      → s.closers ≡ suc n
      → t ≡ record s { conn = record s.conn { closing = true }; closers = n }
      → Step s t
  turns : (d : Connection) → Leaves s.conn d → t ≡ record s { conn = d } → Step s t

pub data Reach (s : System) : System → Type 0 where
  here : Reach s s
  next : {t u : System} → Reach s t → Step t u → Reach s u

-- Readiness that a round may carry over: a read, and the half-close that came with it.
abbrev pub IsDeferrable : Events → Type 0
IsDeferrable e =
    (e.ev_pri ≡ false)
    × (e.ev_out ≡ false)
    × (e.ev_err ≡ false)
    × (e.ev_hup ≡ false)
    × (e.ev_rd_hup ≡ true → e.ev_in ≡ true)

abbrev IsCarried : Worker → Type 0
IsCarried (at_top deferred) = IsDeferrable deferred
IsCarried (in_round events closed) = Unit {0}

-- `held`: what makes the connection scheduled is that the ready list, the pool or a worker has it,
-- once. `parked`: readiness that nobody works on is only what a round has carried over, unless the
-- connection is closing or somebody is about to close it.
pub record Inv (s : System) : Type 0 where
  pub held : s.ready + s.tasks + length s.workers ≡ one_if s.conn.scheduled
  pub parked :
      s.conn.scheduled ≡ false
      → s.closers ≡ 0
      → s.conn.closing ≡ false
      → IsDeferrable s.conn.pending_events
  pub carried : All IsCarried s.workers

note_event-held :
    (c : Connection) (events : Events) (n : ℕ)
    → n ≡ one_if c.scheduled
    → n + one_if (note_event c events).1 ≡ one_if (note_event c events).0.scheduled
unfolding note_event
note_event-held c events n h = ground arith

note_event_idle :
    (c : Connection) (events : Events)
    → (note_event c events).0.scheduled ≡ false
    → (note_event c events).0 ≡ c
unfolding note_event
note_event_idle c events s = ground arith

process_begin_held :
    (d : Events) (c : Connection) (n : ℕ) (back : List Worker)
    → suc (n + length back) ≡ one_if c.scheduled
    → n + length (begun (process_begin d c).1 back) ≡ one_if (process_begin d c).0.scheduled
unfolding process_begin
process_begin_held d c n back h = ground arith

process_begin_parked :
    (d : Events) (c : Connection)
    → IsDeferrable d
    → c.scheduled ≡ true
    → (process_begin d c).0.scheduled ≡ false
    → IsDeferrable (process_begin d c).0.pending_events
unfolding process_begin
process_begin_parked d c o s e = ground arith

in_stage-IsDeferrable :
    (a : Answers) (events : Events) (s : Stage)
    → s.deferred ≡ no_events
    → IsDeferrable (in_stage a events s).deferred
unfolding in_stage
in_stage-IsDeferrable a events s e = ground arith

end_stage-deferred :
    (a : Answers) (events : Events) (s : Stage) → (end_stage a events s).deferred ≡ s.deferred
unfolding end_stage
end_stage-deferred a events s = ground arith

early-deferred :
    (a : Answers) (events : Events) (closed : Bool)
    → (pri_stage a events (flush_stage a events closed)).deferred ≡ no_events
unfolding pri_stage flush_stage
early-deferred a events closed = ground arith

process_round-IsDeferrable :
    (a : Answers) (is_udp : Bool) (events : Events) (closed : Bool)
    → IsDeferrable (process_round a is_udp events closed).deferred
unfolding process_round
process_round-IsDeferrable a true events closed = ground arith
process_round-IsDeferrable a false events closed =
    let s = pri_stage a events (flush_stage a events closed) in
    subst IsDeferrable (sym (end_stage-deferred a events (in_stage a events s)))
      (in_stage-IsDeferrable a events s (early-deferred a events closed))

-- The one worker that a step finds among the workers.
length-middle :
    (front : List Worker) (x : Worker) (back : List Worker)
    → length (front ++ (x ∷ back)) ≡ suc (length front + length back)
length-middle front x back = omega (arith, length-append front (x ∷ back))

All-middle :
    (front : List Worker) (x : Worker) (back : List Worker)
    → All IsCarried (front ++ (x ∷ back))
    → All IsCarried front × IsCarried x × All IsCarried back
All-middle [] x back h = (tt, h.0, h.1)
All-middle (y ∷ front) x back h = let (f, o, b) = All-middle front x back h.1 in ((h.0, f), o, b)

-- Whoever holds the connection holds it alone.
alone : (n : ℕ) (b : Bool) → suc n ≡ one_if b → (n ≡ 0) × (b ≡ true)
alone n b h = ground arith

-- What an invariant says of a state in which one worker has been singled out.
module _ (s : System) (front : List Worker) (x : Worker) (back : List Worker) (v : Inv s)
    (h : s.workers ≡ front ++ (x ∷ back)) where
  others : (s.ready + s.tasks + (length front + length back) ≡ 0) × (s.conn.scheduled ≡ true)
  others = alone _ s.conn.scheduled (omega (arith, v.held, ap length h, length-middle front x back))

  workers_ok : All IsCarried front × IsCarried x × All IsCarried back
  workers_ok = All-middle front x back (rw h at v.carried)

begun-ok :
    (o : Option (Events × Bool)) (back : List Worker)
    → All IsCarried back
    → All IsCarried (begun o back)
begun-ok none back h = h
begun-ok (some (events, closed)) back h = (tt, h)

Step-Inv : {s t : System} → Step s t → Inv s → Inv t
Step-Inv {s} (notes events e) v = rw e (record {
  held = omega (arith, note_event-held s.conn events (s.ready + s.tasks + length s.workers) v.held);
  parked = λ idle z q.
      let same = note_event_idle s.conn events idle in
      rw same (v.parked (rw same at idle) z (rw same at q));
  carried = v.carried;
})
Step-Inv {s} (submits n h e) v =
    rw e (record { held = omega (arith, v.held); parked = v.parked; carried = v.carried })
Step-Inv {s} (refuses n h e) v = rw e (record {
  held =
      omega
        (arith, alone (n + s.tasks + length s.workers) s.conn.scheduled (omega (arith, v.held)));
  parked = λ _ z q. absurd (omega (arith, z));
  carried = v.carried;
})
Step-Inv {s} (starts n h e) v = rw e (record {
  held = omega (arith, v.held);
  parked = v.parked;
  carried = (ground arith, v.carried);
})
Step-Inv {s} (begins front back deferred h e) v =
    let (none_else, scheduled) = others s front (at_top deferred) back v h in
    let (f, o, b) = workers_ok s front (at_top deferred) back v h in
    rw e (record {
      held = omega (
        arith,
        length-append front (begun (process_begin deferred s.conn).1 back),
        process_begin_held deferred s.conn (s.ready + s.tasks + length front) back (ground arith),
      );
      parked = λ idle _ _. process_begin_parked deferred s.conn o scheduled idle;
      carried =
          All-append IsCarried front (begun (process_begin deferred s.conn).1 back) f
            (begun-ok (process_begin deferred s.conn).1 back b);
    })
Step-Inv {s} (ends front back a events closed h e) v =
    let (f, o, b) = workers_ok s front (in_round events closed) back v h in
    let d = (process_round a s.conn.is_udp events closed).deferred in
    rw e (record {
      held = omega (
        arith,
        v.held,
        ap length h,
        length-middle front (in_round events closed) back,
        length-middle front (at_top d) back,
      );
      parked = v.parked;
      carried =
          All-append IsCarried front (at_top d ∷ back) f
            (process_round-IsDeferrable a s.conn.is_udp events closed, b);
    })
Step-Inv {s} (panics front back events closed h e) v =
    let (none_else, scheduled) = others s front (in_round events closed) back v h in
    let (f, o, b) = workers_ok s front (in_round events closed) back v h in
    rw e (record {
      held = omega (arith, length-append front back);
      parked = λ _ z q. absurd (omega (arith, z));
      carried = All-append IsCarried front back f b;
    })
Step-Inv {s} (closes n h e) v =
    rw e (record { held = v.held; parked = λ _ _ q. absurd (cc q); carried = v.carried })
Step-Inv {s} (turns d (scheduled, pending, closing, closed) e) v = rw e (record {
  held = rw scheduled v.held;
  parked = λ idle z q. rw pending (
      v.parked (sym scheduled ∙ idle) z
        (elim (Bool-cases s.conn.closing) [ inl c ↦ cc (closing c) | inr c ↦ c ]));
  carried = v.carried;
})

pub Reach-Inv : {s t : System} → Inv s → Reach s t → Inv t
Reach-Inv v here = v
Reach-Inv v (next r st) = Step-Inv st (Reach-Inv v r)

abbrev pub opened : System
opened = record { conn = new_connection; ready = 0; tasks = 0; workers = []; closers = 0 }

opened-Inv : Inv opened
opened-Inv = record { held = refl; parked = λ _ _ _. ground arith; carried = tt }

-- From an opened connection on, in any order of the steps, the places where the connection stands in
-- the ready list and the task pool and the workers that execute it are one in all if `scheduled` is
-- set, and none if it is not.
pub one_owner :
    {t : System}
    → Reach opened t
    → t.ready + t.tasks + length t.workers ≡ (if t.conn.scheduled then 1 else 0)
one_owner r = (Reach-Inv opened-Inv r).held

-- From an opened connection on, in any order of the steps, the pending readiness of a connection that
-- is neither scheduled nor closing, and that nobody has given up after a panic or a refusal and is
-- still to close, has no priority, write, error or hang-up bit, and has the
-- half-close bit only beside the read bit.
pub only_reads_wait :
    {t : System}
    → Reach opened t
    → t.conn.scheduled ≡ false
    → t.closers ≡ 0
    → t.conn.closing ≡ false
    → IsDeferrable t.conn.pending_events
only_reads_wait r = (Reach-Inv opened-Inv r).parked

-- On a connection that is usable, not scheduled and has pending readiness, noteEvent with any event
-- bit asks for a submission, marks it scheduled and joins the event to what was pending.
pub next_event_resumes :
    (c : Connection) (events : Events)
    → c.closing ≡ false
    → c.closed ≡ false
    → c.scheduled ≡ false
    → same_events events no_events ≡ false
    → same_events c.pending_events no_events ≡ false
    → ((note_event c events).1 ≡ true)
      × ((note_event c events).0.scheduled ≡ true)
      × ((note_event c events).0.pending_events ≡ join c.pending_events events)
unfolding note_event
next_event_resumes c events p q r e w = ground arith
