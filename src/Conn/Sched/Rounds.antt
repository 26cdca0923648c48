-- ===== src/Conn/Sched/Rounds.antt =====
-- What one round of Connection.process (go/connection.go) does with the readiness it was given.
use event_work_balance.Base.{
  ◌≡◌, ◌≢◌, ◌⊎◌, List, [], ◌∷◌, Bool, true, false, Option, none, some, arith, ◌||◌, ◌&&◌, not, refl,
  sym, ap, ◌∙◌, Option-cases, Bool-cases, inl, inr,
}
use event_work_balance.Conn.State.{Events, no_events}
use event_work_balance.Conn.Engine.{Errno, eof}
use event_work_balance.Conn.Sched.{
  Answers, Action, drained_in, process_round, Stage, flush_stage, pri_stage, in_stage, end_stage,
  fine,
}

abbrev pub is_read : Action → Bool
is_read drained_in = true
is_read _ = false

abbrev pub reads : List Action → Bool
reads [] = false
reads (a ∷ rest) = is_read a || reads rest

-- A round on a usable stream connection that was given read readiness reads, or carries the
-- readiness over, or asks to close the connection; and it reads only if no output was queued then.
pub round_reads :
    (a : Answers) (events : Events)
    → events.ev_in ≡ true
    → let r = process_round a false events false in
      ((reads r.actions ≡ true) × (a.queued_at_in ≡ false))
      ⊎ ((reads r.actions ≡ false) × (r.deferred.ev_in ≡ true) × (a.queued_at_in ≡ true))
      ⊎ ((reads r.actions ≡ false) × (r.close ≢ none))
unfolding process_round
round_reads a events h = ground arith

-- A half-close that arrives with a read that is carried over is carried over with it, and by itself
-- closes nothing in that round: only a full hang-up or an error does.
pub round_defers_half_close :
    (a : Answers) (events : Events)
    → (process_round a false events false).deferred.ev_in ≡ true
    → events.ev_hup ≡ false
    → events.ev_err ≡ false
    → let r = process_round a false events false in
      (r.deferred.ev_rd_hup ≡ events.ev_rd_hup) × (r.close ≡ none)
unfolding process_round
round_defers_half_close a events d h e = ground arith

-- A cause that the round has met: the end of the stream, or an error of its flush or of its reads.
abbrev pub IsMet : Answers → Errno → Type 0
IsMet a e = (e ≡ eof) ⊎ (a.flush_error ≡ some e) ⊎ (a.pri_error ≡ some e) ⊎ (a.read_error ≡ some e)

abbrev IsCaused : Answers → Stage → Type 0
IsCaused a s = (s.alive ≡ true) ⊎ ((e : Errno) × (s.close_err ≡ some e) × IsMet a e)

caused :
    (a : Answers) (o : Option Errno)
    → ((e : Errno) → o ≡ some e → IsMet a e)
    → (fine o ≡ true) ⊎ ((e : Errno) × (o ≡ some e) × IsMet a e)
caused a o h = elim (Option-cases o) [ inl f ↦ inl (rw f refl) | inr (e, f) ↦ inr (e, f, h e f) ]

flush_stage-IsCaused : (a : Answers) (events : Events) → IsCaused a (flush_stage a events false)
unfolding flush_stage
flush_stage-IsCaused a events = elim (Bool-cases (events.ev_out && a.queued_at_out)) [
  | inl flushes ↦ rw flushes (caused a a.flush_error (λ e f. inr (inl f)))
  | inr nothing ↦ rw nothing (inl refl)
]

pri_stage-IsCaused :
    (a : Answers) (events : Events) (s : Stage) → IsCaused a s → IsCaused a (pri_stage a events s)
unfolding pri_stage
pri_stage-IsCaused a events s h = elim (Bool-cases (s.alive && events.ev_pri)) [
  | inl reads_it ↦ rw reads_it (caused a a.pri_error (λ e f. inr (inr (inl f))))
  | inr not_it ↦ rw not_it h
]

in_stage-IsCaused :
    (a : Answers) (events : Events) (s : Stage) → IsCaused a s → IsCaused a (in_stage a events s)
unfolding in_stage
in_stage-IsCaused a events s h = elim (Bool-cases (s.alive && events.ev_in)) [
  | inl reads_it ↦ elim (Bool-cases a.queued_at_in) [
    | inl later ↦ rw (reads_it, later) h
    | inr now ↦ rw (reads_it, now) (caused a a.read_error (λ e f. inr (inr (inr f))))
  ]
  | inr not_it ↦ rw not_it h
]

in_stage-half_close :
    (a : Answers) (events : Events) (s : Stage)
    → s.deferred ≡ no_events
    → (in_stage a events s).deferred.ev_in ≡ false
    → (in_stage a events s).deferred.ev_rd_hup ≡ false
unfolding in_stage
in_stage-half_close a events s e h = ground arith

early_none :
    (a : Answers) (events : Events)
    → (pri_stage a events (flush_stage a events false)).deferred ≡ no_events
unfolding pri_stage flush_stage
early_none a events = ground arith

cause_of :
    (a : Answers) (s : Stage)
    → s.alive ≡ false
    → IsCaused a s
    → (e : Errno) × (s.close_err ≡ some e) × IsMet a e
cause_of a s dead (inl alive) = absurd (cc (dead, alive))
cause_of a s dead (inr met) = met

end_stage-half_close :
    (a : Answers) (events : Events) (s : Stage)
    → events.ev_rd_hup ≡ true
    → events.ev_err ≡ false
    → s.deferred.ev_rd_hup ≡ false
    → IsCaused a s
    → ((end_stage a events s).alive ≡ false)
      × ((e : Errno) × ((end_stage a events s).close_err ≡ some e) × IsMet a e)
unfolding end_stage
end_stage-half_close a events s r e d h =
    let ends : (events.ev_hup || (events.ev_rd_hup && not s.deferred.ev_rd_hup)) ≡ true =
      ground arith in
    elim (Bool-cases s.alive) [
      | inl alive ↦ rw (alive, e, ends) (refl, (eof, refl, inl refl))
      | inr dead ↦ let (x, c, m) = cause_of a s dead h in rw dead (refl, (x, c, m))
    ]

end_stage-deferred :
    (a : Answers) (events : Events) (s : Stage) → (end_stage a events s).deferred ≡ s.deferred
unfolding end_stage
end_stage-deferred a events s = ground arith

-- A round on a usable stream connection with a half-close, no error, and no read carried over asks
-- to close the connection, and for a cause: the end of the stream, or the error of the round's flush,
-- of its read of priority data or of its read.
pub round_half_close_ends :
    (a : Answers) (events : Events)
    → events.ev_rd_hup ≡ true
    → events.ev_err ≡ false
    → (process_round a false events false).deferred.ev_in ≡ false
    → (e : Errno) × ((process_round a false events false).close ≡ some (some e)) × IsMet a e
unfolding process_round
round_half_close_ends a events r e d =
    let flushed = flush_stage a events false in
    let prior = pri_stage a events flushed in
    let last = in_stage a events prior in
    let no_read : last.deferred.ev_in ≡ false =
      sym (ap (λ x. x.ev_in) (end_stage-deferred a events last)) ∙ d in
    let kept = in_stage-half_close a events prior (early_none a events) no_read in
    let why =
      in_stage-IsCaused a events prior
        (pri_stage-IsCaused a events flushed (flush_stage-IsCaused a events)) in
    let (ended, (x, c, met)) = end_stage-half_close a events last r e kept why in
    rw ended (x, ap some c, met)
