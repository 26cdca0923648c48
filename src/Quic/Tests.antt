-- ===== src/Quic/Tests.antt =====
-- QUIC of go/http3/internal/quic on small inputs.
use event_work_balance.Base.{
  min, ◌-◌, false, none, ◌≢◌, ◌⊎◌, leb, ltb, ◌&&◌, ℕ, ◌≡◌, ◌+◌, refl, List, [], ◌∷◌, ◌++◌, arith,
  length, ◌==◌, ◌||◌, not,
}
use event_work_balance.Quic.Varint.{
  read_varint, append_varint, varint_len, read_varint-append_varint,
}
use event_work_balance.Quic.Receive.{
  Event, pushes, pops, run, empty, stretch, held, push, insert, pop, pop_from, after_pop,
}
use event_work_balance.Quic.Receive.Reads.{arrived, reassembles}
use event_work_balance.Quic.Send.{
  SendBuffer, IsSending, end_of, pop_new, pop_new_sends, on_ack, acknowledged, on_ack_keeps,
}
use event_work_balance.Quic.Ranges.{PnRange, add, has, Ascends, add_records}

read_varint-append_varint_example :
    (read_varint (append_varint [] 15293 ++ (7 ∷ [])) ≡ (15293, varint_len 15293))
    × (length (append_varint [] 15293) ≡ varint_len 15293)
read_varint-append_varint_example = read_varint-append_varint 15293 (7 ∷ []) (omega arith)

-- RFC 9000's example of two bytes.
append_varint_15293 : append_varint [] 15293 ≡ 123 ∷ 189 ∷ []
unfolding append_varint
append_varint_15293 = refl

-- The second frame first, then one that overlaps it, and reads in between.
abbrev frames : List Event
frames = pushes 2 (12 ∷ 13 ∷ []) ∷ pops ∷ pushes 0 (10 ∷ 11 ∷ 12 ∷ []) ∷ pops ∷ pops ∷ []

abbrev stream : ℕ → ℕ
stream n = n + 10

reassembles_example :
    let (r, delivered) = run frames (empty, []) in
    (delivered ≡ stretch stream 0 r.offset)
    × (r.buffered ≡ held r.segments)
    × (((pop r).1 ≢ none) ⊎ (arrived frames r.offset ≡ false))
reassembles_example = reassembles stream frames (refl, (refl, tt))

delivered_all : (run frames (empty, [])).1 ≡ 10 ∷ 11 ∷ 12 ∷ 13 ∷ []
unfolding run push insert pop pop_from after_pop
delivered_all = refl

-- Bytes 2 to 4, of which the first has been sent.
abbrev half_sent : SendBuffer
half_sent = record { base = 2; buf = 12 ∷ 13 ∷ 14 ∷ []; next = 3; lost = []; acked = [] }

half_sent-IsSending : IsSending stream half_sent
half_sent-IsSending = record {
  stored = refl;
  from_base = omega arith;
  to_end = omega arith;
  lost_sent = tt;
  acked_sent = tt;
  acked_apart = tt;
}

on_ack_keeps_example :
    IsSending stream (on_ack half_sent 2 1)
    × (acknowledged (on_ack half_sent 2 1) 2
        ≡ (acknowledged half_sent 2 || (leb 2 2 && ltb 2 (2 + 1))))
on_ack_keeps_example = on_ack_keeps stream half_sent 2 1 2 half_sent-IsSending (omega arith)

pop_new_sends_example :
    let (b', off, bytes) = pop_new half_sent 1 in
    (off ≡ 3)
    × (bytes ≡ stretch stream 3 (min 1 (end_of half_sent - 3)))
    × (b'.next ≡ 3 + min 1 (end_of half_sent - 3))
    × IsSending stream b'
pop_new_sends_example = pop_new_sends stream half_sent 1 half_sent-IsSending

-- 5 joins the ranges on both sides of it.
abbrev around_five : List PnRange
around_five = record { lo = 3; hi = 4 } ∷ record { lo = 6; hi = 6 } ∷ []

add_records_example :
    Ascends 0 (add 5 around_five).0
    × (has 6 (add 5 around_five).0 ≡ (6 == 5 || has 6 around_five))
    × ((add 5 around_five).1 ≡ not (has 5 around_five))
add_records_example =
    add_records 5 6 around_five (omega arith, omega arith, (omega arith, omega arith, tt))
      (omega arith)
