-- ===== src/Quic/Send.antt =====
-- The sendBuffer of go/http3/internal/quic/buffer.go.
use event_work_balance.Base.{
  ℕ, suc, Bool, ◌||◌, ◌&&◌, ◌+◌, ◌-◌, ◌≤◌, ◌≡◌, refl, sym, ap, ◌∙◌, List, [], ◌∷◌, ◌++◌, ◌==◌, leb,
  ltb, arith, if◌then◌else◌, length, drop, take, Bool-cases, inl, inr, length-drop, min, max,
  length-append,
}
use event_work_balance.Quic.Spans.{Span, add_span, covers}
use event_work_balance.Quic.Spans.Laws.{
  Within, Within-mono, place-Within, add_span-Within, Ordered, Front, add_span-Front,
  covers-add_span,
}
use event_work_balance.Quic.Receive.{stretch, stretch-drop, stretch-take, stretch-append}

pub record SendBuffer : Type 0 where
  pub base : ℕ
  pub buf : List ℕ
  pub next : ℕ
  pub lost : List Span
  pub acked : List Span

abbrev pub end_of : SendBuffer → ℕ
end_of b = b.base + length b.buf

unfoldable pub write : SendBuffer → List ℕ → SendBuffer
write b p = record b { buf = b.buf ++ p }

-- The lost spans that hasLost leaves.
unfoldable pub still_lost : ℕ → List Span → List Span
still_lost base [] = []
still_lost base (s ∷ ss) = let rest = still_lost base ss in if leb s.end base then rest else s ∷ ss

-- `b.buf[off-b.base : end-b.base]`
abbrev pub slice : SendBuffer → ℕ → ℕ → List ℕ
slice b off end = take (end - off) (drop (off - b.base) b.buf)

-- popLost of a buffer whose lost spans are the list, after hasLost.
unfoldable pub pop_first : SendBuffer → ℕ → List Span → SendBuffer × ℕ × List ℕ
pop_first b n [] = (record b { lost = [] }, 0, [])
pop_first b n (s ∷ ss) =
    let off = max s.off b.base in
    let end = min s.end (off + n) in
    (
      record b { lost = if leb s.end end then ss else record { off = end; end = s.end } ∷ ss },
      off,
      slice b off end,
    )

unfoldable pub pop_lost : SendBuffer → ℕ → SendBuffer × ℕ × List ℕ
unfolding still_lost pop_first
pop_lost b n =
    let lost = still_lost b.base b.lost in
    if n == 0 then (record b { lost = lost }, 0, []) else pop_first b n lost

unfoldable pub pop_new : SendBuffer → ℕ → SendBuffer × ℕ × List ℕ
pop_new b n =
    let end = min (end_of b) (b.next + n) in (record b { next = end }, b.next, slice b b.next end)

-- onAck once the span is among the acknowledged.
unfoldable pub release : SendBuffer → List Span → SendBuffer
release b [] = record b { acked = [] }
release b (s ∷ ss) =
    if ltb b.base s.off
    then record b { acked = s ∷ ss }
    else if leb s.end b.base
    then record b { acked = ss }
    else record b { base = s.end; buf = drop (s.end - b.base) b.buf; acked = ss }

unfoldable pub on_ack : SendBuffer → ℕ → ℕ → SendBuffer
unfolding add_span release
on_ack b off n = release b (add_span b.acked (record { off = off; end = off + n }))

unfoldable pub on_lost : SendBuffer → ℕ → ℕ → SendBuffer
unfolding add_span
on_lost b off n =
    let from = max off b.base in
    if leb (off + n) from
    then b
    else record b { lost = add_span b.lost (record { off = from; end = off + n }) }

-- The buffer holds the stream `f` from `base` on, what was sent is between its ends, what is lost or
-- acknowledged was sent, and what is acknowledged lies behind the base, in order and apart.
pub record IsSending (f : ℕ → ℕ) (b : SendBuffer) : Type 0 where
  pub stored : b.buf ≡ stretch f b.base (length b.buf)
  pub from_base : b.base ≤ b.next
  pub to_end : b.next ≤ end_of b
  pub lost_sent : Within b.next b.lost
  pub acked_sent : Within b.next b.acked
  pub acked_apart : Ordered (suc b.base) b.acked

release-IsSending :
    (f : ℕ → ℕ) (b : SendBuffer) (acked : List Span)
    → IsSending f b
    → Within b.next acked
    → Front b.base acked
    → IsSending f (release b acked)
unfolding release
release-IsSending f b [] v w o = record {
  stored = v.stored;
  from_base = v.from_base;
  to_end = v.to_end;
  lost_sent = v.lost_sent;
  acked_sent = tt;
  acked_apart = tt;
}
release-IsSending f b (s ∷ ss) v w (n, r, o) = elim (Bool-cases (ltb b.base s.off)) [
  | inl gap ↦ rw gap (record {
    stored = v.stored;
    from_base = v.from_base;
    to_end = v.to_end;
    lost_sent = v.lost_sent;
    acked_sent = w;
    acked_apart = (ground arith, n, r);
  })
  | inr reached ↦ rw reached (elim (Bool-cases (leb s.end b.base)) [
    | inl old ↦ rw old (record {
      stored = v.stored;
      from_base = v.from_base;
      to_end = v.to_end;
      lost_sent = v.lost_sent;
      acked_sent = w.1;
      acked_apart = o;
    })
    | inr new ↦
        let k = s.end - b.base in
        let at : b.base + k ≡ s.end = ground arith in
        let size = length-drop k b.buf in
        rw new (record {
          stored =
              ap (drop k) v.stored
              ∙ stretch-drop f k b.base (length b.buf)
              ∙ ap (λ o. stretch f o (length b.buf - k)) at
              ∙ ap (stretch f s.end) (sym size);
          from_base = w.0;
          to_end = ground (arith, size, v.to_end, w.0);
          lost_sent = v.lost_sent;
          acked_sent = w.1;
          acked_apart = r;
        })
  ])
]

slice-stretch :
    (f : ℕ → ℕ) (b : SendBuffer) (off end : ℕ)
    → b.buf ≡ stretch f b.base (length b.buf)
    → b.base ≤ off
    → off ≤ end
    → end ≤ end_of b
    → slice b off end ≡ stretch f off (end - off)
slice-stretch f b off end v low mid high =
    let k = off - b.base in
    let at : b.base + k ≡ off = omega (arith, low) in
    let rest : drop k b.buf ≡ stretch f off (length b.buf - k) =
      ap (drop k) v
      ∙ stretch-drop f k b.base (length b.buf)
      ∙ ap (λ o. stretch f o (length b.buf - k)) at in
    ap (take (end - off)) rest
    ∙ stretch-take f (end - off) off (length b.buf - k) (omega (arith, low, high))

-- On a buffer that holds the stream from its base on, whose lost and acknowledged spans were sent,
-- and whose acknowledged spans lie behind the base, in order, and do not touch, popNew hands out the stream's bytes from the first that was never sent, as many as are asked for
-- and there, and leaves such a buffer, in which they count as sent.
pub pop_new_sends :
    (f : ℕ → ℕ) (b : SendBuffer) (n : ℕ)
    → IsSending f b
    → let (b', off, bytes) = pop_new b n in
      (off ≡ b.next)
      × (bytes ≡ stretch f b.next (min n (end_of b - b.next)))
      × (b'.next ≡ b.next + min n (end_of b - b.next))
      × IsSending f b'
unfolding pop_new
pop_new_sends f b n v =
    let end = min (end_of b) (b.next + n) in
    let size : end - b.next ≡ min n (end_of b - b.next) = omega (arith, v.to_end) in
    (
      refl,
      slice-stretch f b b.next end v.stored v.from_base (omega (arith, v.to_end)) (omega arith)
          ∙ ap (stretch f b.next) size,
      omega (arith, v.to_end),
      record {
        stored = v.stored;
        from_base = omega (arith, v.from_base, v.to_end);
        to_end = omega arith;
        lost_sent = Within-mono b.next end b.lost (omega (arith, v.to_end)) v.lost_sent;
        acked_sent = Within-mono b.next end b.acked (omega (arith, v.to_end)) v.acked_sent;
        acked_apart = v.acked_apart;
      },
    )

-- Whether the byte at the offset has been acknowledged: it was released, or is in a span.
abbrev pub acknowledged : SendBuffer → ℕ → Bool
acknowledged b x = ltb x b.base || covers b.acked x

acknowledged-release :
    (b : SendBuffer) (acked : List Span) (x : ℕ)
    → acknowledged (release b acked) x ≡ (ltb x b.base || covers acked x)
unfolding release
acknowledged-release b [] x = refl
acknowledged-release b (s ∷ ss) x = ground arith

-- On a buffer that holds the stream from its base on, whose lost spans were sent, and whose
-- acknowledged spans were sent, lie behind the base, in order, and do not touch, onAck of a range
-- that was sent leaves such a buffer, so that its base is the first byte that is not acknowledged;
-- and an offset is acknowledged after it, below the base or in a span, if and only if it was before
-- or is in the range.
pub on_ack_keeps :
    (f : ℕ → ℕ) (b : SendBuffer) (off n x : ℕ)
    → IsSending f b
    → off + n ≤ b.next
    → IsSending f (on_ack b off n)
      × (acknowledged (on_ack b off n) x ≡ (acknowledged b x || (leb off x && ltb x (off + n))))
unfolding on_ack
on_ack_keeps f b off n x v h =
    let s : Span = record { off = off; end = off + n } in
    let spans = add_span b.acked s in
    (
      release-IsSending f b spans v (add_span-Within b.next b.acked s h v.acked_sent)
          (add_span-Front b.base b.acked s v.acked_apart),
      let released = acknowledged-release b spans x in
          let added = covers-add_span b.acked s x (suc b.base) v.acked_apart in
          ground (arith, released, added),
    )

-- On a buffer that holds the stream from its base on, whose lost and acknowledged spans were sent,
-- and whose acknowledged spans lie behind the base, in order, and do not touch, write of the stream's next bytes and onLost of a range that was sent each leave such a buffer.
pub write_and_loss_keep :
    (f : ℕ → ℕ) (b : SendBuffer) (p : List ℕ) (off n : ℕ)
    → IsSending f b
    → p ≡ stretch f (end_of b) (length p)
    → off + n ≤ b.next
    → IsSending f (write b p) × IsSending f (on_lost b off n)
unfolding write on_lost
write_and_loss_keep f b p off n v e h = (
  record {
    stored =
        ap (λ xs. xs ++ p) v.stored
        ∙ ap (λ ys. stretch f b.base (length b.buf) ++ ys) e
        ∙ sym (stretch-append f b.base (length b.buf) (length p))
        ∙ ap (stretch f b.base) (sym (length-append b.buf p));
    from_base = v.from_base;
    to_end = omega (arith, v.to_end, length-append b.buf p);
    lost_sent = v.lost_sent;
    acked_sent = v.acked_sent;
    acked_apart = v.acked_apart;
  },
  elim (Bool-cases (leb (off + n) (max off b.base))) [
    | inl nothing ↦ rw nothing v
    | inr something ↦ rw something (record {
      stored = v.stored;
      from_base = v.from_base;
      to_end = v.to_end;
      lost_sent =
          place-Within b.next (record { off = max off b.base; end = off + n }) b.lost h v.lost_sent;
      acked_sent = v.acked_sent;
      acked_apart = v.acked_apart;
    })
  ],
)
