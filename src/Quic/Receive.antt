-- ===== src/Quic/Receive.antt =====
-- The recvBuffer of go/http3/internal/quic/buffer.go.
pub mod Reads
use event_work_balance.Base.{
  ℕ, zero, suc, ◌+◌, ◌-◌, ◌≤◌, ◌≡◌, refl, sym, ap, ◌∙◌, List, [], ◌∷◌, ◌++◌, ◌||◌, ◌==◌, leb,
  Option, none, some, ltb, arith, if◌then◌else◌, length, drop, take, Bool-cases, inl, inr, All,
  length-drop,
}

pub record Segment : Type 0 where
  pub off : ℕ
  pub bytes : List ℕ

pub record RecvBuffer : Type 0 where
  pub offset : ℕ
  pub segments : List Segment
  pub buffered : ℕ

-- The place that sort.Search finds: behind the segments that start no later.
unfoldable pub insert : Segment → List Segment → List Segment
insert s [] = s ∷ []
insert s (t ∷ ts) = let rest = insert s ts in if ltb s.off t.off then s ∷ t ∷ ts else t ∷ rest

unfoldable pub push : RecvBuffer → ℕ → List ℕ → RecvBuffer
unfolding insert
push r off bytes =
    if leb (off + length bytes) r.offset || length bytes == 0
    then r
    else (let cut =
          if ltb off r.offset
          then record { off = r.offset; bytes = drop (r.offset - off) bytes }
          else record { off = off; bytes = bytes } in
        record r { segments = insert cut r.segments; buffered = r.buffered + length cut.bytes })

-- pop of a buffer whose segments are the list; the segments are in the order of their offsets.
unfoldable pub pop_from : ℕ → ℕ → List Segment → RecvBuffer × Option (List ℕ)
pop_from offset buffered [] = (record { offset = offset; segments = []; buffered = buffered }, none)
pop_from offset buffered (s ∷ ss) =
    let skip = pop_from offset (buffered - length s.bytes) ss in
    let end_of = s.off + length s.bytes in
    if ltb offset s.off
    then (record { offset = offset; segments = s ∷ ss; buffered = buffered }, none)
    else if leb end_of offset
    then skip
    else (
      record { offset = end_of; segments = ss; buffered = buffered - length s.bytes },
      some (drop (offset - s.off) s.bytes),
    )

unfoldable pub pop : RecvBuffer → RecvBuffer × Option (List ℕ)
unfolding pop_from
pop r = pop_from r.offset r.buffered r.segments

-- `n` bytes of the stream `f` from offset `off` on.
abbrev pub stretch : (ℕ → ℕ) → ℕ → ℕ → List ℕ
stretch f off zero = []
stretch f off (suc n) = f off ∷ stretch f (off + 1) n

-- A segment holds what the stream has there.
abbrev pub IsPart : (ℕ → ℕ) → Segment → Type 0
IsPart f s = s.bytes ≡ stretch f s.off (length s.bytes)

abbrev pub held : List Segment → ℕ
held [] = 0
held (s ∷ ss) = length s.bytes + held ss

-- What frames and reads do to a buffer; `delivered` is what the reads got, end to end.
pub data Event : Type 0 where
  pushes : ℕ → List ℕ → Event
  pops : Event

unfoldable pub after_pop : List ℕ → RecvBuffer × Option (List ℕ) → RecvBuffer × List ℕ
after_pop delivered (r, none) = (r, delivered)
after_pop delivered (r, some bytes) = (r, delivered ++ bytes)

unfoldable pub run : List Event → RecvBuffer × List ℕ → RecvBuffer × List ℕ
unfolding push pop after_pop
run [] s = s
run (pushes off bytes ∷ es) (r, delivered) = run es (push r off bytes, delivered)
run (pops ∷ es) (r, delivered) = run es (after_pop delivered (pop r))

length-stretch : (f : ℕ → ℕ) (off n : ℕ) → length (stretch f off n) ≡ n
length-stretch f off zero = refl
length-stretch f off (suc n) = omega (arith, length-stretch f (off + 1) n)

pub stretch-drop :
    (f : ℕ → ℕ) (k off n : ℕ) → drop k (stretch f off n) ≡ stretch f (off + k) (n - k)
stretch-drop f zero off n =
    let e : off + 0 ≡ off = omega arith in let e' : n - 0 ≡ n = omega arith in rw (e, e') refl
stretch-drop f (suc k) off zero = let e : 0 - suc k ≡ 0 = omega arith in rw e refl
stretch-drop f (suc k) off (suc n) =
    let e : off + suc k ≡ off + 1 + k = omega arith in
    let e' : suc n - suc k ≡ n - k = omega arith in rw (e, e') (stretch-drop f k (off + 1) n)

pub stretch-take : (f : ℕ → ℕ) (k off n : ℕ) → k ≤ n → take k (stretch f off n) ≡ stretch f off k
stretch-take f zero off n h = refl
stretch-take f (suc k) off zero h = absurd (omega (arith, h))
stretch-take f (suc k) off (suc n) h =
    ap (◌∷◌ (f off)) (stretch-take f k (off + 1) n (omega (arith, h)))

pub stretch-append :
    (f : ℕ → ℕ) (off n m : ℕ) → stretch f off (n + m) ≡ stretch f off n ++ stretch f (off + n) m
stretch-append f off zero m =
    let e : off + 0 ≡ off = omega arith in let e' : 0 + m ≡ m = omega arith in rw (e, e') refl
stretch-append f off (suc n) m =
    let e : suc n + m ≡ suc (n + m) = omega arith in
    let e' : off + suc n ≡ off + 1 + n = omega arith in
    rw (e, e') (ap (◌∷◌ (f off)) (stretch-append f (off + 1) n m))

insert-All :
    (f : ℕ → ℕ) (s : Segment) (ts : List Segment)
    → IsPart f s
    → All (IsPart f) ts
    → All (IsPart f) (insert s ts)
unfolding insert
insert-All f s [] p h = (p, tt)
insert-All f s (t ∷ ts) p h = elim (Bool-cases (ltb s.off t.off)) [
  | inl before ↦ rw before (p, h)
  | inr behind ↦ rw behind (h.0, insert-All f s ts p h.1)
]

insert-held : (s : Segment) (ts : List Segment) → held (insert s ts) ≡ length s.bytes + held ts
unfolding insert
insert-held s [] = refl
insert-held s (t ∷ ts) = ground (arith, insert-held s ts)

-- The stream `f` up to the offset has been delivered, the segments are parts of it, and `buffered`
-- counts their bytes.
pub record IsStream (f : ℕ → ℕ) (s : RecvBuffer × List ℕ) : Type 0 where
  pub parts : All (IsPart f) s.0.segments
  pub counted : s.0.buffered ≡ held s.0.segments
  pub in_order : s.1 ≡ stretch f 0 s.0.offset

cut-IsPart :
    (f : ℕ → ℕ) (off offset : ℕ) (bytes : List ℕ)
    → bytes ≡ stretch f off (length bytes)
    → off ≤ offset
    → drop (offset - off) bytes ≡ stretch f offset (length (drop (offset - off) bytes))
cut-IsPart f off offset bytes p h =
    let k = offset - off in
    let at : off + k ≡ offset = omega (arith, h) in
    let rest : drop k bytes ≡ stretch f offset (length bytes - k) =
      ap (drop k) p
      ∙ stretch-drop f k off (length bytes)
      ∙ ap (λ o. stretch f o (length bytes - k)) at in
    rest ∙ ap (stretch f offset) (sym (length-drop k bytes))

stored :
    (f : ℕ → ℕ) (r : RecvBuffer) (delivered : List ℕ) (s : Segment)
    → IsPart f s
    → IsStream f (r, delivered)
    → IsStream f (
      record r { segments = insert s r.segments; buffered = r.buffered + length s.bytes },
      delivered,
    )
stored f r delivered s p v = record {
  parts = insert-All f s r.segments p v.parts;
  counted = omega (arith, v.counted, insert-held s r.segments);
  in_order = v.in_order;
}

push-IsStream :
    (f : ℕ → ℕ) (r : RecvBuffer) (delivered : List ℕ) (off : ℕ) (bytes : List ℕ)
    → bytes ≡ stretch f off (length bytes)
    → IsStream f (r, delivered)
    → IsStream f (push r off bytes, delivered)
unfolding push
push-IsStream f r delivered off bytes p v =
    elim (Bool-cases (leb (off + length bytes) r.offset || length bytes == 0)) [
      | inl nothing_new ↦ rw nothing_new v
      | inr new ↦ rw new (elim (Bool-cases (ltb off r.offset)) [
        | inl partly ↦
            let part = cut-IsPart f off r.offset bytes p (ground arith) in
            rw partly (stored f r delivered _ part v)
        | inr wholly ↦ rw wholly (stored f r delivered _ p v)
      ])
    ]

pop_from-IsStream :
    (f : ℕ → ℕ) (offset buffered : ℕ) (ss : List Segment) (delivered : List ℕ)
    → All (IsPart f) ss
    → buffered ≡ held ss
    → delivered ≡ stretch f 0 offset
    → IsStream f (after_pop delivered (pop_from offset buffered ss))
unfolding pop_from after_pop
pop_from-IsStream f offset buffered [] delivered p c o = record {
  parts = tt;
  counted = c;
  in_order = o;
}
pop_from-IsStream f offset buffered (s ∷ ss) delivered p c o =
    let end_of = s.off + length s.bytes in
    elim (Bool-cases (ltb offset s.off)) [
      | inl gap ↦ rw gap (record { parts = p; counted = c; in_order = o })
      | inr reached ↦ rw reached (elim (Bool-cases (leb end_of offset)) [
        | inl old ↦ rw old (
            pop_from-IsStream f offset (buffered - length s.bytes) ss delivered p.1
              (omega (arith, c)) o)
        | inr new ↦
            let next = cut-IsPart f s.off offset s.bytes p.0 (ground arith) in
            let n = length (drop (offset - s.off) s.bytes) in
            let start : 0 + offset ≡ offset = omega arith in
            let total : offset + n ≡ end_of =
              ground (arith, length-drop (offset - s.off) s.bytes) in
            rw new (record {
              parts = p.1;
              counted = omega (arith, c);
              in_order =
                  ap (λ xs. xs ++ drop (offset - s.off) s.bytes) o
                  ∙ ap (λ ys. stretch f 0 offset ++ ys) next
                  ∙ ap (λ a. stretch f 0 offset ++ stretch f a n) (sym start)
                  ∙ sym (stretch-append f 0 offset n)
                  ∙ ap (stretch f 0) total;
            })
      ])
    ]

-- Frames that carry parts of the stream.
abbrev pub AreParts : (ℕ → ℕ) → List Event → Type 0
AreParts f [] = Unit {0}
AreParts f (pushes off bytes ∷ es) = (bytes ≡ stretch f off (length bytes)) × AreParts f es
AreParts f (pops ∷ es) = AreParts f es

pub run-IsStream :
    (f : ℕ → ℕ) (es : List Event) (s : RecvBuffer × List ℕ)
    → AreParts f es
    → IsStream f s
    → IsStream f (run es s)
unfolding run pop
run-IsStream f [] s p v = v
run-IsStream f (pushes off bytes ∷ es) (r, delivered) p v =
    run-IsStream f es (push r off bytes, delivered) p.1
      (push-IsStream f r delivered off bytes p.0 v)
run-IsStream f (pops ∷ es) (r, delivered) p v =
    run-IsStream f es (after_pop delivered (pop r)) p
      (pop_from-IsStream f r.offset r.buffered r.segments delivered v.parts v.counted v.in_order)

abbrev pub empty : RecvBuffer
empty = record { offset = 0; segments = []; buffered = 0 }
