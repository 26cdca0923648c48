-- ===== src/Quic/Receive/Reads.antt =====
-- What the reads of a recvBuffer get (go/http3/internal/quic/buffer.go): the stream, up to the first
-- byte that has not arrived.
use event_work_balance.Base.{
  ℕ, suc, ◌+◌, ◌-◌, ◌≤◌, ◌≡◌, ◌≢◌, ◌⊎◌, refl, List, [], ◌∷◌, ◌||◌, ◌&&◌, ◌==◌, leb, ltb, Bool, true,
  false, Option, none, some, arith, length, Bool-cases, inl, inr, length-drop,
}
use event_work_balance.Quic.Receive.{
  Segment, RecvBuffer, insert, push, pop_from, pop, stretch, held, Event, pushes, pops, after_pop,
  run, AreParts, run-IsStream, empty,
}

abbrev within : ℕ → ℕ → ℕ → Bool
within off n x = leb off x && ltb x (off + n)

-- Whether a frame has brought the byte at the offset.
abbrev pub arrived : List Event → ℕ → Bool
arrived [] x = false
arrived (pushes off bytes ∷ es) x = within off (length bytes) x || arrived es x
arrived (pops ∷ es) x = arrived es x

abbrev holds : List Segment → ℕ → Bool
holds [] x = false
holds (s ∷ ss) x = within s.off (length s.bytes) x || holds ss x

-- The segments start in order, and none before `lo`.
abbrev Ascending : ℕ → List Segment → Type 0
Ascending lo [] = Unit {0}
Ascending lo (s ∷ ss) = (lo ≤ s.off) × Ascending s.off ss

Ascending-mono : (k m : ℕ) (ss : List Segment) → k ≤ m → Ascending m ss → Ascending k ss
Ascending-mono k m [] h a = tt
Ascending-mono k m (s ∷ ss) h a = (omega (arith, a.0, h), a.1)

insert-Ascending :
    (lo : ℕ) (s : Segment) (ts : List Segment)
    → lo ≤ s.off
    → Ascending lo ts
    → Ascending lo (insert s ts)
unfolding insert
insert-Ascending lo s [] h a = (h, tt)
insert-Ascending lo s (t ∷ ts) h (a, r) = elim (Bool-cases (ltb s.off t.off)) [
  | inl before ↦ rw before (h, (ground arith, r))
  | inr behind ↦ rw behind (a, insert-Ascending t.off s ts (ground arith) r)
]

holds-insert :
    (s : Segment) (ts : List Segment) (x : ℕ)
    → holds (insert s ts) x ≡ (within s.off (length s.bytes) x || holds ts x)
unfolding insert
holds-insert s [] x = refl
holds-insert s (t ∷ ts) x = let rest = holds-insert s ts x in ground (arith, rest)

nothing_below : (lo x : ℕ) (ss : List Segment) → Ascending lo ss → suc x ≤ lo → holds ss x ≡ false
nothing_below lo x [] a h = refl
nothing_below lo x (s ∷ ss) (a, r) h =
    let rest = nothing_below s.off x ss r (omega (arith, a, h)) in ground (arith, rest)

-- The byte at `x`, if it has arrived, has been delivered or is stored.
abbrev IsKept : ℕ → Bool → RecvBuffer → Type 0
IsKept x seen r = (seen ≡ false) ⊎ (suc x ≤ r.offset) ⊎ (holds r.segments x ≡ true)

insert-IsKept :
    (x : ℕ) (seen : Bool) (r : RecvBuffer) (s : Segment) (buffered : ℕ)
    → IsKept x seen r
    → (fresh : Bool) → (fresh ≡ true → r.offset ≤ x → within s.off (length s.bytes) x ≡ true)
    → IsKept x (fresh || seen) (record r { segments = insert s r.segments; buffered = buffered })
insert-IsKept x seen r s buffered k fresh h =
    let e = holds-insert s r.segments x in ground (arith, e, h)

push-IsKept :
    (x : ℕ) (seen : Bool) (r : RecvBuffer) (off : ℕ) (bytes : List ℕ)
    → IsKept x seen r
    → IsKept x (within off (length bytes) x || seen) (push r off bytes)
unfolding push
push-IsKept x seen r off bytes k =
    elim (Bool-cases (leb (off + length bytes) r.offset || length bytes == 0)) [
      | inl nothing_new ↦ rw nothing_new (ground arith)
      | inr new ↦ rw new (elim (Bool-cases (ltb off r.offset)) [
        | inl partly ↦
            let size = length-drop (r.offset - off) bytes in
            rw partly (
              insert-IsKept x seen r _ 0 k (within off (length bytes) x)
                (λ f l. ground (arith, size)))
        | inr wholly ↦
            rw wholly (insert-IsKept x seen r _ 0 k (within off (length bytes) x) (λ f l. f))
      ])
    ]

pop_from-IsKept :
    (x : ℕ) (seen : Bool) (offset buffered : ℕ) (ss : List Segment) (before : ℕ)
    → IsKept x seen (record { offset = offset; segments = ss; buffered = before })
    → IsKept x seen (pop_from offset buffered ss).0
unfolding pop_from
pop_from-IsKept x seen offset buffered [] before k = k
pop_from-IsKept x seen offset buffered (s ∷ ss) before k =
    let rest = pop_from-IsKept x seen offset (buffered - length s.bytes) ss before in
    elim (Bool-cases (ltb offset s.off)) [
      | inl gap ↦ rw gap k
      | inr reached ↦ rw reached (elim (Bool-cases (leb (s.off + length s.bytes) offset)) [
        | inl old ↦ rw old (rest (ground arith))
        | inr new ↦ rw new (ground arith)
      ])
    ]

push-Ascending :
    (r : RecvBuffer) (off : ℕ) (bytes : List ℕ)
    → Ascending 0 r.segments
    → Ascending 0 (push r off bytes).segments
unfolding push
push-Ascending r off bytes a =
    elim (Bool-cases (leb (off + length bytes) r.offset || length bytes == 0)) [
      | inl nothing_new ↦ rw nothing_new a
      | inr new ↦ rw new (insert-Ascending 0 _ r.segments (omega arith) a)
    ]

pop_from-Ascending :
    (offset buffered : ℕ) (ss : List Segment)
    → Ascending 0 ss
    → Ascending 0 (pop_from offset buffered ss).0.segments
unfolding pop_from
pop_from-Ascending offset buffered [] a = tt
pop_from-Ascending offset buffered (s ∷ ss) (a, r) =
    let tail = Ascending-mono 0 s.off ss (omega arith) r in
    elim (Bool-cases (ltb offset s.off)) [
      | inl gap ↦ rw gap (a, r)
      | inr reached ↦ rw reached (elim (Bool-cases (leb (s.off + length s.bytes) offset)) [
        | inl old ↦ rw old (pop_from-Ascending offset (buffered - length s.bytes) ss tail)
        | inr new ↦ rw new tail
      ])
    ]

after_pop_buffer :
    (delivered : List ℕ) (p : RecvBuffer × Option (List ℕ)) → (after_pop delivered p).0 ≡ p.0
unfolding after_pop
after_pop_buffer delivered (r, none) = refl
after_pop_buffer delivered (r, some bytes) = refl

-- What a run keeps of the byte at `x`.
run-IsKept :
    (x : ℕ) (es : List Event) (s : RecvBuffer × List ℕ) (seen : Bool)
    → Ascending 0 s.0.segments
    → IsKept x seen s.0
    → Ascending 0 (run es s).0.segments × IsKept x (arrived es x || seen) (run es s).0
unfolding run pop
run-IsKept x [] s seen a k = (a, k)
run-IsKept x (pushes off bytes ∷ es) (r, delivered) seen a k =
    let fresh = within off (length bytes) x in
    let (sorted, kept) =
      run-IsKept x es (push r off bytes, delivered) (fresh || seen) (push-Ascending r off bytes a)
        (push-IsKept x seen r off bytes k) in
    (sorted, ground (arith, kept))
run-IsKept x (pops ∷ es) (r, delivered) seen a k =
    let same = after_pop_buffer delivered (pop r) in
    run-IsKept x es (after_pop delivered (pop r)) seen
      (rw same (pop_from-Ascending r.offset r.buffered r.segments a))
      (rw same (pop_from-IsKept x seen r.offset r.buffered r.segments r.buffered k))

-- A read finds the byte at the offset, if it is stored.
pop_from_some :
    (offset buffered lo : ℕ) (ss : List Segment)
    → Ascending lo ss
    → holds ss offset ≡ true
    → (pop_from offset buffered ss).1 ≢ none
unfolding pop_from
pop_from_some offset buffered lo [] a h = absurd (cc h)
pop_from_some offset buffered lo (s ∷ ss) (a, r) h =
    let below = nothing_below s.off offset ss r in
    elim (Bool-cases (ltb offset s.off)) [
      | inl gap ↦ let no = below (ground arith) in absurd (ground (arith, no))
      | inr reached ↦ rw reached (elim (Bool-cases (leb (s.off + length s.bytes) offset)) [
        | inl old ↦
            rw old (pop_from_some offset (buffered - length s.bytes) s.off ss r (ground arith))
        | inr new ↦ rw new (λ e. cc e)
      ])
    ]

-- If every frame carries the stream's bytes at its offset, then in whatever order the frames come,
-- overlap or repeat, and whenever reads are made, the reads have got the stream's bytes from its
-- start up to the offset, each once and in order; `buffered` is the number of bytes that are stored;
-- and the next read gets something, unless no frame has brought the byte at the offset.
pub reassembles :
    (f : ℕ → ℕ) (es : List Event)
    → AreParts f es
    → let (r, delivered) = run es (empty, []) in
      (delivered ≡ stretch f 0 r.offset)
      × (r.buffered ≡ held r.segments)
      × (((pop r).1 ≢ none) ⊎ (arrived es r.offset ≡ false))
unfolding pop
reassembles f es p =
    let r = (run es (empty, [])).0 in
    let v =
      run-IsStream f es (empty, []) p (record { parts = tt; counted = refl; in_order = refl }) in
    let (sorted, kept) = run-IsKept r.offset es (empty, []) false tt (inl refl) in
    (
      v.in_order,
      v.counted,
      elim (Bool-cases (holds r.segments r.offset)) [
        | inl stored ↦ inl (pop_from_some r.offset r.buffered 0 r.segments sorted stored)
        | inr missing ↦ inr (ground (arith, kept))
      ],
    )
