-- ===== src/Quic/Spans/Laws.antt =====
-- addSpan of go/http3/internal/quic/buffer.go keeps the spans in order and apart, and adds exactly
-- the span that it is given.
use event_work_balance.Base.{
  ℕ, suc, ◌≤◌, ◌≡◌, refl, List, [], ◌∷◌, false, leb, ltb, arith, Bool-cases, inl, inr, All, min,
  max, ◌||◌,
}
use event_work_balance.Quic.Spans.{Span, absorb, place, add_span, inside, covers}

abbrev pub Within : ℕ → List Span → Type 0
Within k = All (λ s. s.end ≤ k)

absorb-Within :
    (k : ℕ) (s : Span) (ts : List Span) → s.end ≤ k → Within k ts → Within k (absorb s ts)
unfolding absorb
absorb-Within k s [] h w = (h, tt)
absorb-Within k s (t ∷ ts) h w = elim (Bool-cases (leb t.off s.end)) [
  | inl touches ↦ rw touches (
      absorb-Within k (record { off = min s.off t.off; end = max s.end t.end }) ts
        (omega (arith, h, w.0)) w.1)
  | inr apart ↦ rw apart (h, w)
]

pub place-Within :
    (k : ℕ) (s : Span) (ts : List Span) → s.end ≤ k → Within k ts → Within k (place s ts)
unfolding place
place-Within k s [] h w = (h, tt)
place-Within k s (t ∷ ts) h w = elim (Bool-cases (ltb t.end s.off)) [
  | inl before ↦ rw before (w.0, place-Within k s ts h w.1)
  | inr reaches ↦ rw reaches (absorb-Within k s (t ∷ ts) h w)
]

pub add_span-Within :
    (k : ℕ) (ts : List Span) (s : Span) → s.end ≤ k → Within k ts → Within k (add_span ts s)
unfolding add_span
add_span-Within k ts s h w = elim (Bool-cases (leb s.end s.off)) [
  | inl nothing ↦ rw nothing w
  | inr something ↦ rw something (place-Within k s ts h w)
]

pub Within-mono : (k m : ℕ) (ss : List Span) → k ≤ m → Within k ss → Within m ss
Within-mono k m [] h w = tt
Within-mono k m (s ∷ ss) h w = (omega (arith, w.0, h), Within-mono k m ss h w.1)

-- The spans are in order, none is empty, no two touch, and none starts before `lo`.
abbrev pub Ordered : ℕ → List Span → Type 0
Ordered lo [] = Unit {0}
Ordered lo (s ∷ ss) = (lo ≤ s.off) × (suc s.off ≤ s.end) × Ordered (suc s.end) ss

pub Ordered-mono : (k m : ℕ) (ss : List Span) → k ≤ m → Ordered m ss → Ordered k ss
Ordered-mono k m [] h o = tt
Ordered-mono k m (s ∷ ss) h o = (omega (arith, o.0, h), o.1, o.2)

absorb-Ordered :
    (lo : ℕ) (s : Span) (ts : List Span)
    → lo ≤ s.off
    → suc s.off ≤ s.end
    → Ordered lo ts
    → Ordered lo (absorb s ts)
unfolding absorb
absorb-Ordered lo s [] low some_ o = (low, some_, tt)
absorb-Ordered lo s (t ∷ ts) low some_ (o, n, r) = elim (Bool-cases (leb t.off s.end)) [
  | inl touches ↦ rw touches (
      absorb-Ordered lo (record { off = min s.off t.off; end = max s.end t.end }) ts
        (omega (arith, low, o)) (omega (arith, some_, n))
        (Ordered-mono lo (suc t.end) ts (omega (arith, o, n)) r))
  | inr apart ↦ rw apart (low, some_, (ground arith, n, r))
]

place-Ordered :
    (lo : ℕ) (s : Span) (ts : List Span)
    → lo ≤ s.off
    → suc s.off ≤ s.end
    → Ordered lo ts
    → Ordered lo (place s ts)
unfolding place
place-Ordered lo s [] low some_ o = (low, some_, tt)
place-Ordered lo s (t ∷ ts) low some_ (o, n, r) = elim (Bool-cases (ltb t.end s.off)) [
  | inl before ↦ rw before (o, n, place-Ordered (suc t.end) s ts (ground arith) some_ r)
  | inr reaches ↦ rw reaches (absorb-Ordered lo s (t ∷ ts) low some_ (o, n, r))
]

-- Of spans that start behind `k` after the first one.
abbrev pub Front : ℕ → List Span → Type 0
Front k [] = Unit {0}
Front k (s ∷ ss) = (suc s.off ≤ s.end) × Ordered (suc s.end) ss × Ordered (suc k) ss

absorb-Front :
    (k : ℕ) (s : Span) (ts : List Span)
    → suc s.off ≤ s.end
    → Ordered (suc k) ts
    → Front k (absorb s ts)
unfolding absorb
absorb-Front k s [] some_ o = (some_, tt, tt)
absorb-Front k s (t ∷ ts) some_ (o, n, r) = elim (Bool-cases (leb t.off s.end)) [
  | inl touches ↦ rw touches (
      absorb-Front k (record { off = min s.off t.off; end = max s.end t.end }) ts
        (omega (arith, some_, n)) (Ordered-mono (suc k) (suc t.end) ts (omega (arith, o, n)) r))
  | inr apart ↦ rw apart (some_, (ground arith, n, r), (o, n, r))
]

place-Front :
    (k : ℕ) (s : Span) (ts : List Span)
    → suc s.off ≤ s.end
    → Ordered (suc k) ts
    → Front k (place s ts)
unfolding place
place-Front k s [] some_ o = (some_, tt, tt)
place-Front k s (t ∷ ts) some_ (o, n, r) = elim (Bool-cases (ltb t.end s.off)) [
  | inl before ↦
      let rest = place-Ordered (suc t.end) s ts (ground arith) some_ r in
      rw before (n, rest, Ordered-mono (suc k) (suc t.end) (place s ts) (omega (arith, o, n)) rest)
  | inr reaches ↦ rw reaches (absorb-Front k s (t ∷ ts) some_ (o, n, r))
]

Ordered-Front : (k : ℕ) (ts : List Span) → Ordered (suc k) ts → Front k ts
Ordered-Front k [] o = tt
Ordered-Front k (t ∷ ts) (o, n, r) =
    (n, r, Ordered-mono (suc k) (suc t.end) ts (omega (arith, o, n)) r)

pub add_span-Front :
    (k : ℕ) (ts : List Span) (s : Span) → Ordered (suc k) ts → Front k (add_span ts s)
unfolding add_span
add_span-Front k ts s o = elim (Bool-cases (leb s.end s.off)) [
  | inl nothing ↦ rw nothing (Ordered-Front k ts o)
  | inr something ↦ rw something (place-Front k s ts (ground arith) o)
]

-- None of the spans ends before `k`.
abbrev Reaching : ℕ → List Span → Type 0
Reaching k = All (λ s. k ≤ s.end)

Reaching-mono : (k m : ℕ) (ss : List Span) → k ≤ m → Reaching m ss → Reaching k ss
Reaching-mono k m [] h r = tt
Reaching-mono k m (s ∷ ss) h r = (omega (arith, h, r.0), Reaching-mono k m ss h r.1)

Ordered-Reaching : (k : ℕ) (ss : List Span) → Ordered k ss → Reaching k ss
Ordered-Reaching k [] o = tt
Ordered-Reaching k (s ∷ ss) (o, n, r) = (
  omega (arith, o, n),
  Reaching-mono k (suc s.end) ss (omega (arith, o, n)) (Ordered-Reaching (suc s.end) ss r),
)

-- Two spans that touch are the one that reaches from the lower start to the higher end.
inside_merged :
    (s t : Span) (x : ℕ)
    → s.off ≤ t.end
    → t.off ≤ s.end
    → inside (record { off = min s.off t.off; end = max s.end t.end }) x
      ≡ (inside s x || inside t x)
inside_merged s t x h k = ground arith

covers-absorb :
    (s : Span) (ts : List Span) (x : ℕ)
    → Reaching s.off ts
    → covers (absorb s ts) x ≡ (inside s x || covers ts x)
unfolding absorb
covers-absorb s [] x h = refl
covers-absorb s (t ∷ ts) x h = elim (Bool-cases (leb t.off s.end)) [
  | inl touches ↦
      let merged : Span = record { off = min s.off t.off; end = max s.end t.end } in
      let rest = covers-absorb merged ts x (Reaching-mono merged.off s.off ts (omega arith) h.1) in
      let both = inside_merged s t x h.0 (ground arith) in rw touches (ground (arith, rest, both))
  | inr apart ↦ rw apart refl
]

covers-place :
    (s : Span) (ts : List Span) (x : ℕ)
    → (lo : ℕ) → Ordered lo ts
    → covers (place s ts) x ≡ (inside s x || covers ts x)
unfolding place
covers-place s [] x lo o = refl
covers-place s (t ∷ ts) x lo (o, n, r) = elim (Bool-cases (ltb t.end s.off)) [
  | inl before ↦ rw before (let rest = covers-place s ts x (suc t.end) r in ground (arith, rest))
  | inr reaches ↦ rw reaches (
      covers-absorb s (t ∷ ts) x (
        ground arith,
        Reaching-mono s.off (suc t.end) ts (ground arith) (Ordered-Reaching (suc t.end) ts r),
      ))
]

-- The offsets that are covered after addSpan are those that were, and those of the span.
pub covers-add_span :
    (ts : List Span) (s : Span) (x lo : ℕ)
    → Ordered lo ts
    → covers (add_span ts s) x ≡ (covers ts x || inside s x)
unfolding add_span
covers-add_span ts s x lo o = elim (Bool-cases (leb s.end s.off)) [
  | inl nothing ↦
      let outside : inside s x ≡ false = ground arith in rw nothing (ground (arith, outside))
  | inr something ↦ rw something (let rest = covers-place s ts x lo o in ground (arith, rest))
]
