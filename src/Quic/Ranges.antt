-- ===== src/Quic/Ranges.antt =====
-- The rangeSet of go/http3/internal/quic/buffer.go: the packet numbers that were received.
use event_work_balance.Base.{
  ℕ, suc, ◌+◌, ◌≤◌, ◌<◌, ◌≡◌, refl, subst, ◌∙◌, List, [], ◌∷◌, Bool, true, false, ◌||◌, ◌&&◌, not,
  ◌==◌, leb, ltb, arith, if◌then◌else◌, length, drop, Bool-cases, inl, inr,
}

pub record PnRange : Type 0 where
  pub lo : ℕ
  pub hi : ℕ

abbrev pub max_ack_ranges : ℕ
max_ack_ranges = 32

-- A range that has just grown up to `pn` takes in the next one if they meet.
unfoldable pub join_next : PnRange → List PnRange → List PnRange
join_next t [] = t ∷ []
join_next t (u ∷ us) = if u.lo == t.hi + 1 then record { lo = t.lo; hi = u.hi } ∷ us else t ∷ u ∷ us

-- add from the range that sort.Search finds on: the first that does not end two below `pn`.
unfoldable pub place : ℕ → List PnRange → List PnRange × Bool
unfolding join_next
place pn [] = (record { lo = pn; hi = pn } ∷ [], true)
place pn (t ∷ ts) =
    let rest = place pn ts in
    if ltb (t.hi + 1) pn
    then (t ∷ rest.0, rest.1)
    else if leb t.lo pn && leb pn t.hi
    then (t ∷ ts, false)
    else if t.hi + 1 == pn
    then (join_next (record { lo = t.lo; hi = pn }) ts, true)
    else if t.lo == pn + 1
    then (record { lo = pn; hi = t.hi } ∷ ts, true)
    else (record { lo = pn; hi = pn } ∷ t ∷ ts, true)

unfoldable pub too_old : ℕ → List PnRange → Bool
too_old pn [] = false
too_old pn (t ∷ ts) = ltb pn t.lo && length (t ∷ ts) == max_ack_ranges

unfoldable pub add : ℕ → List PnRange → List PnRange × Bool
unfolding place too_old
add pn r =
    if too_old pn r
    then (r, false)
    else (let (r', fresh) = place pn r in
        (if ltb max_ack_ranges (length r') then drop 1 r' else r', fresh))

-- Ascending, disjoint and not adjacent, from `low` on.
abbrev pub Ascends : ℕ → List PnRange → Type 0
Ascends low [] = Unit {0}
Ascends low (t ∷ ts) = (low ≤ t.lo) × (t.lo ≤ t.hi) × Ascends (t.hi + 2) ts

abbrev pub has : ℕ → List PnRange → Bool
has n [] = false
has n (t ∷ ts) = (leb t.lo n && leb n t.hi) || has n ts

join_next-Ascends :
    (low : ℕ) (t : PnRange) (ts : List PnRange)
    → low ≤ t.lo
    → t.lo ≤ t.hi
    → Ascends (t.hi + 1) ts
    → Ascends low (join_next t ts)
unfolding join_next
join_next-Ascends low t [] a b w = (a, b, tt)
join_next-Ascends low t (u ∷ us) a b w = elim (Bool-cases (u.lo == t.hi + 1)) [
  | inl meets ↦ rw meets (a, ground (arith, w.1), w.2)
  | inr apart ↦ rw apart (a, b, (ground (arith, w.0), w.1, w.2))
]

place-Ascends :
    (low pn : ℕ) (ts : List PnRange) → low ≤ pn → Ascends low ts → Ascends low (place pn ts).0
unfolding place
place-Ascends low pn [] h w = (h, omega arith, tt)
place-Ascends low pn (t ∷ ts) h w = elim (Bool-cases (ltb (t.hi + 1) pn)) [
  | inl behind ↦ rw behind (w.0, w.1, place-Ascends (t.hi + 2) pn ts (ground arith) w.2)
  | inr here ↦ rw here (elim (Bool-cases (leb t.lo pn && leb pn t.hi)) [
    | inl old ↦ rw old w
    | inr new ↦ rw new (elim (Bool-cases (t.hi + 1 == pn)) [
      | inl above ↦
          let at : t.hi + 2 ≡ pn + 1 = ground arith in
          rw above (
            join_next-Ascends low (record { lo = t.lo; hi = pn }) ts w.0 (ground (arith, w.1))
              (subst (λ k. Ascends k ts) at w.2))
      | inr not_above ↦ rw not_above (elim (Bool-cases (t.lo == pn + 1)) [
        | inl below ↦ rw below (h, ground (arith, w.1), w.2)
        | inr apart ↦ rw apart (h, omega arith, (ground (arith, w.1), w.1, w.2))
      ])
    ])
  ])
]

join_next-has :
    (n : ℕ) (t : PnRange) (ts : List PnRange)
    → t.lo ≤ t.hi
    → Ascends (t.hi + 1) ts
    → has n (join_next t ts) ≡ ((leb t.lo n && leb n t.hi) || has n ts)
unfolding join_next
join_next-has n t [] b w = refl
join_next-has n t (u ∷ us) b w = ground (arith, w.1)

-- Nothing below where the ranges begin is in them.
has_below : (low n : ℕ) (ts : List PnRange) → n < low → Ascends low ts → has n ts ≡ false
has_below low n [] h w = refl
has_below low n (t ∷ ts) h w =
    ground (arith, w.0, w.1, has_below (t.hi + 2) n ts (omega (arith, w.0, w.1, h)) w.2)

drop-Ascends : (low : ℕ) (ts : List PnRange) → Ascends low ts → (m : ℕ) × Ascends m (drop 1 ts)
drop-Ascends low [] w = (0, tt)
drop-Ascends low (t ∷ ts) w = (t.hi + 2, w.2)

place-has :
    (low pn n : ℕ) (ts : List PnRange)
    → Ascends low ts
    → has n (place pn ts).0 ≡ (n == pn || has n ts)
unfolding place
place-has low pn n [] w = ground arith
place-has low pn n (t ∷ ts) w = elim (Bool-cases (ltb (t.hi + 1) pn)) [
  | inl behind ↦ let rest = place-has (t.hi + 2) pn n ts w.2 in rw behind (ground (arith, rest))
  | inr here ↦ rw here (elim (Bool-cases (leb t.lo pn && leb pn t.hi)) [
    | inl old ↦ rw old (ground arith)
    | inr new ↦ rw new (elim (Bool-cases (t.hi + 1 == pn)) [
      | inl above ↦
          let at : t.hi + 2 ≡ pn + 1 = ground arith in
          let joined =
            join_next-has n (record { lo = t.lo; hi = pn }) ts (ground (arith, w.1))
              (subst (λ k. Ascends k ts) at w.2) in
          rw above (joined ∙ ground (arith, w.1))
      | inr not_above ↦ rw not_above (elim (Bool-cases (t.lo == pn + 1)) [
        | inl below ↦ rw below (ground (arith, w.1))
        | inr apart ↦ rw apart (ground arith)
      ])
    ])
  ])
]

place-fresh : (low pn : ℕ) (ts : List PnRange) → Ascends low ts → (place pn ts).1 ≡ not (has pn ts)
unfolding place
place-fresh low pn [] w = refl
place-fresh low pn (t ∷ ts) w =
    let rest = place-fresh (t.hi + 2) pn ts w.2 in
    elim (Bool-cases (ltb (t.hi + 1) pn)) [
      | inl behind ↦ rw behind (ground (arith, rest))
      | inr here ↦
          let above : has pn ts ≡ false = has_below (t.hi + 2) pn ts (ground arith) w.2 in
          rw here (ground (arith, above))
    ]

length-join_next : (t : PnRange) (ts : List PnRange) → length (join_next t ts) ≤ length ts + 1
unfolding join_next
length-join_next t [] = omega arith
length-join_next t (u ∷ us) = ground arith

length-place : (pn : ℕ) (ts : List PnRange) → length (place pn ts).0 ≤ length ts + 1
unfolding place
length-place pn [] = omega arith
length-place pn (t ∷ ts) =
    ground (arith, length-place pn ts, length-join_next (record { lo = t.lo; hi = pn }) ts)

add_places : (pn : ℕ) (r : List PnRange) → length r < max_ack_ranges → add pn r ≡ place pn r
unfolding add too_old
add_places pn [] h = ground (arith, length-place pn [])
add_places pn (t ∷ ts) h =
    let few : ltb max_ack_ranges (length (place pn (t ∷ ts)).0) ≡ false =
      ground (arith, length-place pn (t ∷ ts)) in
    let young : (ltb pn t.lo && suc (length ts) == max_ack_ranges) ≡ false = ground (arith, h) in
    rw (young, few) refl

-- Below the bound on ranges, add leaves the ranges ascending, disjoint and not adjacent, adds exactly
-- its packet number to those in them, and answers whether it was new.
pub add_records :
    (pn n : ℕ) (r : List PnRange)
    → Ascends 0 r
    → length r < max_ack_ranges
    → Ascends 0 (add pn r).0
      × (has n (add pn r).0 ≡ (n == pn || has n r))
      × ((add pn r).1 ≡ not (has pn r))
add_records pn n r w h =
    rw (add_places pn r h)
      (place-Ascends 0 pn r (omega arith) w, place-has 0 pn n r w, place-fresh 0 pn r w)
