-- ===== src/Hpack/Resizes.antt =====
-- The encoder of go/internal/hpack/hpack.go between its blocks: however often SetMaxTableSize is
-- called, its table is that of a peer who hears of the smallest size and then of the last.
use event_work_balance.Base.{
  ℕ, ◌-◌, ◌≤◌, ◌≡◌, refl, sym, ap, ◌∙◌, List, [], ◌∷◌, true, false, not, ◌||◌, ◌⊎◌, ◌==◌, ltb,
  arith, if◌then◌else◌, Bool-cases, inl, inr,
}
use event_work_balance.Hpack.{
  size, HeaderField, DynamicTable, Encoder, set_max_table_size, default_table_size, evict_from,
  evict, set_max_size,
}
use event_work_balance.Hpack.Table.{IsFit, set_max_size-IsFit, set_max_size-max_size}

evict_from_twice :
    (n m total : ℕ) (fs : List HeaderField)
    → n ≤ m
    → let r = evict_from m total fs in evict_from n r.1 r.0 ≡ evict_from n total fs
unfolding evict_from
evict_from_twice n m total [] h = refl
evict_from_twice n m total (f ∷ fs) h =
    let rest = evict_from_twice n m (total - size f) fs h in
    elim (Bool-cases (ltb m total)) [
      | inl over ↦ let more : ltb n total ≡ true = ground arith in rw (over, more) rest
      | inr fits ↦ rw fits refl
    ]

evict_from_none :
    (n total : ℕ) (fs : List HeaderField) → total ≤ n → evict_from n total fs ≡ (fs, total)
unfolding evict_from
evict_from_none n total [] h = refl
evict_from_none n total (f ∷ fs) h = let fits : ltb n total ≡ false = ground arith in rw fits refl

-- A table that is resized twice, to the less in the end, might have been resized once.
pub set_max_size_twice :
    (t : DynamicTable) (n m : ℕ) → n ≤ m → set_max_size (set_max_size t m) n ≡ set_max_size t n
unfolding set_max_size evict
set_max_size_twice t n m h =
    ap (λ (r : List HeaderField × ℕ). record { entries = r.0; total = r.1; max_size = n })
      (evict_from_twice n m t.total t.entries h)

-- A resize that evicts nothing.
set_max_size_fits :
    (t : DynamicTable) (n : ℕ) → t.total ≤ n → set_max_size t n ≡ record t { max_size = n }
unfolding set_max_size evict
set_max_size_fits t n h =
    ap (λ (r : List HeaderField × ℕ). record { entries = r.0; total = r.1; max_size = n })
      (evict_from_none n t.total t.entries h)

set_max_size_larger :
    (t : DynamicTable) (least m n : ℕ)
    → IsFit t
    → least ≤ m
    → least ≤ n
    → set_max_size (set_max_size (set_max_size t least) m) n ≡ set_max_size (set_max_size t least) n
set_max_size_larger t least m n v h k =
    let small = set_max_size t least in
    let bounded : small.total ≤ least =
      omega (arith, (set_max_size-IsFit t least v).bounded, set_max_size-max_size t least) in
    let once = set_max_size_fits small m (omega (arith, bounded, h)) in
    let again = set_max_size_fits (record small { max_size = m }) n (omega (arith, bounded, k)) in
    ap (λ u. set_max_size u n) once
    ∙ again
    ∙ sym (set_max_size_fits small n (omega (arith, bounded, k)))

abbrev capped : ℕ → ℕ
capped n = if ltb default_table_size n then default_table_size else n

-- The sizes that the encoder was told since the peer had the table `t`.
pub record IsTold (t : DynamicTable) (e : Encoder) : Type 0 where
  pub within : e.table.max_size ≤ default_table_size
  pub told :
      ((e.pending_size ≡ false) × (e.table ≡ t))
      ⊎ ((e.pending_size ≡ true)
          × (e.min_pending ≤ e.table.max_size)
          × (e.table ≡ set_max_size (set_max_size t e.min_pending) e.table.max_size))

resized-IsTold :
    (t : DynamicTable) (e : Encoder) (n least : ℕ)
    → n ≤ default_table_size
    → least ≤ n
    → e.pending_size ≡ true
    → e.min_pending ≡ least
    → e.table ≡ set_max_size (set_max_size t least) n
    → IsTold t e × (e.table.max_size ≡ n)
resized-IsTold t e n least c h p m q =
    let size_is : e.table.max_size ≡ n =
      ap (λ (u : DynamicTable). u.max_size) q ∙ set_max_size-max_size (set_max_size t least) n in
    let shown : e.table ≡ set_max_size (set_max_size t e.min_pending) e.table.max_size =
      q
      ∙ ap (λ k. set_max_size (set_max_size t least) k) (sym size_is)
      ∙ ap (λ l. set_max_size (set_max_size t l) e.table.max_size) (sym m) in
    (record { within = rw size_is c; told = inr (p, rw (m, size_is) h, shown) }, size_is)

-- The table after SetMaxTableSize, and the smallest size to announce.
lowest_told :
    (t : DynamicTable) (e : Encoder) (n : ℕ)
    → IsFit t
    → IsTold t e
    → let least = if not e.pending_size || ltb n e.min_pending then n else e.min_pending in
      (least ≤ n) × (set_max_size e.table n ≡ set_max_size (set_max_size t least) n)
lowest_told t e n v w = elim w.told [
  | inl (idle, same) ↦
      rw idle (
        omega arith,
        ap (λ u. set_max_size u n) same ∙ sym (set_max_size_twice t n n (omega arith)),
      )
  | inr (busy, low, same) ↦ elim (Bool-cases (ltb n e.min_pending)) [
    | inl lower ↦
        let below : n ≤ e.min_pending = ground arith in
        rw (busy, lower)
          (
            omega arith,
            ap (λ u. set_max_size u n) same
                ∙ set_max_size_twice (set_max_size t e.min_pending) n e.table.max_size
                    (omega (arith, low, below))
                ∙ set_max_size_twice t n e.min_pending below
                ∙ sym (set_max_size_twice t n n (omega arith)),
          )
    | inr higher ↦
        let above : e.min_pending ≤ n = ground arith in
        rw (busy, higher)
          (
            above,
            ap (λ u. set_max_size u n) same
                ∙ set_max_size_larger t e.min_pending e.table.max_size n v low above,
          )
  ]
]

set_max_table_size-IsTold :
    (t : DynamicTable) (e : Encoder) (n : ℕ)
    → IsFit t
    → IsTold t e
    → IsTold t (set_max_table_size e n) × ((set_max_table_size e n).table.max_size ≡ capped n)
unfolding set_max_table_size
set_max_table_size-IsTold t e n v w = elim (Bool-cases (capped n == e.table.max_size)) [
  | inl same ↦ rw same (w, ground arith)
  | inr changed ↦
      let (low, q) = lowest_told t e (capped n) v w in
      rw changed (resized-IsTold t _ (capped n) _ (ground arith) low refl refl q)
]

-- SetMaxTableSize, once for each of the sizes.
unfoldable pub set_sizes : Encoder → List ℕ → Encoder
set_sizes e [] = e
set_sizes e (n ∷ ns) = set_sizes (set_max_table_size e n) ns

-- The size that is in use in the end: the last one, or the default if that is less.
abbrev pub last_size : ℕ → List ℕ → ℕ
last_size m [] = m
last_size m (n ∷ ns) = last_size (capped n) ns

pub set_sizes-IsTold :
    (t : DynamicTable) (e : Encoder) (ns : List ℕ)
    → IsFit t
    → IsTold t e
    → IsTold t (set_sizes e ns) × ((set_sizes e ns).table.max_size ≡ last_size e.table.max_size ns)
unfolding set_sizes
set_sizes-IsTold t e [] v w = (w, refl)
set_sizes-IsTold t e (n ∷ ns) v w =
    let (next, size_is) = set_max_table_size-IsTold t e n v w in
    let (all, last) = set_sizes-IsTold t (set_max_table_size e n) ns v next in
    (all, last ∙ ap (λ m. last_size m ns) size_is)
