-- ===== src/Hpack/Table.antt =====
-- The dynamic table of go/internal/hpack/hpack.go keeps its size and drops no more than it must.
use event_work_balance.Base.{
  ℕ, ◌+◌, ◌-◌, ◌≤◌, ◌≡◌, refl, ap, List, [], ◌∷◌, ◌++◌, false, arith, ltb, length, length-append,
  Bool-cases, inl, inr,
}
use event_work_balance.Hpack.{HeaderField, size, DynamicTable, evict_from, evict, add, set_max_size}

abbrev pub sizes : List HeaderField → ℕ
sizes [] = 0
sizes (f ∷ fs) = size f + sizes fs

sizes-append : (fs gs : List HeaderField) → sizes (fs ++ gs) ≡ sizes fs + sizes gs
sizes-append [] gs = omega arith
sizes-append (f ∷ fs) gs = omega (arith, sizes-append fs gs)

pub record IsFit (t : DynamicTable) : Type 0 where
  pub counted : t.total ≡ sizes t.entries
  pub bounded : t.total ≤ t.max_size

evict_from-sizes :
    (max total : ℕ) (fs : List HeaderField)
    → total ≡ sizes fs
    → ((evict_from max total fs).1 ≡ sizes (evict_from max total fs).0)
      × ((evict_from max total fs).1 ≤ max)
unfolding evict_from
evict_from-sizes max total [] e = (e, omega (arith, e))
evict_from-sizes max total (f ∷ fs) e =
    let rest = evict_from-sizes max (total - size f) fs (omega (arith, e)) in
    elim (Bool-cases (ltb max total)) [
      | inl over ↦ rw over rest
      | inr fits ↦ rw fits (e, ground arith)
    ]

pub evict-IsFit : (t : DynamicTable) → t.total ≡ sizes t.entries → IsFit (evict t)
unfolding evict
evict-IsFit t e =
    let (counted, bounded) = evict_from-sizes t.max_size t.total t.entries e in
    record { counted = counted; bounded = bounded }

pub evict-max_size : (t : DynamicTable) → (evict t).max_size ≡ t.max_size
unfolding evict
evict-max_size t = refl

pub add-IsFit : (t : DynamicTable) (f : HeaderField) → IsFit t → IsFit (add t f)
unfolding add
add-IsFit t f v = evict-IsFit _ (omega (arith, v.counted, sizes-append t.entries (f ∷ [])))

pub set_max_size-IsFit : (t : DynamicTable) (n : ℕ) → IsFit t → IsFit (set_max_size t n)
unfolding set_max_size
set_max_size-IsFit t n v = evict-IsFit _ v.counted

pub set_max_size-max_size : (t : DynamicTable) (n : ℕ) → (set_max_size t n).max_size ≡ n
unfolding set_max_size evict
set_max_size-max_size t n = refl

tail_of {ℓ} : {A : Type ℓ} → List A → List A
tail_of [] = []
tail_of (x ∷ xs) = xs

evict_from-longest :
    (max total : ℕ) (fs older newer : List HeaderField)
    → total ≡ sizes fs
    → fs ≡ older ++ newer
    → sizes newer ≤ max
    → length newer ≤ length (evict_from max total fs).0
unfolding evict_from tail_of
evict_from-longest max total [] older newer e s h =
    omega (arith, ap length s, length-append older newer)
evict_from-longest max total (f ∷ fs) [] newer e s h =
    let fits : ltb max total ≡ false = ground (arith, ap sizes s) in
    rw fits (omega (arith, ap length s))
evict_from-longest max total (f ∷ fs) (x ∷ older) newer e s h =
    let rest =
      evict_from-longest max (total - size f) fs older newer (omega (arith, e)) (ap tail_of s) h in
    elim (Bool-cases (ltb max total)) [
      | inl over ↦ rw over rest
      | inr fits ↦ rw fits (omega (arith, ap length s, length-append older newer))
    ]

evict_from-suffix :
    (max total : ℕ) (fs : List HeaderField)
    → (gone : List HeaderField) × (fs ≡ gone ++ (evict_from max total fs).0)
unfolding evict_from
evict_from-suffix max total [] = ([], refl)
evict_from-suffix max total (f ∷ fs) =
    let (gone, e) = evict_from-suffix max (total - size f) fs in
    elim (Bool-cases (ltb max total)) [
      | inl over ↦ rw over (f ∷ gone, ap (◌∷◌ f) e)
      | inr fits ↦ rw fits ([], refl)
    ]

-- An insertion keeps the table's size the sum of its entries' sizes and within its maximum; the
-- entries are the last of those that were there with the inserted one behind them, unchanged and in
-- their order; and they are the longest such run that fits.
pub add_keeps_newest :
    (t : DynamicTable) (f : HeaderField) (older newer : List HeaderField)
    → IsFit t
    → t.entries ++ (f ∷ []) ≡ older ++ newer
    → sizes newer ≤ t.max_size
    → IsFit (add t f)
      × ((gone : List HeaderField) × (t.entries ++ (f ∷ []) ≡ gone ++ (add t f).entries))
      × (length newer ≤ length (add t f).entries)
unfolding add evict
add_keeps_newest t f older newer v s h = (
  add-IsFit t f v,
  evict_from-suffix t.max_size (t.total + size f) (t.entries ++ (f ∷ [])),
  evict_from-longest t.max_size (t.total + size f) (t.entries ++ (f ∷ [])) older newer
      (omega (arith, v.counted, sizes-append t.entries (f ∷ []))) s h,
)
