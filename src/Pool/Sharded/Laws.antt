-- ===== src/Pool/Sharded/Laws.antt =====
-- newCondBackend of go/taskpool/sharded.go loses no worker and no room, and gives each shard enough.
use event_work_balance.Base.{
  ℕ, zero, suc, ◌+◌, ◌-◌, ◌*◌, ◌/◌, ◌%◌, ◌^◌, ◌≤◌, ◌<◌, ◌≡◌, ◌⊎◌, inl, inr, refl, ap, ◌∙◌, List, [],
  ◌∷◌, ◌==◌, arith, length, All, min, leb, if◌then◌else◌, Bool-cases, length-replicate, Option,
  none,
}
use native.Mathlib.Nat.{
  div-add-mod, mod-lt, mod-eq_of_lt, le-div_iff_mul-le, add-mul-mod_self_right,
}
use event_work_balance.Pool.Cond.{CondPool, new_cond_pool}
use event_work_balance.Pool.Sharded.{
  Backend, single, sharded, ShardedPool, shard_count, share, shards_from, new_cond_backend,
  total_workers, worker_count, pick, picks,
}

shard_count_bounds :
    (g w : ℕ)
    → (shard_count g w ≡ 1)
      ⊎ ((1 < shard_count g w) × (shard_count g w ≤ g) × (shard_count g w ≤ w / 8))
unfolding shard_count
shard_count_bounds g w = ground arith

shard_count_many :
    (g w : ℕ) → 1 < shard_count g w → (shard_count g w ≤ g) × (8 ≤ w / shard_count g w)
shard_count_many g w more = elim (shard_count_bounds g w) [
  | inl one ↦ absurd (omega (arith, one, more))
  | inr (_, few, each) ↦
      let n = shard_count g w in
      let total : 8 * n ≤ w = omega (arith, each) in
      (few, (le-div_iff_mul-le {k = n} (omega (arith, more))).1 (omega (arith, total)))
]

module _ {ℓ} {A : Type ℓ} where
  -- The room of some rings.
  unfoldable pub total_slots : List (CondPool A) → ℕ
  total_slots [] = 0
  total_slots (p ∷ ps) = length p.queue + total_slots ps

  unfoldable pub capacity : Backend A → ℕ
  unfolding total_slots
  capacity (single p) = length p.queue
  capacity (sharded s) = total_slots s.shards

-- What the loop of newCondBackend makes.
module _ {ℓ} (A : Type ℓ) where
  total_workers-shards_from :
      (w q n left i : ℕ)
      → total_workers (shards_from {A = A} w q n left i) ≡ left * (w / n) + min left (w % n - i)
  unfolding total_workers shards_from new_cond_pool
  total_workers-shards_from w q n zero i = omega arith
  total_workers-shards_from w q n (suc left) i =
      let rest = total_workers-shards_from w q n left (i + 1) in ground (arith, rest)

  new_queue : (w q : ℕ) → q ≤ length (new_cond_pool {A = A} w q).queue
  unfolding new_cond_pool
  new_queue w q = ground (arith, length-replicate {A = Option A} (if q == 0 then 1 else q) none)

  total_slots-shards_from :
      (w q n left i : ℕ)
      → left * (q / n) + min left (q % n - i) ≤ total_slots (shards_from {A = A} w q n left i)
  unfolding total_slots shards_from
  total_slots-shards_from w q n zero i = omega arith
  total_slots-shards_from w q n (suc left) i =
      let rest = total_slots-shards_from w q n left (i + 1) in
      ground (arith, rest, new_queue (share w n i) (share q n i))

  length-shards_from : (w q n left i : ℕ) → length (shards_from {A = A} w q n left i) ≡ left
  unfolding shards_from
  length-shards_from w q n zero i = refl
  length-shards_from w q n (suc left) i = omega (arith, length-shards_from w q n left (i + 1))

  shards_from-All :
      (w q n left i : ℕ)
      → 8 ≤ w / n
      → All (λ p. 8 ≤ p.worker_total) (shards_from {A = A} w q n left i)
  unfolding shards_from new_cond_pool
  shards_from-All w q n zero i h = tt
  shards_from-All w q n (suc left) i h = (ground (arith, h), shards_from-All w q n left (i + 1) h)

  -- newCondBackend starts exactly the workers that it is asked for, in one ring or spread over
  -- several.
  pub worker_count-new_cond_backend :
      (g w q : ℕ) → worker_count (new_cond_backend {A = A} g w q) ≡ w
  unfolding worker_count new_cond_backend new_cond_pool
  worker_count-new_cond_backend g w q =
      let n = shard_count g w in
      elim (Bool-cases (leb n 1)) as (λ _. worker_count (new_cond_backend {A = A} g w q) ≡ w) [
        | inl one ↦ rw one refl
        | inr more ↦ rw more (
            let sum = total_workers-shards_from w q n n 0 in
            let back = div-add-mod w n in
            let small : w % n < n = mod-lt w (ground arith) in omega (arith, sum, back, small))
      ]

  -- The rings have at least the room that newCondBackend is asked for.
  pub capacity-new_cond_backend : (g w q : ℕ) → q ≤ capacity (new_cond_backend {A = A} g w q)
  unfolding capacity new_cond_backend
  capacity-new_cond_backend g w q =
      let n = shard_count g w in
      elim (Bool-cases (leb n 1)) as (λ _. q ≤ capacity (new_cond_backend {A = A} g w q)) [
        | inl one ↦ rw one (new_queue w q)
        | inr more ↦ rw more (
            let sum = total_slots-shards_from w q n n 0 in
            let back = div-add-mod q n in
            let small : q % n < n = mod-lt q (ground arith) in omega (arith, sum, back, small))
      ]

  new_cond_backend_sharded :
      (g w q : ℕ) (s : ShardedPool A)
      → new_cond_backend g w q ≡ sharded s
      → (1 < shard_count g w)
        × (s ≡ record { shards = shards_from w q (shard_count g w) (shard_count g w) 0; next = 0 })
  unfolding new_cond_backend
  new_cond_backend_sharded g w q s e = ground arith

  -- A backend that is spread over shards has from two to GOMAXPROCS of them, and each has at least
  -- eight workers, so that none takes tasks that nobody runs.
  pub shards_manned :
      (g w q : ℕ) (s : ShardedPool A)
      → new_cond_backend g w q ≡ sharded s
      → (1 < length s.shards) × (length s.shards ≤ g) × All (λ p. 8 ≤ p.worker_total) s.shards
  shards_manned g w q s e =
      let n = shard_count g w in
      let (more, same) = new_cond_backend_sharded g w q s e in
      let size : length s.shards ≡ n =
        ap (λ t. length t.shards) same ∙ length-shards_from w q n n 0 in
      let (few, each) = shard_count_many g w more in
      (
        omega (arith, more, size),
        omega (arith, few, size),
        rw same (shards_from-All w q n n 0 each),
      )

-- k numbers from i on.
unfoldable pub counting : ℕ → ℕ → List ℕ
counting zero i = []
counting (suc k) i = i ∷ counting k (i + 1)

module _ {ℓ} {A : Type ℓ} where
  picks-counting :
      (k i a : ℕ) (p : ShardedPool A)
      → p.next ≡ a * length p.shards + i
      → i + k ≤ length p.shards
      → p.next + k < 2 ^ 32
      → picks k p ≡ counting k i
  unfolding picks counting pick
  picks-counting zero i a p e h w = refl
  picks-counting (suc k) i a p e h w =
      let len = length p.shards in
      let here : p.next % len ≡ i =
        ap (λ m. m % len) (e ∙ omega arith)
        ∙ add-mul-mod_self_right i a len
        ∙ mod-eq_of_lt (omega arith) in
      let same : (p.next + 1) % 2 ^ 32 ≡ p.next + 1 = mod-eq_of_lt (omega arith) in
      let q = record p { next = (p.next + 1) % 2 ^ 32 } in
      let rest =
        picks-counting k (i + 1) a q (omega (arith, same, e)) (omega arith) (omega (arith, same)) in
      cc

  -- Submissions go round: from a counter that is a multiple of the number of shards, and as long as
  -- it does not wrap, as many submissions as there are shards go to each shard once, in order.
  pub picks_round :
      (a : ℕ) (p : ShardedPool A)
      → p.next ≡ a * length p.shards
      → p.next + length p.shards < 2 ^ 32
      → picks (length p.shards) p ≡ counting (length p.shards) 0
  picks_round a p e w = picks-counting (length p.shards) 0 a p (omega (arith, e)) (omega arith) w
