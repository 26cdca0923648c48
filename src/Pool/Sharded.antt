-- ===== src/Pool/Sharded.antt =====
-- go/taskpool/sharded.go: several bounded rings, and a counter that batches go round by.
mod Laws
mod Tests
use event_work_balance.Base.{
  ℕ, zero, suc, ◌+◌, ◌-◌, ◌/◌, ◌%◌, ◌^◌, List, [], ◌∷◌, Bool, Option, none, some, length, get_elem?,
  ltb, leb, if◌then◌else◌, set,
}
use event_work_balance.Pool.Cond.{CondPool, new_cond_pool, Submitted, submit}

abbrev pub workers_per_shard : ℕ
workers_per_shard = 8

-- `next` is an atomic.Uint32.
pub record ShardedPool {ℓ} (A : Type ℓ) : Type ℓ where
  pub shards : List (CondPool A)
  pub next : ℕ

pub data Backend {ℓ} (A : Type ℓ) : Type ℓ where
  single : CondPool A → Backend A
  sharded : ShardedPool A → Backend A

-- `gomaxprocs` is what runtime.GOMAXPROCS(0) answers.
unfoldable pub shard_count : ℕ → ℕ → ℕ
shard_count gomaxprocs worker_count =
    let shards = worker_count / workers_per_shard in
    let limited = if ltb gomaxprocs shards then gomaxprocs else shards in
    if ltb limited 1 then 1 else limited

-- One share of a total, the remainder spread over the leading shares.
abbrev pub share : ℕ → ℕ → ℕ → ℕ
share total shards i = if ltb i (total % shards) then total / shards + 1 else total / shards

module _ {ℓ} {A : Type ℓ} where
  -- The loop of newCondBackend, from shard `i` on with `left` to go.
  unfoldable pub shards_from : ℕ → ℕ → ℕ → ℕ → ℕ → List (CondPool A)
  shards_from worker_count queue_size shards zero i = []
  shards_from worker_count queue_size shards (suc left) i =
      new_cond_pool (share worker_count shards i) (share queue_size shards i)
      ∷ shards_from worker_count queue_size shards left (i + 1)

  unfoldable pub new_cond_backend : ℕ → ℕ → ℕ → Backend A
  unfolding shard_count shards_from
  new_cond_backend gomaxprocs worker_count queue_size =
      let shards = shard_count gomaxprocs worker_count in
      if leb shards 1
      then single (new_cond_pool worker_count queue_size)
      else sharded
          (record { shards = shards_from worker_count queue_size shards shards 0; next = 0 })

  unfoldable pub total_workers : List (CondPool A) → ℕ
  total_workers [] = 0
  total_workers (p ∷ ps) = p.worker_total + total_workers ps

  unfoldable pub worker_count : Backend A → ℕ
  unfolding total_workers
  worker_count (single p) = p.worker_total
  worker_count (sharded s) = total_workers s.shards

  -- `int(p.next.Add(1)-1) % len(p.shards)`, on a platform whose int holds every uint32.
  unfoldable pub pick : ShardedPool A → ShardedPool A × ℕ
  pick p = (record p { next = (p.next + 1) % (2 ^ 32) }, p.next % length p.shards)

  -- The shards that the next `k` submissions go to.
  unfoldable pub picks : ℕ → ShardedPool A → List ℕ
  unfolding pick
  picks zero p = []
  picks (suc k) p = (pick p).1 ∷ picks k (pick p).0
