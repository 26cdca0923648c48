-- ===== src/Pool/Sharded/Tests.antt =====
-- The shards of go/taskpool/sharded.go at small sizes.
use event_work_balance.Base.{ℕ, ◌≡◌, ◌≤◌, ◌<◌, refl, length, All}
use event_work_balance.Pool.Sharded.{
  ShardedPool, sharded, shard_count, shards_from, new_cond_backend,
}
use event_work_balance.Pool.Sharded.Laws.{shards_manned}

-- Nineteen workers and room for five, on four processors: two shards.
abbrev two_shards : ShardedPool ℕ
two_shards = record { shards = shards_from 19 5 2 2 0; next = 0 }

is_sharded : new_cond_backend 4 19 5 ≡ sharded two_shards
unfolding new_cond_backend shard_count
is_sharded = refl

shards_manned_example :
    (1 < length two_shards.shards)
    × (length two_shards.shards ≤ 4)
    × All (λ p. 8 ≤ p.worker_total) two_shards.shards
shards_manned_example = shards_manned ℕ 4 19 5 two_shards is_sharded

size_two : length two_shards.shards ≡ 2
unfolding shards_from
size_two = refl
