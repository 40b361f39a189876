-- ===== src/LTable/Init.antt =====
-- `reset` (ltable_impl/init.h) and `reset_stats` (info.h).
use enso_eval.Base.{
  ℕ, zero, suc, some, true, not, ◌+◌, ◌-◌, Bool, List, [], ◌∷◌, replicate, ◌==◌, if◌then◌else◌,
}
use enso_eval.LTable.Vec.{get_item_offset}
use enso_eval.LTable.Pool.{Pool}
use enso_eval.LTable.State.{
  Bucket, Stats, Config, M, ◌>>=◌, ◌>>◌, pure, when, bucket_at, put_next, put_free_head, get_pool,
  put_pool,
}
use enso_eval.LTable.Scan.{extra_place}
use enso_eval.LTable.PoolCalls.{lock_pool, unlock_pool, release_item}

abbrev pub zero_stats : ℕ → Stats
zero_stats n = record {
  count = n;
  set_nooverwrite = 0;
  set_new = 0;
  set_inplace = 0;
  set_evicted = 0;
  get_found = 0;
  get_notfound = 0;
  test_found = 0;
  test_notfound = 0;
  delete_found = 0;
  delete_notfound = 0;
  cleanup = 0;
  move_to_head_performed = 0;
  move_to_head_skipped = 0;
  move_to_head_failed = 0;
}

module _ (P : Pool) (c : Config) where
  open P use {State}

  unfoldable pub reset_stats : Bool → M State (Unit {0})
  reset_stats reset_count t =
      if c.collect_stats
      then some (tt, record t { stats = zero_stats (if reset_count then 0 else t.stats.count) })
      else some (tt, t)

  -- The items of one bucket are given back.
  unfoldable pub release_slots : List ℕ → M State (Unit {0})
  release_slots [] = pure tt
  release_slots (v ∷ vs) = do
    when (not (v == 0)) (release_item P c (get_item_offset v))
    release_slots vs

  -- For `n` buckets from `b` on.
  unfoldable pub release_buckets : ℕ → ℕ → M State (Unit {0})
  release_buckets zero b = pure tt
  release_buckets (suc n) b = do
    (λ t. release_slots (bucket_at t b).item_vec t)
    release_buckets n (suc b)

  -- Links `n` extra buckets from `i` on, each to the next.
  unfoldable pub link_extra_buckets : ℕ → ℕ → M State (Unit {0})
  link_extra_buckets zero i = pure tt
  link_extra_buckets (suc n) i = do put_next (extra_place c i) (i + 1); link_extra_buckets n (i + 1)

  -- The zeroes of `memset`.
  abbrev pub zero_bucket : Bucket
  zero_bucket = record {
    version = 0;
    next_extra_bucket_index = 0;
    item_vec = replicate c.bucket_size 0;
  }

  unfoldable pub clear_buckets : M State (Unit {0})
  clear_buckets t = some (
    tt,
    record t {
      buckets = replicate (c.num_buckets + c.num_extra_buckets) zero_bucket;
      free_lock = 0;
    },
  )

  unfoldable pub reset : M State (Unit {0})
  reset = do
    lock_pool P c
    release_buckets c.num_buckets 0
    unlock_pool P c
    clear_buckets
    if c.num_extra_buckets == 0 then put_free_head 0 else (do
      link_extra_buckets (c.num_extra_buckets - 1) 1
      put_next (extra_place c c.num_extra_buckets) 0
      put_free_head 1)
    lock_pool P c
    s ← get_pool
    put_pool (P.reset s)
    unlock_pool P c
    reset_stats true
