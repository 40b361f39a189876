-- ===== src/LTable/Del.antt =====
-- `del` and `increment` (ltable_impl/del.h, increment.h).
use enso_eval.Base.{ℕ, ◌+◌, not, ◌&&◌, ◌||◌, List, ◌==◌, if◌then◌else◌, add64, length}
use enso_eval.LTable.Vec.{get_item_offset, get_value_length, calc_tag, calc_bucket_index}
use enso_eval.LTable.Pool.{Pool}
use enso_eval.LTable.State.{
  Result, success, error, not_found, Config, M, ◌>>=◌, ◌>>◌, pure, when, put_item_vec, get_item_vec,
  get_pool, put_pool, stat, inc, dec,
}
use enso_eval.LTable.Lock.{lock_bucket, unlock_bucket}
use enso_eval.LTable.Item.{kv_length_vec}
use enso_eval.LTable.Scan.{at, nowhere, find_item_index, chain_fuel}
use enso_eval.LTable.Extra.{fill_hole}
use enso_eval.LTable.PoolCalls.{lock_pool, unlock_pool, release_item}

module _ (P : Pool) (c : Config) where
  open P use {
    State, circular, read, write, item_size, allocate, release, is_valid, get_tail, get_mask,
  }

  unfoldable pub del : ℕ → List ℕ → M State Result
  del key_hash key =
      let b = calc_bucket_index c.num_buckets_mask key_hash in
      let tag = calc_tag key_hash in
      do
        lock_bucket c b
        l ← find_item_index c P b key_hash tag key
        elim l [
          | nowhere _ ↦ (do
            unlock_bucket c b
            stat c (λ st. record st { delete_notfound = inc st.delete_notfound })
            pure not_found)
          | at k i ↦ (do
            when (not circular) (lock_pool P c)
            v ← get_item_vec k i
            release_item P c (get_item_offset v)
            when (not circular) (unlock_pool P c)
            put_item_vec k i 0
            stat c (λ st. record st { count = dec st.count })
            fill_hole c (chain_fuel c) k i
            unlock_bucket c b
            stat c (λ st. record st { delete_found = inc st.delete_found })
            pure success)
        ]

  unfoldable pub increment : ℕ → List ℕ → ℕ → M State (Result × ℕ)
  unfolding calc_tag calc_bucket_index lock_bucket unlock_bucket find_item_index lock_pool
      unlock_pool get_item_vec get_pool put_pool kv_length_vec get_value_length
  increment key_hash key amount =
      let b = calc_bucket_index c.num_buckets_mask key_hash in
      let tag = calc_tag key_hash in
      do
        lock_bucket c b
        l ← find_item_index c P b key_hash tag key
        elim l [
          | nowhere _ ↦ (do unlock_bucket c b; pure (not_found, 0))
          | at k i ↦ (do
            v ← get_item_vec k i
            let o = get_item_offset v
            when circular (lock_pool P c)
            s ← get_pool
            let value = add64 (read s o (2 + length key)) amount
            if (not circular || is_valid s o) && get_value_length (kv_length_vec P s o) == 8
                then (do
                  put_pool (write s o (2 + length key) value)
                  when circular (unlock_pool P c)
                  unlock_bucket c b
                  pure (success, value))
                else (do when circular (unlock_pool P c); unlock_bucket c b; pure (error, 0)))
        ]
