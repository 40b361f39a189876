-- ===== src/LTable/Clean.antt =====
-- `cleanup_bucket` and `cleanup_all` (ltable_impl/bucket.h), which empty the slots of items that the
-- log has overwritten.
use enso_eval.Base.{ℕ, zero, suc, ◌/◌, ◌^◌, none, some, ◌==◌, if◌then◌else◌, bit_and, add64}
use enso_eval.LTable.Pool.{Pool}
use enso_eval.LTable.State.{
  Config, M, ◌>>=◌, ◌>>◌, pure, bucket_at, put_item_vec, get_item_vec, stat, inc, dec,
}
use enso_eval.LTable.Lock.{lock_bucket, unlock_bucket}
use enso_eval.LTable.Scan.{has_extra_bucket, extra_place, chain_fuel}

module _ (P : Pool) (c : Config) where
  open P use {State, is_valid}

  -- One slot; the pool masks the offset out of the item vector.
  unfoldable pub cleanup_slot : ℕ → ℕ → M State (Unit {0})
  unfolding get_item_vec put_item_vec stat
  cleanup_slot b i t =
      (do
        v ← get_item_vec b i
        if v == 0 then pure tt else if is_valid t.pool v then pure tt else do
          put_item_vec b i 0
          stat c (λ s. record s { cleanup = inc s.cleanup })
          stat c (λ s. record s { count = dec s.count }))
        t

  -- The slots from `i` on, `n` of them.
  unfoldable pub cleanup_slots : ℕ → ℕ → ℕ → M State (Unit {0})
  unfolding cleanup_slot
  cleanup_slots zero b i t = some (tt, t)
  cleanup_slots (suc n) b i t = elim (cleanup_slot b i t) [
    | none ↦ none
    | some (u, t') ↦ cleanup_slots n b (suc i) t'
  ]

  unfoldable pub cleanup_chain : ℕ → ℕ → M State (Unit {0})
  unfolding cleanup_slots has_extra_bucket extra_place bucket_at
  cleanup_chain zero b t = none
  cleanup_chain (suc fuel) b t = elim (cleanup_slots c.bucket_size b 0 t) [
    | none ↦ none
    | some (u, t') ↦
        let k = bucket_at t' b in
        let rest = cleanup_chain fuel (extra_place c k.next_extra_bucket_index) t' in
        if has_extra_bucket c k then rest else some (tt, t')
  ]

  -- The buckets from `b` up to `last`, around the end of the array.
  unfoldable pub cleanup_loop : ℕ → ℕ → ℕ → M State (Unit {0})
  unfolding lock_bucket unlock_bucket cleanup_chain
  cleanup_loop zero b last t = none
  cleanup_loop (suc fuel) b last t =
      let again : M State (Unit {0}) =
        λ t'. cleanup_loop fuel (bit_and (add64 b 1) c.num_buckets_mask) last t' in
      let body : M State (Unit {0}) = do
        lock_bucket c b
        cleanup_chain (chain_fuel c) b
        unlock_bucket c b
        again
      in if b == last then some (tt, t) else body t

  unfoldable pub cleanup_bucket : ℕ → ℕ → M State (Unit {0})
  unfolding cleanup_loop
  cleanup_bucket old_tail new_tail =
      cleanup_loop (suc c.num_buckets) (bit_and (old_tail / 2 ^ c.rshift) c.num_buckets_mask)
        (bit_and (new_tail / 2 ^ c.rshift) c.num_buckets_mask)

  unfoldable pub cleanup_all : M State (Unit {0})
  unfolding cleanup_bucket
  cleanup_all =
      if P.circular
      then (do cleanup_bucket 0 (2 ^ c.rshift); cleanup_bucket (2 ^ c.rshift) 0)
      else pure tt
