-- ===== src/LTable/Get.antt =====
-- `get`, `test` and `move_to_head` (ltable_impl/get.h, test.h, move_to_head.h).
use enso_eval.Base.{
  ℕ, ◌+◌, ◌/◌, Bool, not, ◌&&◌, none, some, List, [], ◌==◌, if◌then◌else◌, bit_and, sub64, length,
  ltb, leb, min,
}
use enso_eval.LTable.Vec.{
  get_tag, get_item_offset, make_item_vec, get_value_length, calc_tag, calc_bucket_index,
}
use enso_eval.LTable.Pool.{Pool}
use enso_eval.LTable.State.{
  Result, success, not_found, partial_value, Config, M, ◌>>=◌, ◌>>◌, pure, wait, when, put_item_vec,
  get_item_vec, get_pool, put_pool, stat, inc, dec,
}
use enso_eval.LTable.Lock.{lock_bucket, unlock_bucket, read_version_begin, read_version_end}
use enso_eval.LTable.Item.{
  bytes, sizeof_item, kv_length_vec, read_words, read_bytes, copied_length, write_words,
}
use enso_eval.LTable.Scan.{at, nowhere, find_item_index}
use enso_eval.LTable.Clean.{cleanup_bucket}
use enso_eval.LTable.PoolCalls.{lock_pool, unlock_pool}

module _ (P : Pool) (c : Config) where
  open P use {
    State, circular, read, write, item_size, allocate, release, is_valid, get_tail, get_mask,
  }

  unfoldable pub copy_words : State → ℕ → ℕ → ℕ → State
  unfolding write_words read_words
  copy_words s from to n = write_words P s to 0 (read_words P s from 0 n)

  -- `move_to_head`, with the lengths in bytes.
  unfoldable pub move_to_head : ℕ → ℕ → ℕ → ℕ → ℕ → ℕ → M State (Unit {0})
  unfolding lock_bucket unlock_bucket lock_pool unlock_pool get_item_vec put_item_vec get_pool
      put_pool stat cleanup_bucket copy_words
  move_to_head b k key_length value_length i item_vec t =
      let o = get_item_offset item_vec in
      let size = sizeof_item + key_length + value_length in
      let failed : M State (Unit {0}) =
        stat c (λ st. record st { move_to_head_failed = inc st.move_to_head_failed }) in
      let move : M State (Unit {0}) = do
        lock_bucket c b
        (lock_pool P c)
        v ← get_item_vec k i
        s ← get_pool
        if v == item_vec
            then elim (allocate s size) [
              | none ↦ wait
              | some (o', s') ↦ (do
                put_pool s'
                if is_valid s' o
                    then (do
                      put_pool (copy_words s' o o' (size / 8))
                      put_item_vec k i (make_item_vec (get_tag item_vec) o')
                      stat c (λ st. record st {
                        move_to_head_performed = inc st.move_to_head_performed;
                      }))
                    else failed
                (unlock_pool P c)
                unlock_bucket c b
                cleanup_bucket P c o' (get_tail s'))
            ]
            else (do (unlock_pool P c); unlock_bucket c b; failed)
      in if circular
        then (if ltb c.mth_threshold (bit_and (sub64 (get_tail t.pool) o) (get_mask t.pool))
            then move t
            else stat c (λ st. record st { move_to_head_skipped = inc st.move_to_head_skipped }) t)
        else some (tt, t)

  -- The result, the bytes copied out and the length reported (0 for `kNotFound`, where the caller
  -- does not ask for it). A stale item may have been copied before it is found to be stale.
  abbrev pub Got : Type 0
  Got = Result × List ℕ × ℕ

  -- The stale entry of `get`: forgotten if mutation is allowed.
  unfoldable pub get_stale : ℕ → ℕ → ℕ → Bool → M State (Unit {0})
  unfolding lock_bucket unlock_bucket get_item_vec put_item_vec stat
  get_stale b k i allow_mutation = when allow_mutation (do
    lock_bucket c b
    v ← get_item_vec k i
    when (not (v == 0)) (do put_item_vec k i 0; stat c (λ st. record st { count = dec st.count }))
    unlock_bucket c b)

  -- A changed version means another round; with one thread the version does not change.
  unfoldable pub get : ℕ → List ℕ → ℕ → Bool → M State Got
  get key_hash key in_value_length allow_mutation =
      let b = calc_bucket_index c.num_buckets_mask key_hash in
      let tag = calc_tag key_hash in
      do
        version_start ← read_version_begin c b
        l ← find_item_index c P b key_hash tag key
        version_end ← read_version_end c b
        if not (version_start == version_end) then wait else elim l [
          | nowhere _ ↦ (do
            stat c (λ st. record st { get_notfound = inc st.get_notfound })
            pure (not_found, [], 0))
          | at k i ↦ (do
            v ← get_item_vec k i
            s ← get_pool
            let o = get_item_offset v
            let value_length = get_value_length (kv_length_vec P s o)
            let out_length = min value_length in_value_length
            let out_value =
                if leb value_length 1048575
                then read_bytes P s o (2 + length key) 0 (copied_length out_length)
                else []
            if leb value_length 1048575 && is_valid s o
                then (do
                  stat c (λ st. record st { get_found = inc st.get_found })
                  when allow_mutation (move_to_head b k (bytes key) value_length i v)
                  pure (
                    if value_length == out_length then success else partial_value,
                    out_value,
                    out_length,
                  ))
                else (do
                  get_stale b k i allow_mutation
                  stat c (λ st. record st { get_notfound = inc st.get_notfound })
                  pure (not_found, out_value, 0)))
        ]

  unfoldable pub test : ℕ → List ℕ → M State Result
  test key_hash key =
      let b = calc_bucket_index c.num_buckets_mask key_hash in
      do
        version_start ← read_version_begin c b
        l ← find_item_index c P b key_hash (calc_tag key_hash) key
        version_end ← read_version_end c b
        if not (version_start == version_end) then wait else elim l [
          | at _ _ ↦ (do stat c (λ st. record st { test_found = inc st.test_found }); pure success)
          | nowhere _ ↦ (do
            stat c (λ st. record st { test_notfound = inc st.test_notfound })
            pure not_found)
        ]
