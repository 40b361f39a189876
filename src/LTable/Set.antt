-- ===== src/LTable/Set.antt =====
-- `set` (ltable_impl/set.h).
use enso_eval.Base.{ℕ, ◌+◌, Bool, not, ◌&&◌, none, some, List, ◌==◌, if◌then◌else◌, leb, Option}
use enso_eval.LTable.Vec.{get_item_offset, make_item_vec, calc_tag, calc_bucket_index}
use enso_eval.LTable.Pool.{Pool}
use enso_eval.LTable.State.{
  Result, success, insufficient_space, exists, Config, M, ◌>>=◌, ◌>>◌, pure, when, put_item_vec,
  get_item_vec, get_pool, put_pool, stat, inc, dec,
}
use enso_eval.LTable.Lock.{lock_bucket, unlock_bucket}
use enso_eval.LTable.Item.{bytes, sizeof_item, set_item, set_item_value}
use enso_eval.LTable.Scan.{Located, at, nowhere, find_item_index, find_same_tag}
use enso_eval.LTable.Extra.{get_empty, get_empty_or_oldest}
use enso_eval.LTable.Clean.{cleanup_bucket}
use enso_eval.LTable.PoolCalls.{lock_pool, unlock_pool, release_item}

module _ (P : Pool) (c : Config) where
  open P use {
    State, circular, read, write, item_size, allocate, release, is_valid, get_tail, get_mask,
  }

  -- The item's size in the pool: header, key and value.
  abbrev pub new_item_size : List ℕ → List ℕ → ℕ
  new_item_size key value = sizeof_item + bytes key + bytes value

  -- The slot for a key that is not in the table; `nowhere` for no more space.
  unfoldable pub choose_slot : ℕ → ℕ → M State Located
  unfolding find_same_tag get_empty get_empty_or_oldest
  choose_slot b tag =
      if c.eviction && circular
      then (do
        l ← find_same_tag c P b tag
        elim l [ at k i ↦ pure (at k i) | nowhere _ ↦ get_empty_or_oldest P c b ])
      else get_empty c b

  -- Writing a new item, and the steps after it. `old` is the item that is overwritten.
  unfoldable pub set_new_item : ℕ → ℕ → ℕ → ℕ → ℕ → List ℕ → List ℕ → Option ℕ → M State Result
  unfolding unlock_bucket unlock_pool lock_pool release_item get_pool put_pool get_item_vec
      put_item_vec stat set_item cleanup_bucket
  set_new_item b k i key_hash tag key value old = do
    s ← get_pool
    elim (allocate s (new_item_size key value)) [
      | none ↦ (do unlock_bucket c b; pure insufficient_space)
      | some (o, s') ↦ (do
        let new_tail = get_tail s'
        stat c (λ st. record st { set_new = inc st.set_new })
        put_pool (set_item P s' o key_hash key value)
        when circular (unlock_pool P c)
        v ← get_item_vec k i
        when (not (v == 0)) (do
          stat c (λ st. record st { set_evicted = inc st.set_evicted })
          stat c (λ st. record st { count = dec st.count }))
        put_item_vec k i (make_item_vec tag o)
        unlock_bucket c b
        when circular (cleanup_bucket P c o new_tail)
        elim old [
          | none ↦ pure tt
          | some o' ↦
              if circular
              then release_item P c o'
              else (do (lock_pool P c); release_item P c o'; (unlock_pool P c))
        ]
        stat c (λ st. record st { count = inc st.count })
        pure success)
    ]

  -- The slot holds an item with this key: its place is reused if the new item fits.
  unfoldable pub set_over : ℕ → ℕ → ℕ → ℕ → ℕ → List ℕ → List ℕ → M State Result
  unfolding set_new_item set_item_value
  set_over b k i key_hash tag key value = do
    when circular (lock_pool P c)
    v ← get_item_vec k i
    let o = get_item_offset v
    s ← get_pool
    if is_valid s o && leb (new_item_size key value) (item_size s o)
        then (do
          stat c (λ st. record st { set_inplace = inc st.set_inplace })
          put_pool (set_item_value P s o value)
          when circular (unlock_pool P c)
          unlock_bucket c b
          pure success)
        else set_new_item b k i key_hash tag key value (some o)

  unfoldable pub set : ℕ → List ℕ → List ℕ → Bool → M State Result
  unfolding calc_tag calc_bucket_index lock_bucket find_item_index choose_slot set_over
  set key_hash key value overwrite =
      let b = calc_bucket_index c.num_buckets_mask key_hash in
      let tag = calc_tag key_hash in
      do
        lock_bucket c b
        l ← find_item_index c P b key_hash tag key
        elim l [
          | at k i ↦ if overwrite then set_over b k i key_hash tag key value else (do
            stat c (λ st. record st { set_nooverwrite = inc st.set_nooverwrite })
            unlock_bucket c b
            pure exists)
          | nowhere _ ↦ (do
            l' ← choose_slot b tag
            elim l' [
              | at k i ↦ (do
                when circular (lock_pool P c)
                set_new_item b k i key_hash tag key value none)
              | nowhere _ ↦ (do unlock_bucket c b; pure insufficient_space)
            ])
        ]
