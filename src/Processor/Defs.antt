-- ===== src/Processor/Defs.antt =====
-- `Partitions` (mica2/src/mica/processor/partitions.h, partitions_impl/info.h, recent_key_hash.h): its
-- state, the owners of its partitions and their changes, and the recent key hashes.
use enso_eval.Base.{
  ℕ, zero, suc, ◌+◌, ◌-◌, ◌/◌, ◌%◌, ◌^◌, bit_and, Bool, true, false, not, Option, none, some, List,
  [], ◌∷◌, get_or, set, replicate, length, u32, ◌==◌, if◌then◌else◌,
}
use enso_eval.Queue.{Queue, enqueue, dequeue, approximate_empty}

-- `PendingOwnerLCoreChange`
pub record Change : Type 0 where
  pub partition_id : ℕ
  pub new_owner_lcore_id : ℕ

abbrev pub no_change : Change
no_change = record { partition_id = 0; new_owner_lcore_id = 0 }

abbrev pub k_max_partition_count : ℕ
k_max_partition_count = 256

abbrev pub k_recent_key_hash_buckets : ℕ
k_recent_key_hash_buckets = 128

-- `LoadStats`
pub record LoadStats : Type 0 where
  pub request_count : List ℕ
  pub processing_time : ℕ
  pub stage_gap : ℕ

-- `Partitions`. A pointer of `tables_` that the constructor did not set is `none`.
pub record Partitions (T : Type 0) : Type 0 where
  pub concurrent_read : Bool
  pub concurrent_write : Bool
  pub partition_count : ℕ
  pub owner_lcore_ids : List ℕ
  pub tables : List (Option T)
  pub pending_owner_lcore_changes : List (Queue Change)
  pub load_stats : List LoadStats
  pub recent_key_hashes : List (List ℕ)

abbrev pub no_queue : Queue Change
no_queue = record { head_lock = 0; head = 0; tail_lock = 0; tail = 0; items = [] }

abbrev pub no_stats : LoadStats
no_stats = record { request_count = []; processing_time = 0; stage_gap = 0 }

unfoldable pub zero_stats : List LoadStats → List LoadStats
zero_stats [] = []
zero_stats (st ∷ l) =
    record st { request_count = replicate (length st.request_count) 0; processing_time = 0 }
    ∷ zero_stats l

-- With `kRecentKeyHashAssociativity` 1, a bucket is one tag.
unfoldable pub recent_index : ℕ → ℕ
recent_index key_hash = bit_and (key_hash / 2 ^ 32) (k_recent_key_hash_buckets - 1)

module _ {T : Type 0} where
  unfoldable pub get_partition_id : Partitions T → ℕ → ℕ
  get_partition_id p key_hash = key_hash / 2 ^ 48 % p.partition_count % 2 ^ 16

  unfoldable pub get_owner_lcore_id : Partitions T → ℕ → ℕ
  get_owner_lcore_id p index = get_or p.owner_lcore_ids index 0

  unfoldable pub pending_of : Partitions T → ℕ → Queue Change
  pending_of p lcore_id = get_or p.pending_owner_lcore_changes lcore_id no_queue

  unfoldable pub put_pending : ℕ → Queue Change → Partitions T → Partitions T
  put_pending lcore_id q p = record p {
    pending_owner_lcore_changes = set p.pending_owner_lcore_changes lcore_id q;
  }

  -- `pending_owner_lcore_changes_[lcore_id].enqueue(c)`: 16 places, several producers, one consumer.
  -- The result is not looked at; `none` while another producer holds the lock.
  unfoldable pub enqueue_change : ℕ → Change → Partitions T → Option (Partitions T)
  unfolding pending_of put_pending enqueue
  enqueue_change lcore_id c p = elim (enqueue 16 no_change true false (pending_of p lcore_id) c) [
    | none ↦ none
    | some (done, q) ↦ some (put_pending lcore_id q p)
  ]

  unfoldable pub set_new_owner_lcore_id : ℕ → ℕ → Partitions T → Option (Partitions T)
  unfolding get_owner_lcore_id
  set_new_owner_lcore_id index lcore_id p =
      if get_owner_lcore_id p index == lcore_id
      then some p
      else enqueue_change (get_owner_lcore_id p index)
          (record { partition_id = index % 2 ^ 16; new_owner_lcore_id = lcore_id }) p

  -- One change: the owner gives the partition away, or passes the change on to the owner.
  unfoldable pub apply_change : ℕ → Change → Partitions T → Option (Partitions T)
  unfolding get_owner_lcore_id
  apply_change lcore_id c p =
      if get_owner_lcore_id p c.partition_id == lcore_id
      then some
          (record p { owner_lcore_ids = set p.owner_lcore_ids c.partition_id c.new_owner_lcore_id })
      else enqueue_change (get_owner_lcore_id p c.partition_id) c p

  -- `while (dequeue(&c))`; `none` also when the rounds run out. With one consumer, `dequeue` has no
  -- lock to wait for.
  unfoldable pub apply_round :
      (Partitions T → Option (Partitions T))
      → ℕ
      → Option (Option Change × Queue Change)
      → Partitions T
      → Option (Partitions T)
  unfolding apply_change put_pending
  apply_round again lcore_id none p = none
  apply_round again lcore_id (some (none, q)) p = some (put_pending lcore_id q p)
  apply_round again lcore_id (some (some c, q)) p =
      elim (apply_change lcore_id c (put_pending lcore_id q p)) [ none ↦ none | some p' ↦ again p' ]

  unfoldable pub apply_loop : ℕ → ℕ → Partitions T → Option (Partitions T)
  unfolding apply_round pending_of dequeue
  apply_loop zero lcore_id p = none
  apply_loop (suc rounds) lcore_id p =
      apply_round (apply_loop rounds lcore_id) lcore_id
        (dequeue 16 no_change true false (pending_of p lcore_id)) p

  unfoldable pub apply_pending_owner_lcore_changes : ℕ → ℕ → Partitions T → Option (Partitions T)
  unfolding apply_loop pending_of approximate_empty
  apply_pending_owner_lcore_changes rounds lcore_id p =
      if not (approximate_empty 16 no_change true false (pending_of p lcore_id))
      then apply_loop rounds lcore_id p
      else some p

  unfoldable pub stats_of : Partitions T → ℕ → LoadStats
  stats_of p lcore_id = get_or p.load_stats lcore_id no_stats

  -- `load_stats_[lcore_id].request_count[partition_id]++`, a `uint32_t`.
  unfoldable pub count_request : ℕ → ℕ → Partitions T → Partitions T
  unfolding stats_of
  count_request lcore_id partition_id p =
      let st = stats_of p lcore_id in
      let n = get_or st.request_count partition_id 0 in
      record p {
        load_stats =
            set p.load_stats lcore_id
              (record st { request_count = set st.request_count partition_id (u32 (n + 1)) });
      }

  unfoldable pub get_request_count : Partitions T → ℕ → ℕ → ℕ
  unfolding stats_of
  get_request_count p lcore_id index = get_or (stats_of p lcore_id).request_count index 0

  unfoldable pub get_processing_time : Partitions T → ℕ → ℕ
  unfolding stats_of
  get_processing_time p lcore_id = (stats_of p lcore_id).processing_time

  unfoldable pub reset_load_stats : Partitions T → Partitions T
  unfolding zero_stats
  reset_load_stats p = record p { load_stats = zero_stats p.load_stats }

  unfoldable pub recent_of : Partitions T → ℕ → List ℕ
  recent_of p lcore_id = get_or p.recent_key_hashes lcore_id []

  unfoldable pub is_recent_key_hash : Partitions T → ℕ → ℕ → Bool
  unfolding recent_index recent_of
  is_recent_key_hash p lcore_id key_hash =
      get_or (recent_of p lcore_id) (recent_index key_hash) 0 == key_hash % 2 ^ 16

  unfoldable pub update_recent_key_hash : ℕ → ℕ → Partitions T → Partitions T
  unfolding recent_index recent_of
  update_recent_key_hash lcore_id key_hash p =
      let v = recent_of p lcore_id in
      let index = recent_index key_hash in
      let tag = key_hash % 2 ^ 16 in
      if get_or v index 0 == tag
      then p
      else record p { recent_key_hashes = set p.recent_key_hashes lcore_id (set v index tag) }
