-- ===== src/LTable/Tests.antt =====
-- The table at concrete inputs: four buckets of two slots over a circular log of 256 bytes.
use enso_eval.Base.{
  ℕ, ◌^◌, ◌<◌, ◌≡◌, ◌≢◌, inl, inr, refl, arith, true, false, List, [], ◌∷◌, length, some, replicate,
  get_or, ◌/◌, ◌%◌, ◌*◌, ◌+◌, ◌⊎◌, if◌then◌else◌,
}
use mathlib.Core.Option
use enso_eval.CircularLog.{Log}
use enso_eval.LTable.Vec.{
  get_tag, get_item_offset, make_item_vec, calc_tag, calc_bucket_index, get_key_length,
  get_value_length, make_kv_length_vec, item_vec_fields,
}
use enso_eval.LTable.LogPool.{log_pool}
use enso_eval.LTable.State.{
  Result, success, not_found, exists, Bucket, Config, Stats, Table, M, ◌>>=◌, pure, bucket_at, stat,
  get_item_vec, put_item_vec, put_next, put_free_head, put_pool, get_pool,
}
use enso_eval.LTable.Item.{matches, kv_length_vec, read_bytes, copied_length}
use enso_eval.LTable.Scan.{Located, find_item_index, has_extra_bucket}
use enso_eval.LTable.Chain.{last, Scanned, Passes, NonePass, Among, find_item_index_lem}
use enso_eval.LTable.Set.{set}
use enso_eval.LTable.Get.{get, test, get_stale, move_to_head}
use enso_eval.LTable.Read.{SameItems, usable, copied, stale, test_lem, get_lem}
use enso_eval.LTable.Forget.{Forgot, Missed, del_lem}
use enso_eval.LTable.Init.{
  reset, release_buckets, release_slots, link_extra_buckets, clear_buckets, reset_stats,
}
use enso_eval.LTable.Del.{del, increment}
use enso_eval.LTable.PoolCalls.{lock_pool, unlock_pool, release_item}
use enso_eval.LTable.Extra.{fill_hole}
use enso_eval.LTable.Lock.{lock_bucket, unlock_bucket, read_version_begin, read_version_end}
use enso_eval.LTable.Seqlock.{here, elsewhere, SameChain, seqlock_consistent}

abbrev no_stats : Stats
no_stats = record {
  count = 0;
  set_nooverwrite = 0;
  set_new = 0;
  set_inplace = 0;
  set_evicted = 0;
  get_found = 0;
  get_notfound = 0;
  test_found = 0;
  test_notfound = 0;
  delete_found = 0;
  delete_notfound = 0;
  cleanup = 0;
  move_to_head_performed = 0;
  move_to_head_skipped = 0;
  move_to_head_failed = 0;
}

abbrev lossy : Config
lossy = record {
  concurrent = true;
  collect_stats = false;
  eviction = true;
  bucket_size = 2;
  concurrent_access_mode = 2;
  rshift = 45;
  num_buckets = 4;
  num_buckets_mask = 3;
  num_extra_buckets = 0;
  mth_threshold = 128;
}

abbrev free_bucket : Bucket
free_bucket = record { version = 0; next_extra_bucket_index = 0; item_vec = 0 ∷ 0 ∷ [] }

abbrev small_log : Log
small_log = record {
  concurrent = true;
  concurrent_access_mode = 2;
  size = 256;
  mask = 255;
  lock = 0;
  head = 0;
  tail = 0;
  mem = λ a. 0;
}

abbrev empty_table : Table Log
empty_table = record {
  buckets = replicate 4 free_bucket;
  pool = small_log;
  free_head = 0;
  free_lock = 0;
  stats = no_stats;
}

-- The key 77 with hash 5 is set twice, read, incremented and deleted.
abbrev session : M Log (List Result × List ℕ)
session = do
  r₁ ← set log_pool lossy 5 (77 ∷ []) (40 ∷ []) true
  r₂ ← set log_pool lossy 5 (77 ∷ []) (41 ∷ []) false
  r₃ ← set log_pool lossy 5 (77 ∷ []) (42 ∷ []) true
  (r₄, n) ← increment log_pool lossy 5 (77 ∷ []) 8
  (r₅, value, length) ← get log_pool lossy 5 (77 ∷ []) 8 false
  r₆ ← del log_pool lossy 5 (77 ∷ [])
  r₇ ← test log_pool lossy 5 (77 ∷ [])
  pure (r₁ ∷ r₂ ∷ r₃ ∷ r₄ ∷ r₅ ∷ r₆ ∷ r₇ ∷ [], n ∷ value)

session_results :
    Option.map (λ r. r.0) (session empty_table)
    ≡ some (
      success ∷ exists ∷ success ∷ success ∷ success ∷ success ∷ not_found ∷ [],
      50 ∷ 50 ∷ 0 ∷ 0 ∷ 0 ∷ 0 ∷ 0 ∷ 0 ∷ 0 ∷ [],
    )
unfolding lock_bucket unlock_bucket lock_pool unlock_pool release_item put_item_vec fill_hole set
    increment get del test find_item_index read_version_begin read_version_end stat get_item_vec
    get_pool move_to_head get_value_length kv_length_vec read_bytes copied_length calc_tag
    calc_bucket_index get_stale get_tag enso_eval.CircularLog.lock enso_eval.CircularLog.allocate
    enso_eval.CircularLog.get_tail make_item_vec enso_eval.CircularLog.read
    enso_eval.CircularLog.unlock enso_eval.CircularLog.write get_item_offset get_key_length
    make_kv_length_vec enso_eval.CircularLog.is_valid
session_results = refl

item_vec_fields_example :
    (get_tag (make_item_vec 5 4096) ≡ 5)
    × (get_item_offset (make_item_vec 5 4096) ≡ 4096)
    × (make_item_vec 5 4096 ≢ 0)
item_vec_fields_example = item_vec_fields 5 4096 (omega arith) (omega arith) (omega arith)

no_extra : has_extra_bucket lossy (bucket_at empty_table 1) ≡ false
unfolding has_extra_bucket bucket_at
no_extra = refl

find_item_index_lem_example :
    (l : Located) × (find_item_index lossy log_pool 1 5 5 (77 ∷ []) empty_table
      ≡ some (l, empty_table))
    × Scanned (matches log_pool small_log 5 5 (77 ∷ [])) empty_table (1 ∷ []) (some l)
find_item_index_lem_example =
    find_item_index_lem lossy log_pool empty_table 1 5 5 (77 ∷ []) (1 ∷ []) (last no_extra)
      (omega arith)

-- A table that holds the key 77 under the hash 5, with the value 41, at the start of its log.
abbrev full_table : Table Log
full_table = record empty_table {
  buckets =
      (record free_bucket { item_vec = (5 * 2 ^ 48) ∷ 0 ∷ [] })
      ∷ free_bucket
      ∷ free_bucket
      ∷ free_bucket
      ∷ [];
  pool = record small_log {
    tail = 40;
    mem = λ a. get_or (40 ∷ (8 * 2 ^ 24 + 8) ∷ 5 ∷ 77 ∷ 41 ∷ []) (a / 8) 0;
  };
}

-- A reader of the bucket 1 and its extra bucket 3, while a writer deletes the key in the bucket 0.
abbrev locked_table : Table Log
locked_table = record full_table {
  buckets =
      (record free_bucket { version = 1; item_vec = (5 * 2 ^ 48) ∷ 0 ∷ [] })
      ∷ free_bucket
      ∷ free_bucket
      ∷ free_bucket
      ∷ [];
}

abbrev deleted_table : Table Log
deleted_table = record full_table {
  buckets = (record free_bucket { version = 2 }) ∷ free_bucket ∷ free_bucket ∷ free_bucket ∷ [];
}

begin_version : read_version_begin lossy 1 full_table ≡ some (0, full_table)
unfolding read_version_begin
begin_version = refl

end_version : read_version_end lossy 1 deleted_table ≡ some (0, deleted_table)
unfolding read_version_end
end_version = refl

version_small : (bucket_at full_table 1).version < 2 ^ 32
unfolding bucket_at
version_small = omega arith

locks_elsewhere : SameChain lossy 1 (3 ∷ []) full_table locked_table
unfolding bucket_at
locks_elsewhere k (inl e) = rw e refl
locks_elsewhere k (inr (inl e)) = rw e refl
locks_elsewhere k (inr (inr m)) = absurd m

deletes_elsewhere : SameChain lossy 1 (3 ∷ []) locked_table deleted_table
unfolding bucket_at
deletes_elsewhere k (inl e) = rw e refl
deletes_elsewhere k (inr (inl e)) = rw e refl
deletes_elsewhere k (inr (inr m)) = absurd m

seqlock_consistent_example :
    SameChain lossy 1 (3 ∷ []) full_table locked_table
    × SameChain lossy 1 (3 ∷ []) full_table deleted_table
seqlock_consistent_example =
    seqlock_consistent lossy 1 (3 ∷ []) refl (inr refl) 0 0 0 version_small begin_version
      (elsewhere here locks_elsewhere) (elsewhere here deletes_elsewhere) (omega arith) end_version

no_extra_full : has_extra_bucket lossy (bucket_at full_table 0) ≡ false
unfolding has_extra_bucket bucket_at
no_extra_full = refl

get_full :
    Option.map (λ r. r.0) (get log_pool lossy 5 (77 ∷ []) 8 false full_table)
    ≡ some (success, 41 ∷ 0 ∷ 0 ∷ 0 ∷ 0 ∷ 0 ∷ 0 ∷ 0 ∷ [], 8)
unfolding get find_item_index read_version_begin read_version_end stat get_item_vec get_pool
    enso_eval.CircularLog.read get_item_offset get_value_length kv_length_vec read_bytes
    copied_length calc_tag calc_bucket_index enso_eval.CircularLog.is_valid get_tag get_key_length
get_full = refl

test_lem_example :
    (t' : Table Log) × SameItems log_pool lossy full_table t'
    × (((k : ℕ) × (i : ℕ) × Among k (0 ∷ [])
          × Passes (matches log_pool full_table.pool 5 (calc_tag 5) (77 ∷ [])) full_table k i
          × (test log_pool lossy 5 (77 ∷ []) full_table ≡ some (success, t')))
        ⊎ (NonePass (matches log_pool full_table.pool 5 (calc_tag 5) (77 ∷ [])) full_table (0 ∷ [])
            × (test log_pool lossy 5 (77 ∷ []) full_table ≡ some (not_found, t'))))
unfolding calc_bucket_index bucket_at
test_lem_example =
    test_lem log_pool lossy full_table 5 (77 ∷ []) (0 ∷ []) (last no_extra_full) (omega arith) refl

get_lem_example :
    (t' : Table Log) × SameItems log_pool lossy full_table t'
    × (((k : ℕ) × (i : ℕ) × Among k (0 ∷ [])
          × Passes (matches log_pool full_table.pool 5 (calc_tag 5) (77 ∷ [])) full_table k i
          × (get log_pool lossy 5 (77 ∷ []) 8 false full_table
              ≡ some (
                if usable log_pool lossy full_table 5 (77 ∷ []) k i
                    then copied log_pool lossy full_table 5 (77 ∷ []) 8 k i
                    else stale log_pool lossy full_table 5 (77 ∷ []) 8 k i,
                t',
              )))
        ⊎ (NonePass (matches log_pool full_table.pool 5 (calc_tag 5) (77 ∷ [])) full_table (0 ∷ [])
            × (get log_pool lossy 5 (77 ∷ []) 8 false full_table ≡ some ((not_found, [], 0), t'))))
unfolding calc_bucket_index bucket_at
get_lem_example =
    get_lem log_pool lossy full_table 5 (77 ∷ []) (0 ∷ []) 8 (last no_extra_full) (omega arith) refl

small_full : (bucket_at full_table 0).version < 2 ^ 32
unfolding bucket_at
small_full = omega arith

del_lem_example :
    (t' : Table Log) × ((bucket_at t' 0).version % 2 ≡ 0)
    × (Forgot log_pool lossy full_table 5 (77 ∷ []) t'
        ⊎ Missed log_pool lossy full_table 5 (77 ∷ []) t')
unfolding calc_bucket_index bucket_at
del_lem_example =
    del_lem log_pool lossy full_table 5 (77 ∷ []) refl refl (omega arith) (omega arith) refl
      small_full

abbrev spare_bucket : ℕ → Bucket
spare_bucket e = record { version = 0; next_extra_bucket_index = e; item_vec = 0 ∷ 0 ∷ [] }

-- `reset` of a table with two extra buckets: all is free, and the extra buckets are chained.
reset_full :
    Option.map {B = ℕ × List Bucket × ℕ}
      (λ r. (r.1.free_head, r.1.buckets, r.1.pool.tail))
      (reset log_pool (record lossy { num_extra_buckets = 2 }) full_table)
    ≡ some (
      1,
      free_bucket ∷ free_bucket ∷ free_bucket ∷ free_bucket ∷ spare_bucket 2 ∷ spare_bucket 0 ∷ [],
      0,
    )
unfolding enso_eval.CircularLog.release enso_eval.LTable.Scan.extra_place reset release_buckets
    release_slots link_extra_buckets clear_buckets reset_stats put_next put_free_head get_pool
    put_pool lock_pool unlock_pool release_item enso_eval.CircularLog.lock
    enso_eval.CircularLog.unlock enso_eval.CircularLog.reset bucket_at
reset_full = refl
