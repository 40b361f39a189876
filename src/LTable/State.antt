-- ===== src/LTable/State.antt =====
-- The state of `LTable` (ltable.h), and the monad in which its operations are written.
use enso_eval.Base.{ℕ, Bool, Option, none, some, List, [], get_or, set, if◌then◌else◌, sub64, add64}

-- `table::Result` (table/types.h).
pub data Result : Type 0 where
  success error insufficient_space exists not_found partial_value : Result
  not_processed not_supported timed_out rejected : Result

pub record Bucket : Type 0 where
  pub version : ℕ
  pub next_extra_bucket_index : ℕ
  pub item_vec : List ℕ

pub record Stats : Type 0 where
  pub count : ℕ
  pub set_nooverwrite : ℕ
  pub set_new : ℕ
  pub set_inplace : ℕ
  pub set_evicted : ℕ
  pub get_found : ℕ
  pub get_notfound : ℕ
  pub test_found : ℕ
  pub test_notfound : ℕ
  pub delete_found : ℕ
  pub delete_notfound : ℕ
  pub cleanup : ℕ
  pub move_to_head_performed : ℕ
  pub move_to_head_skipped : ℕ
  pub move_to_head_failed : ℕ

-- `StaticConfig`, and the fields that the constructor sets once.
pub record Config : Type 0 where
  pub concurrent : Bool
  pub collect_stats : Bool
  pub eviction : Bool
  pub bucket_size : ℕ
  pub concurrent_access_mode : ℕ
  pub rshift : ℕ
  pub num_buckets : ℕ
  pub num_buckets_mask : ℕ
  pub num_extra_buckets : ℕ
  pub mth_threshold : ℕ

-- `buckets` holds the buckets and behind them the extra buckets, as the one allocation does.
pub record Table (S : Type 0) : Type 0 where
  pub buckets : List Bucket
  pub pool : S
  pub free_head : ℕ
  pub free_lock : ℕ
  pub stats : Stats

-- An operation on the table. `none` stands for a thread that waits for ever: for a lock that nobody
-- gives back, or round a chain of buckets with no end.
abbrev pub M : Type 0 → Type 0 → Type 0
M S A = Table S → Option (A × Table S)

infixl 5 ◌>>=◌ ◌>>◌
abbrev pub ◌>>=◌ : {S A B : Type 0} → M S A → (A → M S B) → M S B
◌>>=◌ m f t = elim (m t) [ none ↦ none | some (a, t') ↦ f a t' ]

abbrev pub ◌>>◌ : {S A B : Type 0} → M S A → M S B → M S B
◌>>◌ m k t = elim (m t) [ none ↦ none | some (a, t') ↦ k t' ]

abbrev pub pure : {S A : Type 0} → A → M S A
pure a t = some (a, t)

abbrev pub wait : {S A : Type 0} → M S A
wait t = none

abbrev pub when : {S : Type 0} → Bool → M S (Unit {0}) → M S (Unit {0})
when b m t = if b then m t else some (tt, t)

abbrev pub empty_bucket : Bucket
empty_bucket = record { version = 0; next_extra_bucket_index = 0; item_vec = [] }

module _ {S : Type 0} where
  unfoldable pub bucket_at : Table S → ℕ → Bucket
  bucket_at t b = get_or t.buckets b empty_bucket

  unfoldable pub put_bucket : ℕ → Bucket → M S (Unit {0})
  put_bucket b k t = some (tt, record t { buckets = set t.buckets b k })

  -- `located_bucket->item_vec[item_index] = v`
  unfoldable pub put_item_vec : ℕ → ℕ → ℕ → M S (Unit {0})
  unfolding put_bucket bucket_at
  put_item_vec b i v t =
      let k = bucket_at t b in put_bucket b (record k { item_vec = set k.item_vec i v }) t

  unfoldable pub put_next : ℕ → ℕ → M S (Unit {0})
  unfolding put_bucket bucket_at
  put_next b e t = put_bucket b (record (bucket_at t b) { next_extra_bucket_index = e }) t

  unfoldable pub get_item_vec : ℕ → ℕ → M S ℕ
  unfolding bucket_at
  get_item_vec b i t = some (get_or (bucket_at t b).item_vec i 0, t)

  unfoldable pub get_next : ℕ → M S ℕ
  unfolding bucket_at
  get_next b t = some ((bucket_at t b).next_extra_bucket_index, t)

  unfoldable pub get_free_head : M S ℕ
  get_free_head t = some (t.free_head, t)

  unfoldable pub put_free_head : ℕ → M S (Unit {0})
  put_free_head e t = some (tt, record t { free_head = e })

  unfoldable pub get_pool : M S S
  get_pool t = some (t.pool, t)

  unfoldable pub put_pool : S → M S (Unit {0})
  put_pool s t = some (tt, record t { pool = s })

  -- `stat_inc` and `stat_dec`, on the counters that `f` changes.
  unfoldable pub stat : Config → (Stats → Stats) → M S (Unit {0})
  stat c f t = if c.collect_stats then some (tt, record t { stats = f t.stats }) else some (tt, t)

abbrev pub inc : ℕ → ℕ
inc n = add64 n 1

abbrev pub dec : ℕ → ℕ
dec n = sub64 n 1
