-- ===== src/LTable/Writer.antt =====
-- What a writer of a bucket does to the table (ltable_impl/lock.h): its version, and an emptied slot.
use enso_eval.Base.{
  ℕ, ◌+◌, ◌/◌, ◌*◌, ◌%◌, ◌^◌, ◌≤◌, ◌<◌, ◌≡◌, arith, Bool, true, not, ◌&&◌, some, length, get_or,
  set, get_or-set, length-set, if◌then◌else◌, ◌==◌, add32,
}
use enso_eval.LTable.State.{Config, Table, bucket_at, empty_bucket, put_bucket}
use enso_eval.LTable.Lock.{lock_bucket, unlock_bucket}
use enso_eval.LTable.Scan.{has_extra_bucket, chain_fuel}
use enso_eval.LTable.Extra.{fill_hole}

-- Whether a writer changes versions.
abbrev pub versions : Config → Bool
versions c = c.concurrent && not (c.concurrent_access_mode == 0)

module _ {S : Type 0} (c : Config) (b : ℕ) where
  abbrev pub versioned : ℕ → Table S → Table S
  versioned n t = record t { buckets = set t.buckets b (record (bucket_at t b) { version = n }) }

  abbrev pub next_version : Table S → Table S
  next_version t = if versions c then versioned (add32 (bucket_at t b).version 1) t else t

  pub lock-next_version :
      (t : Table S)
      → c.concurrent_access_mode ≤ 2
      → (bucket_at t b).version % 2 ≡ 0
      → (bucket_at t b).version < 2 ^ 32
      → lock_bucket c b t ≡ some (tt, next_version t)
  unfolding lock_bucket bucket_at put_bucket
  lock-next_version t mode even w =
      let same : (bucket_at t b).version / 2 * 2 + 1 ≡ add32 (bucket_at t b).version 1 =
        omega arith in
      ground (arith, same)

  pub unlock-next_version : (t : Table S) → unlock_bucket c b t ≡ some (tt, next_version t)
  unfolding unlock_bucket bucket_at put_bucket
  unlock-next_version t = ground arith

  pub next_version-slots :
      (t : Table S) (k : ℕ)
      → b < length t.buckets
      → (bucket_at (next_version t) k).item_vec ≡ (bucket_at t k).item_vec
  unfolding bucket_at
  next_version-slots t k h = ground (
    arith,
    get_or-set t.buckets b k
        (record (get_or t.buckets b empty_bucket) {
          version = add32 (get_or t.buckets b empty_bucket).version 1;
        })
        empty_bucket,
  )

  pub next_version-pool : (t : Table S) → (next_version t).pool ≡ t.pool
  next_version-pool t = ground arith

  pub next_version-length : (t : Table S) → length (next_version t).buckets ≡ length t.buckets
  unfolding bucket_at
  next_version-length t = ground (
    arith,
    length-set t.buckets b (record (get_or t.buckets b empty_bucket) {
      version = add32 (get_or t.buckets b empty_bucket).version 1;
    }),
  )

  pub next_version-version :
      (t : Table S)
      → b < length t.buckets
      → (bucket_at (next_version t) b).version
        ≡ (if versions c then add32 (bucket_at t b).version 1 else (bucket_at t b).version)
  unfolding bucket_at
  next_version-version t h = ground (
    arith,
    get_or-set t.buckets b b
        (record (get_or t.buckets b empty_bucket) {
          version = add32 (get_or t.buckets b empty_bucket).version 1;
        })
        empty_bucket,
  )

  abbrev pub emptied : ℕ → ℕ → Table S → Table S
  emptied k i t = record t {
    buckets =
        set t.buckets k (record (bucket_at t k) { item_vec = set (bucket_at t k).item_vec i 0 });
  }

  pub emptied-version :
      (t : Table S) (k i j : ℕ)
      → k < length t.buckets
      → (bucket_at (emptied k i t) j).version ≡ (bucket_at t j).version
  unfolding bucket_at
  emptied-version t k i j h = ground (
    arith,
    get_or-set t.buckets k j
        (record (get_or t.buckets k empty_bucket) {
          item_vec = set (get_or t.buckets k empty_bucket).item_vec i 0;
        })
        empty_bucket,
  )

  pub emptied-slots :
      (t : Table S) (k i j : ℕ)
      → k < length t.buckets
      → (bucket_at (emptied k i t) j).item_vec
        ≡ (if k == j then set (bucket_at t k).item_vec i 0 else (bucket_at t j).item_vec)
  unfolding bucket_at
  emptied-slots t k i j h = ground (
    arith,
    get_or-set t.buckets k j
        (record (get_or t.buckets k empty_bucket) {
          item_vec = set (get_or t.buckets k empty_bucket).item_vec i 0;
        })
        empty_bucket,
  )

  -- Without extra buckets there is no hole to fill.
  pub fill_hole-none :
      (t : Table S) (k i : ℕ) → c.eviction ≡ true → fill_hole c (chain_fuel c) k i t ≡ some (tt, t)
  unfolding fill_hole has_extra_bucket
  fill_hole-none t k i e = ground (arith, e)
