-- ===== src/LTable/Lock.antt =====
-- Bucket versions and the free list's lock (ltable_impl/lock.h), for one thread.
use enso_eval.Base.{ℕ, ◌+◌, ◌*◌, ◌/◌, ◌%◌, not, ◌&&◌, none, some, ◌==◌, if◌then◌else◌, add32}
use enso_eval.LTable.State.{Config, M, bucket_at, put_bucket}

module _ {S : Type 0} (c : Config) where
  put_version : ℕ → ℕ → M S (Unit {0})
  unfolding put_bucket bucket_at
  put_version b v t = put_bucket b (record (bucket_at t b) { version = v }) t

  -- In mode 2 the compare-and-swap from the even version succeeds only if the version is even.
  unfoldable pub lock_bucket : ℕ → M S (Unit {0})
  unfolding put_version bucket_at
  lock_bucket b t =
      let v = (bucket_at t b).version in
      if c.concurrent
      then (if c.concurrent_access_mode == 1
          then put_version b (add32 v 1) t
          else if c.concurrent_access_mode == 2
          then (if v % 2 == 0 then put_version b (v / 2 * 2 + 1) t else none)
          else some (tt, t))
      else some (tt, t)

  unfoldable pub unlock_bucket : ℕ → M S (Unit {0})
  unfolding put_version bucket_at
  unlock_bucket b t =
      if c.concurrent && not (c.concurrent_access_mode == 0)
      then put_version b (add32 (bucket_at t b).version 1) t
      else some (tt, t)

  unfoldable pub lock_extra_bucket_free_list : M S (Unit {0})
  lock_extra_bucket_free_list t =
      if c.concurrent && c.concurrent_access_mode == 2
      then (if t.free_lock == 0 then some (tt, record t { free_lock = 1 }) else none)
      else some (tt, t)

  unfoldable pub unlock_extra_bucket_free_list : M S (Unit {0})
  unlock_extra_bucket_free_list t =
      if c.concurrent && c.concurrent_access_mode == 2
      then some (tt, record t { free_lock = 0 })
      else some (tt, t)

  unfoldable pub read_version_begin : ℕ → M S ℕ
  unfolding bucket_at
  read_version_begin b t =
      let v = (bucket_at t b).version in
      if c.concurrent && not (c.concurrent_access_mode == 0)
      then (if v % 2 == 0 then some (v, t) else none)
      else some (0, t)

  unfoldable pub read_version_end : ℕ → M S ℕ
  unfolding bucket_at
  read_version_end b t =
      if c.concurrent && not (c.concurrent_access_mode == 0)
      then some ((bucket_at t b).version, t)
      else some (0, t)
