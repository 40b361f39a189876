-- ===== src/LTable/Discipline.antt =====
-- `del` (ltable_impl/del.h) is a writer as the readers of a bucket ask for (ltable_impl/lock.h).
use enso_eval.Base.{
  ℕ, ◌%◌, ◌^◌, ◌≤◌, ◌<◌, ◌≡◌, arith, true, some, List, [], ◌∷◌, length, inl, inr, ◌⊎◌,
}
use enso_eval.LTable.State.{Result, success, not_found, Stats, Config, Table, bucket_at}
use enso_eval.LTable.Vec.{calc_tag}
use enso_eval.LTable.Pool.{Pool}
use enso_eval.LTable.Item.{matches}
use enso_eval.LTable.Lock.{lock_bucket}
use enso_eval.LTable.Scan.{Located, at, nowhere}
use enso_eval.LTable.Chain.{Scanned, found, missed, find_item_index_lem}
use enso_eval.LTable.Steps.{counted}
use enso_eval.LTable.Del.{del}
use enso_eval.LTable.Seqlock.{Moves, here, acquire, mutate, give_back, elsewhere, lock-version}
use enso_eval.LTable.Writer.{
  next_version, lock-next_version, unlock-next_version, next_version-length,
}
use enso_eval.LTable.Forget.{
  home, locked, Search, forgotten, one_delete_found, one_delete_notfound, del-nowhere, del-at,
  counted-bucket_at, forgotten-version, forgotten-length, only_home, one_bucket,
}
use mathlib.Core.Path.{subst}

module _ (P : Pool) (c : Config) (t : Table P.State) (key_hash : ℕ) (key : List ℕ)
    (on : c.concurrent ≡ true)
    (some_mode : (c.concurrent_access_mode ≡ 1) ⊎ (c.concurrent_access_mode ≡ 2))
    (inside : home P c t key_hash key < length t.buckets)
    (even : (bucket_at t (home P c t key_hash key)).version % 2 ≡ 0)
    (word : (bucket_at t (home P c t key_hash key)).version < 2 ^ 32)
    (locks : lock_bucket c (home P c t key_hash key) t ≡ some (tt, locked P c t key_hash key)) where
  abbrev h : ℕ
  h = home P c t key_hash key

  abbrev u : Table P.State
  u = locked P c t key_hash key

  odd : (bucket_at u h).version % 2 ≡ 1
  odd = omega (arith, lock-version c h [] on some_mode t u inside even word locks)

  Moves-locked : Moves c h [] t 1 u
  Moves-locked = acquire here inside even locks

  -- Counters are not part of a bucket.
  Moves-counted :
      {m : ℕ} (t' : Table P.State) (f : Stats → Stats)
      → Moves c h [] t m t'
      → Moves c h [] t m (counted c t' f)
  Moves-counted t' f r = elsewhere r (λ k among. counted-bucket_at P c t key_hash key t' f k)

  Moves-at :
      (i : ℕ)
      → Moves c h [] t 2
          (counted c (next_version c h (forgotten P c t key_hash key h i)) one_delete_found)
  Moves-at i =
      let w = forgotten P c t key_hash key h i in
      let same = forgotten-version P c t key_hash key i inside in
      Moves-counted (next_version c h w) one_delete_found (
        give_back (mutate Moves-locked odd same)
          (omega (arith, forgotten-length P c t key_hash key i)) (omega (arith, same, odd))
          (unlock-next_version c h w))

  Moves-nowhere : Moves c h [] t 2 (counted c (next_version c h u) one_delete_notfound)
  Moves-nowhere = Moves-counted (next_version c h u) one_delete_notfound (
      give_back Moves-locked (omega (arith, next_version-length c h t)) odd
        (unlock-next_version c h u))

  Moves-found :
      (l : Located)
      → P.circular ≡ true
      → c.eviction ≡ true
      → Search P c t key_hash key l
      → Scanned (matches P u.pool key_hash (calc_tag key_hash) key) u (h ∷ []) (some l)
      → (r : Result) × (t' : Table P.State) × (del P c key_hash key t ≡ some (r, t'))
        × Moves c h [] t 2 t'
  Moves-found (at k i) circular eviction s (found m q) =
      let s' =
        subst (λ x. Search P c t key_hash key (at x i)) (only_home P c t key_hash key k m) s in
      (success, _, del-at P c t key_hash key h i circular eviction locks s', Moves-at i)
  Moves-found (nowhere k) circular eviction s (missed m q) =
      (not_found, _, del-nowhere P c t key_hash key k locks s, Moves-nowhere)

-- With concurrent access on, `del` on a table without extra buckets and over a circular log keeps to
-- what the readers rely on: it locks the bucket of the key, changes it only while its version is odd
-- and without changing the version, and gives it back, in two steps on the version.
pub del-Moves :
    (P : Pool) (c : Config) (t : Table P.State) (key_hash : ℕ) (key : List ℕ)
    → let b = home P c t key_hash key in
      c.concurrent ≡ true
      → (c.concurrent_access_mode ≡ 1) ⊎ (c.concurrent_access_mode ≡ 2)
      → P.circular ≡ true
      → c.eviction ≡ true
      → b < length t.buckets
      → (bucket_at t b).version % 2 ≡ 0
      → (bucket_at t b).version < 2 ^ 32
      → (r : Result) × (t' : Table P.State) × (del P c key_hash key t ≡ some (r, t'))
        × Moves c b [] t 2 t'
del-Moves P c t key_hash key on some_mode circular eviction inside even word =
    let b = home P c t key_hash key in
    let u = locked P c t key_hash key in
    let locks = lock-next_version c b t (mode some_mode) even word in
    let (l, s, scanned) =
      find_item_index_lem c P u b key_hash (calc_tag key_hash) key (b ∷ [])
        (one_bucket P c t key_hash key eviction) (omega arith) in
    Moves-found P c t key_hash key on some_mode inside even word locks l circular eviction s scanned
  where
    mode :
        (c.concurrent_access_mode ≡ 1) ⊎ (c.concurrent_access_mode ≡ 2)
        → c.concurrent_access_mode ≤ 2
    mode (inl e) = omega arith
    mode (inr e) = omega arith
