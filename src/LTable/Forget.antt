-- ===== src/LTable/Forget.antt =====
-- `del` (ltable_impl/del.h) on a table without extra buckets: what it empties and what it leaves.
use enso_eval.Base.{
  ℕ, ◌%◌, ◌^◌, ◌≤◌, ◌<◌, ◌≡◌, refl, ◌∙◌, ap, arith, Bool, true, false, not, some, List, [], ◌∷◌,
  length, get_or, set, length-set, if◌then◌else◌, inl, inr, ◌⊎◌, ◌==◌,
}
use enso_eval.LTable.State.{
  Stats, success, not_found, Config, Table, bucket_at, stat, dec, inc, get_item_vec, put_item_vec,
  when, put_bucket,
}
use enso_eval.LTable.Vec.{calc_tag, calc_bucket_index, get_item_offset}
use enso_eval.LTable.Pool.{Pool}
use enso_eval.LTable.Lock.{lock_bucket, unlock_bucket}
use enso_eval.LTable.Item.{matches}
use enso_eval.LTable.PoolCalls.{lock_pool, unlock_pool, release_item}
use enso_eval.LTable.Scan.{Located, at, nowhere, find_item_index, has_extra_bucket, chain_fuel}
use enso_eval.LTable.Extra.{fill_hole}
use enso_eval.LTable.Chain.{
  Chain, last, Passes, NonePass, Among, Scanned, found, missed, find_item_index_lem,
}
use enso_eval.LTable.Steps.{step, then_step, counted, stat-counted}
use enso_eval.LTable.Del.{del}
use enso_eval.LTable.Writer.{
  next_version, lock-next_version, unlock-next_version, next_version-slots, next_version-pool,
  next_version-length, next_version-version, emptied, emptied-version, emptied-slots,
  fill_hole-none,
}
use mathlib.Core.Path.{subst}

abbrev pub one_delete_found : Stats → Stats
one_delete_found st = record st { delete_found = inc st.delete_found }

abbrev pub one_delete_notfound : Stats → Stats
one_delete_notfound st = record st { delete_notfound = inc st.delete_notfound }

abbrev pub one_less : Stats → Stats
one_less st = record st { count = dec st.count }

module _ (P : Pool) (c : Config) (t : Table P.State) (key_hash : ℕ) (key : List ℕ) where
  abbrev pub home : ℕ
  home = calc_bucket_index c.num_buckets_mask key_hash

  abbrev pub locked : Table P.State
  locked = next_version c home t

  abbrev pub Search : Located → Type 0
  Search l = find_item_index c P home key_hash (calc_tag key_hash) key locked ≡ some (l, locked)

  abbrev pub released : ℕ → ℕ → Table P.State
  released k i = record locked {
    pool = P.release locked.pool (get_item_offset (get_or (bucket_at locked k).item_vec i 0));
  }

  abbrev pub forgotten : ℕ → ℕ → Table P.State
  forgotten k i = counted c (emptied c home k i (released k i)) one_less

  pub del-nowhere :
      (k : ℕ)
      → lock_bucket c home t ≡ some (tt, locked)
      → Search (nowhere k)
      → del P c key_hash key t
        ≡ some (not_found, counted c (next_version c home locked) one_delete_notfound)
  unfolding del
  del-nowhere k e₁ e₂ = then_step (lock_bucket c home) _ e₁ (
      step (find_item_index c P home key_hash (calc_tag key_hash) key) _ e₂ (
        then_step (unlock_bucket c home) _ (unlock-next_version c home locked) (
          then_step (stat c one_delete_notfound) _
            (stat-counted c (next_version c home locked) one_delete_notfound) refl)))

  pub del-at :
      (k i : ℕ)
      → P.circular ≡ true
      → c.eviction ≡ true
      → lock_bucket c home t ≡ some (tt, locked)
      → Search (at k i)
      → del P c key_hash key t
        ≡ some (success, counted c (next_version c home (forgotten k i)) one_delete_found)
  unfolding del get_item_vec put_item_vec release_item put_bucket
  del-at k i circular eviction e₁ e₂ =
      let idle : (u : Table P.State) → when (not P.circular) (lock_pool P c) u ≡ some (tt, u) =
        λ u. rw circular refl in
      let idle' : (u : Table P.State) → when (not P.circular) (unlock_pool P c) u ≡ some (tt, u) =
        λ u. rw circular refl in
      then_step (lock_bucket c home) _ e₁ (
        step (find_item_index c P home key_hash (calc_tag key_hash) key) _ e₂ (
          then_step (when (not P.circular) (lock_pool P c)) _ (idle locked) (
            then_step (when (not P.circular) (unlock_pool P c)) _ (idle' (released k i)) (
              then_step (stat c one_less) _
                (stat-counted c (emptied c home k i (released k i)) one_less)
                (then_step (fill_hole c (chain_fuel c) k i) _
                  (fill_hole-none c home (forgotten k i) k i eviction)
                  (then_step (unlock_bucket c home) _ (unlock-next_version c home (forgotten k i)) (
                    then_step (stat c one_delete_found) _
                      (stat-counted c (next_version c home (forgotten k i)) one_delete_found)
                      refl)))))))

  abbrev asked : ℕ → Bool
  asked = matches P t.pool key_hash (calc_tag key_hash) key

  pub counted-bucket_at :
      (u : Table P.State) (f : Stats → Stats) (j : ℕ) → bucket_at (counted c u f) j ≡ bucket_at u j
  unfolding bucket_at
  counted-bucket_at u f j = ground arith

  counted-buckets : (u : Table P.State) (f : Stats → Stats) → (counted c u f).buckets ≡ u.buckets
  counted-buckets u f = ground arith

  twice-even :
      (u : Table P.State)
      → (bucket_at u home).version ≡ (bucket_at locked home).version
      → home < length t.buckets
      → home < length u.buckets
      → (bucket_at t home).version % 2 ≡ 0
      → (bucket_at (next_version c home u) home).version % 2 ≡ 0
  twice-even u same h h' even =
      ground (arith, same, next_version-version c home t h, next_version-version c home u h')

  pub forgotten-version :
      (i : ℕ)
      → home < length t.buckets
      → (bucket_at (forgotten home i) home).version ≡ (bucket_at locked home).version
  unfolding bucket_at
  forgotten-version i h =
      let u = emptied c home home i (released home i) in
      ap (λ k. k.version) (counted-bucket_at u one_less home)
      ∙ emptied-version c home (released home i) home i home
          (omega (arith, next_version-length c home t))

  forgotten-slots :
      (i j : ℕ)
      → home < length t.buckets
      → (bucket_at (forgotten home i) j).item_vec
        ≡ (if home == j then set (bucket_at t home).item_vec i 0 else (bucket_at t j).item_vec)
  unfolding bucket_at
  forgotten-slots i j h =
      let u = emptied c home home i (released home i) in
      let there = ap (λ k. k.item_vec) (counted-bucket_at u one_less j) in
      let cleared =
        emptied-slots c home (released home i) home i j
          (omega (arith, next_version-length c home t)) in
      let here : (bucket_at locked home).item_vec ≡ (bucket_at t home).item_vec =
        next_version-slots c home t home h in
      let other : (bucket_at locked j).item_vec ≡ (bucket_at t j).item_vec =
        next_version-slots c home t j h in
      there ∙ cleared ∙ rw (here, other) refl

  found_before :
      (i : ℕ)
      → Passes (matches P locked.pool key_hash (calc_tag key_hash) key) locked home i
      → home < length t.buckets
      → Passes asked t home i
  found_before i q h = record {
    inside = omega (arith, ap length (next_version-slots c home t home h));
    passed = cc (next_version-slots c home t home h, next_version-pool c home t, q.passed);
  }

  none_before :
      NonePass (matches P locked.pool key_hash (calc_tag key_hash) key) locked (home ∷ [])
      → home < length t.buckets
      → NonePass asked t (home ∷ [])
  none_before q h = (
    (λ i lt. cc (
      next_version-slots c home t home h,
      next_version-pool c home t,
      q.0 i (omega (arith, ap length (next_version-slots c home t home h))),
    )),
    tt,
  )

  pub only_home : (k : ℕ) → Among k (home ∷ []) → k ≡ home
  only_home k (inl e) = e
  only_home k (inr m) = absurd m

  -- What `del` leaves: in a slot of the bucket that had the key, nothing.
  abbrev pub Forgot : Table P.State → Type 0
  Forgot t' =
      (i : ℕ) × Passes asked t home i
      × (del P c key_hash key t ≡ some (success, t'))
      × ((j : ℕ)
          → (bucket_at t' j).item_vec
            ≡ (if home == j then set (bucket_at t home).item_vec i 0 else (bucket_at t j).item_vec))

  abbrev pub Missed : Table P.State → Type 0
  Missed t' =
      NonePass asked t (home ∷ [])
      × (del P c key_hash key t ≡ some (not_found, t'))
      × ((j : ℕ) → (bucket_at t' j).item_vec ≡ (bucket_at t j).item_vec)

  abbrev Outcome : Type 0
  Outcome = (t' : Table P.State) × ((bucket_at t' home).version % 2 ≡ 0) × (Forgot t' ⊎ Missed t')

  pub forgotten-length : (i : ℕ) → length (forgotten home i).buckets ≡ length t.buckets
  unfolding bucket_at
  forgotten-length i =
      let k = record (bucket_at locked home) {
        item_vec = set (bucket_at locked home).item_vec i 0;
      } in
      let same : length (forgotten home i).buckets ≡ length (set locked.buckets home k) =
        ap length (counted-buckets (emptied c home home i (released home i)) one_less) in
      same ∙ length-set locked.buckets home k ∙ next_version-length c home t

  Outcome-at :
      (i : ℕ)
      → P.circular ≡ true
      → c.eviction ≡ true
      → lock_bucket c home t ≡ some (tt, locked)
      → home < length t.buckets
      → (bucket_at t home).version % 2 ≡ 0
      → Search (at home i)
      → Passes (matches P locked.pool key_hash (calc_tag key_hash) key) locked home i
      → Outcome
  Outcome-at i circular eviction e h even s q =
      let u = next_version c home (forgotten home i) in
      let inside : home < length (forgotten home i).buckets = omega (arith, forgotten-length i) in
      (
        counted c u one_delete_found,
        ap (λ k. k.version % 2) (counted-bucket_at u one_delete_found home)
            ∙ twice-even (forgotten home i) (forgotten-version i h) h inside even,
        inl (
          i,
          found_before i q h,
          del-at home i circular eviction e s,
          (λ j.
              ap (λ k. k.item_vec) (counted-bucket_at u one_delete_found j)
              ∙ next_version-slots c home (forgotten home i) j inside
              ∙ forgotten-slots i j h),
        ),
      )

  Outcome-nowhere :
      (k : ℕ)
      → lock_bucket c home t ≡ some (tt, locked)
      → home < length t.buckets
      → (bucket_at t home).version % 2 ≡ 0
      → Search (nowhere k)
      → NonePass (matches P locked.pool key_hash (calc_tag key_hash) key) locked (home ∷ [])
      → Outcome
  Outcome-nowhere k e h even s q =
      let u = next_version c home locked in
      let inside : home < length locked.buckets = omega (arith, next_version-length c home t) in
      (
        counted c u one_delete_notfound,
        ap (λ k. k.version % 2) (counted-bucket_at u one_delete_notfound home)
            ∙ twice-even locked refl h inside even,
        inr (
          none_before q h,
          del-nowhere k e s,
          (λ j.
              ap (λ k. k.item_vec) (counted-bucket_at u one_delete_notfound j)
              ∙ next_version-slots c home locked j inside
              ∙ next_version-slots c home t j h),
        ),
      )

  Outcome-of :
      (l : Located)
      → P.circular ≡ true
      → c.eviction ≡ true
      → lock_bucket c home t ≡ some (tt, locked)
      → home < length t.buckets
      → (bucket_at t home).version % 2 ≡ 0
      → Search l
      → Scanned (matches P locked.pool key_hash (calc_tag key_hash) key) locked (home ∷ []) (some l)
      → Outcome
  Outcome-of (at k i) circular eviction e h even s (found m q) =
      let here = only_home k m in
      Outcome-at i circular eviction e h even (subst (λ x. Search (at x i)) here s) (
        subst (λ x. Passes (matches P locked.pool key_hash (calc_tag key_hash) key) locked x i) here
          q)
  Outcome-of (nowhere k) circular eviction e h even s (missed m q) = Outcome-nowhere k e h even s q

  pub one_bucket : c.eviction ≡ true → Chain c locked home (home ∷ [])
  unfolding has_extra_bucket
  one_bucket eviction = last (no_extra locked eviction)
    where
      no_extra :
          (u : Table P.State) → c.eviction ≡ true → has_extra_bucket c (bucket_at u home) ≡ false
      no_extra u e = rw e refl

  -- `del` on a table without extra buckets and over a circular log ends where no other writer holds
  -- the bucket, and gives the bucket back. If a slot of the bucket has the tag, hash and key, `del`
  -- succeeds, empties such a slot, and leaves all other slots of the table alone; if none has, `del`
  -- says so and leaves every slot alone.
  pub del_lem :
      P.circular ≡ true
      → c.eviction ≡ true
      → c.concurrent_access_mode ≤ 2
      → home < length t.buckets
      → (bucket_at t home).version % 2 ≡ 0
      → (bucket_at t home).version < 2 ^ 32
      → (t' : Table P.State) × ((bucket_at t' home).version % 2 ≡ 0) × (Forgot t' ⊎ Missed t')
  del_lem circular eviction mode h even w =
      let (l, s, scanned) =
        find_item_index_lem c P locked home key_hash (calc_tag key_hash) key (home ∷ [])
          (one_bucket eviction) (omega arith) in
      Outcome-of l circular eviction (lock-next_version c home t mode even w) h even s scanned
