-- ===== src/LTable/Read.antt =====
-- `test` and `get` without mutation (ltable_impl/test.h, get.h): what a reader is told.
use enso_eval.Base.{
  ℕ, suc, ◌+◌, ◌%◌, ◌≤◌, ◌≡◌, refl, ◌∙◌, arith, Bool, false, not, ◌&&◌, some, List, [], length,
  get_or, if◌then◌else◌, Bool-cases, inl, inr, ◌⊎◌, ◌==◌, ==_refl, leb, min,
}
use enso_eval.LTable.State.{
  Stats, success, not_found, partial_value, Config, Table, bucket_at, stat, inc, get_item_vec,
  get_pool,
}
use enso_eval.LTable.Vec.{calc_tag, calc_bucket_index, get_item_offset, get_value_length}
use enso_eval.LTable.Pool.{Pool}
use enso_eval.LTable.Lock.{read_version_begin, read_version_end}
use enso_eval.LTable.Item.{matches, kv_length_vec, read_bytes, copied_length}
use enso_eval.LTable.Scan.{Located, at, nowhere, find_item_index}
use enso_eval.LTable.Chain.{
  Chain, Passes, NonePass, Among, Scanned, found, missed, find_item_index_lem,
}
use enso_eval.LTable.Steps.{step, then_step, choose, counted, stat-counted}
use enso_eval.LTable.Get.{get, test, get_stale, Got}

abbrev one_test_found : Stats → Stats
one_test_found st = record st { test_found = inc st.test_found }

abbrev one_test_notfound : Stats → Stats
one_test_notfound st = record st { test_notfound = inc st.test_notfound }

abbrev one_get_found : Stats → Stats
one_get_found st = record st { get_found = inc st.get_found }

abbrev one_get_notfound : Stats → Stats
one_get_notfound st = record st { get_notfound = inc st.get_notfound }

-- One round of a reader ends with the version it began with.
version_still :
    {S : Type 0} (c : Config) (b : ℕ) (t : Table S)
    → (bucket_at t b).version % 2 ≡ 0
    → (v : ℕ) × (read_version_begin c b t ≡ some (v, t)) × (read_version_end c b t ≡ some (v, t))
unfolding read_version_begin read_version_end
version_still c b t even = elim (Bool-cases (c.concurrent && not (c.concurrent_access_mode == 0))) [
  | inl e ↦ ((bucket_at t b).version, ground (arith, e), ground (arith, e))
  | inr e ↦ (0, ground (arith, e), ground (arith, e))
]

module _ (P : Pool) (c : Config) (t : Table P.State) where
  -- What a reader may have changed: counters.
  pub record SameItems (t' : Table P.State) : Type 0 where
    pub same_buckets : t'.buckets ≡ t.buckets
    pub same_pool : t'.pool ≡ t.pool

  counted-SameItems : (f : Stats → Stats) → SameItems (counted c t f)
  counted-SameItems f = record { same_buckets = ground arith; same_pool = ground arith }

  -- The bucket where a hash belongs.
  abbrev pub home : ℕ → ℕ
  home key_hash = calc_bucket_index c.num_buckets_mask key_hash

  module _ (key_hash : ℕ) (key : List ℕ) where
    abbrev Search : Located → Type 0
    Search l = find_item_index c P (home key_hash) key_hash (calc_tag key_hash) key t ≡ some (l, t)

    test-at :
        (k i : ℕ)
        → (bucket_at t (home key_hash)).version % 2 ≡ 0
        → Search (at k i)
        → test P c key_hash key t ≡ some (success, counted c t one_test_found)
    unfolding test stat
    test-at k i even e =
        let (v, e₁, e₂) = version_still c (home key_hash) t even in
        step (read_version_begin c (home key_hash)) _ e₁ (
          step (find_item_index c P (home key_hash) key_hash (calc_tag key_hash) key) _ e
            (step (read_version_end c (home key_hash)) _ e₂ (ground (arith, ==_refl v))))

    test-nowhere :
        (k : ℕ)
        → (bucket_at t (home key_hash)).version % 2 ≡ 0
        → Search (nowhere k)
        → test P c key_hash key t ≡ some (not_found, counted c t one_test_notfound)
    unfolding test stat
    test-nowhere k even e =
        let (v, e₁, e₂) = version_still c (home key_hash) t even in
        step (read_version_begin c (home key_hash)) _ e₁ (
          step (find_item_index c P (home key_hash) key_hash (calc_tag key_hash) key) _ e
            (step (read_version_end c (home key_hash)) _ e₂ (ground (arith, ==_refl v))))

    get-nowhere :
        (k n : ℕ)
        → (bucket_at t (home key_hash)).version % 2 ≡ 0
        → Search (nowhere k)
        → get P c key_hash key n false t ≡ some ((not_found, [], 0), counted c t one_get_notfound)
    unfolding get stat
    get-nowhere k n even e =
        let (v, e₁, e₂) = version_still c (home key_hash) t even in
        step (read_version_begin c (home key_hash)) _ e₁ (
          step (find_item_index c P (home key_hash) key_hash (calc_tag key_hash) key) _ e
            (step (read_version_end c (home key_hash)) _ e₂ (ground (arith, ==_refl v))))

    -- The item in a slot: its offset, the length of its value, and whether `get` may trust it.
    abbrev pub offset_in : ℕ → ℕ → ℕ
    offset_in k i = get_item_offset (get_or (bucket_at t k).item_vec i 0)

    abbrev pub length_in : ℕ → ℕ → ℕ
    length_in k i = get_value_length (kv_length_vec P t.pool (offset_in k i))

    abbrev pub usable : ℕ → ℕ → Bool
    usable k i = leb (length_in k i) 1048575 && P.is_valid t.pool (offset_in k i)

    -- The bytes that `get` copies out of the item, with room for `n`.
    abbrev pub out_value : ℕ → ℕ → ℕ → List ℕ
    out_value n k i =
        if leb (length_in k i) 1048575
        then read_bytes P t.pool (offset_in k i) (2 + length key) 0
            (copied_length (min (length_in k i) n))
        else []

    -- What `get` returns for an item that it trusts, and for one that it does not.
    abbrev pub copied : ℕ → ℕ → ℕ → Got P c
    copied n k i = (
      if length_in k i == min (length_in k i) n then success else partial_value,
      out_value n k i,
      min (length_in k i) n,
    )

    abbrev pub stale : ℕ → ℕ → ℕ → Got P c
    stale n k i = (not_found, out_value n k i, 0)

    get-at :
        (k i n : ℕ)
        → (bucket_at t (home key_hash)).version % 2 ≡ 0
        → Search (at k i)
        → get P c key_hash key n false t ≡ (
            if usable k i
            then some (copied n k i, counted c t one_get_found)
            else some (stale n k i, counted c t one_get_notfound))
    unfolding get stat get_item_vec get_pool get_stale
    get-at k i n even e =
        let (v, e₁, e₂) = version_still c (home key_hash) t even in
        step (read_version_begin c (home key_hash)) _ e₁ (
          step (find_item_index c P (home key_hash) key_hash (calc_tag key_hash) key) _ e (
            step (read_version_end c (home key_hash)) _ e₂ (
              rw (==_refl v) (
                choose (usable k i) _ _
                  (then_step (stat c one_get_found) _ (stat-counted c t one_get_found) refl)
                  (then_step (stat c one_get_notfound) _ (stat-counted c t one_get_notfound)
                    refl)))))

  -- `test` comes to an end where no writer holds the bucket, and tells the truth: it succeeds exactly
  -- when a slot of the key's chain has its tag, hash and key. It changes counters only.
  pub test_lem :
      (key_hash : ℕ) (key bs : List ℕ)
      → Chain c t (home key_hash) bs
      → length bs ≤ suc c.num_extra_buckets
      → (bucket_at t (home key_hash)).version % 2 ≡ 0
      → (t' : Table P.State) × SameItems t'
        × (((k : ℕ) × (i : ℕ) × Among k bs
              × Passes (matches P t.pool key_hash (calc_tag key_hash) key) t k i
              × (test P c key_hash key t ≡ some (success, t')))
            ⊎ (NonePass (matches P t.pool key_hash (calc_tag key_hash) key) t bs
                × (test P c key_hash key t ≡ some (not_found, t'))))
  test_lem key_hash key bs chain h even =
      told (find_item_index_lem c P t (home key_hash) key_hash (calc_tag key_hash) key bs chain h)
    where
      p : ℕ → Bool
      p = matches P t.pool key_hash (calc_tag key_hash) key

      told :
          (l : Located) × (find_item_index c P (home key_hash) key_hash (calc_tag key_hash) key t
              ≡ some (l, t))
            × Scanned p t bs (some l)
          → (t' : Table P.State) × SameItems t'
            × (((k : ℕ) × (i : ℕ) × Among k bs
                  × Passes p t k i
                  × (test P c key_hash key t ≡ some (success, t')))
                ⊎ (NonePass p t bs × (test P c key_hash key t ≡ some (not_found, t'))))
      told (at k i, e, found m q) = (
        counted c t one_test_found,
        counted-SameItems one_test_found,
        inl (k, i, m, q, test-at key_hash key k i even e),
      )
      told (nowhere k, e, missed m q) = (
        counted c t one_test_notfound,
        counted-SameItems one_test_notfound,
        inr (q, test-nowhere key_hash key k even e),
      )

  -- `get` without mutation comes to an end where no writer holds the bucket, and changes counters
  -- only. It finds nothing if no slot of the key's chain has its tag, hash and key; otherwise there is
  -- such a slot. If the pool still vouches for the slot's item and its value is at most 1048575 bytes
  -- long, `get` returns the length of the value, or the room `n` where that is less, and has copied
  -- that many bytes of the value: all of them from 40 bytes on, and below 40 only the whole words, so
  -- that the last bytes of a length that is not a multiple of eight, which an assertion excludes, are
  -- missing. For any other item `get` finds nothing.
  pub get_lem :
      (key_hash : ℕ) (key bs : List ℕ) (n : ℕ)
      → Chain c t (home key_hash) bs
      → length bs ≤ suc c.num_extra_buckets
      → (bucket_at t (home key_hash)).version % 2 ≡ 0
      → (t' : Table P.State) × SameItems t'
        × (((k : ℕ) × (i : ℕ) × Among k bs
              × Passes (matches P t.pool key_hash (calc_tag key_hash) key) t k i
              × (get P c key_hash key n false t
                  ≡ some (
                    if usable key_hash key k i
                        then copied key_hash key n k i
                        else stale key_hash key n k i,
                    t',
                  )))
            ⊎ (NonePass (matches P t.pool key_hash (calc_tag key_hash) key) t bs
                × (get P c key_hash key n false t ≡ some ((not_found, [], 0), t'))))
  get_lem key_hash key bs n chain h even =
      told (find_item_index_lem c P t (home key_hash) key_hash (calc_tag key_hash) key bs chain h)
    where
      p : ℕ → Bool
      p = matches P t.pool key_hash (calc_tag key_hash) key

      told :
          (l : Located) × (find_item_index c P (home key_hash) key_hash (calc_tag key_hash) key t
              ≡ some (l, t))
            × Scanned p t bs (some l)
          → (t' : Table P.State) × SameItems t'
            × (((k : ℕ) × (i : ℕ) × Among k bs
                  × Passes p t k i
                  × (get P c key_hash key n false t
                      ≡ some (
                        if usable key_hash key k i
                            then copied key_hash key n k i
                            else stale key_hash key n k i,
                        t',
                      )))
                ⊎ (NonePass p t bs
                    × (get P c key_hash key n false t ≡ some ((not_found, [], 0), t'))))
      told (at k i, e, found m q) = elim (Bool-cases (usable key_hash key k i)) [
        | inl u ↦ (
          counted c t one_get_found,
          counted-SameItems one_get_found,
          inl (k, i, m, q, rw u (get-at key_hash key k i n even e ∙ rw u refl)),
        )
        | inr u ↦ (
          counted c t one_get_notfound,
          counted-SameItems one_get_notfound,
          inl (k, i, m, q, rw u (get-at key_hash key k i n even e ∙ rw u refl)),
        )
      ]
      told (nowhere k, e, missed m q) = (
        counted c t one_get_notfound,
        counted-SameItems one_get_notfound,
        inr (q, get-nowhere key_hash key k n even e),
      )
