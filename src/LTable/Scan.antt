-- ===== src/LTable/Scan.antt =====
-- The searches along a chain of buckets (ltable_impl/bucket.h). Each goes through the slots of a
-- bucket in order and on to the next extra bucket, until a slot passes its test.
use enso_eval.Base.{
  ℕ, zero, suc, ◌+◌, ◌-◌, Bool, false, not, Option, none, some, List, [], ◌∷◌, ltb, ◌==◌,
  if◌then◌else◌, sub64, bit_and,
}
use enso_eval.LTable.Vec.{get_tag, get_item_offset}
use enso_eval.LTable.Pool.{Pool}
use enso_eval.LTable.State.{Config, Table, Bucket, M, bucket_at}
use enso_eval.LTable.Item.{matches}

-- Where a search ends: `located_bucket` and the slot, or the chain's last bucket.
pub data Located : Type 0 where
  at : ℕ → ℕ → Located
  nowhere : ℕ → Located

-- The first slot, from index `i` on, that passes the test.
unfoldable pub find_slot : (ℕ → Bool) → List ℕ → ℕ → Option ℕ
find_slot p [] i = none
find_slot p (v ∷ vs) i = let rest = find_slot p vs (suc i) in if p v then some i else rest

-- The search ends in bucket `b` if a slot of it passed, and goes on otherwise.
unfoldable pub settle : ℕ → Option ℕ → Option Located → Option Located
settle b (some i) onward = some (at b i)
settle b none onward = onward

-- The oldest item seen so far: `oldest_item_distance`, its bucket and its slot.
pub record Oldest : Type 0 where
  pub distance : ℕ
  pub bucket : ℕ
  pub slot : ℕ

pub data Aged : Type 0 where
  empty_slot : ℕ → Aged
  aged : Oldest → Aged

module _ (c : Config) where
  unfoldable pub has_extra_bucket : Bucket → Bool
  has_extra_bucket k = if c.eviction then false else not (k.next_extra_bucket_index == 0)

  -- The place of `get_extra_bucket(e)` in the array; `e` is 1-based.
  unfoldable pub extra_place : ℕ → ℕ
  extra_place e = c.num_buckets - 1 + e

  -- The loop over a chain: at most `fuel` buckets.
  unfoldable pub scan : {S : Type 0} → ℕ → (ℕ → Bool) → Table S → ℕ → Option Located
  unfolding find_slot settle has_extra_bucket extra_place bucket_at
  scan zero p t b = none
  scan (suc fuel) p t b =
      let k = bucket_at t b in
      let rest = scan fuel p t (extra_place k.next_extra_bucket_index) in
      settle b (find_slot p k.item_vec 0) (if has_extra_bucket k then rest else some (nowhere b))

  -- A chain without a cycle has the bucket and at most every extra bucket.
  abbrev pub chain_fuel : ℕ
  chain_fuel = suc c.num_extra_buckets

  unfoldable pub last_bucket : {S : Type 0} → ℕ → Table S → ℕ → Option ℕ
  unfolding has_extra_bucket extra_place bucket_at
  last_bucket zero t b = none
  last_bucket (suc fuel) t b =
      let k = bucket_at t b in
      let rest = last_bucket fuel t (extra_place k.next_extra_bucket_index) in
      if has_extra_bucket k then rest else some b

  module _ (P : Pool) where
    open P use {State, get_tail, get_mask}

    unfoldable pub find_item_index : ℕ → ℕ → ℕ → List ℕ → M State Located
    unfolding scan matches
    find_item_index b key_hash tag key t =
        elim (scan chain_fuel (matches P t.pool key_hash tag key) t b) [
          | none ↦ none
          | some l ↦ some (l, t)
        ]

    unfoldable pub find_same_tag : ℕ → ℕ → M State Located
    unfolding scan
    find_same_tag b tag t = elim (scan chain_fuel (λ v. get_tag v == tag) t b) [
      | none ↦ none
      | some l ↦ some (l, t)
    ]

    unfoldable pub age : State → ℕ → ℕ
    age s item_vec = bit_and (sub64 (get_tail s) (get_item_offset item_vec)) (get_mask s)

    -- The slots of one bucket: the first empty one, or the oldest item, of the earlier buckets too.
    unfoldable pub oldest_slot : State → ℕ → List ℕ → ℕ → Oldest → Aged
    unfolding age
    oldest_slot s b [] i o = aged o
    oldest_slot s b (v ∷ vs) i o =
        let older = ltb (age s v) o.distance in
        let o' = if older then record { distance = age s v; bucket = b; slot = i } else o in
        let rest = oldest_slot s b vs (suc i) o' in if v == 0 then empty_slot i else rest

    unfoldable pub oldest_scan : ℕ → Table State → ℕ → Oldest → Option Located
    unfolding oldest_slot has_extra_bucket extra_place bucket_at
    oldest_scan zero t b o = none
    oldest_scan (suc fuel) t b o =
        let k = bucket_at t b in
        elim (oldest_slot t.pool b k.item_vec 0 o) [
          | empty_slot i ↦ some (at b i)
          | aged o' ↦
              let rest = oldest_scan fuel t (extra_place k.next_extra_bucket_index) o' in
              if has_extra_bucket k then rest else some (at o'.bucket o'.slot)
        ]
