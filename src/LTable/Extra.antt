-- ===== src/LTable/Extra.antt =====
-- Extra buckets (ltable_impl/bucket.h): taking one off the free list, giving one back, and moving an
-- item from the end of a chain into a hole.
use enso_eval.Base.{
  ℕ, zero, suc, ◌-◌, ◌^◌, Bool, true, false, Option, none, some, List, [], ◌∷◌, ◌==◌, if◌then◌else◌,
}
use enso_eval.LTable.Pool.{Pool}
use enso_eval.LTable.State.{
  Config, Table, M, ◌>>=◌, ◌>>◌, pure, bucket_at, put_item_vec, put_next, get_item_vec, get_next,
  get_free_head, put_free_head,
}
use enso_eval.LTable.Lock.{lock_extra_bucket_free_list, unlock_extra_bucket_free_list}
use enso_eval.LTable.Scan.{
  Located, at, nowhere, scan, chain_fuel, has_extra_bucket, extra_place, Oldest, oldest_scan,
}

-- `moved_item_index` and `last_item`: the first occupied slot, and whether it is the only one.
pub data Tail : Type 0 where
  vacant : Tail
  only : ℕ → Tail
  more : ℕ → Tail

unfoldable pub tail_item_from : List ℕ → ℕ → ℕ → Tail
tail_item_from [] i first = only first
tail_item_from (v ∷ vs) i first =
    let rest = tail_item_from vs (suc i) first in if v == 0 then rest else more first

unfoldable pub tail_item : List ℕ → ℕ → Tail
unfolding tail_item_from
tail_item [] i = vacant
tail_item (v ∷ vs) i =
    let rest = tail_item vs (suc i) in if v == 0 then rest else tail_item_from vs (suc i) i

module _ {S : Type 0} (c : Config) where
  -- `false`, with nothing changed but the lock's two steps, if there is no free extra bucket.
  unfoldable pub alloc_extra_bucket : ℕ → M S Bool
  unfolding lock_extra_bucket_free_list unlock_extra_bucket_free_list get_free_head put_free_head
      get_next put_next extra_place
  alloc_extra_bucket b = do
    lock_extra_bucket_free_list c
    e ← get_free_head
    if e == 0 then (do unlock_extra_bucket_free_list c; pure false) else do
      following ← get_next (extra_place c e)
      put_free_head following
      put_next (extra_place c e) 0
      put_next b e
      unlock_extra_bucket_free_list c
      pure true

  unfoldable pub free_extra_bucket : ℕ → M S (Unit {0})
  unfolding lock_extra_bucket_free_list unlock_extra_bucket_free_list get_free_head put_free_head
      get_next put_next extra_place
  free_extra_bucket b = do
    e ← get_next b
    put_next b 0
    lock_extra_bucket_free_list c
    head ← get_free_head
    put_next (extra_place c e) head
    put_free_head e
    unlock_extra_bucket_free_list c

  -- `prev_extra_bucket` and `current_extra_bucket` at the end of the inner loop of `fill_hole`.
  unfoldable pub last_two : ℕ → Table S → ℕ → Option (ℕ × ℕ)
  unfolding has_extra_bucket extra_place bucket_at
  last_two zero t b = none
  last_two (suc fuel) t b =
      let next = extra_place c (bucket_at t b).next_extra_bucket_index in
      let rest = last_two fuel t next in
      if has_extra_bucket c (bucket_at t next) then rest else some (b, next)

  -- The move of an entry to the hole, in `fill_hole`.
  move_item : ℕ → ℕ → ℕ → ℕ → M S (Unit {0})
  unfolding get_item_vec put_item_vec
  move_item b i current j = do
    v ← get_item_vec current j
    put_item_vec b i v
    put_item_vec current j 0

  -- Each round but the last frees an extra bucket, so `fuel` bounds the rounds by their number.
  unfoldable pub fill_hole : ℕ → ℕ → ℕ → M S (Unit {0})
  unfolding has_extra_bucket bucket_at last_two tail_item free_extra_bucket move_item
  fill_hole zero b i t = none
  fill_hole (suc fuel) b i t =
      let again : Table S → Option (Unit {0} × Table S) = λ t'. fill_hole fuel b i t' in
      if has_extra_bucket c (bucket_at t b)
      then elim (last_two (chain_fuel c) t b) [
        | none ↦ none
        | some (prev, current) ↦ elim (tail_item (bucket_at t current).item_vec 0) [
          | vacant ↦ elim (free_extra_bucket prev t) [ none ↦ none | some (u, t') ↦ again t' ]
          | only j ↦ (do move_item b i current j; free_extra_bucket prev) t
          | more j ↦ move_item b i current j t
        ]
      ]
      else some (tt, t)

  unfoldable pub get_empty : ℕ → M S Located
  unfolding scan alloc_extra_bucket get_next extra_place
  get_empty b t = elim (scan c (chain_fuel c) (λ v. v == 0) t b) [
    | none ↦ none
    | some (at k i) ↦ some (at k i, t)
    | some (nowhere k) ↦
        (do
          allocated ← alloc_extra_bucket k
          if allocated
              then (do e ← get_next k; pure (at (extra_place c e) 0))
              else pure (nowhere k))
          t
  ]

module _ (P : Pool) (c : Config) where
  abbrev no_item : Oldest
  no_item = record { distance = 2 ^ 64 - 1; bucket = 0; slot = 0 }

  -- The age of an item is known with `CircularLog` only.
  unfoldable pub get_empty_or_oldest : ℕ → M P.State Located
  unfolding get_empty oldest_scan
  get_empty_or_oldest b t =
      if P.circular
      then elim (oldest_scan c P (chain_fuel c) t b no_item) [ none ↦ none | some l ↦ some (l, t) ]
      else get_empty c b t
