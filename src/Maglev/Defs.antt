-- ===== src/Maglev/Defs.antt =====
-- The lookup table of `Maglev` (maglev/src/maglev.hpp). The hash functions of DPDK are arguments.
-- `kSize` is an argument too, so that the functions run on small tables; the program's is `k_size`.
use enso_eval.Base.{
  ℕ, zero, suc, ◌+◌, ◌-◌, ◌*◌, ◌/◌, ◌%◌, ◌^◌, Option, none, some, List, [], ◌∷◌, map, length,
  get_or, set, replicate, ◌==◌, if◌then◌else◌, add32, mul32, bit_or, bit_and,
}

abbrev pub k_size : ℕ
k_size = 65537

-- The mark of an entry that has no backend yet.
abbrev pub unset : ℕ
unset = 0xffff

unfoldable pub offset : ℕ → ℕ → ℕ
offset size hash1 = hash1 % size

unfoldable pub skip : ℕ → ℕ → ℕ
skip size hash2 = hash2 % (size - 1) + 1

-- `permutations_[i][j]`, in `uint32_t`.
unfoldable pub entry : ℕ → ℕ → ℕ → ℕ → ℕ
entry size o s j = add32 o (mul32 j s) % size

-- Entries `j`, `j + 1` and so on, `n` of them.
unfoldable pub row_from : ℕ → ℕ → ℕ → ℕ → ℕ → List ℕ
unfolding entry
row_from size o s zero j = []
row_from size o s (suc n) j = entry size o s j ∷ row_from size o s n (suc j)

unfoldable pub row : ℕ → ℕ → ℕ → List ℕ
unfolding row_from
row size o s = row_from size o s size 0

-- `jhash` stands for `rte_jhash_32b_2hashes` on one word with the initial values 0 and 1.
unfoldable pub generate_permutations : ℕ → (ℕ → ℕ × ℕ) → List ℕ → List (List ℕ)
unfolding row offset skip
generate_permutations size jhash backend_ips =
    map (λ ip. row size (offset size (jhash ip).0) (skip size (jhash ip).1)) backend_ips

pub record Filling : Type 0 where
  pub table : List ℕ
  pub next : List ℕ
  pub n : ℕ

-- `while (hash_table_[c] != 0xffff)`, from `next`; `none` for a read past the end of the row.
unfoldable pub probe : List ℕ → List ℕ → ℕ → Option (ℕ × ℕ)
probe [] table next = none
probe (c ∷ cs) table next =
    let rest = probe cs table (suc next) in
    if get_or table c 0 == unset then some (c, next) else rest

abbrev pub drop : ℕ → List ℕ → List ℕ
drop zero xs = xs
drop (suc n) [] = []
drop (suc n) (x ∷ xs) = drop n xs

-- The body of the loop over the backends.
unfoldable pub place : List (List ℕ) → ℕ → Filling → Option Filling
unfolding probe
place permutations i f =
    let next = get_or f.next i 0 in
    elim (probe (drop next (get_or permutations i [])) f.table next) [
      | none ↦ none
      | some (c, next') ↦ some (record {
        table = set f.table c (i % 2 ^ 16);
        next = set f.next i (suc next');
        n = suc f.n;
      })
    ]

-- The two loops of `populate`: `left` more backends in this round, and then another round. The
-- recursion is on the entries still to be filled, of which each step fills one.
unfoldable pub populate_loop : ℕ → List (List ℕ) → ℕ → ℕ → Filling → Option (List ℕ)
unfolding place
populate_loop zero permutations size i f = none
populate_loop (suc fuel) permutations size i f = elim (place permutations i f) [
  | none ↦ none
  | some f' ↦
      let i' = if suc i == length permutations then 0 else suc i in
      let rest = populate_loop fuel permutations size i' f' in
      if f'.n == size then some f'.table else rest
]

unfoldable pub populate : ℕ → List ℕ → List (List ℕ) → Option (List ℕ)
unfolding populate_loop
populate size hash_table permutations =
    populate_loop size permutations size 0
      (record { table = hash_table; next = replicate (length permutations) 0; n = 0 })

-- The table as the constructor leaves it.
abbrev pub new_hash_table : ℕ → List ℕ
new_hash_table size = replicate size unset

-- `rte_fbk_hash_entry`: the parts of the 64-bit `whole_entry`.
pub record Entry : Type 0 where
  pub is_entry : ℕ
  pub value : ℕ
  pub key : ℕ

abbrev pub entries_per_bucket : ℕ
entries_per_bucket = 4

pub record HashTable : Type 0 where
  pub t : List Entry
  pub used_entries : ℕ

abbrev pub no_entry : Entry
no_entry = record { is_entry = 0; value = 0; key = 0 }

unfoldable pub whole_entry : ℕ → ℕ → ℕ
whole_entry hash value = bit_or (bit_or (hash * 2 ^ 32) (value * 2 ^ 16)) 1

-- The union's other view of the same eight bytes.
unfoldable pub of_whole : ℕ → Entry
of_whole w = record {
  is_entry = w % 2 ^ 16;
  value = w / 2 ^ 16 % 2 ^ 16;
  key = w / 2 ^ 32 % 2 ^ 32;
}

-- `ht->t[bucket].entry.is_entry = (i << 1) | 1`
unfoldable pub mark_newest : List Entry → ℕ → ℕ → List Entry
mark_newest t bucket i =
    set t bucket (record (get_or t bucket no_entry) { is_entry = bit_or (i * 2) 1 })

module _ (size : ℕ) (hash_table : List ℕ) where
  unfoldable pub new_entry : ℕ → Entry
  unfolding whole_entry of_whole
  new_entry hash = of_whole (whole_entry hash (get_or hash_table (hash % size) 0))

  -- The replacement of the oldest entry, after the loop.
  unfoldable pub replace_oldest : HashTable → ℕ → ℕ → ℕ × HashTable
  unfolding new_entry mark_newest
  replace_oldest ht hash bucket =
      let entry_id =
        bit_and ((get_or ht.t bucket no_entry).is_entry / 2 + 1) (entries_per_bucket - 1) in
      let e = new_entry hash in
      (e.value, record ht { t = mark_newest (set ht.t (bucket + entry_id) e) bucket entry_id })

  -- The loop over the bucket, `left` entries from entry `i` on.
  unfoldable pub cached_loop : ℕ → ℕ → HashTable → ℕ → ℕ → ℕ × HashTable
  unfolding new_entry mark_newest replace_oldest
  cached_loop zero i ht hash bucket = replace_oldest ht hash bucket
  cached_loop (suc left) i ht hash bucket =
      let rest = cached_loop left (suc i) ht hash bucket in
      let e = get_or ht.t (bucket + i) no_entry in
      let fresh = new_entry hash in
      if e.is_entry == 0
      then (
        fresh.value,
        record {
          t = mark_newest (set ht.t (bucket + i) fresh) bucket i;
          used_entries = suc ht.used_entries;
        },
      )
      else if e.key == hash
      then (e.value, ht)
      else rest

  unfoldable pub get_cached_hash_value_with_bucket : HashTable → ℕ → ℕ → ℕ × HashTable
  unfolding cached_loop
  get_cached_hash_value_with_bucket ht hash bucket = cached_loop entries_per_bucket 0 ht hash bucket

  -- `bucket_of` stands for `rte_fbk_hash_get_bucket`.
  unfoldable pub get_cached_hash_value : (ℕ → ℕ) → HashTable → ℕ → ℕ × HashTable
  unfolding get_cached_hash_value_with_bucket
  get_cached_hash_value bucket_of ht hash =
      get_cached_hash_value_with_bucket ht hash (bucket_of hash)
