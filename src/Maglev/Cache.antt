-- ===== src/Maglev/Cache.antt =====
-- The cache of connections in front of the lookup table (maglev/src/maglev.hpp).
use enso_eval.Base.{
  ℕ, zero, suc, ◌+◌, ◌*◌, ◌/◌, ◌%◌, ◌^◌, ◌≤◌, ◌<◌, ◌≡◌, ◌≢◌, refl, ap, ◌∙◌, arith, List, length,
  get_or, set, get_or-set, length-set, ◌==◌, bit_or, bit_and, ==→ne, ==→eq, Bool-cases, inl, inr,
}
use enso_eval.Base.Bits.{bit_or-fields, bit_and-mask}
use enso_eval.Maglev.Defs.{
  Entry, HashTable, no_entry, whole_entry, of_whole, mark_newest, new_entry, replace_oldest,
  cached_loop, get_cached_hash_value_with_bucket, get_cached_hash_value,
}

-- The entry that `whole_entry` packs has the hash for its key, and is in use.
whole_entry-fields :
    (hash value : ℕ)
    → hash < 2 ^ 32
    → value < 2 ^ 16
    → of_whole (whole_entry hash value) ≡ record { is_entry = 1; value = value; key = hash }
unfolding of_whole whole_entry
whole_entry-fields hash value h v =
    let high = bit_or-fields 32 hash (value * 2 ^ 16) (omega arith) in
    let join : hash * 2 ^ 32 + value * 2 ^ 16 ≡ (hash * 2 ^ 16 + value) * 2 ^ 16 = omega arith in
    let low = bit_or-fields 16 (hash * 2 ^ 16 + value) 1 (omega arith) in
    rw (high, join, low) (ground arith)

module _ (size : ℕ) (hash_table : List ℕ) where
  abbrev backend : ℕ → ℕ
  backend hash = get_or hash_table (hash % size) 0

  -- An entry in use holds the lookup table's backend for its key.
  abbrev Agrees : Entry → Type 0
  Agrees e = e.is_entry ≢ 0 → e.value ≡ backend e.key

  abbrev pub IsCoherent : List Entry → Type 0
  IsCoherent t = (k : ℕ) → k < length t → Agrees (get_or t k no_entry)

  set-IsCoherent :
      (t : List Entry) (i : ℕ) (e : Entry)
      → IsCoherent t
      → i < length t
      → Agrees e
      → IsCoherent (set t i e)
  set-IsCoherent t i e coherent h agrees k lt =
      rw (get_or-set t i k e no_entry h) (elim (Bool-cases (i == k)) [
        | inl same ↦ rw same agrees
        | inr other ↦ rw other (coherent k (rw (length-set t i e) at lt))
      ])

  -- Marking the newest entry leaves the first one in use, if it was.
  mark_newest-IsCoherent :
      (t : List Entry) (b i : ℕ)
      → IsCoherent t
      → b < length t
      → (get_or t b no_entry).is_entry ≢ 0
      → IsCoherent (mark_newest t b i)
  unfolding mark_newest
  mark_newest-IsCoherent t b i coherent h used =
      set-IsCoherent t b (record (get_or t b no_entry) { is_entry = bit_or (i * 2) 1 }) coherent h
        (λ _. coherent b h used)

  length-mark_newest : (t : List Entry) (b i : ℕ) → length (mark_newest t b i) ≡ length t
  unfolding mark_newest
  length-mark_newest t b i =
      length-set t b (record (get_or t b no_entry) { is_entry = bit_or (i * 2) 1 })

  module _ (small : (h : ℕ) → backend h < 2 ^ 16) (b hash : ℕ) (word : hash < 2 ^ 32) where
    -- What the cache answers, and what it leaves behind.
    abbrev Served : HashTable → ℕ × HashTable → Type 0
    Served ht r = (r.0 ≡ backend hash) × IsCoherent r.1.t × (length r.1.t ≡ length ht.t)

    new_entry-fields :
        new_entry size hash_table hash ≡ record { is_entry = 1; value = backend hash; key = hash }
    unfolding new_entry
    new_entry-fields = whole_entry-fields hash (backend hash) word (small hash)

    -- A new entry at `j`, marked in the first entry of the bucket.
    insert-Served :
        (t : List Entry) (i j : ℕ)
        → IsCoherent t
        → b < length t
        → j < length t
        → ((j ≢ b) → (get_or t b no_entry).is_entry ≢ 0)
        → IsCoherent (mark_newest (set t j (new_entry size hash_table hash)) b i)
    insert-Served t i j coherent hb hj used =
        let e : Entry = record { is_entry = 1; value = backend hash; key = hash } in
        rw new_entry-fields (
          mark_newest-IsCoherent (set t j e) b i (set-IsCoherent t j e coherent hj (λ _. refl))
            (rw (length-set t j e) hb)
            (rw (get_or-set t j b e no_entry hj) (elim (Bool-cases (j == b)) [
              | inl same ↦ rw same (λ z. absurd (omega arith))
              | inr other ↦ rw other (used (==→ne j b other))
            ])))

    length-insert :
        (t : List Entry) (i j : ℕ) (e : Entry) → length (mark_newest (set t j e) b i) ≡ length t
    length-insert t i j e = length-mark_newest (set t j e) b i ∙ length-set t j e

    replace_oldest-Served :
        (ht : HashTable)
        → IsCoherent ht.t
        → b + 4 ≤ length ht.t
        → (get_or ht.t b no_entry).is_entry ≢ 0
        → Served ht (replace_oldest size hash_table ht hash b)
    unfolding replace_oldest
    replace_oldest-Served ht coherent room used =
        let id = bit_and ((get_or ht.t b no_entry).is_entry / 2 + 1) 3 in
        let low = bit_and-mask 2 ((get_or ht.t b no_entry).is_entry / 2 + 1) in
        let inside : b + id < length ht.t = omega (arith, low) in
        (
          ap (λ e. e.value) new_entry-fields,
          insert-Served ht.t id (b + id) coherent (omega arith) inside (λ _. used),
          length-insert ht.t id (b + id) (new_entry size hash_table hash),
        )

    cached_loop-Served :
        (left i : ℕ) (ht : HashTable)
        → IsCoherent ht.t
        → b + i + left ≤ length ht.t
        → i + left ≡ 4
        → (0 < i → (get_or ht.t b no_entry).is_entry ≢ 0)
        → Served ht (cached_loop size hash_table left i ht hash b)
    unfolding cached_loop
    cached_loop-Served zero i ht coherent room four used =
        replace_oldest-Served ht coherent (omega arith) (used (omega arith))
    cached_loop-Served (suc left) i ht coherent room four used =
        let e = get_or ht.t (b + i) no_entry in
        elim (Bool-cases (e.is_entry == 0)) [
          | inl free ↦ rw free (
            ap (λ e. e.value) new_entry-fields,
            insert-Served ht.t i (b + i) coherent (omega arith) (omega arith)
                (λ ne. used (pos_of_ne ne)),
            length-insert ht.t i (b + i) (new_entry size hash_table hash),
          )
          | inr taken ↦ rw taken (elim (Bool-cases (e.key == hash)) [
            | inl hit ↦ rw hit (
              coherent (b + i) (omega arith) (==→ne e.is_entry 0 taken)
                  ∙ ap backend (==→eq e.key hash hit),
              coherent,
              refl,
            )
            | inr miss ↦ rw miss (
                cached_loop-Served left (suc i) ht coherent (omega arith) (omega arith)
                  (λ _. first_used i (==→ne e.is_entry 0 taken) used))
          ])
        ]
      where
        pos_of_ne : b + i ≢ b → 0 < i
        pos_of_ne ne = omega arith

        first_used :
            (i : ℕ)
            → (get_or ht.t (b + i) no_entry).is_entry ≢ 0
            → (0 < i → (get_or ht.t b no_entry).is_entry ≢ 0)
            → (get_or ht.t b no_entry).is_entry ≢ 0
        first_used zero here used = let e : b + 0 ≡ b = omega arith in rw e at here
        first_used (suc i) here used = used (omega arith)

-- The cache is transparent: where every entry in use agrees with the lookup table, an answer of
-- `get_cached_hash_value` is the table's backend for the hash, whether it was cached, freshly
-- inserted or put in place of the oldest entry, and all entries in use still agree. The bucket lies
-- within the table, hashes are 32 bits wide and backends 16.
pub get_cached_hash_value-backend :
    (size : ℕ) (hash_table : List ℕ) (bucket_of : ℕ → ℕ) (ht : HashTable) (hash : ℕ)
    → ((h : ℕ) → get_or hash_table (h % size) 0 < 2 ^ 16)
    → hash < 2 ^ 32
    → bucket_of hash + 4 ≤ length ht.t
    → IsCoherent size hash_table ht.t
    → let (value, ht') = get_cached_hash_value size hash_table bucket_of ht hash in
      (value ≡ get_or hash_table (hash % size) 0)
      × IsCoherent size hash_table ht'.t
      × (length ht'.t ≡ length ht.t)
unfolding get_cached_hash_value get_cached_hash_value_with_bucket
get_cached_hash_value-backend size hash_table bucket_of ht hash small word room coherent =
    cached_loop-Served size hash_table small (bucket_of hash) hash word 4 0 ht coherent
      (omega arith) refl (λ p. absurd (omega arith))
