-- ===== src/Maglev/Setup.antt =====
-- `setup` of `Maglev` (maglev/src/maglev.hpp): the permutations, and the table filled from them.
use enso_eval.Base.{
  ℕ, zero, suc, ◌+◌, ◌*◌, ◌^◌, ◌≤◌, ◌<◌, ◌≡◌, inl, refl, ap, sym, arith, List, [], ◌∷◌, map, length,
  get_or, replicate, length-replicate, get_or-replicate, some,
}
use mathlib.Core.Path.{subst}
use enso_eval.Maglev.Defs.{
  k_size, unset, new_hash_table, Filling, offset, skip, row, generate_permutations, populate,
}
use enso_eval.Maglev.Rows.{IsOnto, row-IsOnto}
use enso_eval.Maglev.Probe.{filled-replicate}
use enso_eval.Maglev.Populate.{IsFilling, populate_loop-Complete}

length-map : (f : ℕ → List ℕ) (xs : List ℕ) → length (map f xs) ≡ length xs
length-map f [] = refl
length-map f (x ∷ xs) = ap suc (length-map f xs)

get_or-map :
    (f : ℕ → List ℕ) (xs : List ℕ) (i : ℕ)
    → i < length xs
    → get_or (map f xs) i [] ≡ f (get_or xs i 0)
get_or-map f [] i h = absurd (omega arith)
get_or-map f (x ∷ xs) zero h = refl
get_or-map f (x ∷ xs) (suc i) h = get_or-map f xs i (omega arith)

module _ (size : ℕ) (permutations : List (List ℕ)) where
  abbrev start : Filling
  start = record { table = replicate size unset; next = replicate (length permutations) 0; n = 0 }

  start-IsFilling : IsFilling size permutations start
  start-IsFilling = record {
    sized = length-replicate size unset;
    backends = length-replicate (length permutations) 0;
    counted = filled-replicate size;
    valid = λ k h. inl (unset_at size k h);
    passed = λ i h j lt. absurd (omega (arith, get_or-replicate {A = ℕ} (length permutations) 0 i));
  }
    where
      unset_at : (n k : ℕ) → k < n → get_or (replicate n unset) k 0 ≡ unset
      unset_at zero k h = absurd (omega arith)
      unset_at (suc n) zero h = refl
      unset_at (suc n) (suc k) h = unset_at n k (omega arith)

-- On a new table `populate` comes to an end without reading past a row, and leaves a table of `size` entries, each
-- of them a backend, for rows that visit every entry: there is a backend, and there are at most
-- 65535 of them.
pub populate-Complete :
    (size : ℕ) (permutations : List (List ℕ))
    → ((i : ℕ) → i < length permutations → IsOnto size (get_or permutations i []))
    → length permutations ≤ unset
    → 0 < length permutations
    → 0 < size
    → (table : List ℕ) × (populate size (new_hash_table size) permutations ≡ some table)
      × (length table ≡ size)
      × ((k : ℕ) → k < size → get_or table k 0 < length permutations)
unfolding populate
populate-Complete size permutations onto few some_backend some_entry =
    let (table, e, complete) =
      populate_loop-Complete size permutations onto few size 0 (start size permutations)
        some_backend (start-IsFilling size permutations) some_entry (omega arith) in
    (table, e, complete.0, complete.1)

-- The rows of the backends whose products stay within 32 bits.
rows :
    (jhash : ℕ → ℕ × ℕ) (ips : List ℕ)
    → ((i : ℕ)
        → i < length ips
        → let (hash1, hash2) = jhash (get_or ips i 0) in
          offset k_size hash1 + 65536 * skip k_size hash2 < 2 ^ 32)
    → (i : ℕ)
    → i
      < length (map (λ ip. row k_size (offset k_size (jhash ip).0) (skip k_size (jhash ip).1)) ips)
    → IsOnto k_size (
        get_or
          (map (λ ip. row k_size (offset k_size (jhash ip).0) (skip k_size (jhash ip).1)) ips)
          i
          [])
rows jhash ips narrow i h =
    let f : ℕ → List ℕ = λ ip. row k_size (offset k_size (jhash ip).0) (skip k_size (jhash ip).1) in
    let inside : i < length ips = subst (λ n. i < n) (length-map f ips) h in
    subst (IsOnto k_size) (sym (get_or-map f ips i inside))
      (row-IsOnto (jhash (get_or ips i 0)).0 (jhash (get_or ips i 0)).1 (narrow i inside))

-- After the first `setup` every entry of the table holds one of the backends, so that its assertion holds:
-- for any hash function, and 1 to 65535 backends none of which has a product of a 32-bit overflow
-- in its row.
pub setup-Complete :
    (jhash : ℕ → ℕ × ℕ) (backend_ips : List ℕ)
    → 0 < length backend_ips
    → length backend_ips ≤ unset
    → ((i : ℕ)
        → i < length backend_ips
        → let (hash1, hash2) = jhash (get_or backend_ips i 0) in
          offset k_size hash1 + 65536 * skip k_size hash2 < 2 ^ 32)
    → (table : List ℕ) × (populate k_size
          (new_hash_table k_size)
          (generate_permutations k_size jhash backend_ips)
        ≡ some table)
      × (length table ≡ k_size)
      × ((k : ℕ) → k < k_size → get_or table k 0 < length backend_ips)
unfolding generate_permutations
setup-Complete jhash ips some_backend few narrow =
    let f : ℕ → List ℕ = λ ip. row k_size (offset k_size (jhash ip).0) (skip k_size (jhash ip).1) in
    let same : length (map f ips) ≡ length ips = length-map f ips in
    let (table, e, size, valid) =
      populate-Complete k_size (map f ips) (rows jhash ips narrow) (omega (arith, same))
        (omega (arith, same)) (omega arith) in
    (table, e, size, λ k h. subst (λ n. get_or table k 0 < n) same (valid k h))
