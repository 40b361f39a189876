-- ===== src/Maglev/Tests.antt =====
-- The load balancer at concrete inputs.
use enso_eval.Base.{
  ℕ, suc, ◌+◌, ◌%◌, ◌^◌, ◌<◌, ◌≡◌, ◌≢◌, refl, arith, List, [], ◌∷◌, length, get_or, some, zero, map,
  replicate,
}
use enso_eval.Maglev.Defs.{
  k_size, entry, offset, skip, generate_permutations, populate, new_hash_table, HashTable, no_entry,
  get_cached_hash_value,
}
use enso_eval.Maglev.Rows.{IsOnto, row_wraps}
use enso_eval.Maglev.Setup.{populate-Complete, setup-Complete}
use enso_eval.Maglev.Cache.{IsCoherent, get_cached_hash_value-backend}
use enso_eval.Maglev.Lookup.{Flow, lookup_all, sent_to_backend, lookup_all-sent_to_backend}

-- A table of five entries and three backends.
populate_small :
    populate 5
      (new_hash_table 5)
      ((0 ∷ 1 ∷ 2 ∷ 3 ∷ 4 ∷ []) ∷ (0 ∷ 2 ∷ 4 ∷ 1 ∷ 3 ∷ []) ∷ (3 ∷ 2 ∷ 1 ∷ 0 ∷ 4 ∷ []) ∷ [])
    ≡ some (0 ∷ 0 ∷ 1 ∷ 2 ∷ 1 ∷ [])
unfolding populate
populate_small = refl

abbrev swapped : List (List ℕ)
swapped = (1 ∷ 0 ∷ []) ∷ []

swapped-IsOnto : (i : ℕ) → i < length swapped → IsOnto 2 (get_or swapped i [])
swapped-IsOnto zero h = record {
  sized = refl;
  bounded = λ j lt. below j lt;
  visits = λ c lt. visited c lt;
}
  where
    below : (j : ℕ) → j < 2 → get_or (1 ∷ 0 ∷ []) j 0 < 2
    below zero lt = omega arith
    below (suc zero) lt = omega arith
    below (suc (suc j)) lt = absurd (omega arith)

    visited : (c : ℕ) → c < 2 → (j : ℕ) × (j < 2) × (get_or (1 ∷ 0 ∷ []) j 0 ≡ c)
    visited zero lt = (1, omega arith, refl)
    visited (suc zero) lt = (0, omega arith, refl)
    visited (suc (suc c)) lt = absurd (omega arith)
swapped-IsOnto (suc i) h = absurd (omega arith)

populate-Complete_example :
    (table : List ℕ) × (populate 2 (new_hash_table 2) swapped ≡ some table)
    × (length table ≡ 2)
    × ((k : ℕ) → k < 2 → get_or table k 0 < 1)
populate-Complete_example =
    populate-Complete 2 swapped swapped-IsOnto (omega arith) (omega arith) (omega arith)

abbrev hashes : ℕ → ℕ × ℕ
hashes ip = (ip, 7)

row_wraps_example :
    (entry k_size 9 65536 65536 ≡ entry k_size 9 65536 0)
    × ((j : ℕ) → j < k_size → entry k_size 9 65536 j ≢ 9 + 1)
row_wraps_example = row_wraps 9 (omega arith)

setup-Complete_example :
    (table : List ℕ) × (populate k_size
        (new_hash_table k_size)
        (generate_permutations k_size hashes (9 ∷ 10 ∷ []))
      ≡ some table)
    × (length table ≡ k_size)
    × ((k : ℕ) → k < k_size → get_or table k 0 < 2)
unfolding offset skip
setup-Complete_example =
    setup-Complete hashes (9 ∷ 10 ∷ []) (omega arith) (omega arith) (λ i h. omega arith)

-- A lookup table of three entries, and an empty cache of one bucket.
abbrev lookup_table : List ℕ
lookup_table = 7 ∷ 8 ∷ 9 ∷ []

abbrev cache : HashTable
cache = record { t = no_entry ∷ no_entry ∷ no_entry ∷ no_entry ∷ []; used_entries = 0 }

lookup_small : (h : ℕ) → get_or lookup_table (h % 3) 0 < 2 ^ 16
lookup_small h = below (h % 3)
  where
    below : (j : ℕ) → get_or lookup_table j 0 < 2 ^ 16
    below zero = omega arith
    below (suc zero) = omega arith
    below (suc (suc zero)) = omega arith
    below (suc (suc (suc j))) = omega arith

cache-IsCoherent : IsCoherent 3 lookup_table cache.t
cache-IsCoherent zero h used = absurd (used refl)
cache-IsCoherent (suc zero) h used = absurd (used refl)
cache-IsCoherent (suc (suc zero)) h used = absurd (used refl)
cache-IsCoherent (suc (suc (suc zero))) h used = absurd (used refl)
cache-IsCoherent (suc (suc (suc (suc k)))) h used = absurd (omega arith)

get_cached_hash_value-backend_example :
    let (value, ht') = get_cached_hash_value 3 lookup_table (λ h. 0) cache 5 in
    (value ≡ 9) × IsCoherent 3 lookup_table ht'.t × (length ht'.t ≡ 4)
get_cached_hash_value-backend_example =
    get_cached_hash_value-backend 3 lookup_table (λ h. 0) cache 5 lookup_small (omega arith)
      (omega arith) cache-IsCoherent

-- Two flows by turns with four others, which a bucket of four entries cannot all hold.
abbrev flow : ℕ → Flow
flow port = record { src_addr = 1; dst_addr = 2; ports = port; next_proto_id = 17 }

abbrev six_flows : List Flow
six_flows = flow 1 ∷ flow 2 ∷ flow 3 ∷ flow 4 ∷ flow 5 ∷ flow 1 ∷ []

abbrev mix : ℕ → ℕ → ℕ → ℕ
mix x y z = (x + y + z) % 2 ^ 32

abbrev ips : List ℕ
ips = replicate 10 99

lookup_all-sent_to_backend_example :
    let (fs, ht) = lookup_all 3 lookup_table ips (λ h. 0) mix six_flows cache in
    (fs ≡ map (sent_to_backend 3 lookup_table ips (λ h. 0) mix) six_flows)
    × IsCoherent 3 lookup_table ht.t
lookup_all-sent_to_backend_example =
    lookup_all-sent_to_backend 3 lookup_table ips (λ h. 0) mix six_flows cache lookup_small
      (λ x y z. omega arith) (λ h. omega arith) cache-IsCoherent
