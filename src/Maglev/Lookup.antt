-- ===== src/Maglev/Lookup.antt =====
-- `lookup` of `Maglev` (maglev/src/maglev.hpp): packets are sent to the backends of their flows.
use enso_eval.Base.{
  ℕ, ◌+◌, ◌%◌, ◌^◌, ◌≤◌, ◌<◌, ◌≡◌, refl, ap, ◌∙◌, bit_xor, List, [], ◌∷◌, map, length, get_or,
  arith,
}
use enso_eval.Maglev.{HashTable, get_cached_hash_value}
use enso_eval.Maglev.Cache.{IsCoherent, get_cached_hash_value-backend}

-- What `lookup` reads and writes of a packet; `ports` is the word behind the destination address,
-- the two ports where the IPv4 header has no options.
pub record Flow : Type 0 where
  pub src_addr : ℕ
  pub dst_addr : ℕ
  pub ports : ℕ
  pub next_proto_id : ℕ

-- The destination address and the protocol are combined in place, and restored.
unfoldable pub fold_protocol : Flow → Flow
fold_protocol f = record f { dst_addr = bit_xor f.dst_addr f.next_proto_id }

-- `jhash` stands for `rte_jhash_32b` on three words with the initial value 0.
module _ (size : ℕ) (hash_table backend_ips : List ℕ) (bucket_of : ℕ → ℕ)
    (jhash : ℕ → ℕ → ℕ → ℕ) where
  unfoldable pub flow_hash : Flow → ℕ
  unfolding fold_protocol
  flow_hash f = let f1 = fold_protocol f in jhash f1.src_addr f1.dst_addr f1.ports

  unfoldable pub lookup : Flow → HashTable → Flow × HashTable
  unfolding fold_protocol flow_hash
  lookup f ht =
      let hash = flow_hash f in
      let restored = fold_protocol (fold_protocol f) in
      let (backend_id, ht') = get_cached_hash_value size hash_table bucket_of ht hash in
      (record restored { dst_addr = get_or backend_ips backend_id 0 }, ht')

  -- The packets of a batch, one after the other.
  unfoldable pub lookup_all : List Flow → HashTable → List Flow × HashTable
  lookup_all [] ht = ([], ht)
  lookup_all (f ∷ fs) ht =
      let (f', ht') = lookup f ht in let (rest, last) = lookup_all fs ht' in (f' ∷ rest, last)

  -- Where a flow belongs, by the lookup table alone.
  abbrev pub sent_to_backend : Flow → Flow
  sent_to_backend f = record f {
    dst_addr = get_or backend_ips (get_or hash_table (flow_hash f % size) 0) 0;
  }

  -- The cache changes nothing: packets that pass one after the other, with the cache as each of them
  -- leaves it, are sent where the lookup table alone would send each of them, so the packets of a
  -- flow go to one backend however many other flows come between, and nothing but the destination
  -- address of a packet changes. The cache agrees with the lookup table before, and still does
  -- behind the packets; the buckets lie within it, hashes are 32 bits wide and backends 16.
  pub lookup_all-sent_to_backend :
      (fs : List Flow) (ht : HashTable)
      → ((h : ℕ) → get_or hash_table (h % size) 0 < 2 ^ 16)
      → ((x y z : ℕ) → jhash x y z < 2 ^ 32)
      → ((h : ℕ) → bucket_of h + 4 ≤ length ht.t)
      → IsCoherent size hash_table ht.t
      → let (fs', ht') = lookup_all fs ht in
        (fs' ≡ map sent_to_backend fs) × IsCoherent size hash_table ht'.t
  unfolding lookup_all lookup flow_hash fold_protocol
  lookup_all-sent_to_backend [] ht small word room coherent = (refl, coherent)
  lookup_all-sent_to_backend (f ∷ fs) ht small word room coherent =
      let hash = flow_hash f in
      let (found, coherent', same) =
        get_cached_hash_value-backend size hash_table bucket_of ht hash small (word _ _ _)
          (room hash) coherent in
      let (rest, behind) =
        lookup_all-sent_to_backend fs (lookup f ht).1 small word (λ h. omega (arith, same, room h))
          coherent' in
      let first : (lookup f ht).0 ≡ sent_to_backend f =
        ap (λ n. record f { dst_addr = get_or backend_ips n 0 }) found in
      (
        ap (λ x. x ∷ (lookup_all fs (lookup f ht).1).0) first ∙ ap (◌∷◌ (sent_to_backend f)) rest,
        behind,
      )
