-- ===== src/LTable/Chain.antt =====
-- The searches of ltable_impl/bucket.h against the chain of buckets that they walk.
use enso_eval.Base.{
  ℕ, zero, suc, ◌+◌, ◌≤◌, ◌<◌, ◌≡◌, refl, arith, Bool, true, false, Option, none, some, List, [],
  ◌∷◌, length, get_or, if◌then◌else◌, Bool-cases, inl, inr, ◌⊎◌,
}
use enso_eval.LTable.State.{Config, Table, bucket_at}
use enso_eval.LTable.Scan.{
  Located, at, nowhere, find_slot, has_extra_bucket, extra_place, scan, settle, find_item_index,
  chain_fuel,
}
use enso_eval.LTable.Pool.{Pool}
use enso_eval.LTable.Item.{matches}

-- The buckets from `b` to the end of its chain, in order.
pub data Chain {S : Type 0} (c : Config) (t : Table S) : ℕ → List ℕ → Type 0 where
  last : {b : ℕ} → has_extra_bucket c (bucket_at t b) ≡ false → Chain c t b (b ∷ [])
  next :
      {b : ℕ} {bs : List ℕ}
      → has_extra_bucket c (bucket_at t b) ≡ true
      → Chain c t (extra_place c (bucket_at t b).next_extra_bucket_index) bs
      → Chain c t b (b ∷ bs)

-- A slot of the bucket passes the test.
pub record Passes {S : Type 0} (p : ℕ → Bool) (t : Table S) (k i : ℕ) : Type 0 where
  pub inside : i < length (bucket_at t k).item_vec
  pub passed : p (get_or (bucket_at t k).item_vec i 0) ≡ true

-- No slot of the listed buckets passes the test.
abbrev pub NonePass : {S : Type 0} → (ℕ → Bool) → Table S → List ℕ → Type 0
NonePass p t [] = Unit {0}
NonePass p t (b ∷ bs) =
    ((i : ℕ)
      → i < length (bucket_at t b).item_vec
      → p (get_or (bucket_at t b).item_vec i 0) ≡ false)
    × NonePass p t bs

abbrev pub Among : ℕ → List ℕ → Type 0
Among k [] = ⊥
Among k (b ∷ bs) = (k ≡ b) ⊎ Among k bs

abbrev FoundFrom : (ℕ → Bool) → List ℕ → ℕ → Option ℕ → Type 0
FoundFrom p vs i none = (j : ℕ) → j < length vs → p (get_or vs j 0) ≡ false
FoundFrom p vs i (some k) = (j : ℕ) × (k ≡ i + j) × (j < length vs) × (p (get_or vs j 0) ≡ true)

FoundFrom-cons :
    (p : ℕ → Bool) (v : ℕ) (vs : List ℕ) (i : ℕ) (r : Option ℕ)
    → p v ≡ false
    → FoundFrom p vs (suc i) r
    → FoundFrom p (v ∷ vs) i r
FoundFrom-cons p v vs i none e f = λ j. first_or_later j
  where
    first_or_later : (j : ℕ) → j < length (v ∷ vs) → p (get_or (v ∷ vs) j 0) ≡ false
    first_or_later zero h = e
    first_or_later (suc j) h = f j (omega arith)
FoundFrom-cons p v vs i (some k) e (j, q, h, passed) = (suc j, omega arith, omega arith, passed)

find_slot-FoundFrom : (p : ℕ → Bool) (vs : List ℕ) (i : ℕ) → FoundFrom p vs i (find_slot p vs i)
unfolding find_slot
find_slot-FoundFrom p [] i = λ j h. absurd (omega arith)
find_slot-FoundFrom p (v ∷ vs) i = elim (Bool-cases (p v)) [
  | inl e ↦ rw e (0, omega arith, omega arith, e)
  | inr e ↦
      rw e (FoundFrom-cons p v vs i (find_slot p vs (suc i)) e (find_slot-FoundFrom p vs (suc i)))
]

-- What a search along the buckets `bs` ends with.
pub data Scanned {S : Type 0} (p : ℕ → Bool) (t : Table S) (bs : List ℕ)
    : Option Located → Type 0 where
  found : {k i : ℕ} → Among k bs → Passes p t k i → Scanned p t bs (some (at k i))
  missed : {k : ℕ} → Among k bs → NonePass p t bs → Scanned p t bs (some (nowhere k))

Scanned-next :
    {S : Type 0} {p : ℕ → Bool} {t : Table S} {bs : List ℕ} {r : Option Located} (b : ℕ)
    → ((i : ℕ)
        → i < length (bucket_at t b).item_vec
        → p (get_or (bucket_at t b).item_vec i 0) ≡ false)
    → Scanned p t bs r
    → Scanned p t (b ∷ bs) r
Scanned-next b h (found m q) = found (inr m) q
Scanned-next b h (missed m q) = missed (inr m) (h, q)

settle-Scanned :
    {S : Type 0} {p : ℕ → Bool} {t : Table S} (b : ℕ) (bs : List ℕ) (r : Option ℕ)
    (onward : Option Located)
    → FoundFrom p (bucket_at t b).item_vec 0 r
    → (((i : ℕ)
          → i < length (bucket_at t b).item_vec
          → p (get_or (bucket_at t b).item_vec i 0) ≡ false)
        → Scanned p t (b ∷ bs) onward)
    → Scanned p t (b ∷ bs) (settle b r onward)
unfolding settle
settle-Scanned b bs none onward f more = more f
settle-Scanned {p = p} {t = t} b bs (some i) onward (j, e, h, q) more =
    let slot : i ≡ j = omega arith in
    found (inl refl) (record { inside = omega arith; passed = rw (slot) q })

abbrev onward : {S : Type 0} → Config → (ℕ → Bool) → Table S → ℕ → ℕ → Option Located
onward c p t fuel b =
    if has_extra_bucket c (bucket_at t b)
    then scan c fuel p t (extra_place c (bucket_at t b).next_extra_bucket_index)
    else some (nowhere b)

Scanned-inv :
    {S : Type 0} {p : ℕ → Bool} {t : Table S} {bs : List ℕ} {r : Option Located}
    → Scanned p t bs r
    → (l : Located) × (r ≡ some l) × Scanned p t bs (some l)
Scanned-inv (found m q) = (_, refl, found m q)
Scanned-inv (missed m q) = (_, refl, missed m q)

-- A search whose fuel covers the chain comes to an end. It ends at a slot of one of the chain's
-- buckets that passes the test, or else no slot of any bucket of the chain passes it.
pub scan-Scanned :
    {S : Type 0} (c : Config) (p : ℕ → Bool) (t : Table S) (fuel b : ℕ) (bs : List ℕ)
    → Chain c t b bs
    → length bs ≤ fuel
    → Scanned p t bs (scan c fuel p t b)
unfolding scan
scan-Scanned c p t zero b bs (last e) h = absurd (omega arith)
scan-Scanned c p t zero b bs (next e rest) h = absurd (omega arith)
scan-Scanned c p t (suc fuel) b bs (last e) h =
    settle-Scanned b [] (find_slot p (bucket_at t b).item_vec 0) (onward c p t fuel b)
      (find_slot-FoundFrom p (bucket_at t b).item_vec 0) λ f. rw e (missed (inl refl) (f, tt))
scan-Scanned c p t (suc fuel) b bs (next {bs = bs'} e rest) h =
    settle-Scanned b bs' (find_slot p (bucket_at t b).item_vec 0) (onward c p t fuel b)
      (find_slot-FoundFrom p (bucket_at t b).item_vec 0)
      λ f. rw e (Scanned-next b f (scan-Scanned c p t fuel _ bs' rest (omega arith)))

-- `find_item_index` does not run round a chain: it changes nothing, and what it finds is a slot of
-- the chain whose tag, hash and key are the ones asked for; it finds none only if no slot of the
-- chain has them.
pub find_item_index_lem :
    (c : Config) (P : Pool) (t : Table P.State) (b key_hash tag : ℕ) (key bs : List ℕ)
    → Chain c t b bs
    → length bs ≤ suc c.num_extra_buckets
    → (l : Located) × (find_item_index c P b key_hash tag key t ≡ some (l, t))
      × Scanned (matches P t.pool key_hash tag key) t bs (some l)
unfolding find_item_index
find_item_index_lem c P t b key_hash tag key bs chain h =
    let p = matches P t.pool key_hash tag key in
    let s = scan-Scanned c p t (chain_fuel c) b bs chain h in
    let (l, e, s') = Scanned-inv s in (l, rw (e, find_item_index), s')
