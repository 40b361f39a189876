-- ===== src/LTable/Seqlock.antt =====
-- The versions of a bucket as a sequence lock (ltable_impl/lock.h), over interleavings of writers
-- with one reader.
use enso_eval.Base.{
  ℕ, zero, suc, ◌+◌, ◌/◌, ◌*◌, ◌%◌, ◌^◌, ◌<◌, ◌≡◌, refl, ap, ◌∙◌, arith, true, some, length, get_or,
  get_or-set, add32, ◌⊎◌, inl, List, ◌∷◌,
}
use enso_eval.LTable.State.{Config, Table, empty_bucket, bucket_at}
use enso_eval.LTable.Chain.{Among}
use enso_eval.LTable.Lock.{lock_bucket, unlock_bucket, read_version_begin, read_version_end}

-- `bs` are the extra buckets of the chain of `b`.
module _ {S : Type 0} (c : Config) (b : ℕ) (bs : List ℕ) where
  abbrev pub version : Table S → ℕ
  version t = (bucket_at t b).version

  -- The buckets of the chain are the same.
  abbrev pub SameChain : Table S → Table S → Type 0
  SameChain t t' = (k : ℕ) → Among k (b ∷ bs) → bucket_at t' k ≡ bucket_at t k

  -- What the threads do, with the number of steps that lock or unlock the bucket. A writer changes the
  -- buckets of the chain only while the version is odd, and leaves the version alone, as `del` does
  -- (Discipline).
  pub data Moves (t₀ : Table S) : ℕ → Table S → Type 0 where
    here : Moves t₀ zero t₀
    acquire :
        {m : ℕ} {t t' : Table S}
        → Moves t₀ m t
        → b < length t.buckets
        → version t % 2 ≡ 0
        → lock_bucket c b t ≡ some (tt, t')
        → Moves t₀ (suc m) t'
    mutate :
        {m : ℕ} {t t' : Table S}
        → Moves t₀ m t
        → version t % 2 ≡ 1
        → version t' ≡ version t
        → Moves t₀ m t'
    give_back :
        {m : ℕ} {t t' : Table S}
        → Moves t₀ m t
        → b < length t.buckets
        → version t % 2 ≡ 1
        → unlock_bucket c b t ≡ some (tt, t')
        → Moves t₀ (suc m) t'
    elsewhere : {m : ℕ} {t t' : Table S} → Moves t₀ m t → SameChain t t' → Moves t₀ m t'

  module _ (on : c.concurrent ≡ true)
      (some_mode : (c.concurrent_access_mode ≡ 1) ⊎ (c.concurrent_access_mode ≡ 2)) where
    pub lock-version :
        (t t' : Table S)
        → b < length t.buckets
        → version t % 2 ≡ 0
        → version t < 2 ^ 32
        → lock_bucket c b t ≡ some (tt, t')
        → version t' ≡ (version t + 1) % 2 ^ 32
    unfolding lock_bucket bucket_at
    lock-version t t' h even w e = ground (
      arith,
      get_or-set t.buckets b b
          (record (get_or t.buckets b empty_bucket) {
            version = add32 (get_or t.buckets b empty_bucket).version 1;
          })
          empty_bucket,
      get_or-set t.buckets b b
          (record (get_or t.buckets b empty_bucket) {
            version = (get_or t.buckets b empty_bucket).version / 2 * 2 + 1;
          })
          empty_bucket,
    )

    unlock-version :
        (t t' : Table S)
        → b < length t.buckets
        → unlock_bucket c b t ≡ some (tt, t')
        → version t' ≡ (version t + 1) % 2 ^ 32
    unfolding unlock_bucket bucket_at
    unlock-version t t' h e = ground (
      arith,
      get_or-set t.buckets b b
          (record (get_or t.buckets b empty_bucket) {
            version = add32 (get_or t.buckets b empty_bucket).version 1;
          })
          empty_bucket,
    )

    Moves-version :
        {t₀ t : Table S} {m : ℕ}
        → version t₀ < 2 ^ 32
        → Moves t₀ m t
        → version t ≡ (version t₀ + m) % 2 ^ 32
    Moves-version w here = omega arith
    Moves-version w (acquire {t = t} {t'} r h even e) =
        let ih = Moves-version w r in
        omega (arith, ih, lock-version t t' h even (omega (arith, ih)) e)
    Moves-version w (mutate r odd same) = same ∙ Moves-version w r
    Moves-version w (give_back {t = t} {t'} r h odd e) =
        omega (arith, Moves-version w r, unlock-version t t' h e)
    Moves-version w (elsewhere r same) = ap (λ k. k.version) (same b (inl refl)) ∙ Moves-version w r

    Moves-still :
        {t₀ t : Table S} {m : ℕ}
        → version t₀ < 2 ^ 32
        → version t₀ % 2 ≡ 0
        → Moves t₀ m t
        → m ≡ 0
        → SameChain t₀ t
    Moves-still w even here z = λ k among. refl
    Moves-still w even (acquire r h p e) z = absurd (omega arith)
    Moves-still w even (mutate r odd same) z = absurd (omega (arith, Moves-version w r))
    Moves-still w even (give_back r h odd e) z = absurd (omega arith)
    Moves-still w even (elsewhere r same) z =
        λ k among. same k among ∙ Moves-still w even r z k among

    read_begin-even :
        (t : Table S) {v : ℕ} {t' : Table S}
        → read_version_begin c b t ≡ some (v, t')
        → (version t ≡ v) × (version t % 2 ≡ 0)
    unfolding read_version_begin
    read_begin-even t e = ground arith

    read_end-version :
        (t : Table S) {v : ℕ} {t' : Table S} → read_version_end c b t ≡ some (v, t') → version t ≡ v
    unfolding read_version_end
    read_end-version t e = ground arith

    -- A reader that gets the same version from `read_version_begin` and, later, from
    -- `read_version_end` has read one state of the chain: in each state in between, and at the end,
    -- every bucket of the chain is what it was at the beginning, whatever the writers of this bucket
    -- and of others did. Concurrent access is on, writers change the chain only between locking and
    -- unlocking its bucket, and there are fewer than 2^32 of these steps.
    pub seqlock_consistent :
        {t₀ t₁ t t₀' t' : Table S} (v m n : ℕ)
        → version t₀ < 2 ^ 32
        → read_version_begin c b t₀ ≡ some (v, t₀')
        → Moves t₀ m t₁
        → Moves t₁ n t
        → m + n < 2 ^ 32
        → read_version_end c b t ≡ some (v, t')
        → SameChain t₀ t₁ × SameChain t₀ t
    seqlock_consistent {t₀} {t₁} {t} v m n w e r r' few e' =
        let (start, even) = read_begin-even t₀ e in
        let half = Moves-version w r in
        let small : version t₁ < 2 ^ 32 = omega (arith, half) in
        let full = Moves-version small r' in
        let last = read_end-version t e' in
        let none_yet : m ≡ 0 = omega (arith, start, half, full, last) in
        let none_later : n ≡ 0 = omega (arith, start, half, full, last) in
        let read = Moves-still w even r none_yet in
        let still = Moves-still small (omega (arith, half, start, none_yet)) r' none_later in
        (read, λ k among. still k among ∙ read k among)
