-- ===== src/Maglev/Populate.antt =====
-- `populate` (maglev/src/maglev.hpp) fills the whole table.
use enso_eval.Base.{
  ℕ, zero, suc, ◌+◌, ◌-◌, ◌%◌, ◌^◌, ◌≤◌, ◌<◌, ◌≡◌, ◌≢◌, ◌⊎◌, inl, inr, refl, sym, ap, ◌∙◌, arith,
  List, [], length, get_or, set, get_or-set, length-set, some, ◌==◌, if◌then◌else◌, Bool-cases,
  ==→eq, ne→==, ==_refl, ℕ_discrete, dec_lt,
}
use enso_eval.Maglev.Defs.{unset, Filling, drop, place, populate_loop}
use enso_eval.Maglev.Rows.{IsOnto}
use enso_eval.Maglev.Probe.{
  filled, filled-set, unfilled, filled_all, Probed, probe-Probed, get_or-drop, length-drop,
}

module _ (size : ℕ) (permutations : List (List ℕ)) where
  abbrev pub row_of : ℕ → List ℕ
  row_of i = get_or permutations i []

  -- The backend `i` has passed only entries that are filled.
  abbrev pub PassedFilled : Filling → ℕ → Type 0
  PassedFilled f i =
      (j : ℕ) → j < get_or f.next i 0 → get_or f.table (get_or (row_of i) j 0) 0 ≢ unset

  pub record IsFilling (f : Filling) : Type 0 where
    pub sized : length f.table ≡ size
    pub backends : length f.next ≡ length permutations
    pub counted : filled f.table ≡ f.n
    pub valid :
        (k : ℕ)
        → k < size
        → (get_or f.table k 0 ≡ unset) ⊎ (get_or f.table k 0 < length permutations)
    pub passed : (i : ℕ) → i < length permutations → PassedFilled f i

  -- The state after backend `i` took entry `c`, `d` entries on in its row.
  abbrev placed : ℕ → ℕ → ℕ → Filling → Filling
  placed i c d f = record {
    table = set f.table c (i % 2 ^ 16);
    next = set f.next i (suc (get_or f.next i 0 + d));
    n = suc f.n;
  }

  module _ (onto : (i : ℕ) → i < length permutations → IsOnto size (row_of i))
      (few : length permutations ≤ unset) where
    module _ (i c d : ℕ) (f : Filling) (h : i < length permutations) (inv : IsFilling f)
        (p : Probed (drop (get_or f.next i 0) (row_of i)) f.table c d) where
      in_row : get_or f.next i 0 + d < size
      in_row = omega (arith, p.inside, length-drop (get_or f.next i 0) (row_of i), (onto i h).sized)

      chosen : c ≡ get_or (row_of i) (get_or f.next i 0 + d) 0
      chosen = p.here ∙ get_or-drop (get_or f.next i 0) (row_of i) d

      chosen_below : c < length f.table
      chosen_below = rw (chosen, inv.sized) ((onto i h).bounded _ in_row)

      short : i % 2 ^ 16 ≡ i
      short = omega arith

      written :
          (x : ℕ) → get_or (placed i c d f).table x 0 ≡ (if c == x then i else get_or f.table x 0)
      written x = rw (get_or-set f.table c x (i % 2 ^ 16) 0 chosen_below, short)

      still_filled :
          (x : ℕ) → (get_or f.table x 0 ≢ unset) → get_or (placed i c d f).table x 0 ≢ unset
      still_filled x ne =
          rw (written x)
            (elim (Bool-cases (c == x)) [ inl e ↦ rw e (omega arith) | inr e ↦ rw e ne ])

      now_filled : get_or (placed i c d f).table c 0 ≢ unset
      now_filled = rw (written c, ==_refl c) (omega arith)

      passed_here :
          (j : ℕ)
          → j < suc (get_or f.next i 0 + d)
          → get_or (placed i c d f).table (get_or (row_of i) j 0) 0 ≢ unset
      passed_here j lt = elim (dec_lt j (get_or f.next i 0)) [
        | yes q ↦ still_filled _ (inv.passed i h j q)
        | no q ↦ elim (ℕ_discrete j (get_or f.next i 0 + d)) [
          | yes e ↦ rw (e, ← chosen) now_filled
          | no ne ↦
              let k = j - get_or f.next i 0 in
              let there : get_or f.next i 0 + k ≡ j = omega arith in
              let skipped = p.passed k (omega arith) in
              still_filled _ (rw (get_or-drop (get_or f.next i 0) (row_of i) k, there) at skipped)
        ]
      ]

      next_of :
          (i' : ℕ)
          → get_or (placed i c d f).next i' 0
            ≡ (if i == i' then suc (get_or f.next i 0 + d) else get_or f.next i' 0)
      next_of i' = get_or-set f.next i i' _ 0 (rw inv.backends h)

      placed-IsFilling : IsFilling (placed i c d f)
      placed-IsFilling = record {
        sized = length-set f.table c (i % 2 ^ 16) ∙ inv.sized;
        backends = length-set f.next i _ ∙ inv.backends;
        counted =
            filled-set f.table c (i % 2 ^ 16) chosen_below p.free (omega arith)
            ∙ ap suc inv.counted;
        valid = λ k lt.
            rw (written k)
              (elim (Bool-cases (c == k)) [ inl e ↦ rw e (inr h) | inr e ↦ rw e (inv.valid k lt) ]);
        passed = λ i' h' j lt. elim (Bool-cases (i == i')) [
          | inl e ↦
              let same = ==→eq i i' e in
              rw (← same) (passed_here j (rw (← same, next_of i, ==_refl i) at lt))
          | inr e ↦ still_filled _ (inv.passed i' h' j (rw (next_of i', e) at lt))
        ];
      }

    -- One step: an unfilled entry of the row of backend `i` gets that backend.
    place-IsFilling :
        (i : ℕ) (f : Filling)
        → i < length permutations
        → f.n < size
        → IsFilling f
        → (f' : Filling) × (place permutations i f ≡ some f') × IsFilling f' × (f'.n ≡ suc f.n)
    unfolding place
    place-IsFilling i f h room inv =
        let (k, k_below, k_free) = unfilled f.table (omega (arith, inv.counted, inv.sized)) in
        let perm = onto i h in
        let (j, j_below, e) = perm.visits k (omega (arith, inv.sized)) in
        let later = not_passed f i j k h inv e k_free in
        let (c, d, found, p) =
          probe-Probed (drop (get_or f.next i 0) (row_of i)) f.table (get_or f.next i 0)
            (j - get_or f.next i 0)
            (omega (arith, length-drop (get_or f.next i 0) (row_of i), perm.sized))
            (there f i j k later e k_free) in
        (placed i c d f, rw (found, place), placed-IsFilling i c d f h inv p, refl)
      where
        not_passed :
            (f : Filling) (i j k : ℕ)
            → i < length permutations
            → IsFilling f
            → get_or (row_of i) j 0 ≡ k
            → get_or f.table k 0 ≡ unset
            → get_or f.next i 0 ≤ j
        not_passed f i j k h inv e free = elim (dec_lt j (get_or f.next i 0)) [
          | yes q ↦ absurd (inv.passed i h j q (rw e free))
          | no q ↦ omega arith
        ]

        there :
            (f : Filling) (i j k : ℕ)
            → get_or f.next i 0 ≤ j
            → get_or (row_of i) j 0 ≡ k
            → get_or f.table k 0 ≡ unset
            → get_or f.table
                (get_or (drop (get_or f.next i 0) (row_of i)) (j - get_or f.next i 0) 0)
                0
              ≡ unset
        there f i j k later e free =
            let back : get_or f.next i 0 + (j - get_or f.next i 0) ≡ j = omega arith in
            rw (get_or-drop (get_or f.next i 0) (row_of i) (j - get_or f.next i 0), back, e) free

    -- What `populate` leaves: a backend for every entry.
    abbrev pub Complete : List ℕ → Type 0
    Complete table =
        (length table ≡ size) × ((k : ℕ) → k < size → get_or table k 0 < length permutations)

    IsFilling-Complete : (f : Filling) → IsFilling f → f.n ≡ size → Complete f.table
    IsFilling-Complete f inv full = (inv.sized, λ k lt. taken k lt (inv.valid k lt))
      where
        taken :
            (k : ℕ)
            → k < size
            → (get_or f.table k 0 ≡ unset) ⊎ (get_or f.table k 0 < length permutations)
            → get_or f.table k 0 < length permutations
        taken k lt (inl e) =
            absurd (filled_all f.table (inv.counted ∙ (full ∙ sym inv.sized)) k (rw inv.sized lt) e)
        taken k lt (inr b) = b

    pub populate_loop-Complete :
        (fuel i : ℕ) (f : Filling)
        → i < length permutations
        → IsFilling f
        → f.n < size
        → size ≤ f.n + fuel
        → (table : List ℕ) × (populate_loop fuel permutations size i f ≡ some table)
          × Complete table
    unfolding populate_loop
    populate_loop-Complete zero i f h inv room enough = absurd (omega arith)
    populate_loop-Complete (suc fuel) i f h inv room enough =
        let (f', e, inv', step) = place-IsFilling i f h room inv in
        elim (ℕ_discrete f'.n size) [
          | yes full ↦ (
            f'.table,
            rw (e, populate_loop) (rw (full, ==_refl size)),
            IsFilling-Complete f' inv' full,
          )
          | no ne ↦
              let i' = if suc i == length permutations then 0 else suc i in
              let (table, e', complete) =
                populate_loop-Complete fuel i' f' (ground arith) inv' (omega arith) (omega arith) in
              (table, rw (e, populate_loop) (rw (ne→== f'.n size ne) e'), complete)
        ]
