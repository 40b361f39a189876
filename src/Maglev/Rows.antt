-- ===== src/Maglev/Rows.antt =====
-- The permutations of `generate_permutations` (maglev/src/maglev.hpp): a row visits every entry of
-- the table, as long as `offset + j * skip` stays within 32 bits.
use enso_eval.Base.{
  ℕ, zero, suc, ◌+◌, ◌-◌, ◌*◌, ◌/◌, ◌%◌, ◌^◌, ◌≤◌, ◌<◌, ◌≡◌, ◌≢◌, refl, sym, ap, ◌∙◌, arith, List,
  length, get_or, add32, mul32,
}
use native.Mathlib.Nat.{
  mod-lt, mod-eq_of_lt, add-mod-mod, add-mul-mod_self_right, div-add-mod', mul-le-mul_right,
  add-mod_right,
}
use enso_eval.Maglev.Defs.{entry, row_from, row, offset, skip, k_size}
use enso_eval.Maglev.Prime.{IsPrime, inverse, k_size-IsPrime}

-- A factor may be reduced before the product is.
mod-mul : (p a b : ℕ) → a % p * b % p ≡ a * b % p
mod-mul p a b =
    let whole : a * b ≡ a % p * b + a / p * b * p =
      omega (arith, ap (λ x. x * b) (div-add-mod' a p)) in
    sym (rw whole (add-mul-mod_self_right (a % p * b) (a / p * b) p))

module _ (size o s : ℕ) (narrow : o + size * s < 2 ^ 32 + s) where
  entry-exact : (j : ℕ) → j < size → entry size o s j ≡ (o + j * s) % size
  unfolding entry
  entry-exact j h =
      let le : suc j * s ≤ size * s = mul-le-mul_right s h in
      let product : mul32 j s ≡ j * s = mod-eq_of_lt (omega arith) in
      let sum : add32 o (j * s) ≡ o + j * s = mod-eq_of_lt (omega arith) in rw (product, sum) refl

  -- Where the size is prime and the skip is below it, each entry `c` of the table is visited.
  pub entry-onto :
      IsPrime size
      → 0 < s
      → s < size
      → o < size
      → (c : ℕ) → c < size
      → (j : ℕ) × (j < size) × (entry size o s j ≡ c)
  entry-onto prime pos below o_below c c_below =
      let (t, inv) = inverse size s prime pos below in
      let x = c + size - o in
      let j = x * t % size in
      let j_below : j < size = mod-lt (x * t) (omega arith) in
      (j, j_below, entry-exact j j_below ∙ reach t inv)
    where
      reach : (t : ℕ) → s * t % size ≡ 1 → (o + (c + size - o) * t % size * s) % size ≡ c
      reach t inv =
          let x = c + size - o in
          let scaled : x * t % size * s % size ≡ x % size =
            mod-mul size (x * t) s
            ∙ (ap (λ y. y % size) (omega arith)
                ∙ (sym (mod-mul size (s * t) x) ∙ (rw inv (ap (λ y. y % size) (omega arith))))) in
          let back : o + x ≡ c + size = omega arith in
          sym (add-mod-mod o (x * t % size * s) size)
          ∙ (ap (λ y. (o + y) % size) scaled
              ∙ (add-mod-mod o x size
                  ∙ (ap (λ y. y % size) back ∙ (add-mod_right c size ∙ mod-eq_of_lt c_below))))

length-row_from : (size o s n j : ℕ) → length (row_from size o s n j) ≡ n
unfolding row_from
length-row_from size o s zero j = refl
length-row_from size o s (suc n) j = ap suc (length-row_from size o s n (suc j))

pub length-row : (size o s : ℕ) → length (row size o s) ≡ size
unfolding row
length-row size o s = length-row_from size o s size 0

get_or-row_from :
    (size o s n j i : ℕ) → i < n → get_or (row_from size o s n j) i 0 ≡ entry size o s (j + i)
unfolding row_from
get_or-row_from size o s zero j i h = absurd (omega arith)
get_or-row_from size o s (suc n) j zero h = ap (entry size o s) (omega arith)
get_or-row_from size o s (suc n) j (suc i) h =
    get_or-row_from size o s n (suc j) i (omega arith) ∙ ap (entry size o s) (omega arith)

pub get_or-row : (size o s i : ℕ) → i < size → get_or (row size o s) i 0 ≡ entry size o s i
unfolding row
get_or-row size o s i h = get_or-row_from size o s size 0 i h ∙ ap (entry size o s) (omega arith)

entry-lt : (size o s j : ℕ) → 0 < size → entry size o s j < size
unfolding entry
entry-lt size o s j h = mod-lt (add32 o (mul32 j s)) h

-- What `populate` needs of a row: it stays inside the table and visits every entry.
pub record IsOnto (size : ℕ) (xs : List ℕ) : Type 0 where
  pub sized : length xs ≡ size
  pub bounded : (j : ℕ) → j < size → get_or xs j 0 < size
  pub visits : (c : ℕ) → c < size → (j : ℕ) × (j < size) × (get_or xs j 0 ≡ c)

pub row-IsOnto :
    (hash1 hash2 : ℕ)
    → offset k_size hash1 + 65536 * skip k_size hash2 < 2 ^ 32
    → IsOnto k_size (row k_size (offset k_size hash1) (skip k_size hash2))
unfolding offset skip
row-IsOnto hash1 hash2 narrow =
    let o = hash1 % 65537 in
    let s = hash2 % 65536 + 1 in
    record {
      sized = length-row k_size o s;
      bounded = λ j h. rw (get_or-row k_size o s j h) (entry-lt k_size o s j (omega arith));
      visits = λ c h.
          let (j, j_below, e) =
            entry-onto k_size o s (omega arith) k_size-IsPrime (omega arith) (omega arith)
              (omega arith) c h in
          (j, j_below, get_or-row k_size o s j j_below ∙ e);
    }

-- With the skip 65536 the product `j * skip` is 2^32 at the last entry, which wraps to 0: the row
-- begins and ends with the same entry, and the entry behind its offset is never visited.
pub row_wraps :
    (o : ℕ)
    → o < 65536
    → (entry k_size o 65536 65536 ≡ entry k_size o 65536 0)
      × ((j : ℕ) → j < k_size → entry k_size o 65536 j ≢ o + 1)
unfolding entry
row_wraps o h = (omega arith, λ j lt e. omega arith)
