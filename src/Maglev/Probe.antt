-- ===== src/Maglev/Probe.antt =====
-- The inner loop of `populate` (maglev/src/maglev.hpp), and the entries that are filled.
use enso_eval.Base.{
  ℕ, zero, suc, ◌+◌, ◌-◌, ◌≤◌, ◌<◌, ◌≡◌, ◌≢◌, refl, ap, arith, List, [], ◌∷◌, length, get_or, set,
  replicate, some, ◌==◌, if◌then◌else◌, ne→==, ℕ_discrete,
}
use enso_eval.Maglev.Defs.{unset, probe, drop}

-- How many entries have a backend.
pub filled : List ℕ → ℕ
filled [] = 0
filled (x ∷ xs) = (if x == unset then 0 else 1) + filled xs

filled-le : (xs : List ℕ) → filled xs ≤ length xs
unfolding filled
filled-le [] = omega arith
filled-le (x ∷ xs) = ground (arith, filled-le xs)

pub filled-set :
    (xs : List ℕ) (i v : ℕ)
    → i < length xs
    → get_or xs i 0 ≡ unset
    → v ≢ unset
    → filled (set xs i v) ≡ suc (filled xs)
unfolding filled
filled-set [] i v h e ne = absurd (omega arith)
filled-set (x ∷ xs) zero v h e ne = ground arith
filled-set (x ∷ xs) (suc i) v h e ne = ground (arith, filled-set xs i v)

pub filled-replicate : (n : ℕ) → filled (replicate n unset) ≡ 0
unfolding filled
filled-replicate zero = refl
filled-replicate (suc n) = ground (arith, filled-replicate n)

pub unfilled :
    (xs : List ℕ) → filled xs < length xs → (i : ℕ) × (i < length xs) × (get_or xs i 0 ≡ unset)
unfolding filled
unfilled [] h = absurd (omega arith)
unfilled (x ∷ xs) h = elim (ℕ_discrete x unset) [
  | yes e ↦ (0, omega arith, e)
  | no ne ↦
      let (i, lt, e) = unfilled xs (ground (arith, ne→== x unset ne)) in (suc i, omega arith, e)
]

pub filled_all :
    (xs : List ℕ) → filled xs ≡ length xs → (i : ℕ) → i < length xs → get_or xs i 0 ≢ unset
unfolding filled
filled_all [] h i lt = absurd (omega arith)
filled_all (x ∷ xs) h zero lt = ground (arith, filled-le xs)
filled_all (x ∷ xs) h (suc i) lt = filled_all xs (ground (arith, filled-le xs)) i (omega arith)

-- Where the inner loop of `populate` stops, `d` entries on: at the first one that is not filled.
pub record Probed (cs table : List ℕ) (c d : ℕ) : Type 0 where
  pub inside : d < length cs
  pub here : c ≡ get_or cs d 0
  pub free : get_or table c 0 ≡ unset
  pub passed : (k : ℕ) → k < d → get_or table (get_or cs k 0) 0 ≢ unset

Probed-cons :
    {cs table : List ℕ} {c d : ℕ} (x : ℕ)
    → get_or table x 0 ≢ unset
    → Probed cs table c d
    → Probed (x ∷ cs) table c (suc d)
Probed-cons {cs} {table} {d = d} x ne p = record {
  inside = omega (arith, p.inside);
  here = p.here;
  free = p.free;
  passed = passed;
}
  where
    passed : (k : ℕ) → k < suc d → get_or table (get_or (x ∷ cs) k 0) 0 ≢ unset
    passed zero h = ne
    passed (suc k) h = p.passed k (omega arith)

pub probe-Probed :
    (cs table : List ℕ) (next j : ℕ)
    → j < length cs
    → get_or table (get_or cs j 0) 0 ≡ unset
    → (c : ℕ) × (d : ℕ) × (probe cs table next ≡ some (c, next + d)) × Probed cs table c d
unfolding probe
probe-Probed [] table next j h e = absurd (omega arith)
probe-Probed (c ∷ cs) table next zero h e = (
  c,
  0,
  rw e (ap (λ n. some (c, n)) (omega arith)),
  record { inside = omega arith; here = refl; free = e; passed = λ k p. absurd (omega arith) },
)
probe-Probed (c ∷ cs) table next (suc j) h e = elim (ℕ_discrete (get_or table c 0) unset) [
  | yes free ↦ (
    c,
    0,
    rw free (ap (λ n. some (c, n)) (omega arith)),
    record { inside = omega arith; here = refl; free = free; passed = λ k p. absurd (omega arith) },
  )
  | no taken ↦
      let (c', d, found, p) = probe-Probed cs table (suc next) j (omega arith) e in
      (
        c',
        suc d,
        rw (ne→== (get_or table c 0) unset taken, found) (ap (λ n. some (c', n)) (omega arith)),
        Probed-cons c taken p,
      )
]

pub get_or-drop : (n : ℕ) (xs : List ℕ) (i : ℕ) → get_or (drop n xs) i 0 ≡ get_or xs (n + i) 0
get_or-drop zero xs i = ap (λ k. get_or xs k 0) (omega arith)
get_or-drop (suc n) [] i = refl
get_or-drop (suc n) (x ∷ xs) i =
    let shift : suc n + i ≡ suc (n + i) = omega arith in rw shift (get_or-drop n xs i)

pub length-drop : (n : ℕ) (xs : List ℕ) → length (drop n xs) ≡ length xs - n
length-drop zero xs = omega arith
length-drop (suc n) [] = omega arith
length-drop (suc n) (x ∷ xs) = omega (arith, length-drop n xs)
