-- ===== src/Maglev/Prime.antt =====
-- `kSize` "must be prime" (maglev/src/maglev.hpp): why, and that it is.
use enso_eval.Base.{
  ℕ, zero, suc, ◌+◌, ◌-◌, ◌*◌, ◌/◌, ◌%◌, ◌≤◌, ◌<◌, ◌≡◌, ◌≢◌, ◌⊎◌, inl, inr, refl, ap, ◌∙◌, arith,
  Bool, true, not, ◌&&◌, ◌||◌, leb, ◌==◌, ℕ_discrete, dec_lt,
}
use native.Mathlib.Nat.{
  div-add-mod, mod-lt, mul-add-mod_self_right, mod-eq_of_lt, div-le_self, mul-mod_right, mul_comm,
  mul-le-mul,
}
use enso_eval.Maglev.Defs.{k_size}

pub record IsPrime (p : ℕ) : Type 0 where
  pub above_one : 1 < p
  pub no_factors : (a b : ℕ) → a * b ≡ p → (a ≡ 1) ⊎ (b ≡ 1)

remainder-ne-zero : (p s : ℕ) → IsPrime p → 1 < s → s < p → p % s ≢ 0
remainder-ne-zero p s prime h lt e =
    elim (prime.no_factors s (p / s) (omega (arith, div-add-mod p s))) [
      | inl one ↦ omega arith
      | inr one ↦ omega (arith, div-add-mod p s, ap (λ q. s * q) one)
    ]

spread : (p u q d r t : ℕ) → suc u * q + r ≡ p → d + q ≡ p → suc u * (d * t) ≡ u * t * p + r * t
spread p u q d r t e f =
    omega (arith, ap (λ x. x * t) e, ap (λ x. suc u * (x * t)) f, ap (λ x. u * t * x) e)

-- One round of Euclid's algorithm, for the inverse.
inverse_step : (p s t : ℕ) → 0 < s → s < p → s * ((p - p / s) * t) ≡ (s - 1) * t * p + p % s * t
inverse_step p zero t h lt = absurd (omega arith)
inverse_step p (suc u) t h lt =
    let quotient = div-add-mod p (suc u) in
    let u' : suc u - 1 ≡ u = omega arith in
    let le : p / suc u ≤ p = div-le_self p (suc u) in
    rw u' (spread p u (p / suc u) (p - p / suc u) (p % suc u) t quotient (omega (arith, le)))

inverse_below : (n p s : ℕ) → IsPrime p → 0 < s → s < p → s ≤ n → (t : ℕ) × (s * t % p ≡ 1)
inverse_below zero p s prime h lt b = absurd (omega arith)
inverse_below (suc n) p s prime h lt b = elim (ℕ_discrete s 1) [
  | yes e ↦ (1, rw e (mod-eq_of_lt prime.above_one))
  | no ne ↦
      let ne' = remainder-ne-zero p s prime (omega arith) lt in
      let below = mod-lt p h in
      let (t, e) = inverse_below n p (p % s) prime (omega arith) (omega arith) (omega arith) in
      (
        (p - p / s) * t,
        rw (inverse_step p s t h lt, mul-add-mod_self_right ((s - 1) * t) p (p % s * t)) e,
      )
]

-- Below a prime, a number that is not 0 has an inverse.
pub inverse : (p s : ℕ) → IsPrime p → 0 < s → s < p → (t : ℕ) × (s * t % p ≡ 1)
inverse p s prime h lt = inverse_below s p s prime h lt (omega arith)

-- No number from 2 to `n` divides `p`.
no_divisor : ℕ → ℕ → Bool
no_divisor p zero = true
no_divisor p (suc n) = (leb n 0 || not (p % suc n == 0)) && no_divisor p n

no_divisor-ne : (p n d : ℕ) → no_divisor p n ≡ true → 1 < d → d ≤ n → p % d ≢ 0
unfolding no_divisor
no_divisor-ne p zero d h q r = absurd (omega arith)
no_divisor-ne p (suc n) d h q r = elim (ℕ_discrete d (suc n)) [
  | yes e ↦ rw e (ground arith)
  | no ne ↦ no_divisor-ne p n d (ground arith) q (omega arith)
]

k_size_checked : no_divisor 65537 256 ≡ true
unfolding no_divisor
k_size_checked = refl

factor-small : (a b : ℕ) → a * b ≡ k_size → a ≤ 256 → a ≡ 1
factor-small a b e h = elim (dec_lt 1 a) [
  | yes p ↦
      let divides : 65537 % a ≡ 0 = rw (← e) (mul-mod_right a b) in
      absurd (no_divisor-ne 65537 256 a k_size_checked p h divides)
  | no p ↦ elim (ℕ_discrete a 0) [
    | yes z ↦ let none_left : a * b ≡ 0 = rw z (omega arith) in absurd (omega arith)
    | no nz ↦ omega arith
  ]
]

pub k_size-IsPrime : IsPrime k_size
k_size-IsPrime = record { above_one = omega arith; no_factors = λ a b e. small_factor a b e }
  where
    small_factor : (a b : ℕ) → a * b ≡ k_size → (a ≡ 1) ⊎ (b ≡ 1)
    small_factor a b e = elim (dec_lt a 257) [
      | yes p ↦ inl (factor-small a b e (omega arith))
      | no p ↦ elim (dec_lt b 257) [
        | yes q ↦ inr (factor-small b a (mul_comm b a ∙ e) (omega arith))
        | no q ↦
            let large : 257 * 257 ≤ a * b =
              mul-le-mul {n₁ = 257} {m₁ = 257} (omega arith) (omega arith) in
            absurd (omega arith)
      ]
    ]
