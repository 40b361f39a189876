-- ===== src/Base/Bits.antt =====
-- Laws of `&` and `|` at variables: a mask of low bits is a remainder, and `|` of disjoint fields
-- is a sum.
use Prim.Native.Nat.{ℕ, zero, suc, ◌+◌, ◌-◌, ◌*◌, ◌/◌, ◌%◌, ◌^◌, ◌≤◌, ◌<◌, ◌∣◌, min, max}
use Prim.Native.Nat.{bit_and, bit_or, digits, bit_and-bitwise, bit_or-bitwise}
use mathlib.Core.Path.{◌≡◌, refl, ap}
use native.Mathlib.Omega.{arith}
use native.Mathlib.Nat.{
  pow-suc, div-div-eq-div-mul, mod-eq-sub-mul-div, mul_comm, mod-mod_of_dvd, dvd_refl,
  dvd-mul_right_of_dvd,
}
use native.Mathlib.Decide.{dec_lt}

-- Fuel beyond the number of digits changes nothing.
module _ (z : ℕ → ℕ) (f : ℕ → ℕ → ℕ) where
  digits-enough : (k l a b : ℕ) → a ≤ k → a ≤ l → digits z f k a b ≡ digits z f l a b
  digits-enough k l zero b p q = zero_digits k l b
    where
      zero_digits : (k l b : ℕ) → digits z f k zero b ≡ digits z f l zero b
      zero_digits zero zero b = refl
      zero_digits zero (suc l) b = refl
      zero_digits (suc k) zero b = refl
      zero_digits (suc k) (suc l) b = refl
  digits-enough zero l (suc a) b p q = absurd (omega arith)
  digits-enough (suc k) zero (suc a) b p q = absurd (omega arith)
  digits-enough (suc k) (suc l) (suc a) b p q =
      rw (digits-enough k l (suc a / 2) (b / 2) (omega arith) (omega arith))

-- The lowest digit of `&` and of `|`.
bit_and-split : (a b : ℕ) → bit_and a b ≡ bit_and (a / 2) (b / 2) * 2 + min (a % 2) (b % 2)
bit_and-split zero b = simp bit_and-bitwise (omega arith)
bit_and-split (suc a) b = simp bit_and-bitwise (
    omega (
      arith,
      digits-enough (λ _. zero) min a (suc a / 2) (suc a / 2) (b / 2) (omega arith) (omega arith),
    ))

bit_or-split : (a b : ℕ) → bit_or a b ≡ bit_or (a / 2) (b / 2) * 2 + max (a % 2) (b % 2)
bit_or-split zero b = simp bit_or-bitwise (omega arith)
bit_or-split (suc a) b = simp bit_or-bitwise (
    omega (
      arith,
      digits-enough (λ c. c) max a (suc a / 2) (suc a / 2) (b / 2) (omega arith) (omega arith),
    ))

pub pow-pos : (k : ℕ) → 0 < 2 ^ k
pow-pos zero = omega arith
pow-pos (suc k) = omega (arith, pow-pos k, pow-suc 2 k)

pub mod_double : (a m : ℕ) → 0 < m → a % (m * 2) ≡ a / 2 % m * 2 + a % 2
mod_double a m h =
    rw
      (
        mod-eq-sub-mul-div a (m * 2),
        mod-eq-sub-mul-div (a / 2) m,
        mul_comm m 2,
        ← div-div-eq-div-mul a 2 m,
      )
      (omega arith)

and-zero_below : (n a : ℕ) → a ≤ n → bit_and a 0 ≡ 0
and-zero_below n zero h = refl
and-zero_below zero (suc a) h = absurd (omega arith)
and-zero_below (suc n) (suc a) h =
    omega (arith, bit_and-split (suc a) 0, and-zero_below n (suc a / 2) (omega arith))

or-zero_below : (n a : ℕ) → a ≤ n → bit_or a 0 ≡ a
or-zero_below n zero h = refl
or-zero_below zero (suc a) h = absurd (omega arith)
or-zero_below (suc n) (suc a) h =
    omega (arith, bit_or-split (suc a) 0, or-zero_below n (suc a / 2) (omega arith))

-- `x & (2^k - 1)` is `x % 2^k`.
pub bit_and-mask : (k a : ℕ) → bit_and a (2 ^ k - 1) ≡ a % 2 ^ k
bit_and-mask zero a = omega (arith, and-zero_below a a (omega arith))
bit_and-mask (suc k) a =
    let h = pow-pos k in
    let half : (2 ^ suc k - 1) / 2 ≡ 2 ^ k - 1 = omega (arith, pow-suc 2 k, h) in
    let odd : (2 ^ suc k - 1) % 2 ≡ 1 = omega (arith, pow-suc 2 k, h) in
    let double = mod_double a (2 ^ k) h in
    rw (bit_and-split a (2 ^ suc k - 1), half, odd, bit_and-mask k (a / 2), pow-suc 2 k, double)
      (omega arith)

-- `(hi << k) | lo` is `hi * 2^k + lo`, where `lo` has at most `k` bits.
pub bit_or-fields : (k hi lo : ℕ) → lo < 2 ^ k → bit_or (hi * 2 ^ k) lo ≡ hi * 2 ^ k + lo
bit_or-fields zero hi lo h =
    let none_left : lo ≡ 0 = omega arith in
    rw (none_left) (omega (arith, or-zero_below (hi * 2 ^ 0) (hi * 2 ^ 0) (omega arith)))
bit_or-fields (suc k) hi lo h =
    let scaled : hi * 2 ^ suc k ≡ hi * (2 ^ k * 2) = ap (λ t. hi * t) (pow-suc 2 k) in
    let half : hi * 2 ^ suc k / 2 ≡ hi * 2 ^ k = omega (arith, scaled) in
    let even : hi * 2 ^ suc k % 2 ≡ 0 = omega (arith, scaled) in
    rw (bit_or-split (hi * 2 ^ suc k) lo, half, even)
      (omega (arith, bit_or-fields k hi (lo / 2) (omega (arith, pow-suc 2 k)), scaled))

or_comm-below : (n a b : ℕ) → a ≤ n → b ≤ n → bit_or a b ≡ bit_or b a
or_comm-below zero a b h k =
    let e : a ≡ 0 = omega arith in let e' : b ≡ 0 = omega arith in rw (e, e') refl
or_comm-below (suc n) a b h k = omega (
  arith,
  bit_or-split a b,
  bit_or-split b a,
  or_comm-below n (a / 2) (b / 2) (omega arith) (omega arith),
)

-- `lo | (hi << k)` likewise.
pub bit_or-fields_low : (k hi lo : ℕ) → lo < 2 ^ k → bit_or lo (hi * 2 ^ k) ≡ hi * 2 ^ k + lo
bit_or-fields_low k hi lo h =
    let flip = or_comm-below (lo + hi * 2 ^ k) lo (hi * 2 ^ k) (omega arith) (omega arith) in
    omega (arith, flip, bit_or-fields k hi lo h)

-- `x & ~7` in 64 bits.
pub bit_and-words : (a : ℕ) → a < 2 ^ 64 → bit_and a (2 ^ 64 - 8) ≡ a / 8 * 8
bit_and-words a h = omega (
  arith,
  bit_and-split a (2 ^ 64 - 8),
  bit_and-split (a / 2) (2 ^ 63 - 4),
  bit_and-split (a / 2 / 2) (2 ^ 62 - 2),
  bit_and-mask 61 (a / 2 / 2 / 2),
)

pub dvd-pow : (k n : ℕ) → k ≤ n → 2 ^ k ∣ 2 ^ n
dvd-pow k zero h = let e : k ≡ 0 = omega arith in rw e (dvd_refl 1)
dvd-pow k (suc n) h = elim (dec_lt n k) [
  | yes p ↦ let e : k ≡ suc n = omega arith in rw e (dvd_refl (2 ^ suc n))
  | no p ↦ rw (pow-suc 2 n) (dvd-mul_right_of_dvd (2 ^ k) (dvd-pow k n (omega arith)) 2)
]

-- Low bits of low bits.
pub mod-mod_pow : (k n a : ℕ) → k ≤ n → a % 2 ^ n % 2 ^ k ≡ a % 2 ^ k
mod-mod_pow k n a h = mod-mod_of_dvd (2 ^ k) a (dvd-pow k n h)
