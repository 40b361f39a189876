-- ===== src/Util.antt =====
-- Rounding (mica2/src/mica/util/roundup.h).
use enso_eval.Base.{
  ℕ, zero, suc, ◌+◌, ◌-◌, ◌*◌, ◌/◌, ◌%◌, ◌^◌, ◌≤◌, ◌<◌, ◌≡◌, refl, bit_and, add64, ltb, ltb→le,
  if◌then◌else◌, Bool-cases, inl, inr, arith,
}
use native.Mathlib.Nat.{add-zero}
use enso_eval.Base.Bits.{bit_and-words}

-- `roundup<8>(x)` in 64 bits.
unfoldable pub roundup8 : ℕ → ℕ
roundup8 x = bit_and (add64 x 7) (2 ^ 64 - 8)

-- Below the last word, the result is the least multiple of 8 that is not below `x`.
pub roundup8_bounds :
    (x : ℕ) → x + 7 < 2 ^ 64 → (x ≤ roundup8 x) × (roundup8 x < x + 8) × (roundup8 x % 8 ≡ 0)
unfolding roundup8
roundup8_bounds x h =
    let sum : add64 x 7 ≡ x + 7 = omega arith in rw (sum, bit_and-words (x + 7) h) (omega arith)

pub roundup8-div : (x : ℕ) → x + 7 < 2 ^ 64 → roundup8 x ≡ (x + 7) / 8 * 8
unfolding roundup8
roundup8-div x h = let sum : add64 x 7 ≡ x + 7 = omega arith in rw (sum, bit_and-words (x + 7) h)

-- `next_power_of_two_recursive` on `uint64_t`, on fuel: 64 rounds reach `1 << 63`.
unfoldable pub next_power_of_two_recursive : ℕ → ℕ → ℕ → ℕ
next_power_of_two_recursive zero x s = 2 ^ s
next_power_of_two_recursive (suc fuel) x s =
    let more = next_power_of_two_recursive fuel x (s + 1) in if ltb (2 ^ s) x then more else 2 ^ s

unfoldable pub next_power_of_two : ℕ → ℕ
unfolding next_power_of_two_recursive
next_power_of_two x = next_power_of_two_recursive 64 x 0

recursive_lem :
    (fuel x s : ℕ)
    → x ≤ 2 ^ (s + fuel)
    → (k : ℕ) × (next_power_of_two_recursive fuel x s ≡ 2 ^ k) × (x ≤ 2 ^ k)
unfolding next_power_of_two_recursive
recursive_lem zero x s h = (s, refl, rw (add-zero s) at h)
recursive_lem (suc fuel) x s h = elim (Bool-cases (ltb (2 ^ s) x)) [
  | inl more ↦
      let (k, e, big) = recursive_lem fuel x (s + 1) (rw (add-shift s fuel) at h) in
      (k, rw more e, big)
  | inr stop ↦ (s, rw stop refl, ltb→le (2 ^ s) x stop)
]
  where
    add-shift : (s fuel : ℕ) → s + suc fuel ≡ s + 1 + fuel
    add-shift s fuel = omega arith

-- A power of two that is not below `x`, up to 2^64.
pub next_power_of_two-le :
    (x : ℕ) → x ≤ 2 ^ 64 → (k : ℕ) × (next_power_of_two x ≡ 2 ^ k) × (x ≤ 2 ^ k)
unfolding next_power_of_two
next_power_of_two-le x h = recursive_lem 64 x 0 h
