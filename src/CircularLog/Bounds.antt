-- ===== src/CircularLog/Bounds.antt =====
-- The invariant of the log (circular_log_impl.h): the region from `head_` to `tail_` fits into the
-- pool and is tiled by items.
use enso_eval.Base.{ℕ, ◌+◌, ◌-◌, ◌%◌, ◌^◌, ◌≤◌, ◌<◌, ◌≡◌, ◌≢◌, arith, dec_lt}
use enso_eval.Base.Bits.{bit_and-mask, dvd-pow, pow-pos}
use native.Mathlib.Nat.{div-add-mod, le_of_dvd}
use enso_eval.CircularLog.Defs.{Log, position}

-- The items from `h` to `t`: each header holds the distance to the next one.
pub data Items (mem : ℕ → ℕ) (size : ℕ) : ℕ → ℕ → Type 0 where
  done : {t : ℕ} → Items mem size t t
  item :
      {h t : ℕ} (n : ℕ) → mem (h % size) ≡ n → 8 ≤ n → Items mem size (h + n) t → Items mem size h t

-- `k` is the logarithm of the pool's size.
pub record IsValid (k : ℕ) (l : Log) : Type 0 where
  pub power : l.size ≡ 2 ^ k
  pub small : l.size < 2 ^ 47
  pub masked : l.mask ≡ l.size - 1
  pub ordered : l.head ≤ l.tail
  pub fits : l.tail ≤ l.head + l.size
  pub items : Items l.mem l.size l.head l.tail

-- Two addresses less than `m` apart are different words of the pool.
pub mod_ne : (m a b : ℕ) → a < b → b < a + m → a % m ≢ b % m
mod_ne m a b p q e = grind (arith, div-add-mod a m, div-add-mod b m)

pub position-mod : {k : ℕ} {l : Log} → IsValid k l → (o : ℕ) → position l o ≡ o % l.size
unfolding position
position-mod {k} {l} v o = rw (v.masked, v.power) (bit_and-mask k o)

pub exponent_small : (k : ℕ) (l : Log) → IsValid k l → k ≤ 48
exponent_small k l v = elim (dec_lt 48 k) [
  | yes p ↦
      let large = le_of_dvd (pow-pos k) (dvd-pow 48 k (omega arith)) in
      absurd (omega (arith, v.power, v.small, large))
  | no p ↦ omega arith
]
