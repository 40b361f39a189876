-- ===== src/Datagram/Memory.antt =====
-- The bytes of a packet buffer: words in little-endian order, as the reader and the builder of
-- datagram_protocol.h store them through pointers, and memory copies.
use enso_eval.Base.{
  ℕ, zero, suc, ◌+◌, ◌*◌, ◌/◌, ◌%◌, ◌^◌, ◌≤◌, ◌<◌, ◌≡◌, ◌≢◌, refl, ap, ◌∙◌, List, [], ◌∷◌, ◌==◌,
  if◌then◌else◌, arith,
}
use native.Mathlib.Nat.{pow-suc, div-div-eq-div-mul, mod-eq-sub-mul-div, mul_comm}

-- The byte at each offset.
abbrev pub Memory : Type 0
Memory = ℕ → ℕ

unfoldable pub put : Memory → ℕ → ℕ → Memory
put m a v i = if i == a then v else m i

-- A store and a load of `n` bytes.
unfoldable pub store : ℕ → Memory → ℕ → ℕ → Memory
store zero m a v = m
store (suc n) m a v = store n (put m a (v % 256)) (a + 1) (v / 256)

unfoldable pub load : ℕ → Memory → ℕ → ℕ
load zero m a = 0
load (suc n) m a = m a + 256 * load n m (a + 1)

-- `memcpy` of `n` bytes of `src` from its offset `s` on.
unfoldable pub copy : ℕ → Memory → ℕ → Memory → ℕ → Memory
copy zero m a src s = m
copy (suc n) m a src s = copy n (put m a (src s)) (a + 1) src (s + 1)

-- The `n` bytes at `a`.
unfoldable pub bytes : ℕ → Memory → ℕ → List ℕ
bytes zero m a = []
bytes (suc n) m a = m a ∷ bytes n m (a + 1)

-- Two memories with the same bytes at `a` and the `n - 1` offsets behind.
abbrev pub Agree : ℕ → Memory → Memory → ℕ → Type 0
Agree n m m' a = (i : ℕ) → a ≤ i → i < a + n → m i ≡ m' i

pub load-Agree : (n : ℕ) (m m' : Memory) (a : ℕ) → Agree n m m' a → load n m a ≡ load n m' a
unfolding load
load-Agree zero m m' a h = refl
load-Agree (suc n) m m' a h =
    let here = h a (omega arith) (omega arith) in
    let rest = load-Agree n m m' (a + 1) (λ i p q. h i (omega arith) (omega arith)) in
    omega (arith, here, rest)

pub bytes-Agree : (n : ℕ) (m m' : Memory) (a : ℕ) → Agree n m m' a → bytes n m a ≡ bytes n m' a
unfolding bytes
bytes-Agree zero m m' a h = refl
bytes-Agree (suc n) m m' a h =
    let here = h a (omega arith) (omega arith) in
    let rest = bytes-Agree n m m' (a + 1) (λ i p q. h i (omega arith) (omega arith)) in
    cc (here, rest)

pub put-other : (m : Memory) (a v i : ℕ) → i ≢ a → put m a v i ≡ m i
unfolding put
put-other m a v i h = ground arith

pub put-at : (m : Memory) (a v : ℕ) → put m a v a ≡ v
unfolding put
put-at m a v = ground arith

pub store-below : (n : ℕ) (m : Memory) (a v i : ℕ) → i < a → store n m a v i ≡ m i
unfolding store
store-below zero m a v i h = refl
store-below (suc n) m a v i h =
    store-below n (put m a (v % 256)) (a + 1) (v / 256) i (omega arith)
    ∙ put-other m a (v % 256) i (λ e. omega arith)

pub store-above : (n : ℕ) (m : Memory) (a v i : ℕ) → a + n ≤ i → store n m a v i ≡ m i
unfolding store
store-above zero m a v i h = refl
store-above (suc n) m a v i h =
    store-above n (put m a (v % 256)) (a + 1) (v / 256) i (omega arith)
    ∙ put-other m a (v % 256) i (λ e. omega arith)

pub copy-below :
    (n : ℕ) (m : Memory) (a : ℕ) (src : Memory) (s i : ℕ) → i < a → copy n m a src s i ≡ m i
unfolding copy
copy-below zero m a src s i h = refl
copy-below (suc n) m a src s i h =
    copy-below n (put m a (src s)) (a + 1) src (s + 1) i (omega arith)
    ∙ put-other m a (src s) i (λ e. omega arith)

pub copy-above :
    (n : ℕ) (m : Memory) (a : ℕ) (src : Memory) (s i : ℕ) → a + n ≤ i → copy n m a src s i ≡ m i
unfolding copy
copy-above zero m a src s i h = refl
copy-above (suc n) m a src s i h =
    copy-above n (put m a (src s)) (a + 1) src (s + 1) i (omega arith)
    ∙ put-other m a (src s) i (λ e. omega arith)

-- The lowest byte of a word and the rest.
split_byte : (v p : ℕ) → v % (p * 256) ≡ v % 256 + 256 * (v / 256 % p)
split_byte v p =
    rw
      (
        mod-eq-sub-mul-div v (p * 256),
        mod-eq-sub-mul-div (v / 256) p,
        mul_comm p 256,
        ← div-div-eq-div-mul v 256 p,
      )
      (omega arith)

-- A load reads back the low bytes of what was stored.
pub load-store : (n : ℕ) (m : Memory) (a v : ℕ) → load n (store n m a v) a ≡ v % 256 ^ n
unfolding load store
load-store zero m a v = omega arith
load-store (suc n) m a v =
    let low =
      store-below n (put m a (v % 256)) (a + 1) (v / 256) a (omega arith) ∙ put-at m a (v % 256) in
    let high = load-store n (put m a (v % 256)) (a + 1) (v / 256) in
    omega (arith, low, high, split_byte v (256 ^ n), ap (λ (t : ℕ). v % t) (pow-suc 256 n))

-- The first bytes of a copy are those of its source.
pub bytes-copy :
    (k n : ℕ) (m : Memory) (a : ℕ) (src : Memory) (s : ℕ)
    → k ≤ n
    → bytes k (copy n m a src s) a ≡ bytes k src s
unfolding bytes copy
bytes-copy zero n m a src s h = refl
bytes-copy (suc k) zero m a src s h = absurd (omega arith)
bytes-copy (suc k) (suc n) m a src s h =
    let first =
      copy-below n (put m a (src s)) (a + 1) src (s + 1) a (omega arith) ∙ put-at m a (src s) in
    let rest = bytes-copy k n (put m a (src s)) (a + 1) src (s + 1) (omega arith) in
    cc (first, rest)
