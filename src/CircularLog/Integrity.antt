-- ===== src/CircularLog/Integrity.antt =====
-- What `is_valid` and `get_item` (circular_log_impl.h) promise a reader of the log.
use enso_eval.Base.{
  ℕ, ◌+◌, ◌-◌, ◌*◌, ◌%◌, ◌^◌, ◌≤◌, ◌<◌, ◌≡◌, ◌≢◌, refl, arith, sym, ◌∙◌, ap, true, some, leb→le,
  sub64, ne→==, ==_refl,
}
use native.Mathlib.Nat.{mod-add-mod, mod-mod}
use enso_eval.Base.Bits.{bit_and-mask, mod-mod_pow}
use enso_eval.CircularLog.Defs.{Log, position, load, store, item_size, write, is_valid, allocate}
use enso_eval.CircularLog.Bounds.{IsValid, mod_ne, position-mod, exponent_small}
use enso_eval.CircularLog.Push.{Pushed, allocate-Pushed}

-- The offset that `push_tail` hands out for the absolute address `a`.
abbrev pub offset_of : ℕ → ℕ
offset_of a = a % 2 ^ 48

pub position-offset_of :
    {k : ℕ} {l : Log} → IsValid k l → k ≤ 48 → (a : ℕ) → position l (offset_of a) ≡ a % l.size
position-offset_of {k} {l} v h a = rw (position-mod v (offset_of a), v.power) (mod-mod_pow k 48 a h)

-- Appending to the log: items are pushed, and words behind `base` are filled in.
pub data Grown (k base : ℕ) (l : Log) : Log → Type 0 where
  here : Grown k base l l
  push : {m m' : Log} (n : ℕ) → Grown k base l m → 8 ≤ n → Pushed k n m m' → Grown k base l m'
  fill :
      {m : Log} (address v : ℕ)
      → Grown k base l m
      → base ≤ address
      → address < m.tail
      → Grown k base l (store m address v)

Grown-tail : {k base : ℕ} {l m : Log} → Grown k base l m → (l.tail ≤ m.tail) × (m.size ≡ l.size)
unfolding store
Grown-tail here = (omega arith, refl)
Grown-tail (push n g q p) =
    let (le, same) = Grown-tail g in (omega (arith, le, p.advanced), p.same_size ∙ same)
Grown-tail (fill address v g q r) = Grown-tail g

-- A word below `base` stays as it was while the tail is at most `size` past it.
pub Grown-intact :
    {k base : ℕ} {l m : Log}
    → Grown k base l m
    → base ≤ l.tail
    → (w : ℕ) → w < base
    → m.tail ≤ w + l.size
    → m.mem (w % l.size) ≡ l.mem (w % l.size)
unfolding store
Grown-intact here b w p q = refl
Grown-intact {l = l} (push {m} n g r d) b w p q =
    let (le, same) = Grown-tail g in
    let away = mod_ne l.size w m.tail (omega arith) (omega (arith, d.advanced)) in
    let away' : w % l.size ≢ m.tail % m.size = rw same away in
    d.others (w % l.size) away' ∙ Grown-intact g b w p (omega (arith, d.advanced))
Grown-intact {l = l} (fill {m} address v g r s) b w p q =
    let (le, same) = Grown-tail g in
    let away = mod_ne l.size w address (omega arith) (omega arith) in
    rw (same, ne→== (address % l.size) (w % l.size) (λ i. away (sym i))) (Grown-intact g b w p q)

-- `is_valid` on an offset that was handed out: the tail is at most `size` past the item, provided
-- it has not gone a whole 48-bit lap past it.
pub is_valid-near :
    (l : Log) (a : ℕ)
    → a ≤ l.tail
    → l.tail < a + 2 ^ 48
    → l.tail < 2 ^ 64
    → is_valid l (offset_of a) ≡ true
    → l.tail ≤ a + l.size
unfolding is_valid
is_valid-near l a p q r h =
    let near = leb→le _ _ h in
    let masked = bit_and-mask 48 (sub64 l.tail (offset_of a)) in
    let distance : sub64 l.tail (offset_of a) % 2 ^ 48 ≡ l.tail - a = omega arith in
    omega (arith, near, masked, distance)

-- An item that `is_valid` accepts is intact: whatever was pushed and filled in behind the item
-- since, as long as the tail has not gone a whole 48-bit lap past it, every word of the item, its
-- header included, is what it was when the log stood at `l`.
pub is_valid-intact :
    {k : ℕ} (a n : ℕ) (l m : Log)
    → Grown k (a + n) l m
    → a + n ≤ l.tail
    → m.tail < a + 2 ^ 48
    → m.tail < 2 ^ 64
    → is_valid m (offset_of a) ≡ true
    → (w : ℕ) → a ≤ w
    → w < a + n
    → m.mem (w % l.size) ≡ l.mem (w % l.size)
is_valid-intact a n l m g b lap word h w p q =
    let (le, same) = Grown-tail g in
    Grown-intact g b w q (omega (arith, same, is_valid-near m a (omega arith) lap word h))

-- The header of an item, through its offset.
item_size-header :
    {k : ℕ} {l : Log} → IsValid k l → (a : ℕ) → item_size l (offset_of a) ≡ l.mem (a % l.size)
unfolding item_size load
item_size-header {k} {l} v a =
    let small : k ≤ 48 = exponent_small k l v in
    rw (position-offset_of v small a) (ap l.mem (mod-mod a l.size))

-- Where word `j` of an item lies.
word_address :
    {k : ℕ} {l : Log}
    → IsValid k l
    → (a j : ℕ) → (position l (offset_of a) + 8 + 8 * j) % l.size ≡ (a + (8 + 8 * j)) % l.size
word_address {k} {l} v a j = rw (position-offset_of v (exponent_small k l v) a) (
    let regroup : a % l.size + 8 + 8 * j ≡ a % l.size + (8 + 8 * j) = omega arith in
    rw regroup (mod-add-mod a l.size (8 + 8 * j)))

-- A write to the first word behind the `8 * j` data bytes of an item replaces the header there.
item_size-write :
    {k : ℕ} {l : Log}
    → IsValid k l
    → (a j v : ℕ) → item_size (write l (offset_of a) j v) (offset_of (a + (8 + 8 * j))) ≡ v
unfolding item_size write store load
item_size-write {k} {l} v a j w = rw (
  word_address v a j,
  position-offset_of v (exponent_small k l v) (a + (8 + 8 * j)),
  mod-mod (a + (8 + 8 * j)) l.size,
  ==_refl ((a + (8 + 8 * j)) % l.size),
)

-- `get_item` reports eight bytes more than `allocate` was asked for, and these are not the item's:
-- of two items allocated one after the other in a valid log with room for both, the first one's
-- reported length is its requested length plus 8, and a write to the last word that this length
-- covers replaces the second item's header.
pub get_item_overruns :
    {k : ℕ} (j n : ℕ) (l : Log) {o o' : ℕ} {l' l'' : Log}
    → IsValid k l
    → 8 * j + n + 32 ≤ l.size
    → l.tail + l.size + l.size < 2 ^ 64
    → allocate l (8 * j) ≡ some (o, l')
    → allocate l' n ≡ some (o', l'')
    → (item_size l'' o ≡ 8 * j + 8)
      × (item_size l'' o' ≡ n + 8)
      × ((v : ℕ) → item_size (write l'' o j v) o' ≡ v)
get_item_overruns {k} j n l {l' = l'} {l''} v fit wrap e e' =
    let (first, d) = allocate-Pushed k (8 * j) l v (omega arith) (omega arith) e in
    let (second, d') =
      allocate-Pushed k n l' d.valid (omega (arith, d.same_size))
        (omega (arith, d.same_size, d.advanced)) e' in
    let same : l''.size ≡ l.size = d'.same_size ∙ d.same_size in
    let apart =
      mod_ne l.size l.tail l'.tail (omega (arith, d.advanced)) (omega (arith, d.advanced)) in
    let apart' : l.tail % l.size ≢ l'.tail % l'.size = rw d.same_size apart in
    let next : l'.tail ≡ l.tail + (8 + 8 * j) = omega (arith, d.advanced) in
    let old = d'.others (l.tail % l.size) apart' in
    (
      rw (first, item_size-header d'.valid l.tail, same, old) d.header,
      rw (second, item_size-header d'.valid l'.tail, d'.same_size) d'.header,
      λ w. rw (first, second, next) (item_size-write d'.valid l.tail j w),
    )
