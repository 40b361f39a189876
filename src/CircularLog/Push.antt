-- ===== src/CircularLog/Push.antt =====
-- `push_tail` and `allocate` (circular_log_impl.h) keep the invariant and always succeed.
use enso_eval.Base.{
  ℕ, zero, suc, ◌+◌, ◌%◌, ◌^◌, ◌≤◌, ◌<◌, ◌≡◌, ◌≢◌, refl, arith, sym, ◌∙◌, ap, inl, inr, some, none,
  Option, ltb, Bool-cases, tests, add64, ◌==◌, if◌then◌else◌, ne→==, ==_refl,
}
use native.Mathlib.Nat.{mod-lt, mod-eq_of_lt}
use mathlib.Core.Path.{subst}
use enso_eval.Base.Bits.{bit_and-mask, pow-pos}
use enso_eval.CircularLog.Defs.{
  Log, position, load, item_size, pop_head, pop_until, push_tail, allocate,
}
use enso_eval.CircularLog.Bounds.{Items, done, item, IsValid, mod_ne, position-mod}

Items-le : {mem : ℕ → ℕ} {size h t : ℕ} → Items mem size h t → h ≤ t
Items-le done = omega arith
Items-le (item n e p rest) = omega (arith, Items-le rest)

Items-uncons :
    {mem : ℕ → ℕ} {size h t : ℕ}
    → Items mem size h t
    → h < t
    → (8 ≤ mem (h % size)) × (h + mem (h % size) ≤ t) × Items mem size (h + mem (h % size)) t
Items-uncons done p = absurd (omega arith)
Items-uncons (item n e q rest) p = rw e (q, Items-le rest, rest)

-- What `pop_until` has done when it stops.
record Popped (k v : ℕ) (l : Log) (h : ℕ) : Type 0 where
  grown : l.head ≤ h
  room : v ≤ h + l.size
  valid : IsValid k (record l { head = h })

size-pos : {k : ℕ} {l : Log} → IsValid k l → 0 < l.size
size-pos {k} v = rw v.power (pow-pos k)

position_below : {k : ℕ} {l : Log} → IsValid k l → (o : ℕ) → position l o % l.size ≡ o % l.size
position_below v o = rw (position-mod v o) (mod-eq_of_lt (mod-lt o (size-pos v)))

pop_head-IsValid :
    {k : ℕ} {l : Log}
    → IsValid k l
    → l.head < l.tail
    → l.tail < 2 ^ 64
    → (pop_head l ≡ record l { head = l.head + l.mem (l.head % l.size) })
      × IsValid k (record l { head = l.head + l.mem (l.head % l.size) })
unfolding pop_head item_size load
pop_head-IsValid {k} {l} v p q =
    let step = Items-uncons v.items p in
    let moved : add64 l.head (l.mem (position l l.head % l.size))
        ≡ l.head + l.mem (l.head % l.size) =
      rw (position_below v l.head) (omega (arith, step.1)) in
    (
      ap (λ h. record l { head = h }) moved,
      record {
        power = v.power;
        small = v.small;
        masked = v.masked;
        ordered = step.1;
        fits = omega (arith, v.fits);
        items = step.2;
      },
    )

pop_until_lem :
    (fuel k v : ℕ) (l : Log)
    → IsValid k l
    → l.tail < l.head + fuel
    → v ≤ l.tail + l.size
    → l.tail + l.size < 2 ^ 64
    → (h : ℕ) × (pop_until fuel v l ≡ some (record l { head = h })) × Popped k v l h
unfolding pop_until
pop_until_lem zero k v l inv f p q = absurd (omega (arith, inv.ordered))
pop_until_lem (suc fuel) k v l inv f p q = elim (Bool-cases (ltb (add64 l.head l.size) v)) [
  | inl more ↦
      let below : l.head < l.tail = omega (tests, more, inv.ordered) in
      let (popped, inv') = pop_head-IsValid inv below (omega arith) in
      let step = Items-uncons inv.items below in
      let (h, e, d) =
        pop_until_lem fuel k v (record l { head = l.head + l.mem (l.head % l.size) }) inv'
          (omega (arith, step.0)) p q in
      (
        h,
        rw (more, popped) e,
        record { grown = omega (arith, d.grown); room = d.room; valid = d.valid },
      )
  | inr enough ↦ (
    l.head,
    rw enough,
    record { grown = omega arith; room = omega (tests, enough, inv.ordered); valid = inv },
  )
]

Items-store :
    {mem : ℕ → ℕ} {size h t : ℕ} (p v : ℕ)
    → Items mem size h t
    → ((a : ℕ) → h ≤ a → a < t → a % size ≢ p)
    → Items (λ a. if p == a then v else mem a) size h t
Items-store p v done away = done
Items-store {mem} {size} {h} p v (item n e q rest) away =
    let below = Items-le rest in
    item n (rw (ne→== p (h % size) (λ i. away h (omega arith) (omega arith) (sym i))) e) q
      (Items-store p v rest (λ a x y. away a (omega arith) y))

Items-snoc :
    {mem : ℕ → ℕ} {size h t : ℕ} (n : ℕ)
    → Items mem size h t
    → mem (t % size) ≡ n
    → 8 ≤ n
    → Items mem size h (t + n)
Items-snoc n done e q = item n e q done
Items-snoc {t = t} n (item m f r rest) e q = item m f r (Items-snoc n rest e q)

ap₃ :
    {A B C : Type 0} {D : Type 0} (f : A → B → C → D) {a a' : A} {b b' : B} {c c' : C}
    → a ≡ a'
    → b ≡ b'
    → c ≡ c'
    → f a b c ≡ f a' b' c'
ap₃ f p q r = λ i. f (p i) (q i) (r i)

-- What a push of an item of `n` bytes, its header included, does to the log.
pub record Pushed (k n : ℕ) (l l' : Log) : Type 0 where
  pub valid : IsValid k l'
  pub advanced : l'.tail ≡ l.tail + n
  pub evicted : l.head ≤ l'.head
  pub same_size : l'.size ≡ l.size
  pub header : l'.mem (l.tail % l.size) ≡ n
  pub others : (a : ℕ) → a ≢ l.tail % l.size → l'.mem a ≡ l.mem a

-- The log after `pop_until` stopped at head `h`.
abbrev appended : Log → ℕ → ℕ → Log
appended l n h = record l {
  head = h;
  mem = λ a. if l.tail % l.size == a then n else l.mem a;
  tail = l.tail + n;
}

appended-Pushed :
    (k n h : ℕ) (l : Log) → 8 ≤ n → Popped k (l.tail + (8 + n)) l h → Pushed k n l (appended l n h)
appended-Pushed k n h l q d =
    let inv = d.valid in
    let away : (a : ℕ) → h ≤ a → a < l.tail → a % l.size ≢ l.tail % l.size =
      λ a x y. mod_ne l.size a l.tail y (omega (arith, d.room)) in
    record {
      valid = record {
        power = inv.power;
        small = inv.small;
        masked = inv.masked;
        ordered = omega (arith, inv.ordered);
        fits = omega (arith, d.room);
        items = Items-snoc n (Items-store (l.tail % l.size) n inv.items away) (rw ==_refl) q;
      };
      advanced = refl;
      evicted = d.grown;
      same_size = refl;
      header = rw ==_refl;
      others = λ a ne. rw (ne→== (l.tail % l.size) a (λ i. ne (sym i)));
    }

-- `push_tail` from where its loop stops.
push_tail-appended :
    (k n h : ℕ) (l : Log)
    → IsValid k (record l { head = h })
    → l.tail + (8 + n) < 2 ^ 64
    → pop_until (suc l.size) (l.tail + (8 + n)) l ≡ some (record l { head = h })
    → push_tail l n ≡ some (l.tail % 2 ^ 48, appended l n h)
unfolding push_tail
push_tail-appended k n h l inv wrap e =
    let sum : add64 l.tail (8 + n) ≡ l.tail + (8 + n) = omega arith in
    let next : add64 l.tail n ≡ l.tail + n = omega arith in
    rw (sum, e, push_tail)
      (ap₃
        (λ o p t.
          some (o, record l { head = h; mem = λ a. if p == a then n else l.mem a; tail = t }))
        (bit_and-mask 48 l.tail) (position_below inv l.tail) next)

-- The loop of `push_tail` ends within the fuel, and the log stays well formed: on a valid log, for
-- an item that leaves room for another header and before the 64-bit tail runs out, `push_tail`
-- returns the low 48 bits of the old tail, moves the tail by the item's size, writes the header at
-- the old tail, changes no other word and only moves the head forward.
pub push_tail-total :
    (k n : ℕ) (l : Log)
    → IsValid k l
    → 8 ≤ n
    → n + 8 ≤ l.size
    → l.tail + l.size < 2 ^ 64
    → (l' : Log) × (push_tail l n ≡ some (l.tail % 2 ^ 48, l')) × Pushed k n l l'
push_tail-total k n l v q fit wrap =
    let (h, e, d) =
      pop_until_lem (suc l.size) k (l.tail + (8 + n)) l v (omega (arith, v.fits)) (omega arith)
        wrap in
    (
      appended l n h,
      push_tail-appended k n h l d.valid (omega arith) e,
      appended-Pushed k n h l q d,
    )

pub allocate-total :
    (k n : ℕ) (l : Log)
    → IsValid k l
    → n + 16 ≤ l.size
    → l.tail + l.size < 2 ^ 64
    → (l' : Log) × (allocate l n ≡ some (l.tail % 2 ^ 48, l')) × Pushed k (n + 8) l l'
unfolding allocate
allocate-total k n l v fit wrap = push_tail-total k (n + 8) l v (omega arith) (omega arith) wrap

-- What an allocation that returned did.
abbrev Allocated : ℕ → ℕ → Log → Option (ℕ × Log) → Type 0
Allocated k n l none = ⊥
Allocated k n l (some (o, l')) = (o ≡ l.tail % 2 ^ 48) × Pushed k n l l'

pub allocate-Pushed :
    (k n : ℕ) (l : Log) {o : ℕ} {l' : Log}
    → IsValid k l
    → n + 16 ≤ l.size
    → l.tail + l.size < 2 ^ 64
    → allocate l n ≡ some (o, l')
    → (o ≡ l.tail % 2 ^ 48) × Pushed k (n + 8) l l'
allocate-Pushed k n l v fit wrap h =
    let (l', e, d) = allocate-total k n l v fit wrap in
    subst (Allocated k (n + 8) l) (sym e ∙ h) (refl, d)
