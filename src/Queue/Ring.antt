-- ===== src/Queue/Ring.antt =====
-- What a ring holds (queue.h), as a list from its oldest item to its newest.
use enso_eval.Base.{
  ℕ, zero, suc, ◌+◌, ◌-◌, ◌^◌, ◌<◌, ◌≡◌, ◌≢◌, refl, ap, arith, List, [], ◌∷◌, ◌++◌, length, get_or,
  set, get_or-set, leb, if◌then◌else◌,
}
use enso_eval.Queue.{following, ring_size}

-- The ring's index `n` places after `h`.
abbrev pub advance : ℕ → ℕ → ℕ → ℕ
advance capacity h n = if leb capacity (h + n) then h + n - capacity else h + n

-- How many places lie between head and tail.
abbrev pub count : ℕ → ℕ → ℕ → ℕ
count capacity h t = if leb h t then t - h else t + capacity - h

pub record IsRing (capacity h t size : ℕ) : Type 0 where
  pub narrow : capacity < 2 ^ 63
  pub some_place : 0 < capacity
  pub head_inside : h < capacity
  pub tail_inside : t < capacity
  pub as_big : size ≡ capacity

pub following-advance :
    {capacity : ℕ} (h : ℕ)
    → capacity < 2 ^ 63
    → h < capacity
    → following capacity h ≡ advance capacity h 1
unfolding following
following-advance h w p = ground arith

pub ring_size-count :
    {capacity h t s : ℕ} → IsRing capacity h t s → ring_size capacity h t ≡ count capacity h t
unfolding ring_size
ring_size-count r = ground (arith, r.narrow, r.head_inside, r.tail_inside)

module _ {A : Type 0} (capacity : ℕ) (blank : A) where
  -- The `n` items from index `h` on.
  unfoldable pub span : List A → ℕ → ℕ → List A
  span xs h zero = []
  span xs h (suc n) = get_or xs h blank ∷ span xs (advance capacity h 1) n

  pub length-span : (xs : List A) (h n : ℕ) → length (span xs h n) ≡ n
  unfolding span
  length-span xs h zero = refl
  length-span xs h (suc n) = ap suc (length-span xs (advance capacity h 1) n)

  advance_more :
      (h n : ℕ)
      → h < capacity
      → suc n < capacity
      → advance capacity (advance capacity h 1) n ≡ advance capacity h (suc n)
  advance_more h n p q = ground arith

  span-set :
      (xs : List A) (h n i : ℕ) (v : A)
      → length xs ≡ capacity
      → h < capacity
      → n < capacity
      → i < capacity
      → ((k : ℕ) → k < n → i ≢ advance capacity h k)
      → span (set xs i v) h n ≡ span xs h n
  unfolding span
  span-set xs h zero i v size p q inside out = refl
  span-set xs h (suc n) i v size p q inside out =
      let rest =
        span-set xs (advance capacity h 1) n i v size (ground arith) (omega arith) inside
          (λ k lt. rw (advance_more h k p (omega arith)) (out (suc k) (omega arith))) in
      let first = get_or-set xs i h v blank (omega arith) in
      ground (arith, rest, first, out 0 (omega arith))

  span-last :
      (xs : List A) (h n : ℕ)
      → h < capacity
      → suc n < capacity
      → span xs h (suc n) ≡ span xs h n ++ get_or xs (advance capacity h n) blank ∷ []
  unfolding span
  span-last xs h zero p q = ground arith
  span-last xs h (suc n) p q =
      let rest = span-last xs (advance capacity h 1) n (ground arith) (omega arith) in
      rw (rest, advance_more h n p (omega arith)) refl

  -- A write behind the last item of the ring appends it.
  pub span-snoc :
      (xs : List A) (h n : ℕ) (v : A)
      → length xs ≡ capacity
      → h < capacity
      → suc n < capacity
      → span (set xs (advance capacity h n) v) h (suc n) ≡ span xs h n ++ v ∷ []
  span-snoc xs h n v size p q =
      let ys = set xs (advance capacity h n) v in
      let inside : advance capacity h n < capacity = ground arith in
      let same =
        span-set xs h n (advance capacity h n) v size p (omega arith) inside
          (λ k lt. ground arith) in
      let written : get_or ys (advance capacity h n) blank ≡ v =
        ground (arith, get_or-set xs (advance capacity h n) (advance capacity h n) v blank) in
      rw (span-last ys h n p q, same, written) refl

  pub span-push :
      (xs : List A) (h t m n : ℕ) (v : A)
      → t ≡ advance capacity h n
      → m ≡ suc n
      → length xs ≡ capacity
      → h < capacity
      → suc n < capacity
      → span (set xs t v) h m ≡ span xs h n ++ v ∷ []
  span-push xs h t m n v e e' size p q = rw (e, e') (span-snoc xs h n v size p q)

  pub span-pop :
      (xs : List A) (h h' m n : ℕ)
      → h' ≡ advance capacity h 1
      → m ≡ suc n
      → span xs h m ≡ get_or xs h blank ∷ span xs h' n
  unfolding span
  span-pop xs h h' m n e e' = rw (e, e') refl
