-- ===== src/Queue/Fifo.antt =====
-- `Queue` and `SingleThreadedQueue` (queue.h) against first-in-first-out lists of items.
use enso_eval.Base.{
  ℕ, suc, ◌≡◌, ◌≢◌, ap, sym, ◌∙◌, ◌↔◌, ◌⊎◌, arith, List, [], ◌∷◌, ◌++◌, length, get_or, set,
  length-set, ◌==◌, Bool, true, false, none, some, Bool-cases, inl, inr, ==→eq, ==→ne,
}
use enso_eval.Queue.{
  Queue, following, lock_tail, unlock_tail, lock_head, unlock_head, enqueue_locked, enqueue,
  dequeue_locked, dequeue, approximate_size,
}
use enso_eval.Queue.Ring.{
  advance, count, IsRing, following-advance, ring_size-count, span, length-span, span-push,
  span-pop,
}

module _ {A : Type 0} (capacity : ℕ) (blank : A) where
  -- The items between `h` and `t`, the oldest first.
  abbrev pub between : ℕ → ℕ → List A → List A
  between h t xs = span capacity blank xs h (count capacity h t)

  abbrev pub held : Queue A → List A
  held q = between q.head q.tail q.items

  abbrev pub IsQueue : Queue A → Type 0
  IsQueue q = IsRing capacity q.head q.tail (length q.items)

  pub between-push :
      (h t : ℕ) (xs : List A) (v : A)
      → IsRing capacity h t (length xs)
      → following capacity t ≢ h
      → between h (following capacity t) (set xs t v) ≡ between h t xs ++ v ∷ []
  between-push h t xs v r room =
      let e = following-advance t r.narrow r.tail_inside in
      let more : count capacity h (following capacity t) ≡ suc (count capacity h t) =
        ground (arith, e, r.head_inside, r.tail_inside) in
      let here : t ≡ advance capacity h (count capacity h t) =
        ground (arith, r.head_inside, r.tail_inside) in
      span-push capacity blank xs h t _ _ v here more r.as_big r.head_inside
        (ground (arith, e, more, r.head_inside, r.tail_inside))

  pub IsRing-push :
      (h t : ℕ) (xs : List A) (v : A)
      → IsRing capacity h t (length xs)
      → IsRing capacity h (following capacity t) (length (set xs t v))
  IsRing-push h t xs v r = record {
    narrow = r.narrow;
    some_place = r.some_place;
    head_inside = r.head_inside;
    tail_inside = ground (arith, following-advance t r.narrow r.tail_inside, r.tail_inside);
    as_big = length-set xs t v ∙ r.as_big;
  }

  pub between-pop :
      (h t : ℕ) (xs : List A)
      → IsRing capacity h t (length xs)
      → h ≢ t
      → between h t xs ≡ get_or xs h blank ∷ between (following capacity h) t xs
  between-pop h t xs r some_item =
      let e = following-advance h r.narrow r.head_inside in
      let less : count capacity h t ≡ suc (count capacity (following capacity h) t) =
        ground (arith, e, r.head_inside, r.tail_inside) in
      span-pop capacity blank xs h _ _ _ e less

  pub between-none : (h t : ℕ) (xs : List A) → h ≡ t → between h t xs ≡ []
  unfolding span
  between-none h t xs e =
      let nothing : count capacity h t ≡ 0 = ground (arith, e) in
      ap (span capacity blank xs h) nothing

  pub IsRing-pop :
      (h t : ℕ) (xs : List A)
      → IsRing capacity h t (length xs)
      → IsRing capacity (following capacity h) t (length xs)
  IsRing-pop h t xs r = record {
    narrow = r.narrow;
    some_place = r.some_place;
    head_inside = ground (arith, following-advance h r.narrow r.head_inside, r.head_inside);
    tail_inside = r.tail_inside;
    as_big = r.as_big;
  }

  pub length-between : (h t : ℕ) (xs : List A) → length (between h t xs) ≡ count capacity h t
  length-between h t xs = length-span capacity blank xs h (count capacity h t)

  pub full-count :
      (h t : ℕ) (xs : List A)
      → IsRing capacity h t (length xs)
      → (following capacity t ≡ h) ↔ (suc (length (between h t xs)) ≡ capacity)
  full-count h t xs r =
      let e = following-advance t r.narrow r.tail_inside in
      let e' = length-between h t xs in
      (
        (λ f. ground (arith, e, e', f, r.head_inside, r.tail_inside)),
        (λ f. ground (arith, e, e', f, r.head_inside, r.tail_inside)),
      )

  relock_tail : (q : Queue A) → q.tail_lock ≡ 0 → record q { tail_lock = 0 } ≡ q
  relock_tail q free = sym (ap (λ n. record q { tail_lock = n }) free)

  relock_head : (q : Queue A) → q.head_lock ≡ 0 → record q { head_lock = 0 } ≡ q
  relock_head q free = sym (ap (λ n. record q { head_lock = n }) free)

  -- The queue with one more item.
  abbrev appended : Queue A → A → Queue A
  appended q v = record q { items = set q.items q.tail v; tail = following capacity q.tail }

  abbrev removed : Queue A → Queue A
  removed q = record q { head = following capacity q.head }

  enqueue-refuses :
      (mp mc : Bool) (q : Queue A) (v : A)
      → q.tail_lock ≡ 0
      → following capacity q.tail ≡ q.head
      → enqueue capacity blank mp mc q v ≡ some (false, q)
  unfolding enqueue lock_tail enqueue_locked unlock_tail
  enqueue-refuses true mc q v free e = ground (arith, relock_tail q free)
  enqueue-refuses false mc q v free e = ground arith

  enqueue-accepts :
      (mp mc : Bool) (q : Queue A) (v : A)
      → q.tail_lock ≡ 0
      → following capacity q.tail ≢ q.head
      → enqueue capacity blank mp mc q v ≡ some (true, appended q v)
  unfolding enqueue lock_tail enqueue_locked unlock_tail
  enqueue-accepts true mc q v free e = ground (arith, ap (λ z. appended z v) (relock_tail q free))
  enqueue-accepts false mc q v free e = ground arith

  dequeue-refuses :
      (mp mc : Bool) (q : Queue A)
      → q.head_lock ≡ 0
      → q.head ≡ q.tail
      → dequeue capacity blank mp mc q ≡ some (none, q)
  unfolding dequeue lock_head dequeue_locked unlock_head
  dequeue-refuses mp true q free e = ground (arith, relock_head q free)
  dequeue-refuses mp false q free e = ground arith

  dequeue-accepts :
      (mp mc : Bool) (q : Queue A)
      → q.head_lock ≡ 0
      → q.head ≢ q.tail
      → dequeue capacity blank mp mc q ≡ some (some (get_or q.items q.head blank), removed q)
  unfolding dequeue lock_head dequeue_locked unlock_head
  dequeue-accepts mp true q free e = ground (arith, ap removed (relock_head q free))
  dequeue-accepts mp false q free e = ground arith

  -- `enqueue` on a queue that no other producer has locked refuses an item only if the queue holds
  -- `capacity - 1`, and then changes nothing; otherwise it appends the item to those held.
  pub enqueue-appends :
      (mp mc : Bool) (q : Queue A) (v : A)
      → IsQueue q
      → q.tail_lock ≡ 0
      → ((suc (length (held q)) ≡ capacity) × (enqueue capacity blank mp mc q v ≡ some (false, q)))
        ⊎ ((q' : Queue A) × (enqueue capacity blank mp mc q v ≡ some (true, q'))
            × IsQueue q'
            × (suc (length (held q)) ≢ capacity)
            × (held q' ≡ held q ++ v ∷ []))
  enqueue-appends mp mc q v r free = elim (Bool-cases (following capacity q.tail == q.head)) [
    | inl e ↦
        let e' = ==→eq _ _ e in
        inl ((full-count q.head q.tail q.items r).0 e', enqueue-refuses mp mc q v free e')
    | inr e ↦
        let e' = ==→ne _ _ e in
        inr (
          appended q v,
          enqueue-accepts mp mc q v free e',
          IsRing-push q.head q.tail q.items v r,
          (λ f. e' ((full-count q.head q.tail q.items r).1 f)),
          between-push q.head q.tail q.items v r e',
        )
  ]

  -- `dequeue` on a queue that no other consumer has locked takes the oldest item held, and leaves the
  -- rest; on an empty queue it gives nothing and changes nothing.
  pub dequeue-takes :
      (mp mc : Bool) (q : Queue A)
      → IsQueue q
      → q.head_lock ≡ 0
      → ((held q ≡ []) × (dequeue capacity blank mp mc q ≡ some (none, q)))
        ⊎ ((v : A) × (q' : Queue A) × (dequeue capacity blank mp mc q ≡ some (some v, q'))
            × IsQueue q'
            × (held q ≡ v ∷ held q'))
  dequeue-takes mp mc q r free = elim (Bool-cases (q.head == q.tail)) [
    | inl e ↦
        let e' = ==→eq _ _ e in
        inl (between-none q.head q.tail q.items e', dequeue-refuses mp mc q free e')
    | inr e ↦
        let e' = ==→ne _ _ e in
        inr (
          get_or q.items q.head blank,
          removed q,
          dequeue-accepts mp mc q free e',
          IsRing-pop q.head q.tail q.items r,
          between-pop q.head q.tail q.items r e',
        )
  ]

  -- `approximate_size` is the number of items held.
  pub approximate_size-held :
      (mp mc : Bool) (q : Queue A)
      → IsQueue q
      → approximate_size capacity blank mp mc q ≡ length (held q)
  unfolding approximate_size
  approximate_size-held mp mc q r = ring_size-count r ∙ sym (length-between q.head q.tail q.items)
