-- ===== src/Queue/Single.antt =====
-- `SingleThreadedQueue` (queue.h), whose users check `empty()` and `full()` themselves.
use enso_eval.Base.{
  ℕ, suc, ◌≡◌, ◌≢◌, ◌⊎◌, inl, inr, Bool-cases, sym, ◌∙◌, List, [], ◌∷◌, ◌++◌, length, true, false,
  ==→eq, ==→ne, ◌==◌,
}
use enso_eval.Queue.{
  SingleThreadedQueue, following, empty, full, size, head_item, pop_head, put_tail, push_tail,
}
use enso_eval.Queue.Ring.{IsRing, ring_size-count}
use enso_eval.Queue.Fifo.{
  between, between-push, between-pop, IsRing-push, IsRing-pop, length-between, full-count,
  between-none,
}

module _ {A : Type 0} (capacity : ℕ) (blank : A) where
  abbrev pub stored : SingleThreadedQueue A → List A
  stored q = between capacity blank q.head q.tail q.items

  abbrev pub IsSingle : SingleThreadedQueue A → Type 0
  IsSingle q = IsRing capacity q.head q.tail (length q.items)

  -- `full` is true exactly when `capacity - 1` items are stored; when it is false, a write to `tail()`
  -- and `push_tail` append the item.
  pub push_tail-appends :
      (q : SingleThreadedQueue A) (v : A)
      → IsSingle q
      → ((full capacity blank q ≡ true) × (suc (length (stored q)) ≡ capacity))
        ⊎ let q' = push_tail capacity blank (put_tail capacity blank q v) in
          (full capacity blank q ≡ false)
          × (suc (length (stored q)) ≢ capacity)
          × IsSingle q'
          × (stored q' ≡ stored q ++ v ∷ [])
  unfolding push_tail put_tail full
  push_tail-appends q v r =
      let e = full-count capacity blank q.head q.tail q.items r in
      elim (Bool-cases (following capacity q.tail == q.head)) [
        | inl f ↦ inl (f, e.0 (==→eq _ _ f))
        | inr f ↦ inr (
          f,
          (λ g. ==→ne _ _ f (e.1 g)),
          IsRing-push capacity blank q.head q.tail q.items v r,
          between-push capacity blank q.head q.tail q.items v r (==→ne _ _ f),
        )
      ]

  -- `size` counts the items stored. `empty` is true exactly when there is none; when it is false,
  -- `head` is the oldest item and `pop_head` leaves the rest.
  pub pop_head-takes :
      (q : SingleThreadedQueue A)
      → IsSingle q
      → (size capacity blank q ≡ length (stored q))
        × (((empty capacity blank q ≡ true) × (stored q ≡ []))
            ⊎ ((empty capacity blank q ≡ false)
                × IsSingle (pop_head capacity blank q)
                × (stored q ≡ head_item capacity blank q ∷ stored (pop_head capacity blank q))))
  unfolding pop_head empty head_item size
  pop_head-takes q r = (
    ring_size-count r ∙ sym (length-between capacity blank q.head q.tail q.items),
    elim (Bool-cases (q.head == q.tail)) [
      | inl e ↦ inl (e, between-none capacity blank q.head q.tail q.items (==→eq _ _ e))
      | inr e ↦ inr (
        e,
        IsRing-pop capacity blank q.head q.tail q.items r,
        between-pop capacity blank q.head q.tail q.items r (==→ne _ _ e),
      )
    ],
  )
