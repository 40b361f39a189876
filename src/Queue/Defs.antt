-- ===== src/Queue/Defs.antt =====
-- The state and the operations of `Queue` and `SingleThreadedQueue` (queue.h). The template arguments
-- are parameters. `blank` stands for what an array holds out of range.
use enso_eval.Base.{
  ℕ, Bool, true, false, not, Option, none, some, List, get_or, set, ltb, ◌==◌, if◌then◌else◌, add64,
  sub64,
}

pub record Queue (A : Type 0) : Type 0 where
  pub head_lock : ℕ
  pub head : ℕ
  pub tail_lock : ℕ
  pub tail : ℕ
  pub items : List A

-- `next = i + 1; if (next == Capacity) next = 0;`
unfoldable pub following : ℕ → ℕ → ℕ
following capacity i = if add64 i 1 == capacity then 0 else add64 i 1

-- `size = tail - head; if (size > Capacity) size += Capacity;`
unfoldable pub ring_size : ℕ → ℕ → ℕ → ℕ
ring_size capacity head tail =
    let size = sub64 tail head in if ltb capacity size then add64 size capacity else size

module _ {A : Type 0} (capacity : ℕ) (blank : A) (multiple_producer multiple_consumer : Bool) where
  unfoldable pub approximate_empty : Queue A → Bool
  approximate_empty q = q.head == q.tail

  unfoldable pub approximate_size : Queue A → ℕ
  unfolding ring_size
  approximate_size q = ring_size capacity q.head q.tail

  -- The lock of the producers; `none` while another one holds it: the caller spins.
  unfoldable pub lock_tail : Queue A → Option (Queue A)
  lock_tail q =
      if not multiple_producer
      then some q
      else if q.tail_lock == 0
      then some (record q { tail_lock = 1 })
      else none

  unfoldable pub unlock_tail : Queue A → Queue A
  unlock_tail q = if multiple_producer then record q { tail_lock = 0 } else q

  unfoldable pub lock_head : Queue A → Option (Queue A)
  lock_head q =
      if not multiple_consumer
      then some q
      else if q.head_lock == 0
      then some (record q { head_lock = 1 })
      else none

  unfoldable pub unlock_head : Queue A → Queue A
  unlock_head q = if multiple_consumer then record q { head_lock = 0 } else q

  -- `enqueue` once it has the lock.
  unfoldable pub enqueue_locked : Queue A → A → Bool × Queue A
  unfolding following unlock_tail
  enqueue_locked q v =
      let tail_next = following capacity q.tail in
      if tail_next == q.head
      then (false, unlock_tail q)
      else (true, unlock_tail (record q { items = set q.items q.tail v; tail = tail_next }))

  unfoldable pub enqueue : Queue A → A → Option (Bool × Queue A)
  unfolding lock_tail enqueue_locked
  enqueue q v = elim (lock_tail q) [ none ↦ none | some q' ↦ some (enqueue_locked q' v) ]

  -- `dequeue` once it has the lock: `none` for `false`, which leaves `*out_v` alone.
  unfoldable pub dequeue_locked : Queue A → Option A × Queue A
  unfolding following unlock_head
  dequeue_locked q = if q.head == q.tail then (none, unlock_head q) else (
    some (get_or q.items q.head blank),
    unlock_head (record q { head = following capacity q.head }),
  )

  unfoldable pub dequeue : Queue A → Option (Option A × Queue A)
  unfolding lock_head dequeue_locked
  dequeue q = elim (lock_head q) [ none ↦ none | some q' ↦ some (dequeue_locked q') ]

pub record SingleThreadedQueue (A : Type 0) : Type 0 where
  pub head : ℕ
  pub tail : ℕ
  pub items : List A

module _ {A : Type 0} (capacity : ℕ) (blank : A) where
  unfoldable pub empty : SingleThreadedQueue A → Bool
  empty q = q.head == q.tail

  unfoldable pub full : SingleThreadedQueue A → Bool
  unfolding following
  full q = following capacity q.tail == q.head

  unfoldable pub size : SingleThreadedQueue A → ℕ
  unfolding ring_size
  size q = ring_size capacity q.head q.tail

  unfoldable pub head_item : SingleThreadedQueue A → A
  head_item q = get_or q.items q.head blank

  unfoldable pub pop_head : SingleThreadedQueue A → SingleThreadedQueue A
  unfolding following
  pop_head q = record q { head = following capacity q.head }

  -- A write through the reference that `tail()` returns.
  unfoldable pub put_tail : SingleThreadedQueue A → A → SingleThreadedQueue A
  put_tail q v = record q { items = set q.items q.tail v }

  unfoldable pub push_tail : SingleThreadedQueue A → SingleThreadedQueue A
  unfolding following
  push_tail q = record q { tail = following capacity q.tail }
