-- ===== src/MinHeap/Order.antt =====
-- The heap order of nitrosketch/minheap.cpp.
use enso_eval.Base.{
  ℕ, zero, suc, ◌≤◌, ◌<◌, ◌≡◌, refl, arith, length, get_or, set, get_or-set, length-set, take,
  get_or-take, ap, ◌==◌, if◌then◌else◌,
}
use enso_eval.MinHeap.Defs.{Node, Heap, no_node, parent, count_at, swap}

-- Every edge whose parent is at `lo` or later is in order.
abbrev pub IsHeapFrom : ℕ → Heap → Type 0
IsHeapFrom lo a =
    (c : ℕ) → 0 < c → c < length a → lo ≤ parent c → count_at a (parent c) ≤ count_at a c

abbrev pub IsHeap : Heap → Type 0
IsHeap a = IsHeapFrom 0 a

pub count_at-set :
    (a : Heap) (i j : ℕ) (v : Node)
    → i < length a
    → count_at (set a i v) j ≡ (if i == j then v.count else count_at a j)
unfolding count_at
count_at-set a i j v h = ground (arith, get_or-set a i j v no_node)

pub count_at-take : (n : ℕ) (a : Heap) (i : ℕ) → i < n → count_at (take n a) i ≡ count_at a i
unfolding count_at
count_at-take n a i h = ap (λ x. x.count) (get_or-take n a i no_node h)

pub count_at_lem : (a : Heap) (i : ℕ) → count_at a i ≡ (get_or a i no_node).count
unfolding count_at
count_at_lem a i = refl

pub count_at-swap :
    (a : Heap) (i j k : ℕ)
    → i < length a
    → j < length a
    → count_at (swap a i j) k
      ≡ (if j == k then count_at a i else if i == k then count_at a j else count_at a k)
unfolding count_at swap
count_at-swap a i j k hi hj =
    let first = get_or-set a i k (get_or a j no_node) no_node hi in
    ground (
      arith,
      first,
      length-set a i (get_or a j no_node),
      get_or-set (set a i (get_or a j no_node)) j k (get_or a i no_node) no_node,
    )

pub length-swap : (a : Heap) (i j : ℕ) → length (swap a i j) ≡ length a
unfolding swap
length-swap a i j = simp length-set

least_below :
    (k : ℕ) (a : Heap) (i : ℕ) → IsHeap a → i < k → i < length a → count_at a 0 ≤ count_at a i
least_below zero a i h f p = absurd (omega arith)
least_below (suc k) a i h f p = ground (arith, h i, least_below k a (parent i) h)

-- The root of a heap has the least count.
pub root_least : (a : Heap) (i : ℕ) → IsHeap a → i < length a → count_at a 0 ≤ count_at a i
root_least a i h p = least_below (suc i) a i h (omega arith) p
