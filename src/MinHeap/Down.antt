-- ===== src/MinHeap/Down.antt =====
-- `heapify`, `buildMinHeap` and `deleteNode` (nitrosketch/minheap.cpp).
use enso_eval.Base.{
  ℕ, zero, suc, ◌+◌, ◌-◌, ◌/◌, ◌≤◌, ◌<◌, ◌≡◌, ◌≢◌, inl, inr, refl, ◌∙◌, arith, Bool, List, ◌++◌,
  length, get_or, set, take, length-set, length-take, get_or-set, ==→eq, ==→ne, ne→==, ap,
  Bool-cases, ◌==◌, ℕ_discrete,
}
use enso_eval.MinHeap.Defs.{
  Node, Heap, no_node, lchild, rchild, parent, count_at, swap, smallest, heapify, heapify_all,
  build_min_heap, delete_node,
}
use enso_eval.MinHeap.Order.{
  IsHeapFrom, IsHeap, count_at-set, count_at-take, count_at-swap, length-swap, root_least,
}
use enso_eval.MinHeap.Count.{bit, count_if, SameNodes, count_if-set, count_if-take, swap-SameNodes}

-- Only the edges below `i` may be out of order.
record Sinking (lo : ℕ) (a : Heap) (i : ℕ) : Type 0 where
  edges :
      (c : ℕ)
      → 0 < c
      → c < length a
      → lo ≤ parent c
      → parent c ≢ i
      → count_at a (parent c) ≤ count_at a c
  bridged :
      (c : ℕ)
      → 0 < c
      → c < length a
      → parent c ≡ i
      → 0 < i
      → lo ≤ parent i
      → count_at a (parent i) ≤ count_at a c

smallest-le_children :
    (a : Heap) (i c : ℕ)
    → 0 < c
    → c < length a
    → parent c ≡ i
    → count_at a (smallest a i) ≤ count_at a c
unfolding smallest
smallest-le_children a i c pos lt e = elim (ℕ_discrete c (lchild i)) [
  | yes l ↦ rw l (ground arith)
  | no nl ↦ let r : c ≡ rchild i = omega arith in rw r (ground arith)
]

smallest-is_child :
    (a : Heap) (i : ℕ)
    → smallest a i ≢ i
    → (i < smallest a i)
      × (smallest a i < length a)
      × (parent (smallest a i) ≡ i)
      × (count_at a (smallest a i) < count_at a i)
unfolding smallest
smallest-is_child a i ne = ground arith

settled : (lo : ℕ) (a : Heap) (i : ℕ) → Sinking lo a i → smallest a i ≡ i → IsHeapFrom lo a
settled lo a i inv e c pos lt above = elim (ℕ_discrete (parent c) i) [
  | yes q ↦ rw (q) (rw e at (smallest-le_children a i c pos lt q))
  | no ne ↦ inv.edges c pos lt above ne
]

-- After the swap with the smallest child `s`, only the edges below `s` may be out of order.
swap-Sinking :
    (lo : ℕ) (a : Heap) (i s : ℕ)
    → Sinking lo a i
    → i < s
    → s < length a
    → parent s ≡ i
    → count_at a s < count_at a i
    → ((c : ℕ) → 0 < c → c < length a → parent c ≡ i → count_at a s ≤ count_at a c)
    → Sinking lo (swap a i s) s
swap-Sinking lo a i s inv lt inside up below least = record {
  edges = λ c p q r ne. ground (
    arith,
    length-swap a i s,
    count_at-swap a i s c,
    count_at-swap a i s (parent c),
    inv.edges c,
    inv.bridged s,
    least c,
  );
  bridged = λ c p q e r o. ground (
    arith,
    length-swap a i s,
    count_at-swap a i s c,
    count_at-swap a i s (parent s),
    inv.edges c,
  );
}

-- A heap from `lo` on, with the same nodes.
pub record Sifted (lo : ℕ) (a b : Heap) : Type 0 where
  pub ordered : IsHeapFrom lo b
  pub same : SameNodes b a
  pub sized : length b ≡ length a

heapify-Sifted :
    (fuel lo : ℕ) (a : Heap) (i : ℕ)
    → length a ≤ i + fuel
    → Sinking lo a i
    → Sifted lo a (heapify fuel a i)
unfolding heapify
heapify-Sifted zero lo a i enough inv = record {
  ordered = λ c p q r. inv.edges c p q r (omega arith);
  same = λ p. refl;
  sized = refl;
}
heapify-Sifted (suc fuel) lo a i enough inv = elim (Bool-cases (smallest a i == i)) [
  | inl stay ↦
      rw stay
        (record { ordered = settled lo a i inv (==→eq _ _ stay); same = λ p. refl; sized = refl })
  | inr move ↦
      let (lt, inside, up, below) = smallest-is_child a i (==→ne _ _ move) in
      let s = smallest a i in
      let inv' = swap-Sinking lo a i s inv lt inside up below (smallest-le_children a i) in
      let ih = heapify-Sifted fuel lo (swap a i s) s (omega (arith, length-swap a i s)) inv' in
      rw move (record {
        ordered = ih.ordered;
        same = λ p. ih.same p ∙ swap-SameNodes a i s (omega arith) inside p;
        sized = ih.sized ∙ length-swap a i s;
      })
]

heapify_all-Sifted : (n : ℕ) (a : Heap) → IsHeapFrom n a → Sifted 0 a (heapify_all n a)
unfolding heapify_all
heapify_all-Sifted zero a h = record { ordered = h; same = λ p. refl; sized = refl }
heapify_all-Sifted (suc n) a h =
    let one = heapify-Sifted (length a) n a n (omega arith) (record {
      edges = λ c p q r ne. h c p q (omega arith);
      bridged = λ c p q e r o. absurd (omega arith);
    }) in
    let rest = heapify_all-Sifted n (heapify (length a) a n) one.ordered in
    record {
      ordered = rest.ordered;
      same = λ p. rest.same p ∙ one.same p;
      sized = rest.sized ∙ one.sized;
    }

-- `buildMinHeap` makes a heap of the nodes that were there and those that are given.
pub build_min_heap-IsHeap :
    (a : Heap) (nodes : List Node)
    → IsHeap (build_min_heap a nodes) × SameNodes (build_min_heap a nodes) (a ++ nodes)
unfolding build_min_heap
build_min_heap-IsHeap a nodes =
    let b = a ++ nodes in
    let s = heapify_all-Sifted (suc ((length b - 1) / 2)) b (λ c p q r. absurd (omega arith)) in
    (s.ordered, s.same)

-- The array that `deleteNode` hands to `heapify`: the last node in place of the root.
cut-Sinking :
    (a : Heap) (n : ℕ)
    → IsHeap a
    → length a ≡ suc n
    → Sinking 0 (take n (set a 0 (get_or a n no_node))) 0
cut-Sinking a n h size =
    let b = set a 0 (get_or a n no_node) in
    let same_size = length-set a 0 (get_or a n no_node) in
    let cut_size = length-take n b (omega (arith, same_size, size)) in
    record {
      edges = λ c p q r ne.
          let below : c < n = omega (arith, cut_size) in
          ground (
            arith,
            count_at-take n b c,
            count_at-take n b (parent c),
            count_at-set a 0 c (get_or a n no_node),
            count_at-set a 0 (parent c) (get_or a n no_node),
            h c,
          );
      bridged = λ c p q e r o. absurd (omega arith);
    }

last_kept :
    (a : Heap) (n : ℕ)
    → length a ≡ suc n
    → get_or (set a 0 (get_or a n no_node)) n no_node ≡ get_or a n no_node
last_kept a zero size = get_or-set a 0 0 (get_or a 0 no_node) no_node (omega arith)
last_kept a (suc n) size = ground (arith, get_or-set a 0 (suc n) (get_or a (suc n) no_node) no_node)

-- `deleteNode` on a heap that is not empty removes its root, a node of the least count: what is left
-- is a heap with one node less, and for every test as many nodes as before pass it but for the root.
pub delete_node-removes_least :
    (a : Heap)
    → IsHeap a
    → 0 < length a
    → IsHeap (delete_node a)
      × (length (delete_node a) + 1 ≡ length a)
      × ((p : Node → Bool)
          → count_if p (delete_node a) + bit (p (get_or a 0 no_node)) ≡ count_if p a)
      × ((i : ℕ) → i < length a → count_at a 0 ≤ count_at a i)
unfolding delete_node
delete_node-removes_least a h pos =
    let n = length a - 1 in
    let moved = get_or a n no_node in
    let b = set a 0 moved in
    let size : length a ≡ suc n = omega arith in
    let same_size : length b ≡ suc n = length-set a 0 moved ∙ size in
    let cut_size = length-take n b (omega (arith, same_size)) in
    let s = heapify-Sifted n 0 (take n b) 0 (omega (arith, cut_size)) (cut-Sinking a n h size) in
    rw (ne→== (length a) 0 (omega arith)) (
      s.ordered,
      omega (arith, s.sized, cut_size),
      λ p. omega (
        arith,
        s.same p,
        count_if-take p n b same_size,
        count_if-set p a 0 moved pos,
        ap (λ x. bit (p x)) (last_kept a n size),
      ),
      λ i lt. root_least a i h lt,
    )
