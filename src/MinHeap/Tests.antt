-- ===== src/MinHeap/Tests.antt =====
-- The heap at concrete inputs.
use enso_eval.Base.{
  ℕ, zero, suc, ◌+◌, ◌≤◌, ◌<◌, ◌≡◌, ◌≢◌, ◌⊎◌, refl, arith, Bool, [], ◌∷◌, ◌++◌, length, get_or,
  some, none,
}
use enso_eval.MinHeap.Defs.{
  Node, Heap, no_node, count_at, build_min_heap, insert_node, delete_node, find,
}
use enso_eval.MinHeap.Order.{IsHeap}
use enso_eval.MinHeap.Count.{bit, count_if, SameNodes}
use enso_eval.MinHeap.Down.{delete_node-removes_least, build_min_heap-IsHeap}
use enso_eval.MinHeap.Up.{insert_node-IsHeap, find-first}

abbrev node : ℕ → ℕ → Node
node key count = record { key = key; count = count }

abbrev flows : Heap
flows = node 1 3 ∷ node 2 5 ∷ node 3 4 ∷ []

flows-IsHeap : IsHeap flows
unfolding count_at
flows-IsHeap zero p q r = absurd (omega arith)
flows-IsHeap (suc zero) p q r = omega arith
flows-IsHeap (suc (suc zero)) p q r = omega arith
flows-IsHeap (suc (suc (suc c))) p q r = absurd (omega arith)

insert_least : insert_node no_node flows (node 4 1) ≡ node 4 1 ∷ node 1 3 ∷ node 3 4 ∷ node 2 5 ∷ []
unfolding insert_node
insert_least = refl

delete_root : delete_node flows ≡ node 3 4 ∷ node 2 5 ∷ []
unfolding delete_node
delete_root = refl

build_small :
    build_min_heap [] (node 1 9 ∷ node 2 3 ∷ node 3 1 ∷ []) ≡ node 3 1 ∷ node 2 3 ∷ node 1 9 ∷ []
unfolding build_min_heap
build_small = refl

insert_node-IsHeap_example :
    IsHeap (insert_node no_node flows (node 4 1))
    × ((p : Node → Bool)
        → count_if p (insert_node no_node flows (node 4 1)) ≡ count_if p flows + bit (p (node 4 1)))
insert_node-IsHeap_example = insert_node-IsHeap no_node flows (node 4 1) flows-IsHeap

delete_node-removes_least_example :
    IsHeap (delete_node flows)
    × (length (delete_node flows) + 1 ≡ 3)
    × ((p : Node → Bool) → count_if p (delete_node flows) + bit (p (node 1 3)) ≡ count_if p flows)
    × ((i : ℕ) → i < 3 → count_at flows 0 ≤ count_at flows i)
delete_node-removes_least_example = delete_node-removes_least flows flows-IsHeap (omega arith)

build_min_heap-IsHeap_example :
    IsHeap (build_min_heap [] (node 1 9 ∷ node 2 3 ∷ node 3 1 ∷ []))
    × SameNodes
        (build_min_heap [] (node 1 9 ∷ node 2 3 ∷ node 3 1 ∷ []))
        ([] ++ node 1 9 ∷ node 2 3 ∷ node 3 1 ∷ [])
build_min_heap-IsHeap_example = build_min_heap-IsHeap [] (node 1 9 ∷ node 2 3 ∷ node 3 1 ∷ [])

find-first_example :
    ((find flows 3 ≡ none) × ((j : ℕ) → j < 3 → (get_or flows j no_node).key ≢ 3))
    ⊎ ((k : ℕ) × (find flows 3 ≡ some k)
        × (k < 3)
        × ((get_or flows k no_node).key ≡ 3)
        × ((l : ℕ) → l < k → (get_or flows l no_node).key ≢ 3))
find-first_example = find-first flows 3
