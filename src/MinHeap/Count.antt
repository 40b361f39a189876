-- ===== src/MinHeap/Count.antt =====
-- What a heap of nitrosketch/minheap.cpp holds, without its order: for each test, how many of its
-- nodes pass.
use enso_eval.Base.{
  ℕ, zero, suc, ◌+◌, ◌<◌, ◌≡◌, arith, Bool, true, false, [], ◌∷◌, ◌++◌, length, get_or, set, take,
  get_or-set, length-set,
}
use enso_eval.MinHeap.Defs.{Node, Heap, no_node, swap}

abbrev pub bit : Bool → ℕ
bit true = 1
bit false = 0

unfoldable pub count_if : (Node → Bool) → Heap → ℕ
count_if p [] = 0
count_if p (x ∷ a) = bit (p x) + count_if p a

-- The same nodes, as often.
abbrev pub SameNodes : Heap → Heap → Type 0
SameNodes a b = (p : Node → Bool) → count_if p a ≡ count_if p b

pub count_if-set :
    (p : Node → Bool) (a : Heap) (i : ℕ) (v : Node)
    → i < length a
    → count_if p (set a i v) + bit (p (get_or a i no_node)) ≡ count_if p a + bit (p v)
unfolding count_if
count_if-set p [] i v h = absurd (omega arith)
count_if-set p (x ∷ a) zero v h = omega arith
count_if-set p (x ∷ a) (suc i) v h = omega (arith, count_if-set p a i v (omega arith))

pub count_if-append :
    (p : Node → Bool) (a b : Heap) → count_if p (a ++ b) ≡ count_if p a + count_if p b
unfolding count_if
count_if-append p [] b = omega arith
count_if-append p (x ∷ a) b = omega (arith, count_if-append p a b)

pub swap-SameNodes : (a : Heap) (i j : ℕ) → i < length a → j < length a → SameNodes (swap a i j) a
unfolding swap
swap-SameNodes a i j hi hj p =
    let b = set a i (get_or a j no_node) in
    let kept = get_or-set a i j (get_or a j no_node) no_node hi in
    let first = count_if-set p a i (get_or a j no_node) hi in
    let second =
      count_if-set p b j (get_or a i no_node)
        (omega (arith, length-set a i (get_or a j no_node))) in
    ground (arith, kept, first, second)

-- The last node dropped.
pub count_if-take :
    (p : Node → Bool) (n : ℕ) (a : Heap)
    → length a ≡ suc n
    → count_if p (take n a) + bit (p (get_or a n no_node)) ≡ count_if p a
unfolding count_if
count_if-take p zero (x ∷ []) h = omega arith
count_if-take p (suc n) (x ∷ a) h = omega (arith, count_if-take p n a (omega arith))
count_if-take p n a h = absurd (omega arith)
