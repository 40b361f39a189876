-- ===== src/MinHeap/Defs.antt =====
-- The functions of nitrosketch/minheap.cpp. The array is a list as long as `size`. An `int` count is
-- given by its distance from INT_MIN, which keeps the order: the heap only compares counts.
use enso_eval.Base.{
  ℕ, zero, suc, ◌+◌, ◌-◌, ◌*◌, ◌/◌, Option, none, some, List, [], ◌∷◌, ◌++◌, length, get_or, set,
  take, ltb, ◌==◌, if◌then◌else◌, ◌&&◌, not,
}

pub record Node : Type 0 where
  pub key : ℕ
  pub count : ℕ

abbrev pub Heap : Type 0
Heap = List Node

-- What a read out of the array would give; the theorems show that there is none.
abbrev pub no_node : Node
no_node = record { key = 0; count = 0 }

abbrev pub lchild : ℕ → ℕ
lchild x = 2 * x + 1

abbrev pub rchild : ℕ → ℕ
rchild x = 2 * x + 2

abbrev pub parent : ℕ → ℕ
parent x = (x - 1) / 2

unfoldable pub count_at : Heap → ℕ → ℕ
count_at a i = (get_or a i no_node).count

unfoldable pub swap : Heap → ℕ → ℕ → Heap
swap a i j = set (set a i (get_or a j no_node)) j (get_or a i no_node)

unfoldable pub smallest : Heap → ℕ → ℕ
unfolding count_at
smallest a i =
    let s =
      if ltb (lchild i) (length a) && ltb (count_at a (lchild i)) (count_at a i)
      then lchild i
      else i in
    if ltb (rchild i) (length a) && ltb (count_at a (rchild i)) (count_at a s) then rchild i else s

-- Each call goes down a level, so the array's length is enough fuel.
unfoldable pub heapify : ℕ → Heap → ℕ → Heap
unfolding smallest swap
heapify zero a i = a
heapify (suc fuel) a i =
    let s = smallest a i in let rest = heapify fuel (swap a i s) s in if s == i then a else rest

-- `for (i = last; i >= 0; i--) heapify(hp, i)`, for `n` values of `i`.
unfoldable pub heapify_all : ℕ → Heap → Heap
unfolding heapify
heapify_all zero a = a
heapify_all (suc n) a = heapify_all n (heapify (length a) a n)

-- `(size - 1) / 2` is 0 for an empty heap: C rounds towards 0.
unfoldable pub build_min_heap : Heap → List Node → Heap
unfolding heapify_all
build_min_heap a nodes = let b = a ++ nodes in heapify_all (suc ((length b - 1) / 2)) b

-- The loop of `insertNode`: the hole at `i` moves up until its parent is no larger.
unfoldable pub sift_up : ℕ → Heap → ℕ → Node → Heap
unfolding count_at
sift_up zero a i nd = a
sift_up (suc fuel) a i nd =
    let rest = sift_up fuel (set a i (get_or a (parent i) no_node)) (parent i) nd in
    if not (i == 0) && ltb nd.count (count_at a (parent i)) then rest else set a i nd

-- `junk` is what `realloc` leaves in the new place.
unfoldable pub insert_node : Node → Heap → Node → Heap
unfolding sift_up
insert_node junk a nd = sift_up (suc (length a)) (a ++ junk ∷ []) (length a) nd

unfoldable pub delete_node : Heap → Heap
unfolding heapify
delete_node a =
    if length a == 0
    then a
    else let n = length a - 1 in heapify n (take n (set a 0 (get_or a n no_node))) 0

-- The index of a key, or `none` for -1.
unfoldable pub find_from : ℕ → Heap → ℕ → Option ℕ
find_from key [] i = none
find_from key (x ∷ a) i =
    let rest = find_from key a (suc i) in if x.key == key then some i else rest

unfoldable pub find : Heap → ℕ → Option ℕ
unfolding find_from
find a key = find_from key a 0
