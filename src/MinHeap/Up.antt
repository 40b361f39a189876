-- ===== src/MinHeap/Up.antt =====
-- `insertNode` and `find` (nitrosketch/minheap.cpp).
use enso_eval.Base.{
  ℕ, zero, suc, ◌+◌, ◌≤◌, ◌<◌, ◌≡◌, ◌≢◌, ◌⊎◌, inl, inr, refl, ap, ◌∙◌, arith, Bool, [], ◌∷◌, ◌++◌,
  length, get_or, set, length-set, length-append, get_or-append, get_or-append_end, get_or-set,
  Option, some, none, ==→eq, ==→ne, Bool-cases, ◌==◌, ltb, ◌&&◌, not,
}
use enso_eval.MinHeap.Defs.{
  Node, Heap, no_node, parent, count_at, sift_up, insert_node, find_from, find,
}
use enso_eval.MinHeap.Order.{IsHeap, count_at-set, count_at_lem}
use enso_eval.MinHeap.Count.{bit, count_if, SameNodes, count_if-set, count_if-append}

count_at-append :
    (a : Heap) (junk : Node) (i : ℕ) → i < length a → count_at (a ++ junk ∷ []) i ≡ count_at a i
unfolding count_at
count_at-append a junk i h = ap (λ x. x.count) (get_or-append a (junk ∷ []) i no_node h)

-- With the new node in the hole at `i`, only the edge above `i` may be out of order.
record Rising (a : Heap) (i : ℕ) (nd : Node) : Type 0 where
  inside : i < length a
  edges :
      (c : ℕ) → 0 < c → c < length a → c ≢ i → parent c ≢ i → count_at a (parent c) ≤ count_at a c
  below : (c : ℕ) → 0 < c → c < length a → parent c ≡ i → nd.count ≤ count_at a c
  bridged :
      (c : ℕ) → 0 < c → c < length a → parent c ≡ i → 0 < i → count_at a (parent i) ≤ count_at a c

Rising-step :
    (a : Heap) (i : ℕ) (nd : Node)
    → Rising a i nd
    → 0 < i
    → nd.count < count_at a (parent i)
    → Rising (set a i (get_or a (parent i) no_node)) (parent i) nd
Rising-step a i nd inv pos lt =
    let q = parent i in
    let v = get_or a q no_node in
    record {
      inside = omega (arith, length-set a i v, inv.inside);
      edges = λ c p r n m. ground (
        arith,
        length-set a i v,
        count_at_lem a q,
        count_at-set a i c v inv.inside,
        count_at-set a i (parent c) v inv.inside,
        inv.edges c,
        inv.bridged c,
      );
      below = λ c p r e.
          ground (
            arith,
            length-set a i v,
            count_at_lem a q,
            count_at-set a i c v inv.inside,
            inv.edges c,
          );
      bridged = λ c p r e o. ground (
        arith,
        length-set a i v,
        count_at_lem a q,
        count_at-set a i c v inv.inside,
        count_at-set a i (parent q) v inv.inside,
        inv.edges c,
        inv.edges q,
      );
    }

-- The hole moved up: the nodes are the same once it is filled.
moved-SameNodes :
    (a : Heap) (i : ℕ) (nd : Node)
    → i < length a
    → 0 < i
    → SameNodes (set (set a i (get_or a (parent i) no_node)) (parent i) nd) (set a i nd)
moved-SameNodes a i nd h pos p =
    let q = parent i in
    let v = get_or a q no_node in
    let kept : get_or (set a i v) q no_node ≡ v = ground (arith, get_or-set a i q v no_node) in
    omega (
      arith,
      count_if-set p (set a i v) q nd (omega (arith, length-set a i v)),
      count_if-set p a i v h,
      count_if-set p a i nd h,
      ap (λ x. bit (p x)) kept,
    )

settled :
    (a : Heap) (i : ℕ) (nd : Node)
    → Rising a i nd
    → (0 < i → count_at a (parent i) ≤ nd.count)
    → IsHeap (set a i nd)
settled a i nd inv top c p q r = ground (
  arith,
  length-set a i nd,
  count_at-set a i c nd inv.inside,
  count_at-set a i (parent c) nd inv.inside,
  inv.edges c,
  inv.below c,
)

sift_up-IsHeap :
    (fuel : ℕ) (a : Heap) (i : ℕ) (nd : Node)
    → i < fuel
    → Rising a i nd
    → IsHeap (sift_up fuel a i nd) × SameNodes (sift_up fuel a i nd) (set a i nd)
unfolding sift_up
sift_up-IsHeap zero a i nd enough inv = absurd (omega arith)
sift_up-IsHeap (suc fuel) a i nd enough inv =
    elim (Bool-cases (not (i == 0) && ltb nd.count (count_at a (parent i)))) [
      | inl rise ↦
          let pos : 0 < i = ground arith in
          let lower : nd.count < count_at a (parent i) = ground arith in
          let q = parent i in
          let v = get_or a q no_node in
          let (heap, same) =
            sift_up-IsHeap fuel (set a i v) q nd (omega arith) (Rising-step a i nd inv pos lower) in
          rw rise (heap, λ p. same p ∙ moved-SameNodes a i nd inv.inside pos p)
      | inr stop ↦ rw stop (settled a i nd inv (ground arith), λ p. refl)
    ]

grown-count :
    (junk : Node) (a : Heap) (nd : Node) (p : Node → Bool)
    → count_if p (set (a ++ junk ∷ []) (length a) nd) ≡ count_if p a + bit (p nd)
unfolding count_if
grown-count junk a nd p = omega (
  arith,
  count_if-set p (a ++ junk ∷ []) (length a) nd (omega (arith, length-append a (junk ∷ []))),
  count_if-append p a (junk ∷ []),
  ap (λ x. bit (p x)) (get_or-append_end a junk no_node),
)

grown-Rising :
    (junk : Node) (a : Heap) (nd : Node) → IsHeap a → Rising (a ++ junk ∷ []) (length a) nd
grown-Rising junk a nd h =
    let b = a ++ junk ∷ [] in
    let size : length b ≡ length a + 1 = length-append a (junk ∷ []) in
    record {
      inside = omega (arith, size);
      edges = λ c p q n m.
          ground (arith, size, h c, count_at-append a junk c, count_at-append a junk (parent c));
      below = λ c p q e. absurd (omega (arith, size));
      bridged = λ c p q e o. absurd (omega (arith, size));
    }

-- `insertNode` puts exactly the new node into a heap, whatever the new memory holds.
pub insert_node-IsHeap :
    (junk : Node) (a : Heap) (nd : Node)
    → IsHeap a
    → IsHeap (insert_node junk a nd)
      × ((p : Node → Bool) → count_if p (insert_node junk a nd) ≡ count_if p a + bit (p nd))
unfolding insert_node
insert_node-IsHeap junk a nd h =
    let b = a ++ junk ∷ [] in
    let (heap, same) =
      sift_up-IsHeap (suc (length a)) b (length a) nd (omega arith) (grown-Rising junk a nd h) in
    (heap, λ p. omega (arith, same p, grown-count junk a nd p))

-- What `find` returns.
abbrev Found : ℕ → Heap → ℕ → Option ℕ → Type 0
Found key a i none = (j : ℕ) → j < length a → (get_or a j no_node).key ≢ key
Found key a i (some k) =
    (j : ℕ) × (k ≡ i + j)
    × (j < length a)
    × ((get_or a j no_node).key ≡ key)
    × ((l : ℕ) → l < j → (get_or a l no_node).key ≢ key)

Found-cons :
    (key : ℕ) (x : Node) (a : Heap) (i : ℕ) (r : Option ℕ)
    → x.key ≢ key
    → Found key a (suc i) r
    → Found key (x ∷ a) i r
Found-cons key x a i none ne f = λ j. first_or_later j
  where
    first_or_later : (j : ℕ) → j < length (x ∷ a) → (get_or (x ∷ a) j no_node).key ≢ key
    first_or_later zero h = ne
    first_or_later (suc j) h = f j (omega arith)
Found-cons key x a i (some k) ne (j, e, h, same, before) =
    (suc j, omega arith, omega arith, same, λ l. first_or_later l)
  where
    first_or_later : (l : ℕ) → l < suc j → (get_or (x ∷ a) l no_node).key ≢ key
    first_or_later zero h = ne
    first_or_later (suc l) h = before l (omega arith)

find_from-Found : (key : ℕ) (a : Heap) (i : ℕ) → Found key a i (find_from key a i)
unfolding find_from
find_from-Found key [] i = λ j h. absurd (omega arith)
find_from-Found key (x ∷ a) i = elim (Bool-cases (x.key == key)) [
  | inl e ↦ rw e (0, omega arith, omega arith, ==→eq _ _ e, λ l h. absurd (omega arith))
  | inr e ↦
      rw e (
        Found-cons key x a i (find_from key a (suc i)) (==→ne _ _ e)
          (find_from-Found key a (suc i)))
]

-- `find` returns the first node with the key, and -1 only if no node has it.
pub find-first :
    (a : Heap) (key : ℕ)
    → ((find a key ≡ none) × ((j : ℕ) → j < length a → (get_or a j no_node).key ≢ key))
      ⊎ ((k : ℕ) × (find a key ≡ some k)
          × (k < length a)
          × ((get_or a k no_node).key ≡ key)
          × ((l : ℕ) → l < k → (get_or a l no_node).key ≢ key))
unfolding find
find-first a key = split (find_from key a 0) refl (find_from-Found key a 0)
  where
    split :
        (r : Option ℕ)
        → find_from key a 0 ≡ r
        → Found key a 0 r
        → ((find_from key a 0 ≡ none) × ((j : ℕ) → j < length a → (get_or a j no_node).key ≢ key))
          ⊎ ((k : ℕ) × (find_from key a 0 ≡ some k)
              × (k < length a)
              × ((get_or a k no_node).key ≡ key)
              × ((l : ℕ) → l < k → (get_or a l no_node).key ≢ key))
    split none e f = inl (e, f)
    split (some k) e (j, q, h, same, before) =
        let k' : k ≡ j = omega arith in inr (j, rw (← k') e, h, same, before)
