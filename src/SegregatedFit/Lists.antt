-- ===== src/SegregatedFit/Lists.antt =====
-- The free lists of `SegregatedFit` (segregated_fit_impl.h): doubly linked through the chunks.
use enso_eval.Base.{
  ℕ, ◌+◌, ◌-◌, ◌≤◌, ◌<◌, ◌≡◌, ◌≢◌, ◌⊎◌, inl, inr, refl, sym, ◌∙◌, arith, List, [], ◌∷◌, length,
  get_or, set, get_or-set, if◌then◌else◌, ◌==◌, ne→==, ==_refl, Bool, true, false,
}
use mathlib.Core.Path.{subst}
use enso_eval.SegregatedFit.{
  Fit, put, put_tags, put_head, head_of, make_tag_vec, insert_free_chunk, size_to_class_rounddown,
}

abbrev pub written : ℕ → ℕ → (ℕ → ℕ) → ℕ → ℕ
written address v m = λ a. if address == a then v else m a

-- The chunks of a free list that begins at `p`, where `prev` is the chunk before.
abbrev pub Linked : (ℕ → ℕ) → ℕ → ℕ → List ℕ → Type 0
Linked m prev p [] = p ≡ 0
Linked m prev p (c ∷ cs) = (p ≡ c) × (c ≢ 0) × (m (c + 8) ≡ prev) × Linked m c (m (c + 16)) cs

-- No link of the chunks stands at the address.
abbrev pub Clear : ℕ → List ℕ → Type 0
Clear a [] = Unit {0}
Clear a (c ∷ cs) = (a ≢ c + 8) × (a ≢ c + 16) × Clear a cs

-- The `n` bytes from `start` on and the heads of the chunks, 32 bytes each, do not overlap.
abbrev pub Outside : ℕ → ℕ → List ℕ → Type 0
Outside start n [] = Unit {0}
Outside start n (c ∷ cs) = ((start + n ≤ c) ⊎ (c + 32 ≤ start)) × Outside start n cs

pub Outside-Clear :
    (start n a : ℕ) (cs : List ℕ) → start ≤ a → a < start + n → Outside start n cs → Clear a cs
Outside-Clear start n a [] p q o = tt
Outside-Clear start n a (c ∷ cs) p q (inl o, os) =
    (omega arith, omega arith, Outside-Clear start n a cs p q os)
Outside-Clear start n a (c ∷ cs) p q (inr o, os) =
    (omega arith, omega arith, Outside-Clear start n a cs p q os)

pub Linked-written :
    (a v : ℕ) (m : ℕ → ℕ) (prev p : ℕ) (cs : List ℕ)
    → Clear a cs
    → Linked m prev p cs
    → Linked (written a v m) prev p cs
Linked-written a v m prev p [] clear e = e
Linked-written a v m prev p (c ∷ cs) (x, y, clear) (e, some_chunk, back, rest) = (
  e,
  some_chunk,
  rw (ne→== a (c + 8) x) back,
  rw (ne→== a (c + 16) y) (Linked-written a v m c (m (c + 16)) cs clear rest),
)

-- The link back from the first chunk of a list is set.
pub Linked-relinked :
    (m : ℕ → ℕ) (prev prev' p c : ℕ) (cs : List ℕ)
    → Outside c 32 cs
    → Linked m prev p (c ∷ cs)
    → Linked (written (c + 8) prev' m) prev' p (c ∷ cs)
Linked-relinked m prev prev' p c cs o (e, some_chunk, back, rest) = (
  e,
  some_chunk,
  rw (==_refl (c + 8)) refl,
  rw (ne→== (c + 8) (c + 16) (omega arith)) (
      Linked-written (c + 8) prev' m c (m (c + 16)) cs
        (Outside-Clear c 32 (c + 8) cs (omega arith) (omega arith) o) rest),
)

-- No two chunks of a list overlap.
abbrev pub Apart : List ℕ → Type 0
Apart [] = Unit {0}
Apart (c ∷ cs) = Outside c 32 cs × Apart cs

pub mem-if : (b : Bool) (f g : Fit) → (if b then f else g).mem ≡ (if b then f.mem else g.mem)
mem-if true f g = refl
mem-if false f g = refl

pub free_head-if :
    (b : Bool) (f g : Fit)
    → f.free_head ≡ g.free_head
    → (if b then f else g).free_head ≡ g.free_head
free_head-if true f g e = e
free_head-if false f g e = refl

pub head_set :
    (xs : List ℕ) (c v : ℕ) (ys : List ℕ) → ys ≡ xs → c < length xs → get_or (set ys c v) c 0 ≡ v
head_set xs c v ys e h = rw e (get_or-set xs c c v 0 h ∙ rw (==_refl c) refl)

module _ (f : Fit) (start size : ℕ) where
  abbrev class : ℕ
  class = size_to_class_rounddown size

  abbrev ended : ℕ → ℕ
  ended = written (start + size - 8) (make_tag_vec size 0) f.mem

  abbrev tagged : ℕ → ℕ
  tagged = written start (make_tag_vec size 0) ended

  abbrev begun : ℕ → ℕ
  begun = written (start + 8) 0 tagged

  abbrev linked : ℕ → ℕ
  linked = written (start + 16) (head_of f class) begun

  insert-mem :
      (insert_free_chunk f start size).mem
      ≡ (if head_of f class == 0 then linked else written (head_of f class + 8) start linked)
  unfolding insert_free_chunk put put_tags put_head
  insert-mem = mem-if (head_of f class == 0) _ _

  insert-head : class < length f.free_head → head_of (insert_free_chunk f start size) class ≡ start
  unfolding insert_free_chunk put put_tags put_head head_of
  insert-head h =
      head_set f.free_head class start _ (free_head-if (head_of f class == 0) _ _ refl) h

  linked-Linked :
      (prev p : ℕ) (cs : List ℕ)
      → 32 ≤ size
      → Outside start size cs
      → Linked f.mem prev p cs
      → Linked linked prev p cs
  linked-Linked prev p cs big o r =
      let clear : (a : ℕ) → start ≤ a → a < start + size → Clear a cs =
        λ a h h'. Outside-Clear start size a cs h h' o in
      Linked-written (start + 16) (head_of f class) begun prev p cs
        (clear (start + 16) (omega arith) (omega arith))
        (Linked-written (start + 8) 0 tagged prev p cs
          (clear (start + 8) (omega arith) (omega arith))
          (Linked-written start (make_tag_vec size 0) ended prev p cs
            (clear start (omega arith) (omega arith))
            (Linked-written (start + size - 8) (make_tag_vec size 0) f.mem prev p cs
              (clear (start + size - 8) (omega arith) (omega arith)) r)))

  linked-words :
      32 ≤ size
      → (linked (start + 8) ≡ 0)
        × (linked (start + 16) ≡ head_of f class)
        × (linked start ≡ make_tag_vec size 0)
        × (linked (start + size - 8) ≡ make_tag_vec size 0)
  linked-words big = ground arith

  -- The list and both tags after the insertion.
  abbrev Inserted : (ℕ → ℕ) → List ℕ → Type 0
  Inserted m cs =
      Linked m 0 start (start ∷ cs)
      × (m start ≡ make_tag_vec size 0)
      × (m (start + size - 8) ≡ make_tag_vec size 0)

  -- The links of the list after the insertion, for a list that was empty and one that was not.
  Inserted-Linked :
      (p : ℕ) (cs : List ℕ)
      → head_of f class ≡ p
      → Linked f.mem 0 p cs
      → Apart cs
      → start ≢ 0
      → 32 ≤ size
      → Outside start size cs
      → Inserted (if p == 0 then linked else written (p + 8) start linked) cs
  Inserted-Linked p [] e r apart some_chunk big o =
      let w = linked-words big in rw r ((refl, some_chunk, w.0, w.1 ∙ e ∙ r), w.2, w.3)
  Inserted-Linked p (c ∷ cs) e r apart some_chunk big o =
      let w = linked-words big in
      let linked' =
        Linked-relinked linked 0 start p c cs apart.0 (linked-Linked 0 p (c ∷ cs) big o r) in
      let keeps : (a : ℕ)
          → start ≤ a
          → a < start + size
          → written (c + 8) start linked a ≡ linked a =
        λ a h h'.
          rw (ne→== (c + 8) a (λ q. (Outside-Clear start size a (c ∷ cs) h h' o).0 (sym q))) refl in
      let same : (if p == 0 then linked else written (p + 8) start linked)
          ≡ written (c + 8) start linked =
        rw (r.0, ne→== c 0 r.1) refl in
      subst (λ m. Inserted m (c ∷ cs)) (sym same)
        (
          (
            refl,
            some_chunk,
            keeps (start + 8) (omega arith) (omega arith) ∙ w.0,
            (
              keeps (start + 16) (omega arith) (omega arith) ∙ w.1 ∙ e ∙ r.0,
              r.1,
              linked'.2,
              linked'.3,
            ),
          ),
          keeps start (omega arith) (omega arith) ∙ w.2,
          keeps (start + size - 8) (omega arith) (omega arith) ∙ w.3,
        )

-- `insert_free_chunk` puts the chunk at the head of the free list of its class, linked both ways, and
-- writes its size and the status free at both of its ends, for a list of chunks that overlap neither
-- each other nor the new one.
pub insert_free_chunk-Linked :
    (f : Fit) (start size : ℕ) (cs : List ℕ)
    → Linked f.mem 0 (head_of f (size_to_class_rounddown size)) cs
    → Apart cs
    → start ≢ 0
    → 32 ≤ size
    → Outside start size cs
    → size_to_class_rounddown size < length f.free_head
    → let f' = insert_free_chunk f start size in
      Linked f'.mem 0 (head_of f' (size_to_class_rounddown size)) (start ∷ cs)
      × (f'.mem start ≡ make_tag_vec size 0)
      × (f'.mem (start + size - 8) ≡ make_tag_vec size 0)
insert_free_chunk-Linked f start size cs r apart some_chunk big o inside =
    rw (insert-head f start size inside) (
      subst (λ m. Inserted f start size m cs) (sym (insert-mem f start size))
        (Inserted-Linked f start size (head_of f (size_to_class_rounddown size)) cs refl r apart
          some_chunk big o))
