-- ===== src/SegregatedFit/Unlink.antt =====
-- Taking a chunk out of its free list, wherever it stands (segregated_fit_impl.h).
use enso_eval.Base.{
  ℕ, ◌+◌, ◌≤◌, ◌<◌, ◌≡◌, ◌≢◌, refl, sym, ap, ◌∙◌, arith, List, [], ◌∷◌, ◌++◌, length, get_or, set,
  if◌then◌else◌, ◌==◌, ne→==, ==_refl, Bool, true, false,
}
use mathlib.Core.Path.{subst}
use enso_eval.SegregatedFit.{
  Fit, put, put_head, head_of, remove_free_chunk_from_free_list, size_to_class_rounddown,
}
use enso_eval.SegregatedFit.Lists.{
  written, Linked, Clear, Outside, Outside-Clear, Linked-written, Linked-relinked, Apart, mem-if,
  free_head-if, head_set,
}

-- The link back of the chunk at `next`, if there is one, is set to `prev`.
abbrev backed : ℕ → ℕ → (ℕ → ℕ) → ℕ → ℕ
backed next prev m = if next == 0 then m else written (next + 8) prev m

backed-Linked :
    (m : ℕ → ℕ) (c next q : ℕ) (ys : List ℕ)
    → Linked m c next ys
    → Apart ys
    → Linked (backed next q m) q next ys
backed-Linked m c next q [] e apart = e
backed-Linked m c next q (y ∷ ys) r apart =
    let same : backed next q m ≡ written (y + 8) q m = rw (r.0, ne→== y 0 r.1) refl in
    subst (λ m'. Linked m' q next (y ∷ ys)) (sym same) (Linked-relinked m c q next y ys apart.0 r)

-- A word that is no link of the chunks behind stays.
backed-keeps :
    (m : ℕ → ℕ) (c next q a : ℕ) (ys : List ℕ)
    → Linked m c next ys
    → Clear a ys
    → backed next q m a ≡ m a
backed-keeps m c next q a [] e clear = rw e refl
backed-keeps m c next q a (y ∷ ys) r clear =
    rw (r.0, ne→== y 0 r.1, ne→== (y + 8) a (λ e. clear.0 (sym e))) refl

Outside-append :
    (z n : ℕ) (xs ys : List ℕ) → Outside z n (xs ++ ys) → Outside z n xs × Outside z n ys
Outside-append z n [] ys o = (tt, o)
Outside-append z n (x ∷ xs) ys o =
    let rest = Outside-append z n xs ys o.1 in ((o.0, rest.0), rest.1)

module _ (m : ℕ → ℕ) (c : ℕ) (ys : List ℕ) where
  abbrev prev : ℕ
  prev = m (c + 8)

  abbrev next : ℕ
  next = m (c + 16)

  -- The memory once the neighbours of `c` are linked to each other, where it has one before it.
  abbrev joined : ℕ → ℕ
  joined = written (prev + 16) next m

  abbrev unlinked : ℕ → ℕ
  unlinked = backed next prev joined

  behind-Linked : (pv p : ℕ) (xs : List ℕ) → Linked m pv p (xs ++ c ∷ ys) → Linked m c next ys
  behind-Linked pv p [] r = r.3
  behind-Linked pv p (x ∷ xs) r = behind-Linked x (m (x + 16)) xs r.3

  prev-some : (pv p x : ℕ) (xs : List ℕ) → Linked m pv p (x ∷ (xs ++ c ∷ ys)) → prev ≢ 0
  prev-some pv p x [] r = λ e. r.1 (sym r.3.2 ∙ e)
  prev-some pv p x (x' ∷ xs) r = prev-some x (m (x + 16)) x' xs r.3

  prev-away :
      (a pv p x : ℕ) (xs : List ℕ)
      → Linked m pv p (x ∷ (xs ++ c ∷ ys))
      → Clear a (x ∷ xs)
      → prev + 16 ≢ a
  prev-away a pv p x [] r clear = λ e. clear.1 (omega (arith, e, r.3.2))
  prev-away a pv p x (x' ∷ xs) r clear = prev-away a x (m (x + 16)) x' xs r.3 clear.2

  prev-Clear :
      (pv p x : ℕ) (xs : List ℕ)
      → Linked m pv p (x ∷ (xs ++ c ∷ ys))
      → Apart (x ∷ (xs ++ c ∷ ys))
      → Clear (prev + 16) ys
  prev-Clear pv p x [] r apart =
      subst (λ z. Clear (z + 16) ys) (sym r.3.2)
        (Outside-Clear x 32 (x + 16) ys (omega arith) (omega arith) apart.0.1)
  prev-Clear pv p x (x' ∷ xs) r apart = prev-Clear x (m (x + 16)) x' xs r.3 apart.1

  Apart-behind : (xs : List ℕ) → Apart (xs ++ c ∷ ys) → Apart ys
  Apart-behind [] apart = apart.1
  Apart-behind (x ∷ xs) apart = Apart-behind xs apart.1

  module _ (tail : Linked m c next ys) (clear : Clear (prev + 16) ys) (apart : Apart ys) where
    joined-Linked : Linked joined c next ys
    joined-Linked = Linked-written (prev + 16) next m c next ys clear tail

    unlinked-joined : (a : ℕ) → Clear a ys → unlinked a ≡ joined a
    unlinked-joined a free = backed-keeps joined c next prev a ys joined-Linked free

    unlinked-Linked :
        (pv p x : ℕ) (xs : List ℕ)
        → Linked m pv p (x ∷ (xs ++ c ∷ ys))
        → Apart (x ∷ (xs ++ c ∷ ys))
        → Linked unlinked pv p (x ∷ (xs ++ ys))
    unlinked-Linked pv p x [] r far =
        let here : prev ≡ x = r.3.2 in
        let free : (a : ℕ) → x ≤ a → a < x + 32 → Clear a ys =
          λ a h h'. Outside-Clear x 32 a ys h h' far.0.1 in
        let forth : unlinked (x + 16) ≡ next =
          unlinked-joined (x + 16) (free (x + 16) (omega arith) (omega arith))
          ∙ rw (here, ==_refl (x + 16)) refl in
        (
          r.0,
          r.1,
          unlinked-joined (x + 8) (free (x + 8) (omega arith) (omega arith))
              ∙ rw (ne→== (prev + 16) (x + 8) (omega (arith, here))) refl
              ∙ r.2,
          subst (λ z. Linked unlinked x z ys) (sym forth)
              (subst (λ z. Linked unlinked z next ys) here
                (backed-Linked joined c next prev ys joined-Linked apart)),
        )
    unlinked-Linked pv p x (x' ∷ xs) r far =
        let parts = Outside-append x 32 (x' ∷ xs) (c ∷ ys) far.0 in
        let same : (a : ℕ) → x ≤ a → a < x + 32 → unlinked a ≡ m a = λ a h h'.
          unlinked-joined a (Outside-Clear x 32 a ys h h' parts.1.1)
          ∙ rw
              (ne→== (prev + 16) a (
                prev-away a x (m (x + 16)) x' xs r.3 (Outside-Clear x 32 a (x' ∷ xs) h h' parts.0)))
              refl in
        (
          r.0,
          r.1,
          same (x + 8) (omega arith) (omega arith) ∙ r.2,
          subst (λ z. Linked unlinked x z (x' ∷ (xs ++ ys)))
              (sym (same (x + 16) (omega arith) (omega arith)))
              (unlinked-Linked x (m (x + 16)) x' xs r.3 far.1),
        )

if-free_head :
    (b : Bool) (f g : Fit)
    → (if b then f else g).free_head ≡ (if b then f.free_head else g.free_head)
if-free_head true f g = refl
if-free_head false f g = refl

module _ (f : Fit) (start size : ℕ) where
  abbrev class : ℕ
  class = size_to_class_rounddown size

  abbrev before : ℕ
  before = f.mem (start + 8)

  abbrev after : ℕ
  after = f.mem (start + 16)

  removed-mem :
      (remove_free_chunk_from_free_list f start size).mem
      ≡ backed after before (if before == 0 then f.mem else written (before + 16) after f.mem)
  unfolding remove_free_chunk_from_free_list put put_head
  removed-mem = mem-if (after == 0) _ _ ∙ ap (backed after before) (mem-if (before == 0) _ _)

  removed-free_head :
      (remove_free_chunk_from_free_list f start size).free_head
      ≡ (if before == 0 then set f.free_head class after else f.free_head)
  unfolding remove_free_chunk_from_free_list put put_head
  removed-free_head = free_head-if (after == 0) _ _ refl ∙ if-free_head (before == 0) _ _

  removed-first :
      before ≡ 0
      → class < length f.free_head
      → head_of (remove_free_chunk_from_free_list f start size) class ≡ after
  unfolding head_of
  removed-first e h =
      ap (λ hs. get_or hs class 0) (removed-free_head ∙ rw e refl)
      ∙ head_set f.free_head class after f.free_head refl h

  removed-later :
      before ≢ 0 → head_of (remove_free_chunk_from_free_list f start size) class ≡ head_of f class
  unfolding head_of
  removed-later e = ap (λ hs. get_or hs class 0) (removed-free_head ∙ rw (ne→== before 0 e) refl)

  -- `remove_free_chunk_from_free_list` takes the chunk out of the free list of its class, wherever it
  -- stands, and leaves the rest of the list linked both ways and in order, for a list whose chunks do
  -- not overlap.
  pub remove_free_chunk-Linked :
      (xs ys : List ℕ)
      → Linked f.mem 0 (head_of f class) (xs ++ start ∷ ys)
      → Apart (xs ++ start ∷ ys)
      → class < length f.free_head
      → let f' = remove_free_chunk_from_free_list f start size in
        Linked f'.mem 0 (head_of f' class) (xs ++ ys)
  remove_free_chunk-Linked [] ys r apart h =
      let none_before : before ≡ 0 = r.2 in
      let same : (remove_free_chunk_from_free_list f start size).mem ≡ backed after 0 f.mem =
        removed-mem ∙ rw none_before refl in
      subst (λ z. Linked (remove_free_chunk_from_free_list f start size).mem 0 z ys)
        (sym (removed-first none_before h))
        (subst (λ m. Linked m 0 after ys) (sym same)
          (backed-Linked f.mem start after 0 ys r.3 apart.1))
  remove_free_chunk-Linked (x ∷ xs) ys r apart h =
      let some_before = prev-some f.mem start ys 0 (head_of f class) x xs r in
      let same : (remove_free_chunk_from_free_list f start size).mem ≡ unlinked f.mem start ys =
        removed-mem ∙ rw (ne→== before 0 some_before) refl in
      subst (λ z. Linked (remove_free_chunk_from_free_list f start size).mem 0 z (x ∷ (xs ++ ys)))
        (sym (removed-later some_before))
        (subst (λ m. Linked m 0 (head_of f class) (x ∷ (xs ++ ys))) (sym same)
          (unlinked-Linked f.mem start ys
            (behind-Linked f.mem start ys 0 (head_of f class) (x ∷ xs) r)
            (prev-Clear f.mem start ys 0 (head_of f class) x xs r apart)
            (Apart-behind f.mem start ys (x ∷ xs) apart) 0 (head_of f class) x xs r apart))
