-- ===== src/SegregatedFit/Tests.antt =====
-- The pool at concrete inputs: 256 bytes at address 4096.
use enso_eval.Base.{
  ◌==◌, if◌then◌else◌, ◌+◌, ◌-◌, ◌<◌, inl, ℕ, ◌≤◌, ◌≡◌, ◌↔◌, refl, arith, true, Option, some, none,
  List, [], ◌∷◌, replicate,
}
use enso_eval.SegregatedFit
use enso_eval.SegregatedFit.{
  remove_free_chunk_from_free_list, Fit, num_classes, get_tag_size, get_tag_status, make_tag_vec,
  size_to_class_roundup, size_to_class_rounddown, insert_free_chunk,
  remove_free_chunk_from_free_list, allocate, release, read, write, head_of, item_size,
}
use enso_eval.SegregatedFit.Lists.{Linked, insert_free_chunk-Linked}
use enso_eval.SegregatedFit.Unlink.{remove_free_chunk-Linked}
use enso_eval.SegregatedFit.Classes.{class_fits, tag_fields}

abbrev blank_pool : Fit
blank_pool = record {
  concurrent = true;
  concurrent_access_mode = 2;
  data_start = 4096;
  lock = 0;
  free_head = replicate num_classes 0;
  size = 256;
  mem = λ a. 0;
}

infixl 20 ◌>>=◌
abbrev ◌>>=◌ : {A B : Type 0} → Option A → (A → Option B) → Option B
none >>= k = none
some a >>= k = k a

abbrev or_zero : Option ℕ → ℕ
or_zero none = 0
or_zero (some o) = o

-- Two items are allocated, the first is released, a third one takes its place, and all are released:
-- the pool is one free chunk again. A fourth is too large.
abbrev session : Option (List ℕ)
session = do
  (o₁, f₁) ← allocate (SegregatedFit.reset blank_pool) 40
  (o₂, f₂) ← allocate f₁ 8
  (o₃, f₃) ← allocate (release f₂ 8) 33
  let f₄ = release (release f₃ 72) 8
  (o₄, f₅) ← allocate f₄ 240
  some (or_zero o₁ ∷ or_zero o₂ ∷ or_zero o₃ ∷ or_zero o₄ ∷ f₄.mem 4096 ∷ head_of f₅ 28 ∷ [])

session_results : session ≡ some (8 ∷ 72 ∷ 8 ∷ 0 ∷ 256 ∷ 4096 ∷ [])
unfolding allocate release head_of SegregatedFit.reset
session_results = refl

class_fits_example : (48 ≤ 56) ↔ (size_to_class_roundup 48 ≤ size_to_class_rounddown 56)
unfolding size_to_class_rounddown
class_fits_example =
    class_fits 48 56 (omega arith) (omega arith) (omega arith) (omega arith) refl refl (omega arith)

tag_fields_example :
    (get_tag_size (make_tag_vec 64 1) ≡ 64) × (get_tag_status (make_tag_vec 64 1) ≡ 1)
tag_fields_example = tag_fields 64 1 (omega arith) (omega arith)

-- One free chunk of 32 bytes, at 4160.
abbrev one_free : Fit
one_free = record blank_pool { free_head = 4160 ∷ replicate 31 0 }

one_free-Linked : Linked one_free.mem 0 (head_of one_free (size_to_class_rounddown 32)) (4160 ∷ [])
unfolding head_of size_to_class_rounddown
one_free-Linked = (refl, omega arith, refl, refl)

some_class : size_to_class_rounddown 32 < 32
unfolding size_to_class_rounddown
some_class = omega arith

insert_free_chunk-Linked_example :
    let f' = insert_free_chunk one_free 4096 32 in
    Linked f'.mem 0 (head_of f' (size_to_class_rounddown 32)) (4096 ∷ 4160 ∷ [])
    × (f'.mem 4096 ≡ make_tag_vec 32 0)
    × (f'.mem (4096 + 32 - 8) ≡ make_tag_vec 32 0)
insert_free_chunk-Linked_example =
    insert_free_chunk-Linked one_free 4096 32 (4160 ∷ []) one_free-Linked (tt, tt) (omega arith)
      (omega arith) (inl (omega arith), tt) some_class

-- Three free chunks of 32 bytes, at 4096, 4160 and 4224, in this order.
abbrev three_free : Fit
three_free = record blank_pool {
  free_head = 4096 ∷ replicate 31 0;
  mem = λ a.
      if a == 4112
      then 4160
      else if a == 4168
      then 4096
      else if a == 4176
      then 4224
      else if a == 4232
      then 4160
      else 0;
}

three_free-Linked :
    Linked three_free.mem 0
      (head_of three_free (size_to_class_rounddown 32))
      (4096 ∷ 4160 ∷ 4224 ∷ [])
unfolding head_of size_to_class_rounddown
three_free-Linked =
    (refl, omega arith, refl, (refl, omega arith, refl, (refl, omega arith, refl, refl)))

remove_free_chunk-Linked_example :
    let f' = remove_free_chunk_from_free_list three_free 4160 32 in
    Linked f'.mem 0 (head_of f' (size_to_class_rounddown 32)) (4096 ∷ 4224 ∷ [])
remove_free_chunk-Linked_example =
    remove_free_chunk-Linked three_free 4160 32 (4096 ∷ []) (4224 ∷ []) three_free-Linked
      ((inl (omega arith), (inl (omega arith), tt)), ((inl (omega arith), tt), (tt, tt))) some_class
