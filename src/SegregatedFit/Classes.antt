-- ===== src/SegregatedFit/Classes.antt =====
-- The size classes and the tags of `SegregatedFit` (segregated_fit_impl.h).
use enso_eval.Base.{ℕ, ◌+◌, ◌-◌, ◌*◌, ◌%◌, ◌^◌, ◌≤◌, ◌<◌, ◌≡◌, ◌↔◌, arith, u64}
use enso_eval.Base.Bits.{bit_and-mask, bit_or-fields_low}
use enso_eval.SegregatedFit.{
  num_classes, minimum_size, get_tag_size, get_tag_status, make_tag_vec, size_to_class_roundup,
  size_to_class_rounddown,
}

-- Best fit: for sizes of `kMinimumSize` (32 bytes) or more, below 2^40 and in whole words, a chunk
-- lies in a class at or above the one where the search for a size begins exactly when it is large
-- enough, except in the last class, whose chunks are searched.
pub class_fits :
    (wanted chunk_size : ℕ)
    → minimum_size ≤ wanted
    → minimum_size ≤ chunk_size
    → chunk_size < 2 ^ 40
    → wanted < 2 ^ 40
    → wanted % 8 ≡ 0
    → chunk_size % 8 ≡ 0
    → size_to_class_rounddown chunk_size < num_classes - 1
    → (wanted ≤ chunk_size) ↔ (size_to_class_roundup wanted ≤ size_to_class_rounddown chunk_size)
unfolding size_to_class_roundup size_to_class_rounddown
class_fits w c p q r s t u v = ((λ h. ground arith), (λ h. ground arith))

-- A tag gives back its size and its status.
pub tag_fields :
    (size status : ℕ)
    → size < 2 ^ 63
    → status < 2
    → (get_tag_size (make_tag_vec size status) ≡ size)
      × (get_tag_status (make_tag_vec size status) ≡ status)
unfolding get_tag_size get_tag_status make_tag_vec
tag_fields size status h k =
    let shifted : u64 (status * 2 ^ 63) ≡ status * 2 ^ 63 = omega arith in
    let packed = bit_or-fields_low 63 status size h in
    (
      rw (shifted, packed, bit_and-mask 63 (status * 2 ^ 63 + size)) (omega arith),
      rw (shifted, packed) (omega arith),
    )
