-- ===== src/LTable/Vec.antt =====
-- The packed words of the table: item vectors, length vectors and tags (ltable_impl/bucket.h,
-- ltable_impl/item.h).
use enso_eval.Base.{
  ℕ, ◌+◌, ◌-◌, ◌*◌, ◌/◌, ◌%◌, ◌^◌, ◌≤◌, ◌<◌, ◌≡◌, ◌≢◌, bit_and, bit_or, u32, ◌==◌, if◌then◌else◌,
  arith,
}
use enso_eval.Base.Bits.{bit_and-mask, bit_or-fields, pow-pos}
use native.Mathlib.Nat.{mod-lt}

-- 16 bits of tag over 48 bits of offset.
unfoldable pub get_tag : ℕ → ℕ
get_tag item_vec = item_vec / 2 ^ 48 % 2 ^ 16

unfoldable pub get_item_offset : ℕ → ℕ
get_item_offset item_vec = bit_and item_vec (2 ^ 48 - 1)

unfoldable pub make_item_vec : ℕ → ℕ → ℕ
make_item_vec tag item_offset = bit_or (tag * 2 ^ 48) item_offset

-- 8 bits of key length over 24 bits of value length.
unfoldable pub get_key_length : ℕ → ℕ
get_key_length kv_length_vec = kv_length_vec / 2 ^ 24

unfoldable pub get_value_length : ℕ → ℕ
get_value_length kv_length_vec = bit_and kv_length_vec (2 ^ 24 - 1)

unfoldable pub make_kv_length_vec : ℕ → ℕ → ℕ
make_kv_length_vec key_length value_length = bit_or (u32 (key_length * 2 ^ 24)) value_length

-- A tag is never 0, so that an item vector is never 0.
unfoldable pub calc_tag : ℕ → ℕ
calc_tag key_hash = let tag = bit_and key_hash (2 ^ 16 - 1) % 2 ^ 16 in if tag == 0 then 1 else tag

unfoldable pub calc_bucket_index : ℕ → ℕ → ℕ
calc_bucket_index num_buckets_mask key_hash = bit_and (u32 (key_hash / 2 ^ 16)) num_buckets_mask

-- A tag is 16 bits wide and not 0, whatever the hash.
pub calc_tag_bounds : (h : ℕ) → (0 < calc_tag h) × (calc_tag h < 2 ^ 16)
unfolding calc_tag
calc_tag_bounds h = ground arith

pub get_item_offset-mod : (v : ℕ) → get_item_offset v ≡ v % 2 ^ 48
unfolding get_item_offset
get_item_offset-mod v = bit_and-mask 48 v

-- An item vector holds its tag and its offset, and with a tag that is not 0 it is not the mark of an
-- empty slot.
pub item_vec_fields :
    (tag offset : ℕ)
    → 0 < tag
    → tag < 2 ^ 16
    → offset < 2 ^ 48
    → (get_tag (make_item_vec tag offset) ≡ tag)
      × (get_item_offset (make_item_vec tag offset) ≡ offset)
      × (make_item_vec tag offset ≢ 0)
unfolding get_tag make_item_vec
item_vec_fields tag offset p q r =
    let packed = bit_or-fields 48 tag offset r in
    (
      rw packed (omega arith),
      rw (packed, get_item_offset-mod (tag * 2 ^ 48 + offset)) (omega arith),
      rw packed (omega arith),
    )

-- A length vector holds both lengths, within the limits of `LTable` (255 and 1048575 bytes).
pub kv_length_vec_fields :
    (key_length value_length : ℕ)
    → key_length ≤ 255
    → value_length ≤ 1048575
    → (get_key_length (make_kv_length_vec key_length value_length) ≡ key_length)
      × (get_value_length (make_kv_length_vec key_length value_length) ≡ value_length)
unfolding get_key_length get_value_length make_kv_length_vec
kv_length_vec_fields kl vl p q =
    let shifted : u32 (kl * 2 ^ 24) ≡ kl * 2 ^ 24 = omega arith in
    let packed = bit_or-fields 24 kl vl (omega arith) in
    (
      rw (shifted, packed) (omega arith),
      rw (shifted, packed, bit_and-mask 24 (kl * 2 ^ 24 + vl)) (omega arith),
    )

pub kv_length_vec-lt : (kl vl : ℕ) → kl ≤ 255 → vl ≤ 1048575 → make_kv_length_vec kl vl < 2 ^ 32
unfolding make_kv_length_vec
kv_length_vec-lt kl vl p q =
    let shifted : u32 (kl * 2 ^ 24) ≡ kl * 2 ^ 24 = omega arith in
    rw (shifted, bit_or-fields 24 kl vl (omega arith)) (omega arith)

-- A bucket index is below the number of buckets, which is a power of two.
pub calc_bucket_index-lt : (k h : ℕ) → calc_bucket_index (2 ^ k - 1) h < 2 ^ k
unfolding calc_bucket_index
calc_bucket_index-lt k h =
    rw (bit_and-mask k (u32 (h / 2 ^ 16))) (mod-lt (u32 (h / 2 ^ 16)) (pow-pos k))
