-- ===== src/SegregatedFit/Defs.antt =====
-- The state of `SegregatedFit` and its free lists (segregated_fit_impl.h).
use enso_eval.Base.{
  ℕ, zero, suc, ◌+◌, ◌-◌, ◌*◌, ◌/◌, ◌^◌, bit_and, bit_or, Bool, Option, none, some, ltb, leb, ◌==◌,
  if◌then◌else◌, add64, sub64, u64, List, get_or, set,
}

pub record Fit : Type 0 where
  -- `StaticConfig::kConcurrent`
  pub concurrent : Bool
  pub concurrent_access_mode : ℕ
  -- `data_`, the address of the pool
  pub data_start : ℕ
  pub lock : ℕ
  pub free_head : List ℕ
  pub size : ℕ
  pub mem : ℕ → ℕ

abbrev pub num_classes : ℕ
num_classes = 32

abbrev pub class_increment : ℕ
class_increment = 8

abbrev pub overhead : ℕ
overhead = 24

abbrev pub minimum_size : ℕ
minimum_size = 32

unfoldable pub get_tag_size : ℕ → ℕ
get_tag_size vec = bit_and vec (2 ^ 63 - 1)

-- `kStatusFree` is 0, `kStatusOccupied` 1.
unfoldable pub get_tag_status : ℕ → ℕ
get_tag_status vec = vec / 2 ^ 63

unfoldable pub make_tag_vec : ℕ → ℕ → ℕ
make_tag_vec size status = bit_or size (u64 (status * 2 ^ 63))

unfoldable pub size_to_class_roundup : ℕ → ℕ
size_to_class_roundup size =
    if leb size (minimum_size + (num_classes - 1) * class_increment)
    then sub64 (add64 (sub64 size minimum_size) class_increment) 1 / class_increment
    else num_classes - 1

unfoldable pub size_to_class_rounddown : ℕ → ℕ
size_to_class_rounddown size =
    if ltb size (minimum_size + num_classes * class_increment)
    then sub64 size minimum_size / class_increment
    else num_classes - 1

-- A word at an address, and a write to one.
unfoldable pub put : Fit → ℕ → ℕ → Fit
put f address v = record f { mem = λ a. if address == a then v else f.mem a }

-- `free_head_[c]`; what lies behind the array is taken for `nullptr`.
unfoldable pub head_of : Fit → ℕ → ℕ
head_of f c = get_or f.free_head c 0

unfoldable pub put_head : Fit → ℕ → ℕ → Fit
put_head f c v = record f { free_head = set f.free_head c v }

-- Both tags of a chunk.
unfoldable pub put_tags : Fit → ℕ → ℕ → ℕ → Fit
unfolding put make_tag_vec
put_tags f chunk_start chunk_size status =
    let tag = make_tag_vec chunk_size status in
    put (put f (chunk_start + chunk_size - 8) tag) chunk_start tag

unfoldable pub insert_free_chunk : Fit → ℕ → ℕ → Fit
unfolding put put_tags head_of put_head size_to_class_rounddown
insert_free_chunk f chunk_start chunk_size =
    let c = size_to_class_rounddown chunk_size in
    let tagged = put_tags f chunk_start chunk_size 0 in
    let linked = put (put tagged (chunk_start + 8) 0) (chunk_start + 16) (head_of f c) in
    let joined = if head_of f c == 0 then linked else put linked (head_of f c + 8) chunk_start in
    put_head joined c chunk_start

unfoldable pub remove_free_chunk_from_free_list : Fit → ℕ → ℕ → Fit
unfolding put put_head size_to_class_rounddown
remove_free_chunk_from_free_list f chunk_start chunk_size =
    let prev = f.mem (chunk_start + 8) in
    let next = f.mem (chunk_start + 16) in
    let skipped =
      if prev == 0
      then put_head f (size_to_class_rounddown chunk_size) next
      else put f (prev + 16) next in
    if next == 0 then skipped else put skipped (next + 8) prev

-- `for (; chunk_class < kNumClasses; chunk_class++) if (free_head_[chunk_class] != nullptr) break;`
-- for the `left` classes from `c` on.
unfoldable pub first_class : ℕ → Fit → ℕ → ℕ
unfolding head_of
first_class zero f c = c
first_class (suc left) f c =
    let rest = first_class left f (suc c) in if head_of f c == 0 then rest else c

-- The loop along a free list: the first chunk that is large enough. The outer `none` stands for a
-- list that is longer than the fuel.
unfoldable pub first_fit : ℕ → Fit → ℕ → ℕ → Option (Option (ℕ × ℕ))
unfolding get_tag_size
first_fit zero f minimum_chunk_size chunk_start = none
first_fit (suc fuel) f minimum_chunk_size chunk_start =
    let chunk_size = get_tag_size (f.mem chunk_start) in
    let rest = first_fit fuel f minimum_chunk_size (f.mem (chunk_start + 16)) in
    if chunk_start == 0
    then some none
    else if leb minimum_chunk_size chunk_size
    then some (some (chunk_start, chunk_size))
    else rest

-- The chunk and its size; the inner `none` for `false`. A pool of `size` bytes has fewer chunks than
-- bytes.
unfoldable pub remove_free_chunk_from_head : Fit → ℕ → Option (Option (ℕ × ℕ) × Fit)
unfolding size_to_class_roundup first_class head_of first_fit remove_free_chunk_from_free_list
remove_free_chunk_from_head f minimum_chunk_size =
    let start = size_to_class_roundup minimum_chunk_size in
    let c = first_class (num_classes - start) f start in
    if c == num_classes
    then some (none, f)
    else elim (first_fit (suc f.size) f minimum_chunk_size (head_of f c)) [
      | none ↦ none
      | some none ↦ some (none, f)
      | some (some (chunk_start, chunk_size)) ↦ some (
        some (chunk_start, chunk_size),
        remove_free_chunk_from_free_list f chunk_start chunk_size,
      )
    ]
