-- ===== src/SegregatedFit/Alloc.antt =====
-- Allocation and release in `SegregatedFit` (segregated_fit_impl.h).
use enso_eval.Base.{
  ℕ, ◌+◌, ◌-◌, ◌*◌, Option, none, some, not, leb, ◌==◌, if◌then◌else◌, add64, sub64, replicate,
}
use enso_eval.Util.{roundup8}
use enso_eval.SegregatedFit.Defs.{
  Fit, num_classes, overhead, minimum_size, get_tag_size, get_tag_status, put, put_tags,
  insert_free_chunk, remove_free_chunk_from_free_list, remove_free_chunk_from_head,
}

unfoldable pub lock : Fit → Option Fit
lock f =
    if not f.concurrent
    then some f
    else if f.concurrent_access_mode == 2
    then (if f.lock == 0 then some (record f { lock = 1 }) else none)
    else some f

unfoldable pub unlock : Fit → Fit
unlock f =
    if not f.concurrent
    then f
    else if f.concurrent_access_mode == 2
    then record f { lock = 0 }
    else f

unfoldable pub reset : Fit → Fit
unfolding insert_free_chunk
reset f = insert_free_chunk (record f { free_head = replicate num_classes 0 }) f.data_start f.size

-- Word `i` of `get_item(offset)`.
unfoldable pub read : Fit → ℕ → ℕ → ℕ
read f offset i = f.mem (f.data_start + offset + 8 + 8 * i)

unfoldable pub write : Fit → ℕ → ℕ → ℕ → Fit
unfolding put
write f offset i v = put f (f.data_start + offset + 8 + 8 * i) v

-- `*out_len` of `get_item(offset, out_len)`.
unfoldable pub item_size : Fit → ℕ → ℕ
unfolding get_tag_size
item_size f offset = get_tag_size (f.mem (f.data_start + offset))

-- A chunk and its size, and the pool.
abbrev pub Coalesced : Type 0
Coalesced = ℕ × ℕ × Fit

unfoldable pub coalesce_free_chunk_left : Fit → ℕ → ℕ → Coalesced
unfolding get_tag_size get_tag_status remove_free_chunk_from_free_list
coalesce_free_chunk_left f chunk_start chunk_size =
    let tag = f.mem (chunk_start - 8) in
    let adj_size = get_tag_size tag in
    let adj_start = chunk_start - adj_size in
    if chunk_start == f.data_start
    then (chunk_start, chunk_size, f)
    else if get_tag_status tag == 1
    then (chunk_start, chunk_size, f)
    else (
      adj_start,
      add64 chunk_size adj_size,
      remove_free_chunk_from_free_list f adj_start adj_size,
    )

unfoldable pub coalesce_free_chunk_right : Fit → ℕ → ℕ → Coalesced
unfolding get_tag_size get_tag_status remove_free_chunk_from_free_list
coalesce_free_chunk_right f chunk_start chunk_size =
    let adj_start = chunk_start + chunk_size in
    let tag = f.mem adj_start in
    let adj_size = get_tag_size tag in
    if adj_start == f.data_start + f.size
    then (chunk_start, chunk_size, f)
    else if get_tag_status tag == 1
    then (chunk_start, chunk_size, f)
    else (
      chunk_start,
      add64 chunk_size adj_size,
      remove_free_chunk_from_free_list f adj_start adj_size,
    )

-- The second half of `allocate`, on a chunk that is off its free list.
unfoldable pub carve : Fit → ℕ → ℕ → ℕ → ℕ → ℕ × Fit
unfolding put put_tags insert_free_chunk
carve f item_size minimum_chunk_size chunk_start chunk_size =
    let leftover = sub64 chunk_size minimum_chunk_size in
    let split = leb minimum_size leftover in
    let cut = insert_free_chunk f (chunk_start + minimum_chunk_size) leftover in
    let final_size = if split then minimum_chunk_size else chunk_size in
    let tagged = put_tags (if split then cut else f) chunk_start final_size 1 in
    (chunk_start + 8 - f.data_start, put tagged (chunk_start + 8) item_size)

-- The inner `none` stands for `kInsufficientSpace`.
unfoldable pub allocate : Fit → ℕ → Option (Option ℕ × Fit)
unfolding roundup8 remove_free_chunk_from_head carve
allocate f item_size =
    let minimum_chunk_size = add64 (roundup8 item_size) overhead in
    elim (remove_free_chunk_from_head f minimum_chunk_size) [
      | none ↦ none
      | some (none, f') ↦ some (none, f')
      | some (some (chunk_start, chunk_size), f') ↦
          let (offset, f'') = carve f' item_size minimum_chunk_size chunk_start chunk_size in
          some (some offset, f'')
    ]

unfoldable pub release : Fit → ℕ → Fit
unfolding get_tag_size coalesce_free_chunk_left coalesce_free_chunk_right insert_free_chunk
release f offset =
    let chunk_start = f.data_start + offset - 8 in
    let chunk_size = get_tag_size (f.mem chunk_start) in
    let (start, size, f') = coalesce_free_chunk_left f chunk_start chunk_size in
    let (start', size', f'') = coalesce_free_chunk_right f' start size in
    insert_free_chunk f'' start' size'

-- A pointer, 0 for `nullptr`.
unfoldable pub allocate_raw : Fit → ℕ → Option (ℕ × Fit)
unfolding allocate
allocate_raw f item_size = elim (allocate f item_size) [
  | none ↦ none
  | some (none, f') ↦ some (0, f')
  | some (some offset, f') ↦ some (f.data_start + offset + 8, f')
]

unfoldable pub release_raw : Fit → ℕ → Fit
unfolding release
release_raw f p = let released = release f (p - 8 - f.data_start) in if p == 0 then f else released
