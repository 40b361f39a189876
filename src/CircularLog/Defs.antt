-- ===== src/CircularLog/Defs.antt =====
-- The state and the operations of `CircularLog` (circular_log_impl.h).
use enso_eval.Base.{
  ℕ, zero, suc, ◌+◌, ◌-◌, ◌*◌, ◌%◌, ◌^◌, bit_and, Bool, Option, none, some, not, ltb, leb, ◌==◌,
  if◌then◌else◌, add64, sub64,
}

pub record Log : Type 0 where
  -- `StaticConfig::kConcurrent`
  pub concurrent : Bool
  pub concurrent_access_mode : ℕ
  pub size : ℕ
  pub mask : ℕ
  pub lock : ℕ
  pub head : ℕ
  pub tail : ℕ
  pub mem : ℕ → ℕ

abbrev pub offset_width : ℕ
offset_width = 48

abbrev pub offset_mask : ℕ
offset_mask = 2 ^ offset_width - 1

-- `sizeof(Item)`: the header holds the item's size.
abbrev pub sizeof_item : ℕ
sizeof_item = 8

-- The address that `data_ + (offset & mask_)` stands for.
unfoldable pub position : Log → ℕ → ℕ
position l offset = bit_and offset l.mask

-- A word at `data_ + address`, through the aliased mapping.
unfoldable pub load : Log → ℕ → ℕ
load l address = l.mem (address % l.size)

unfoldable pub store : Log → ℕ → ℕ → Log
store l address v = record l { mem = λ a. if address % l.size == a then v else l.mem a }

-- `item->size` of `get_item(offset, out_len)`
unfoldable pub item_size : Log → ℕ → ℕ
unfolding load position
item_size l offset = load l (position l offset)

-- Word `i` of `item->data`.
unfoldable pub read : Log → ℕ → ℕ → ℕ
unfolding load position
read l offset i = load l (position l offset + sizeof_item + 8 * i)

unfoldable pub write : Log → ℕ → ℕ → ℕ → Log
unfolding store position
write l offset i v = store l (position l offset + sizeof_item + 8 * i) v

unfoldable pub is_valid : Log → ℕ → Bool
is_valid l offset = leb (bit_and (sub64 l.tail offset) offset_mask) l.size

unfoldable pub get_tail : Log → ℕ
get_tail l = l.tail

unfoldable pub get_mask : Log → ℕ
get_mask l = l.mask

unfoldable pub get_size : Log → ℕ
get_size l = l.size

unfoldable pub reset : Log → Log
reset l = record l { head = 0; tail = 0 }

-- `none` while another thread holds the lock: the caller spins.
unfoldable pub lock : Log → Option Log
lock l =
    if not l.concurrent
    then some l
    else if l.concurrent_access_mode == 2
    then (if l.lock == 0 then some (record l { lock = 1 }) else none)
    else some l

unfoldable pub unlock : Log → Log
unlock l =
    if not l.concurrent
    then l
    else if l.concurrent_access_mode == 2
    then record l { lock = 0 }
    else l

unfoldable pub pop_head : Log → Log
unfolding item_size
pop_head l = record l { head = add64 l.head (item_size l l.head) }

-- `while (v > head_ + size_) pop_head();`, `none` if the fuel runs out.
unfoldable pub pop_until : ℕ → ℕ → Log → Option Log
unfolding pop_head
pop_until zero v l = none
pop_until (suc fuel) v l =
    let rest = pop_until fuel v (pop_head l) in if ltb (add64 l.head l.size) v then rest else some l

-- An item takes a word at least, so `size` rounds are enough.
unfoldable pub push_tail : Log → ℕ → Option (ℕ × Log)
unfolding pop_until store position
push_tail l n =
    let offset = l.tail in
    let v = add64 offset (sizeof_item + n) in
    elim (pop_until (suc l.size) v l) [
      | none ↦ none
      | some l' ↦
          let l'' = store l' (position l' offset) n in
          some (bit_and offset offset_mask, record l'' { tail = add64 l''.tail n })
    ]

unfoldable pub allocate : Log → ℕ → Option (ℕ × Log)
unfolding push_tail
allocate l n = push_tail l (n + sizeof_item)

unfoldable pub release : Log → ℕ → Log
release l offset = l
