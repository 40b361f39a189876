-- ===== src/LTable/Item.antt =====
-- Items in the pool (ltable_impl/item.h). Word 0 of an item holds `kv_length_vec` and `reserved0`,
-- word 1 the key hash; the key's words follow, and then the value's. `memcpy<8>` and
-- `memcmp_equal<8>` ask for lengths that are multiples of eight, so keys and the values that are stored
-- are lists of words here, and their lengths in bytes are eight times as many.
use enso_eval.Base.{
  ℕ, suc, ◌+◌, ◌*◌, ◌/◌, ◌%◌, ◌^◌, Bool, true, ◌&&◌, List, [], ◌∷◌, ◌==◌, length, ltb,
  if◌then◌else◌,
}
use enso_eval.LTable.Vec.{get_key_length, make_kv_length_vec, get_tag, get_item_offset}
use enso_eval.LTable.Pool.{Pool}

-- `length` in bytes, which `roundup<8>` leaves alone.
abbrev pub bytes : List ℕ → ℕ
bytes ws = 8 * length ws

-- `sizeof(Item)`
abbrev pub sizeof_item : ℕ
sizeof_item = 16

-- The bytes that `memcpy<8>` copies for the length `n`: whole words up to four of them, and from 40
-- bytes on all. Its assertion asks for whole words.
unfoldable pub copied_length : ℕ → ℕ
copied_length n = if ltb n 40 then n / 8 * 8 else n

module _ (P : Pool) where
  open P use {State, read, write}

  -- `memcpy<8>` into an item, from word `i` on.
  unfoldable pub write_words : State → ℕ → ℕ → List ℕ → State
  write_words s o i [] = s
  write_words s o i (w ∷ ws) = write_words (write s o i w) o (suc i) ws

  -- `memcpy<8>` of `n` words out of an item.
  unfoldable pub read_words : State → ℕ → ℕ → ℕ → List ℕ
  read_words s o i ℕ.zero = []
  read_words s o i (suc n) = read s o i ∷ read_words s o (suc i) n

  -- `memcpy<8>` of `n` bytes out of an item, from byte `j` of word `i` on.
  unfoldable pub read_bytes : State → ℕ → ℕ → ℕ → ℕ → List ℕ
  read_bytes s o i j ℕ.zero = []
  read_bytes s o i j (suc n) =
      read s o (i + j / 8) / 256 ^ (j % 8) % 256 ∷ read_bytes s o i (suc j) n

  -- `memcmp_equal<8>`
  unfoldable pub words_equal : State → ℕ → ℕ → List ℕ → Bool
  words_equal s o i [] = true
  words_equal s o i (w ∷ ws) = read s o i == w && words_equal s o (suc i) ws

  unfoldable pub kv_length_vec : State → ℕ → ℕ
  kv_length_vec s o = read s o 0 % 2 ^ 32

  unfoldable pub put_kv_length_vec : State → ℕ → ℕ → State
  put_kv_length_vec s o v = write s o 0 (read s o 0 / 2 ^ 32 * 2 ^ 32 + v)

  unfoldable pub compare_keys : State → ℕ → List ℕ → Bool
  unfolding words_equal kv_length_vec
  compare_keys s o key = get_key_length (kv_length_vec s o) == bytes key && words_equal s o 2 key

  unfoldable pub set_item : State → ℕ → ℕ → List ℕ → List ℕ → State
  unfolding put_kv_length_vec write_words
  set_item s o key_hash key value =
      let s₁ = put_kv_length_vec s o (make_kv_length_vec (bytes key) (bytes value)) in
      let s₂ = write s₁ o 1 key_hash in
      let s₃ = write_words s₂ o 2 key in write_words s₃ o (2 + length key) value

  unfoldable pub set_item_value : State → ℕ → List ℕ → State
  unfolding put_kv_length_vec kv_length_vec write_words
  set_item_value s o value =
      let key_length = get_key_length (kv_length_vec s o) in
      let s₁ = put_kv_length_vec s o (make_kv_length_vec key_length (bytes value)) in
      write_words s₁ o (2 + key_length / 8) value

  -- The test of `find_item_index`, in its order: the tag, the key's hash, the key.
  unfoldable pub matches : State → ℕ → ℕ → List ℕ → ℕ → Bool
  unfolding compare_keys
  matches s key_hash tag key item_vec =
      get_tag item_vec == tag
      && (read s (get_item_offset item_vec) 1 == key_hash
          && compare_keys s (get_item_offset item_vec) key)
