-- ===== src/Datagram/Frame.antt =====
-- What a request in a packet says, and which bytes it depends on: lemmas on the memory of a batch.
use enso_eval.Base.{ℕ, ◌+◌, ◌*◌, ◌^◌, ◌≤◌, ◌<◌, ◌≡◌, ◌∙◌, bit_or, u32, arith}
use enso_eval.Base.Bits.{bit_or-fields}
use enso_eval.Util.{roundup8}
use enso_eval.Datagram.Memory.{
  Memory, Agree, store, load, bytes, load-Agree, load-store, store-below, store-above,
}
use enso_eval.Datagram.Defs.{
  Request, request_header_size, operation_at, result_at, opaque_at, key_hash_at, kv_length_vec_at,
  put_header,
}
use enso_eval.Datagram.Reader.{Seen}

-- The widths of the fields, as `append_request` asserts them.
pub record IsSendable (r : Request) : Type 0 where
  pub operation_fits : r.operation < 2 ^ 8
  pub result_fits : r.result < 2 ^ 8
  pub opaque_fits : r.opaque < 2 ^ 32
  pub key_hash_fits : r.key_hash < 2 ^ 64
  pub key_length_fits : r.key_length < 2 ^ 8
  pub value_length_fits : r.value_length < 2 ^ 24

-- What a reader ought to see of a request.
abbrev pub seen_of : Request → Seen
seen_of r = record {
  operation = r.operation;
  result = r.result;
  opaque = r.opaque;
  key_hash = r.key_hash;
  key = bytes r.key_length r.key 0;
  value = bytes r.value_length r.value 0;
}

-- The place behind a request at `h`.
abbrev pub behind : ℕ → Request → ℕ
behind h r = h + request_header_size + roundup8 r.key_length + roundup8 r.value_length

pub load-store_below :
    (n k : ℕ) (m : Memory) (a v b : ℕ) → b + n ≤ a → load n (store k m a v) b ≡ load n m b
load-store_below n k m a v b h =
    load-Agree n (store k m a v) m b (λ i p q. store-below k m a v i (omega arith))

pub load-store_above :
    (n k : ℕ) (m : Memory) (a v b : ℕ) → a + k ≤ b → load n (store k m a v) b ≡ load n m b
load-store_above n k m a v b h =
    load-Agree n (store k m a v) m b (λ i p q. store-above k m a v i (omega arith))

module _ (m : Memory) (h : ℕ) (r : Request) where
  abbrev m1 : Memory
  m1 = store 1 m h r.operation

  abbrev m2 : Memory
  m2 = store 1 m1 (h + 1) r.result

  abbrev m3 : Memory
  m3 = store 8 m2 (h + 8) r.key_hash

  abbrev m4 : Memory
  m4 = store 4 m3 (h + 16) r.opaque

  abbrev m5 : Memory
  m5 = store 2 m4 (h + 2) 0

  abbrev vec : ℕ
  vec = u32 (bit_or (r.key_length * 2 ^ 24) r.value_length)

  pub put_header-below : (i : ℕ) → i < h → put_header m h r i ≡ m i
  unfolding put_header
  put_header-below i p =
      store-below 4 m5 (h + 4) vec i (omega arith)
      ∙ store-below 2 m4 (h + 2) 0 i (omega arith)
      ∙ store-below 4 m3 (h + 16) r.opaque i (omega arith)
      ∙ store-below 8 m2 (h + 8) r.key_hash i (omega arith)
      ∙ store-below 1 m1 (h + 1) r.result i (omega arith)
      ∙ store-below 1 m h r.operation i p

  pub operation_at-put_header :
      r.operation < 2 ^ 8 → operation_at (put_header m h r) h ≡ r.operation
  unfolding operation_at put_header
  operation_at-put_header fits =
      load-store_below 1 4 m5 (h + 4) vec h (omega arith)
      ∙ load-store_below 1 2 m4 (h + 2) 0 h (omega arith)
      ∙ load-store_below 1 4 m3 (h + 16) r.opaque h (omega arith)
      ∙ load-store_below 1 8 m2 (h + 8) r.key_hash h (omega arith)
      ∙ load-store_below 1 1 m1 (h + 1) r.result h (omega arith)
      ∙ load-store 1 m h r.operation
      ∙ omega arith

  pub result_at-put_header : r.result < 2 ^ 8 → result_at (put_header m h r) h ≡ r.result
  unfolding result_at put_header
  result_at-put_header fits =
      load-store_below 1 4 m5 (h + 4) vec (h + 1) (omega arith)
      ∙ load-store_below 1 2 m4 (h + 2) 0 (h + 1) (omega arith)
      ∙ load-store_below 1 4 m3 (h + 16) r.opaque (h + 1) (omega arith)
      ∙ load-store_below 1 8 m2 (h + 8) r.key_hash (h + 1) (omega arith)
      ∙ load-store 1 m1 (h + 1) r.result
      ∙ omega arith

  pub key_hash_at-put_header : r.key_hash < 2 ^ 64 → key_hash_at (put_header m h r) h ≡ r.key_hash
  unfolding key_hash_at put_header
  key_hash_at-put_header fits =
      load-store_above 8 4 m5 (h + 4) vec (h + 8) (omega arith)
      ∙ load-store_above 8 2 m4 (h + 2) 0 (h + 8) (omega arith)
      ∙ load-store_below 8 4 m3 (h + 16) r.opaque (h + 8) (omega arith)
      ∙ load-store 8 m2 (h + 8) r.key_hash
      ∙ omega arith

  pub opaque_at-put_header : r.opaque < 2 ^ 32 → opaque_at (put_header m h r) h ≡ r.opaque
  unfolding opaque_at put_header
  opaque_at-put_header fits =
      load-store_above 4 4 m5 (h + 4) vec (h + 16) (omega arith)
      ∙ load-store_above 4 2 m4 (h + 2) 0 (h + 16) (omega arith)
      ∙ load-store 4 m3 (h + 16) r.opaque
      ∙ omega arith

  pub kv_length_vec_at-put_header :
      r.key_length < 2 ^ 8
      → r.value_length < 2 ^ 24
      → kv_length_vec_at (put_header m h r) h ≡ r.key_length * 2 ^ 24 + r.value_length
  unfolding kv_length_vec_at put_header
  kv_length_vec_at-put_header p q =
      load-store 4 m5 (h + 4) vec ∙ omega (arith, bit_or-fields 24 r.key_length r.value_length q)

-- The first 24 bytes tell all of a header.
module _ (m m' : Memory) (h : ℕ) (same : Agree 24 m m' h) where
  pub operation_at-Agree : operation_at m h ≡ operation_at m' h
  unfolding operation_at
  operation_at-Agree = load-Agree 1 m m' h (λ i p q. same i (omega arith) (omega arith))

  pub result_at-Agree : result_at m h ≡ result_at m' h
  unfolding result_at
  result_at-Agree = load-Agree 1 m m' (h + 1) (λ i p q. same i (omega arith) (omega arith))

  pub key_hash_at-Agree : key_hash_at m h ≡ key_hash_at m' h
  unfolding key_hash_at
  key_hash_at-Agree = load-Agree 8 m m' (h + 8) (λ i p q. same i (omega arith) (omega arith))

  pub opaque_at-Agree : opaque_at m h ≡ opaque_at m' h
  unfolding opaque_at
  opaque_at-Agree = load-Agree 4 m m' (h + 16) (λ i p q. same i (omega arith) (omega arith))

  pub kv_length_vec_at-Agree : kv_length_vec_at m h ≡ kv_length_vec_at m' h
  unfolding kv_length_vec_at
  kv_length_vec_at-Agree = load-Agree 4 m m' (h + 4) (λ i p q. same i (omega arith) (omega arith))
