-- ===== src/Datagram/Answer.antt =====
-- A response that is written in place (mica2/src/mica/datagram/datagram_protocol.h): the key and the
-- value through the pointers of `get_out_key` and `get_out_value`, then the header by
-- `append_request_no_key_value`.
use enso_eval.Base.{ℕ, ◌+◌, ◌≤◌, ◌<◌, ◌≡◌, ◌∙◌, List, arith}
use enso_eval.Util.{roundup8}
use enso_eval.Datagram.Memory.{Memory, store-above, copy, copy-below, bytes-Agree, bytes-copy}
use enso_eval.Datagram.Defs.{Request, put_header}
use enso_eval.Datagram.Frame.{
  IsSendable, put_header-below, operation_at-put_header, result_at-put_header,
  key_hash_at-put_header, opaque_at-put_header, kv_length_vec_at-put_header,
}
use enso_eval.Datagram.Requests.{Carries, roundup8-key_length}
use enso_eval.Datagram.Batch.{AllSendable, Batch, put_all, put_all-carries}

-- A header changes nothing behind its 24 bytes.
put_header-above :
    (m : Memory) (h : ℕ) (r : Request) (i : ℕ) → h + 24 ≤ i → put_header m h r i ≡ m i
unfolding put_header
put_header-above m h r i p =
    store-above 4 _ (h + 4) _ i (omega arith)
    ∙ store-above 2 _ (h + 2) 0 i (omega arith)
    ∙ store-above 4 _ (h + 16) r.opaque i (omega arith)
    ∙ store-above 8 _ (h + 8) r.key_hash i (omega arith)
    ∙ store-above 1 _ (h + 1) r.result i (omega arith)
    ∙ store-above 1 m h r.operation i (omega arith)

-- The key and the value where the builder says, then the header.
abbrev pub key_in_place : Memory → ℕ → Request → Memory
key_in_place m h r = copy r.key_length m (h + 24) r.key 0

abbrev pub value_in_place : Memory → ℕ → Request → Memory
value_in_place m h r =
    copy r.value_length (key_in_place m h r) (h + 24 + roundup8 r.key_length) r.value 0

abbrev pub put_in_place : Memory → ℕ → Request → Memory
put_in_place m h r = put_header (value_in_place m h r) h r

put_in_place-below : (m : Memory) (h : ℕ) (r : Request) (i : ℕ) → i < h → put_in_place m h r i ≡ m i
put_in_place-below m h r i p =
    put_header-below (value_in_place m h r) h r i p
    ∙ copy-below r.value_length _ (h + 24 + roundup8 r.key_length) r.value 0 i (omega arith)
    ∙ copy-below r.key_length m (h + 24) r.key 0 i (omega arith)

put_in_place-Carries :
    (m : Memory) (h : ℕ) (r : Request) → IsSendable r → Carries (put_in_place m h r) h r
put_in_place-Carries m h r fits =
    let w = value_in_place m h r in
    let k = roundup8-key_length m h r fits in
    let v = h + 24 + roundup8 r.key_length in
    record {
      operation = operation_at-put_header w h r fits.operation_fits;
      result = result_at-put_header w h r fits.result_fits;
      opaque = opaque_at-put_header w h r fits.opaque_fits;
      key_hash = key_hash_at-put_header w h r fits.key_hash_fits;
      lengths = kv_length_vec_at-put_header w h r fits.key_length_fits fits.value_length_fits;
      key =
          bytes-Agree r.key_length _ _ (h + 24) (λ i p q.
            put_header-above w h r i p ∙ copy-below r.value_length _ v r.value 0 i (omega arith))
          ∙ bytes-copy r.key_length r.key_length m (h + 24) r.key 0 (omega arith);
      value =
          bytes-Agree r.value_length _ w v (λ i p q. put_header-above w h r i (omega arith))
          ∙ bytes-copy r.value_length r.value_length (key_in_place m h r) v r.value 0 (omega arith);
    }

-- Requests that are written in place, one behind the other.
pub put_in_place-Batch :
    (m : Memory) (h : ℕ) (rs : List Request)
    → AllSendable rs
    → Batch (put_all put_in_place m h rs) h rs
put_in_place-Batch = put_all-carries put_in_place put_in_place-below put_in_place-Carries
