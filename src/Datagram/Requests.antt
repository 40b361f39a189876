-- ===== src/Datagram/Requests.antt =====
-- A request that `append_request` writes is the one that the reader's getters see, and stays so
-- while only the bytes behind it change.
use enso_eval.Base.{ℕ, ◌+◌, ◌*◌, ◌^◌, ◌≤◌, ◌<◌, ◌≡◌, ◌∙◌, arith}
use enso_eval.Base.Bits.{bit_and-mask}
use enso_eval.Util.{roundup8, roundup8_bounds}
use enso_eval.Datagram.Memory.{Memory, Agree, copy, bytes, bytes-Agree, bytes-copy, copy-below}
use enso_eval.Datagram.Defs.{
  Request, operation_at, result_at, opaque_at, key_hash_at, kv_length_vec_at, key_length_at,
  value_length_at, request_end, put_header, put_request,
}
use enso_eval.Datagram.Reader.{seen_at, get_key, get_value}
use enso_eval.Datagram.Frame.{
  IsSendable, seen_of, behind, put_header-below, operation_at-put_header, result_at-put_header,
  key_hash_at-put_header, opaque_at-put_header, kv_length_vec_at-put_header, operation_at-Agree,
  result_at-Agree, key_hash_at-Agree, opaque_at-Agree, kv_length_vec_at-Agree,
}

-- The memory at `h` holds the request `r`.
pub record Carries (m : Memory) (h : ℕ) (r : Request) : Type 0 where
  pub operation : operation_at m h ≡ r.operation
  pub result : result_at m h ≡ r.result
  pub opaque : opaque_at m h ≡ r.opaque
  pub key_hash : key_hash_at m h ≡ r.key_hash
  pub lengths : kv_length_vec_at m h ≡ r.key_length * 2 ^ 24 + r.value_length
  pub key : bytes r.key_length m (h + 24) ≡ bytes r.key_length r.key 0
  pub value :
      bytes r.value_length m (h + 24 + roundup8 r.key_length) ≡ bytes r.value_length r.value 0

module _ (m : Memory) (h : ℕ) (r : Request) (fits : IsSendable r) where
  pub roundup8-key_length : r.key_length ≤ roundup8 r.key_length
  roundup8-key_length = (roundup8_bounds r.key_length (omega (arith, fits.key_length_fits))).0

  pub roundup8-value_length : r.value_length ≤ roundup8 r.value_length
  roundup8-value_length = (roundup8_bounds r.value_length (omega (arith, fits.value_length_fits))).0

  pub key_length_at-Carries : Carries m h r → key_length_at m h ≡ r.key_length
  unfolding key_length_at
  key_length_at-Carries c = rw c.lengths (omega (arith, fits.value_length_fits))

  pub value_length_at-Carries : Carries m h r → value_length_at m h ≡ r.value_length
  unfolding value_length_at
  value_length_at-Carries c = rw c.lengths (
      bit_and-mask 24 (r.key_length * 2 ^ 24 + r.value_length)
      ∙ omega (arith, fits.value_length_fits))

  -- The getters see it, and it ends where the builder goes on.
  pub seen_at-Carries : Carries m h r → seen_at m h ≡ seen_of r
  unfolding seen_at get_key get_value
  seen_at-Carries c = rw (
    c.operation,
    c.result,
    c.opaque,
    c.key_hash,
    key_length_at-Carries c,
    value_length_at-Carries c,
    c.key,
    c.value,
  )

  pub request_end-Carries : Carries m h r → request_end m h ≡ behind h r
  unfolding request_end
  request_end-Carries c = rw (key_length_at-Carries c, value_length_at-Carries c)

  abbrev written : Memory
  written = put_header m h r

  abbrev keyed : Memory
  keyed = copy (roundup8 r.key_length) written (h + 24) r.key 0

  abbrev value_place : ℕ
  value_place = h + 24 + roundup8 r.key_length

  -- The copies leave the header alone.
  header_kept : Agree 24 (put_request m h r) written h
  unfolding put_request
  header_kept i p q =
      copy-below (roundup8 r.value_length) keyed value_place r.value 0 i (omega arith)
      ∙ copy-below (roundup8 r.key_length) written (h + 24) r.key 0 i (omega arith)

  key_copied : bytes r.key_length (put_request m h r) (h + 24) ≡ bytes r.key_length r.key 0
  unfolding put_request
  key_copied =
      bytes-Agree r.key_length (put_request m h r) keyed (h + 24) (λ i p q.
        copy-below (roundup8 r.value_length) keyed value_place r.value 0 i
          (omega (arith, roundup8-key_length)))
      ∙ bytes-copy r.key_length (roundup8 r.key_length) written (h + 24) r.key 0 roundup8-key_length

  value_copied :
      bytes r.value_length (put_request m h r) value_place ≡ bytes r.value_length r.value 0
  unfolding put_request
  value_copied =
      bytes-copy r.value_length (roundup8 r.value_length) keyed value_place r.value 0
        roundup8-value_length

  pub put_request-Carries : Carries (put_request m h r) h r
  put_request-Carries = record {
    operation =
        operation_at-Agree _ _ h header_kept ∙ operation_at-put_header m h r fits.operation_fits;
    result = result_at-Agree _ _ h header_kept ∙ result_at-put_header m h r fits.result_fits;
    opaque = opaque_at-Agree _ _ h header_kept ∙ opaque_at-put_header m h r fits.opaque_fits;
    key_hash =
        key_hash_at-Agree _ _ h header_kept ∙ key_hash_at-put_header m h r fits.key_hash_fits;
    lengths =
        kv_length_vec_at-Agree _ _ h header_kept
        ∙ kv_length_vec_at-put_header m h r fits.key_length_fits fits.value_length_fits;
    key = key_copied;
    value = value_copied;
  }

-- A request stays what it is where its bytes stay.
pub Agree-Carries :
    (m m' : Memory) (h : ℕ) (r : Request)
    → IsSendable r
    → ((i : ℕ) → h ≤ i → i < behind h r → m' i ≡ m i)
    → Carries m h r
    → Carries m' h r
Agree-Carries m m' h r fits same c =
    let header : Agree 24 m' m h = λ i p q. same i p (omega arith) in
    let k = roundup8-key_length m h r fits in
    let v = roundup8-value_length m h r fits in
    record {
      operation = operation_at-Agree m' m h header ∙ c.operation;
      result = result_at-Agree m' m h header ∙ c.result;
      opaque = opaque_at-Agree m' m h header ∙ c.opaque;
      key_hash = key_hash_at-Agree m' m h header ∙ c.key_hash;
      lengths = kv_length_vec_at-Agree m' m h header ∙ c.lengths;
      key =
          bytes-Agree r.key_length m' m (h + 24) (λ i p q. same i (omega arith) (omega arith))
          ∙ c.key;
      value =
          bytes-Agree r.value_length m' m (h + 24 + roundup8 r.key_length)
            (λ i p q. same i (omega arith) (omega arith))
          ∙ c.value;
    }

pub put_request-below :
    (m : Memory) (h : ℕ) (r : Request) (i : ℕ) → i < h → put_request m h r i ≡ m i
unfolding put_request
put_request-below m h r i p =
    copy-below (roundup8 r.value_length) _ (h + 24 + roundup8 r.key_length) r.value 0 i
      (omega arith)
    ∙ copy-below (roundup8 r.key_length) _ (h + 24) r.key 0 i (omega arith)
    ∙ put_header-below m h r i p
