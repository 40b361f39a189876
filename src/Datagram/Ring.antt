-- ===== src/Datagram/Ring.antt =====
-- The ring of parsed requests of the server's `RequestAccessor`
-- (mica2/src/mica/datagram/datagram_server_impl.h): what a batch leaves in it, and what it keeps.
use enso_eval.Base.{
  ℕ, zero, suc, ◌+◌, ◌%◌, ◌^◌, ◌≤◌, ◌<◌, ◌≡◌, ◌≢◌, refl, ap, ◌∙◌, Bool, true, false, some, List, [],
  ◌∷◌, length, get_or, get_or-set, length-set, ◌==◌, if◌then◌else◌, ne→==, arith,
}
use enso_eval.Base.Bits.{bit_and-mask}
use enso_eval.Util.{roundup8}
use enso_eval.Datagram.Defs.{Packet, Request}
use enso_eval.Datagram.Reader.{Reader, find_next, next_place, get_key, get_value}
use enso_eval.Datagram.Frame.{IsSendable, behind}
use enso_eval.Datagram.Requests.{
  Carries, request_end-Carries, key_length_at-Carries, value_length_at-Carries,
}
use enso_eval.Datagram.Batch.{AllSendable, batch_end, batch_end-le, Batch}
use enso_eval.Datagram.Walk.{find_next-more, find_next-end}
use enso_eval.Datagram.Parse.{
  Parsed, Accessor, slot, parsed_at, put_parsed, place_of, parse_round, parse_requests,
  empty_parsed,
}

-- The entry of a request at `h`, and the entries of a batch.
abbrev pub parsed_of : Packet → ℕ → Request → Parsed
parsed_of p h r = record {
  src_buf = p;
  key = h + 24;
  value = h + 24 + roundup8 r.key_length;
  key_hash = r.key_hash;
  value_length = r.value_length;
  opaque = r.opaque;
  key_length = r.key_length;
  operation = r.operation;
  last_in_packet = 0;
}

unfoldable pub entries : Packet → ℕ → List Request → List Parsed
entries p h [] = []
entries p h (r ∷ rs) = parsed_of p h r ∷ entries p (behind h r) rs

unfoldable pub put_entries : List Parsed → Accessor → Accessor
put_entries [] a = a
put_entries (x ∷ xs) a = put_entries xs (put_parsed x a)

-- The entries of `k` indices from `n` on.
abbrev pub window : List Parsed → ℕ → ℕ → List Parsed
window xs n zero = []
window xs n (suc k) = get_or xs (n % 128) empty_parsed ∷ window xs (n + 1) k

parsed_at-Carries :
    (p : Packet) (h : ℕ) (r : Request)
    → IsSendable r
    → Carries p.body h r
    → parsed_at p h ≡ parsed_of p h r
unfolding parsed_at get_key get_value
parsed_at-Carries p h r fits c =
    let kl = key_length_at-Carries p.body h r fits c in
    let vl = value_length_at-Carries p.body h r fits c in
    let narrow_key : r.key_length % 2 ^ 8 ≡ r.key_length = omega (arith, fits.key_length_fits) in
    let narrow_value : r.value_length % 2 ^ 32 ≡ r.value_length =
      omega (arith, fits.value_length_fits) in
    rw (kl, vl, c.key_hash, c.opaque, c.operation, narrow_key, narrow_value)

parse_requests-end :
    (fuel : ℕ) (r : Reader) (a : Accessor)
    → (find_next r).1 ≡ false
    → parse_requests (suc fuel) r a ≡ some a
unfolding parse_requests
parse_requests-end fuel r a e = stop (find_next r) e
  where
    stop : (s : Reader × Bool) → s.1 ≡ false → parse_round (parse_requests fuel) s a ≡ some a
    stop (r', true) h = cc
    stop (r', false) h = unfold parse_round in refl

parse_requests-more :
    (fuel : ℕ) (r : Reader) (h : ℕ) (a : Accessor)
    → find_next r ≡ (record r { h = some h }, true)
    → parse_requests (suc fuel) r a
      ≡ parse_requests fuel (record r { h = some h }) (put_parsed (parsed_at r.buf h) a)
unfolding parse_requests parse_round place_of
parse_requests-more fuel r h a e = ap (λ s. parse_round (parse_requests fuel) s a) e

-- The walk over a batch enters its requests in order.
pub parse_requests-Batch :
    (rs : List Request) (fuel : ℕ) (r : Reader) (h : ℕ) (a : Accessor)
    → AllSendable rs
    → length rs < fuel
    → next_place r.buf.body r.h ≡ h
    → Batch r.buf.body h rs
    → r.total_length ≡ batch_end h rs
    → parse_requests fuel r a ≡ some (put_entries (entries r.buf h rs) a)
unfolding batch_end next_place put_entries entries
parse_requests-Batch rs zero r h a fits f place batch ends = absurd (omega arith)
parse_requests-Batch [] (suc fuel) r h a fits f place batch ends =
    parse_requests-end fuel r a (find_next-end r (omega arith))
parse_requests-Batch (q ∷ rs) (suc fuel) r h a (fits, more) f place (c, batch) ends =
    let r' : Reader = record r { h = some h } in
    let moved = request_end-Carries r.buf.body h q fits c in
    let found =
      find_next-more r h (behind h q) place moved (omega arith)
        (omega (arith, batch_end-le (behind h q) rs)) in
    parse_requests-more fuel r h a found
    ∙ parse_requests-Batch rs fuel r' (behind h q) (put_parsed (parsed_at r.buf h) a) more
        (omega arith) moved batch ends
    ∙ ap (λ x. some (put_entries (entries r.buf (behind h q) rs) (put_parsed x a)))
        (parsed_at-Carries r.buf h q fits c)

pub slot-mod : (n : ℕ) → slot n ≡ n % 128
unfolding slot
slot-mod n = bit_and-mask 7 n

pub put_parsed-length :
    (x : Parsed) (a : Accessor) → length (put_parsed x a).requests ≡ length a.requests
unfolding put_parsed
put_parsed-length x a = length-set a.requests (slot a.next_index_to_prepare) x

-- A new entry changes its own slot only.
pub put_parsed-get :
    (x : Parsed) (a : Accessor) (i : ℕ)
    → length a.requests ≡ 128
    → i < 128
    → get_or (put_parsed x a).requests i empty_parsed
      ≡ (if a.next_index_to_prepare % 128 == i then x else get_or a.requests i empty_parsed)
unfolding put_parsed
put_parsed-get x a i full h =
    rw (slot-mod a.next_index_to_prepare)
      (get_or-set a.requests (a.next_index_to_prepare % 128) i x empty_parsed (omega arith))

pub put_entries-length :
    (xs : List Parsed) (a : Accessor) → length (put_entries xs a).requests ≡ length a.requests
unfolding put_entries
put_entries-length [] a = refl
put_entries-length (x ∷ xs) a = put_entries-length xs (put_parsed x a) ∙ put_parsed-length x a

pub put_entries-next :
    (xs : List Parsed) (a : Accessor)
    → a.next_index_to_prepare + length xs < 2 ^ 16
    → (put_entries xs a).next_index_to_prepare ≡ a.next_index_to_prepare + length xs
unfolding put_entries put_parsed
put_entries-next [] a h = omega arith
put_entries-next (x ∷ xs) a h = omega (arith, put_entries-next xs (put_parsed x a))

-- Slots outside the indices that are entered keep what they hold.
pub put_entries-other :
    (xs : List Parsed) (a : Accessor) (i : ℕ)
    → length a.requests ≡ 128
    → a.next_index_to_prepare + length xs < 2 ^ 16
    → a.next_index_to_prepare + length xs ≤ i + 128
    → i < a.next_index_to_prepare
    → get_or (put_entries xs a).requests (i % 128) empty_parsed
      ≡ get_or a.requests (i % 128) empty_parsed
unfolding put_entries
put_entries-other [] a i full h room old = refl
put_entries-other (x ∷ xs) a i full h room old =
    let next : (put_parsed x a).next_index_to_prepare ≡ a.next_index_to_prepare + 1 =
      unfold put_parsed in omega arith in
    let apart : a.next_index_to_prepare % 128 ≢ i % 128 = λ e. omega arith in
    put_entries-other xs (put_parsed x a) i (put_parsed-length x a ∙ full) (omega (arith, next))
      (omega (arith, next)) (omega (arith, next))
    ∙ put_parsed-get x a (i % 128) full (omega arith)
    ∙ rw (ne→== (a.next_index_to_prepare % 128) (i % 128) apart)
