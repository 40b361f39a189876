-- ===== src/Datagram/Tests.antt =====
-- Batches of two requests: what the reader and the server see of them.
use enso_eval.Base.{
  ℕ, ◌+◌, ◌*◌, ◌/◌, ◌%◌, ◌^◌, ◌≤◌, ◌<◌, ◌≡◌, refl, Bool, true, false, none, some, List, [], ◌∷◌,
  map, length, replicate, add64, arith,
}
use enso_eval.Util.{roundup8}
use enso_eval.Datagram.Defs.{
  ByteOrder, Request, append_all, append_request, new_builder, set_request, finalize, is_request,
  has_sufficient_space, get_max_out_key_length,
}
use enso_eval.Datagram.Reader.{Reader, Seen, new_reader, is_valid, next_place, read_all}
use enso_eval.Datagram.Frame.{IsSendable, seen_of}
use enso_eval.Datagram.Batch.{batch_end}
use enso_eval.Datagram.Walk.{read_all_ends}
use enso_eval.Datagram.RoundTrip.{read_all-append_all}
use enso_eval.Datagram.Space.{has_sufficient_space_overruns}
use enso_eval.Datagram.Parse.{Accessor, parse_request_batch, parse_iter, empty_packet, empty_parsed}
use enso_eval.Datagram.Ring.{entries, window}
use enso_eval.Datagram.Window.{mark}
use enso_eval.Datagram.Refuse.{accepted, parse_iter-stuck}
use enso_eval.Datagram.Server.{client_packet, IsKept, parse_request_batch-append_all}

pub swap_back :
    (v : ℕ)
    → v < 2 ^ 16
    → (v % 2 ^ 16 % 256 * 256 + v % 2 ^ 16 / 256) % 2 ^ 16 % 256 * 256
        + (v % 2 ^ 16 % 256 * 256 + v % 2 ^ 16 / 256) % 2 ^ 16 / 256
      ≡ v
swap_back v h = omega arith

-- The swap of a little-endian machine.
abbrev pub little_endian : ByteOrder
little_endian = record {
  to_be = λ v. v % 2 ^ 16 % 256 * 256 + v % 2 ^ 16 / 256;
  to_cpu = λ v. v % 2 ^ 16 % 256 * 256 + v % 2 ^ 16 / 256;
  swap_back = swap_back;
  same_swap = λ v. refl;
}

-- `kSet` of a key of 8 bytes and a value of 3, and `kGet` of a key of 8 bytes.
abbrev pub set_one : Request
set_one = record {
  operation = 4;
  result = 6;
  opaque = 9;
  key_hash = 2 ^ 60 + 5;
  key = λ i. i + 1;
  key_length = 8;
  value = λ i. 65 + i;
  value_length = 3;
}

abbrev pub get_one : Request
get_one = record {
  operation = 5;
  result = 6;
  opaque = 10;
  key_hash = 2 ^ 60 + 5;
  key = λ i. i + 1;
  key_length = 8;
  value = λ i. 0;
  value_length = 0;
}

abbrev pub two : List Request
two = set_one ∷ get_one ∷ []

pub set_one-IsSendable : IsSendable set_one
set_one-IsSendable = omega arith

pub get_one-IsSendable : IsSendable get_one
get_one-IsSendable = omega arith

pub two_end : batch_end 48 two ≡ 120
unfolding batch_end roundup8
two_end = refl

read_all-append_all_example :
    let q = finalize little_endian true (set_request (append_all (new_builder empty_packet) two)) in
    let (r, valid) = is_valid little_endian true (new_reader q) in
    (valid ≡ true)
    × (is_request q ≡ true)
    × (read_all 3 r ≡ some (map seen_of two))
    × (q.num_requests ≡ length two % 2 ^ 8)
read_all-append_all_example =
    read_all-append_all little_endian true empty_packet two 3
      (set_one-IsSendable, (get_one-IsSendable, tt)) (omega (arith, two_end)) (omega arith)

-- The reader on a buffer of zeroes of 1514 bytes sees requests without key and value.
abbrev zeroes : Reader
zeroes = record { buf = empty_packet; total_length = 1514; h = none }

read_all_ends_example : (found : List Seen) × (read_all 62 zeroes ≡ some found)
read_all_ends_example = read_all_ends 61 zeroes (unfold next_place in omega arith)

-- Two values of 1440 bytes are 1464 bytes each with their headers.
abbrev large : Request
large = record {
  operation = 4;
  result = 6;
  opaque = 0;
  key_hash = 1;
  key = λ i. 0;
  key_length = 0;
  value = λ i. 1;
  value_length = 1440;
}

large_fits : add64 (roundup8 0) (roundup8 1440) ≤ 1442
unfolding roundup8
large_fits = omega arith

large_end : batch_end 48 (large ∷ large ∷ []) ≡ 2976
unfolding batch_end roundup8
large_end = refl

has_sufficient_space_overruns_example :
    let b = append_all (new_builder empty_packet) (large ∷ large ∷ []) in
    (has_sufficient_space b 0 1440 ≡ true)
    × (get_max_out_key_length b ≡ 1442)
    × (1514 + 24 ≤ (append_request b large).h)
has_sufficient_space_overruns_example =
    has_sufficient_space_overruns empty_packet (large ∷ large ∷ []) large large_fits
      (omega (arith, large_end))

-- A server whose ring holds one entry that waits, and that receives a packet of zeroes before the
-- batch.
abbrev pub server : Accessor
server = record {
  bufs = empty_packet ∷ client_packet little_endian empty_packet two ∷ [];
  requests = replicate 128 empty_parsed;
  next_index_to_prepare = 130;
  next_index_to_retire = 129;
  now = 0;
  b = record { buf = empty_packet; h = 48; remaining_space = 1442; count = 0 };
  value_length = 0;
  result = 0;
  tx = [];
  oldest_time = 0;
  sent = [];
  released = [];
  spare = [];
  num_operations_done = 0;
  num_operations_succeeded = 0;
}

pub zeroes_refused : (use_enso : Bool) → accepted little_endian use_enso empty_packet ≡ false
unfolding is_valid new_reader is_request
zeroes_refused true = refl
zeroes_refused false = refl

parse_request_batch-append_all_example :
    (a' : Accessor) × (parse_request_batch little_endian 3 server ≡ some (true, a'))
    × (a'.bufs ≡ [])
    × (a'.next_index_to_prepare ≡ 130 + 2)
    × (window a'.requests 130 2
        ≡ mark (entries (client_packet little_endian empty_packet two) 48 two))
    × (window a'.requests 129 1 ≡ window server.requests 129 1)
    × IsKept server a'
parse_request_batch-append_all_example =
    parse_request_batch-append_all little_endian empty_packet two server 3 (empty_packet ∷ []) []
      refl (zeroes_refused false, tt) (set_one-IsSendable, (get_one-IsSendable, tt))
      (omega (arith, two_end)) (omega arith) (omega arith) refl (omega arith) (omega arith)
      (omega arith)

parse_iter-stuck_example : parse_iter little_endian 3000 1000 (empty_packet ∷ []) server ≡ none
parse_iter-stuck_example =
    parse_iter-stuck little_endian 3000 1000 empty_packet [] server (zeroes_refused true)
