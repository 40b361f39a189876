-- ===== src/Datagram/Parse.antt =====
-- `RequestAccessor` of the server (mica2/src/mica/datagram/datagram_server_impl.h): packets become
-- entries of a ring of parsed requests, and results become responses.
use enso_eval.Base.{
  ℕ, zero, suc, ◌+◌, ◌-◌, ◌%◌, ◌^◌, bit_and, Bool, true, false, not, ◌||◌, Option, none, some, List,
  [], ◌∷◌, ◌++◌, get_or, set, ◌==◌, if◌then◌else◌,
}
use enso_eval.Datagram.Defs.{
  ByteOrder, Packet, Builder, operation_at, opaque_at, key_hash_at, key_length_at, value_length_at,
  is_request,
}
use enso_eval.Datagram.Reader.{Reader, new_reader, is_valid, find_next, get_key, get_value}

-- `ParsedRequest`; `key` and `value` are offsets into `src_buf`.
pub record Parsed : Type 0 where
  pub src_buf : Packet
  pub key : ℕ
  pub value : ℕ
  pub key_hash : ℕ
  pub value_length : ℕ
  pub opaque : ℕ
  pub key_length : ℕ
  pub operation : ℕ
  pub last_in_packet : ℕ

abbrev pub k_max_parsed_request_count : ℕ
k_max_parsed_request_count = 128

abbrev pub k_parsed_request_mask : ℕ
k_parsed_request_mask = k_max_parsed_request_count - 1

-- `RequestAccessor`, with `PendingResponseBatch` (`b`, `value_length`, `result`), the endpoint's
-- `PendingTX` (`tx`, `oldest_time`) and the counters of `WorkerStats`. `bufs` are the packets from
-- `next_packet_index_to_parse_` on (with `USE_ENSO`, from `buf_iter_` on); `released` and `sent`
-- record what was given to `network_`, and `spare` are the buffers that it allocates next.
pub record Accessor : Type 0 where
  pub bufs : List Packet
  pub requests : List Parsed
  pub next_index_to_prepare : ℕ
  pub next_index_to_retire : ℕ
  pub now : ℕ
  pub b : Builder
  pub value_length : ℕ
  pub result : ℕ
  pub tx : List Packet
  pub oldest_time : ℕ
  pub sent : List (List Packet)
  pub released : List Packet
  pub spare : List Packet
  pub num_operations_done : ℕ
  pub num_operations_succeeded : ℕ

-- The slot of an index in `requests_`.
unfoldable pub slot : ℕ → ℕ
slot index = bit_and index k_parsed_request_mask

-- What a round of the walk copies of a request.
unfoldable pub parsed_at : Packet → ℕ → Parsed
parsed_at p h = record {
  src_buf = p;
  key = get_key h;
  value = get_value p.body h;
  key_hash = key_hash_at p.body h;
  value_length = value_length_at p.body h % 2 ^ 32;
  opaque = opaque_at p.body h;
  key_length = key_length_at p.body h % 2 ^ 8;
  operation = operation_at p.body h;
  last_in_packet = 0;
}

unfoldable pub put_parsed : Parsed → Accessor → Accessor
unfolding slot
put_parsed r a = record a {
  requests = set a.requests (slot a.next_index_to_prepare) r;
  next_index_to_prepare = (a.next_index_to_prepare + 1) % 2 ^ 16;
}

-- `while (r.find_next())`; `none` when the fuel runs out.
unfoldable pub place_of : Option ℕ → ℕ
place_of none = 0
place_of (some h) = h

unfoldable pub parse_round :
    (Reader → Accessor → Option Accessor) → Reader × Bool → Accessor → Option Accessor
parse_round again (r, true) a = again r (put_parsed (parsed_at r.buf (place_of r.h)) a)
parse_round again (r, false) a = some a

unfoldable pub parse_requests : ℕ → Reader → Accessor → Option Accessor
parse_requests zero r a = none
parse_requests (suc fuel) r a = parse_round (parse_requests fuel) (find_next r) a

abbrev pub empty_packet : Packet
empty_packet = record {
  d_addr = 0;
  s_addr = 0;
  ether_type = 0;
  version_ihl = 0;
  type_of_service = 0;
  total_length = 0;
  packet_id = 0;
  fragment_offset = 0;
  time_to_live = 0;
  next_proto_id = 0;
  hdr_checksum = 0;
  src_addr = 0;
  dst_addr = 0;
  src_port = 0;
  dst_port = 0;
  dgram_len = 0;
  dgram_cksum = 0;
  magic = 0;
  num_requests = 0;
  body = λ _. 0;
  length = 0;
}

abbrev pub empty_parsed : Parsed
empty_parsed = record {
  src_buf = empty_packet;
  key = 0;
  value = 0;
  key_hash = 0;
  value_length = 0;
  opaque = 0;
  key_length = 0;
  operation = 0;
  last_in_packet = 0;
}

-- `requests_[last_prepared].last_in_packet = 1`
unfoldable pub mark_last : Accessor → Accessor
mark_last a =
    let last = bit_and (a.next_index_to_prepare + k_parsed_request_mask) k_parsed_request_mask in
    record a {
      requests =
          set a.requests last (record (get_or a.requests last empty_parsed) { last_in_packet = 1 });
    }

unfoldable pub release : Packet → Accessor → Accessor
release p a = record a { released = a.released ++ (p ∷ []) }

-- What follows the walk over a packet: an empty batch is given back, or the last entry is marked.
unfoldable pub finish_packet : Bool → Packet → Accessor → Option Accessor → Option (Bool × Accessor)
finish_packet use_enso p a none = none
finish_packet use_enso p a (some a') =
    if a.next_index_to_prepare == a'.next_index_to_prepare
    then some (false, if use_enso then a' else release p a')
    else some (true, mark_last a')

-- `return true`, with the packets that are left, or `continue`.
unfoldable pub proceed :
    (Accessor → Option (Bool × Accessor))
    → List Packet
    → Option (Bool × Accessor)
    → Option (Bool × Accessor)
proceed again rest none = none
proceed again rest (some (true, a)) = some (true, record a { bufs = rest })
proceed again rest (some (false, a)) = again a

module _ (order : ByteOrder) (fuel : ℕ) where
  -- One packet: `false` is `continue`.
  unfoldable pub parse_packet : Bool → Packet → Accessor → Option (Bool × Accessor)
  parse_packet use_enso p a =
      let (r, valid) = is_valid order use_enso (new_reader p) in
      if not valid || not (is_request p)
      then some (false, a)
      else finish_packet use_enso p a (parse_requests fuel r a)

  -- `parse_request_batch` on DPDK: the index moves on before a packet is looked at.
  unfoldable pub parse_bufs : List Packet → Accessor → Option (Bool × Accessor)
  parse_bufs [] a = some (false, record a { bufs = [] })
  parse_bufs (p ∷ rest) a = proceed (parse_bufs rest) rest (parse_packet false p a)

  unfoldable pub parse_request_batch : Accessor → Option (Bool × Accessor)
  parse_request_batch a = parse_bufs a.bufs a

  -- The same with `USE_ENSO`: `continue` leaves `buf_iter_` where it is. `none` when the rounds of
  -- the loop run out.
  unfoldable pub parse_iter : ℕ → List Packet → Accessor → Option (Bool × Accessor)
  parse_iter zero bufs a = none
  parse_iter (suc rounds) [] a = some (false, record a { bufs = [] })
  parse_iter (suc rounds) (p ∷ rest) a =
      proceed (parse_iter rounds (p ∷ rest)) rest (parse_packet true p a)

  unfoldable pub prepare : ℕ → Accessor → Option (Bool × Accessor)
  prepare index a =
      if index == a.next_index_to_prepare then parse_request_batch a else some (true, a)
