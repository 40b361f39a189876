-- ===== src/Datagram/Reader.antt =====
-- `RequestBatchReader` (mica2/src/mica/datagram/datagram_protocol.h): the checks on a packet and the
-- walk over its requests.
use enso_eval.Base.{
  ℕ, zero, suc, ◌+◌, ◌%◌, ◌^◌, bit_or, Bool, true, false, not, ◌&&◌, ◌||◌, Option, none, some, List,
  [], ◌∷◌, sub64, ◌==◌, ltb, if◌then◌else◌,
}
use mathlib.Core.Option
use enso_eval.Util.{roundup8}
use enso_eval.Datagram.Memory.{Memory, bytes}
use enso_eval.Datagram.Defs.{
  ByteOrder, Packet, ether_size, ipv4_size, batch_header_size, request_header_size, ether_type_ipv4,
  ipproto_udp, operation_at, result_at, opaque_at, key_hash_at, key_length_at, value_length_at,
  request_end,
}

-- `h` is `none` for the null pointer.
pub record Reader : Type 0 where
  pub buf : Packet
  pub total_length : ℕ
  pub h : Option ℕ

unfoldable pub new_reader : Packet → Reader
new_reader buf = record { buf = buf; total_length = 0; h = none }

module _ (order : ByteOrder) (use_enso : Bool) where
  open order use {to_cpu}

  -- `total_length_` becomes the length of the buffer, or with `USE_ENSO` that of the IP header.
  unfoldable pub is_valid : Reader → Reader × Bool
  is_valid r =
      let p = r.buf in
      let ip_length = to_cpu p.total_length in
      let r1 = if use_enso then r else record r { total_length = p.length } in
      let r2 =
        if use_enso then record r { total_length = (ip_length + ether_size) % 2 ^ 16 } else r1 in
      if not use_enso && ltb p.length batch_header_size
      then (r1, false)
      else if not (p.ether_type == to_cpu ether_type_ipv4)
      then (r1, false)
      else if not (p.version_ihl == bit_or 0x40 0x05)
      then (r1, false)
      else if not (p.packet_id == 0) || not (p.fragment_offset == 0)
      then (r1, false)
      else if not use_enso && not (ip_length == sub64 p.length ether_size)
      then (r1, false)
      else if not (p.next_proto_id == ipproto_udp)
      then (r2, false)
      else if not (to_cpu p.dgram_len == sub64 ip_length ipv4_size)
      then (r2, false)
      else if not (p.magic == 0x78) && not (p.magic == 0x79)
      then (r2, false)
      else (r2, true)

-- Where `find_next` moves to.
unfoldable pub next_place : Memory → Option ℕ → ℕ
next_place m none = batch_header_size
next_place m (some h) = request_end m h

unfoldable pub find_next : Reader → Reader × Bool
find_next r =
    let h = next_place r.buf.body r.h in
    let r' = record r { h = some h } in
    if ltb r.total_length (h + request_header_size)
    then (r', false)
    else if ltb r.total_length (request_end r.buf.body h)
    then (r', false)
    else (r', true)

-- What the getters say of the request at `h`: `get_key` and `get_value` point at this many bytes.
pub record Seen : Type 0 where
  pub operation : ℕ
  pub result : ℕ
  pub opaque : ℕ
  pub key_hash : ℕ
  pub key : List ℕ
  pub value : List ℕ

unfoldable pub get_key : ℕ → ℕ
get_key h = h + request_header_size

unfoldable pub get_value : Memory → ℕ → ℕ
get_value m h = get_key h + roundup8 (key_length_at m h)

unfoldable pub seen_at : Memory → ℕ → Seen
seen_at m h = record {
  operation = operation_at m h;
  result = result_at m h;
  opaque = opaque_at m h;
  key_hash = key_hash_at m h;
  key = bytes (key_length_at m h) m (get_key h);
  value = bytes (value_length_at m h) m (get_value m h);
}

unfoldable pub seen : Reader → Seen
unfolding seen_at
seen r = seen_at r.buf.body (elim r.h [ none ↦ 0 | some h ↦ h ])

-- `while (r.find_next())`, with the requests that the rounds see; `none` when the fuel runs out.
unfoldable pub round : (Reader → Option (List Seen)) → Reader × Bool → Option (List Seen)
round again (r, true) = Option.map (◌∷◌ (seen r)) (again r)
round again (r, false) = some []

unfoldable pub read_all : ℕ → Reader → Option (List Seen)
read_all zero r = none
read_all (suc fuel) r = round (read_all fuel) (find_next r)
