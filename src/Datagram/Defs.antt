-- ===== src/Datagram/Defs.antt =====
-- Request batches (mica2/src/mica/datagram/datagram_protocol.h): the packet, the builder and the
-- reader. The headers of Ethernet, IPv4 and UDP are DPDK's structs: here they are records of the
-- fields that the code names, and `ByteOrder` is the swap of DPDK. What follows them is bytes, at
-- their offsets from the start of the packet.
use enso_eval.Base.{
  ℕ, ◌+◌, ◌-◌, ◌*◌, ◌/◌, ◌%◌, ◌^◌, ◌<◌, ◌≡◌, bit_and, bit_or, Bool, List, [], ◌∷◌, u32, add64,
  sub64, ◌==◌, leb, if◌then◌else◌,
}
use enso_eval.Util.{roundup8}
use enso_eval.Datagram.Memory.{Memory, store, load, copy}

-- `rte_cpu_to_be_16` and `rte_be_to_cpu_16`.
pub record ByteOrder : Type 0 where
  pub to_be : ℕ → ℕ
  pub to_cpu : ℕ → ℕ
  -- Reading back gives the 16-bit word that was written, and both are one swap.
  pub swap_back : (v : ℕ) → v < 2 ^ 16 → to_cpu (to_be v) ≡ v
  pub same_swap : (v : ℕ) → to_cpu v ≡ to_be v

-- `sizeof` of the three headers, of `RequestBatchHeader` and of `RequestHeader`.
abbrev pub ether_size : ℕ
ether_size = 14

abbrev pub ipv4_size : ℕ
ipv4_size = 20

abbrev pub batch_header_size : ℕ
batch_header_size = 48

abbrev pub request_header_size : ℕ
request_header_size = 24

-- `RTE_ETHER_TYPE_IPV4` and `IPPROTO_UDP`.
abbrev pub ether_type_ipv4 : ℕ
ether_type_ipv4 = 0x0800

abbrev pub ipproto_udp : ℕ
ipproto_udp = 17

-- A packet buffer: the headers, `magic` and `num_requests` of `RequestBatchHeader`, the bytes, and
-- the length that `set_length` sets.
pub record Packet : Type 0 where
  pub d_addr : ℕ
  pub s_addr : ℕ
  pub ether_type : ℕ
  pub version_ihl : ℕ
  pub type_of_service : ℕ
  pub total_length : ℕ
  pub packet_id : ℕ
  pub fragment_offset : ℕ
  pub time_to_live : ℕ
  pub next_proto_id : ℕ
  pub hdr_checksum : ℕ
  pub src_addr : ℕ
  pub dst_addr : ℕ
  pub src_port : ℕ
  pub dst_port : ℕ
  pub dgram_len : ℕ
  pub dgram_cksum : ℕ
  pub magic : ℕ
  pub num_requests : ℕ
  pub body : Memory
  pub length : ℕ

-- The fields of the `RequestHeader` at `h`.
unfoldable pub operation_at : Memory → ℕ → ℕ
operation_at m h = load 1 m h

unfoldable pub result_at : Memory → ℕ → ℕ
result_at m h = load 1 m (h + 1)

unfoldable pub kv_length_vec_at : Memory → ℕ → ℕ
kv_length_vec_at m h = load 4 m (h + 4)

unfoldable pub key_hash_at : Memory → ℕ → ℕ
key_hash_at m h = load 8 m (h + 8)

unfoldable pub opaque_at : Memory → ℕ → ℕ
opaque_at m h = load 4 m (h + 16)

unfoldable pub key_length_at : Memory → ℕ → ℕ
key_length_at m h = kv_length_vec_at m h / 2 ^ 24

unfoldable pub value_length_at : Memory → ℕ → ℕ
value_length_at m h = bit_and (kv_length_vec_at m h) (2 ^ 24 - 1)

-- The end of the request at `h`: header, key and value, the last two in words of 8 bytes.
unfoldable pub request_end : Memory → ℕ → ℕ
request_end m h =
    h + request_header_size + roundup8 (key_length_at m h) + roundup8 (value_length_at m h)

-- `RequestBatchBuilder`; `h` is the offset of the next request.
pub record Builder : Type 0 where
  pub buf : Packet
  pub h : ℕ
  pub remaining_space : ℕ
  pub count : ℕ

-- `RTE_ETHER_MAX_LEN` (1518) and `RTE_ETHER_CRC_LEN` (4) less the headers.
abbrev pub k_max_value_length : ℕ
k_max_value_length = 1518 - 4 - batch_header_size - request_header_size

unfoldable pub new_builder : Packet → Builder
new_builder buf = record {
  buf = buf;
  h = batch_header_size;
  remaining_space = k_max_value_length;
  count = 0;
}

unfoldable pub has_sufficient_space : Builder → ℕ → ℕ → Bool
has_sufficient_space b key_length value_length =
    leb (add64 (roundup8 key_length) (roundup8 value_length)) b.remaining_space

unfoldable pub get_out_key : Builder → ℕ
get_out_key b = b.h + request_header_size

unfoldable pub get_max_out_key_length : Builder → ℕ
get_max_out_key_length b = b.remaining_space

unfoldable pub get_out_value : Builder → ℕ → ℕ
get_out_value b key_length = b.h + request_header_size + roundup8 key_length

unfoldable pub get_max_out_value_length : Builder → ℕ → ℕ
get_max_out_value_length b key_length = sub64 b.remaining_space (roundup8 key_length)

-- What a request says, with the pointers to its key and its value.
pub record Request : Type 0 where
  pub operation : ℕ
  pub result : ℕ
  pub opaque : ℕ
  pub key_hash : ℕ
  pub key : Memory
  pub key_length : ℕ
  pub value : Memory
  pub value_length : ℕ

-- The header, in the order in which the builder stores its fields.
unfoldable pub put_header : Memory → ℕ → Request → Memory
put_header m h r =
    let m1 = store 1 m h r.operation in
    let m2 = store 1 m1 (h + 1) r.result in
    let m3 = store 8 m2 (h + 8) r.key_hash in
    let m4 = store 4 m3 (h + 16) r.opaque in
    let m5 = store 2 m4 (h + 2) 0 in
    store 4 m5 (h + 4) (u32 (bit_or (r.key_length * 2 ^ 24) r.value_length))

-- `append_request_no_key_value`: the caller writes the key and the value in place.
unfoldable pub append_request_no_key_value : Builder → Request → Builder
append_request_no_key_value b r = record b {
  buf = record b.buf { body = put_header b.buf.body b.h r };
  h = b.h + request_header_size + roundup8 r.key_length + roundup8 r.value_length;
  count = (b.count + 1) % 2 ^ 16;
}

unfoldable pub put_request : Memory → ℕ → Request → Memory
put_request m h r =
    let m' = put_header m h r in
    let p = h + request_header_size in
    let m'' = copy (roundup8 r.key_length) m' p r.key 0 in
    copy (roundup8 r.value_length) m'' (p + roundup8 r.key_length) r.value 0

unfoldable pub append_request : Builder → Request → Builder
append_request b r = record b {
  buf = record b.buf { body = put_request b.buf.body b.h r };
  h = b.h + request_header_size + roundup8 r.key_length + roundup8 r.value_length;
  count = (b.count + 1) % 2 ^ 16;
}

unfoldable pub append_all : Builder → List Request → Builder
append_all b [] = b
append_all b (r ∷ rs) = append_all (append_request b r) rs

unfoldable pub set_request : Builder → Builder
set_request b = record b { buf = record b.buf { magic = 0x78 } }

unfoldable pub set_response : Builder → Builder
set_response b = record b { buf = record b.buf { magic = 0x79 } }

unfoldable pub is_request : Packet → Bool
is_request p = p.magic == 0x78

unfoldable pub is_response : Packet → Bool
is_response p = p.magic == 0x79

-- The addresses of a response are those of its request, swapped.
unfoldable pub set_addresses : Packet → Packet → Packet
set_addresses src p = record p {
  s_addr = src.d_addr;
  d_addr = src.s_addr;
  src_addr = src.dst_addr;
  dst_addr = src.src_addr;
  src_port = src.dst_port;
  dst_port = src.src_port;
}

module _ (order : ByteOrder) (use_enso : Bool) where
  open order use {to_be, to_cpu}

  -- `finalize`; with `USE_ENSO` the buffer has no length to set.
  unfoldable pub finalize : Builder → Packet
  finalize b =
      let packet_length = b.h in
      record b.buf {
        length = if use_enso then b.buf.length else packet_length % 2 ^ 16;
        total_length = to_be (sub64 packet_length ether_size % 2 ^ 16);
        dgram_len = to_be (sub64 (sub64 packet_length ether_size) ipv4_size % 2 ^ 16);
        ether_type = to_be ether_type_ipv4;
        version_ihl = bit_or 0x40 0x05;
        type_of_service = 0;
        packet_id = 0;
        fragment_offset = 0;
        time_to_live = 64;
        next_proto_id = ipproto_udp;
        hdr_checksum = 0;
        dgram_cksum = 0;
        num_requests = b.count % 2 ^ 8;
      }
