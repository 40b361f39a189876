-- ===== src/Datagram/Respond.antt =====
-- The responses of the server (mica2/src/mica/datagram/datagram_server_impl.h), over DPDK: the pending
-- response batch, `retire`, and the packets that wait to be sent.
use enso_eval.Base.{
  ℕ, ◌+◌, ◌*◌, ◌%◌, ◌^◌, false, not, ◌||◌, Option, none, some, List, [], ◌∷◌, ◌++◌, get_or, length,
  add64, sub64, ◌==◌, ltb, if◌then◌else◌,
}
use enso_eval.Datagram.Memory.{Memory, copy}
use enso_eval.Datagram.Defs.{
  ByteOrder, Packet, Request, Builder, new_builder, append_request_no_key_value, get_out_value,
  get_max_out_key_length, get_max_out_value_length, set_addresses, set_response, finalize,
}
use enso_eval.Datagram.Parse.{Parsed, Accessor, slot, empty_parsed, release}

-- `requests_[index & kParsedRequestMask]`, which the getters read.
unfoldable pub request_of : Accessor → ℕ → Parsed
unfolding slot
request_of a index = get_or a.requests (slot index) empty_parsed

-- The store of a value through the pointer of `get_out_value(index)`.
unfoldable pub write_out_value : ℕ → Memory → Accessor → Accessor
write_out_value n value a = record a {
  b = record a.b {
    buf = record a.b.buf { body = copy n a.b.buf.body (get_out_value a.b 0) value 0 };
  };
}

unfoldable pub get_out_value_length : Accessor → ℕ
get_out_value_length a = get_max_out_value_length a.b 0

unfoldable pub set_out_value_length : ℕ → Accessor → Accessor
set_out_value_length n a = record a { value_length = n }

unfoldable pub set_result : ℕ → Accessor → Accessor
set_result v a = record a { result = v }

-- `network_->send` of all that waits.
unfoldable pub send_pending : Accessor → Accessor
send_pending a = record a { sent = a.sent ++ (a.tx ∷ []); tx = [] }

-- `kTXBurst` (32) and `kTXMinBurst` (1).
unfoldable pub check_pending_tx_full : Accessor → Accessor
unfolding send_pending
check_pending_tx_full a = if length a.tx == 32 then send_pending a else a

unfoldable pub check_pending_tx_min : Accessor → Accessor
unfolding send_pending
check_pending_tx_min a = if length a.tx == 1 then send_pending a else a

-- `c_1_usec` is the number of cycles of a microsecond; `kTXBurstTimeout` is 10.
unfoldable pub check_pending_tx_timeout : ℕ → ℕ → Accessor → Accessor
unfolding send_pending
check_pending_tx_timeout c_1_usec now a =
    if length a.tx == 0
    then a
    else if ltb (sub64 now a.oldest_time) (c_1_usec * 10 % 2 ^ 64)
    then a
    else send_pending a

-- `network_->allocate()`; `none` where it has no buffer, which an assertion excludes.
unfoldable pub take_buffer : List Packet → Accessor → Option Accessor
take_buffer [] a = none
take_buffer (p ∷ ps) a = some (record a { b = new_builder p; spare = ps })

unfoldable pub make_new_pending_response_batch : Accessor → Option Accessor
unfolding take_buffer
make_new_pending_response_batch a = take_buffer a.spare a

unfoldable pub release_pending_response_batch : Accessor → Accessor
release_pending_response_batch a = release a.b.buf a

-- The answer to a parsed request.
unfoldable pub response_to : Parsed → ℕ → ℕ → Request
response_to r result value_length = record {
  operation = r.operation;
  result = result;
  opaque = r.opaque;
  key_hash = r.key_hash;
  key = λ _. 0;
  key_length = 0;
  value = λ _. 0;
  value_length = value_length;
}

-- The counters of `retire`; `kSuccess` is 0.
unfoldable pub count_retired : Accessor → Accessor
count_retired a = record a {
  num_operations_done = add64 a.num_operations_done 1;
  num_operations_succeeded =
      if a.result == 0 then add64 a.num_operations_succeeded 1 else a.num_operations_succeeded;
  next_index_to_retire = (a.next_index_to_retire + 1) % 2 ^ 16;
}

module _ (order : ByteOrder) where
  unfoldable pub finished_response : Packet → Builder → Packet
  finished_response src b =
      finalize order false (set_response (record b { buf = set_addresses src b.buf }))

  unfoldable pub flush_pending_response_batch : Packet → Accessor → Accessor
  flush_pending_response_batch src a = check_pending_tx_full (record a {
    oldest_time = if length a.tx == 0 then a.now else a.oldest_time;
    tx = a.tx ++ (finished_response src a.b ∷ []);
  })

  -- What follows the new pending batch.
  unfoldable pub after_flush : Parsed → Option Accessor → Option Accessor
  after_flush r none = none
  after_flush r (some a) =
      some (count_retired (if r.last_in_packet == 0 then a else release r.src_buf a))

  unfoldable pub retire : ℕ → Accessor → Option Accessor
  retire index a =
      let r = request_of a index in
      let a1 = record a {
        b = append_request_no_key_value a.b (response_to r a.result a.value_length);
      } in
      let flush_response = not (r.last_in_packet == 0) || get_max_out_key_length a1.b == 0 in
      after_flush r (
        if flush_response
        then make_new_pending_response_batch (flush_pending_response_batch r.src_buf a1)
        else some a1)
