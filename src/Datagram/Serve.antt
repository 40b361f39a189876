-- ===== src/Datagram/Serve.antt =====
-- The answers to the requests of a packet: from `retire` and the flush of the pending response batch
-- (mica2/src/mica/datagram/datagram_server_impl.h) to the response that a client reads.
use enso_eval.Base.{
  ℕ, ◌≡◌, refl, ap, ◌∙◌, Bool, true, false, Option, none, some, List, [], ◌∷◌, ◌++◌, length, ◌==◌,
  if◌then◌else◌,
}
use enso_eval.Datagram.Memory.{Memory, copy}
use enso_eval.Datagram.Defs.{
  ByteOrder, Packet, Request, Builder, new_builder, append_request_no_key_value, get_out_value,
  get_max_out_key_length, put_header,
}
use enso_eval.Datagram.Parse.{Parsed, Accessor, release}
use enso_eval.Datagram.Respond.{
  request_of, write_out_value, set_out_value_length, set_result, check_pending_tx_full, take_buffer,
  make_new_pending_response_batch, response_to, count_retired, finished_response,
  flush_pending_response_batch, send_pending, after_flush, retire,
}
use enso_eval.Datagram.Answer.{value_in_place}

-- What a processor says of a request: the result, and the value that it writes in place.
pub record Answer : Type 0 where
  pub result : ℕ
  pub value : Memory
  pub value_length : ℕ

-- One request: the value, its length, the result, and `retire`.
unfoldable pub answer : ByteOrder → Answer → Accessor → Option Accessor
answer order x a = retire order a.next_index_to_retire (
    set_result x.result
      (set_out_value_length x.value_length (write_out_value x.value_length x.value a)))

unfoldable pub serve : ByteOrder → List Answer → Option Accessor → Option Accessor
serve order xs none = none
serve order [] (some a) = some a
serve order (x ∷ xs) (some a) = serve order xs (answer order x a)

-- The answers as requests of the response batch, and the batch that they make.
abbrev pub answer_of : Parsed → Answer → Request
answer_of r x = record (response_to r x.result x.value_length) { value = x.value }

abbrev pub append_in_place : Builder → Request → Builder
append_in_place b r =
    append_request_no_key_value
      (record b { buf = record b.buf { body = value_in_place b.buf.body b.h r } }) r

-- The state behind the append of `retire`.
abbrev pub responded : Parsed → Answer → Accessor → Accessor
responded r x a = record a {
  b = append_in_place a.b (answer_of r x);
  value_length = x.value_length;
  result = x.result;
}

pub answer-more :
    (order : ByteOrder) (x : Answer) (a : Accessor) (r : Parsed)
    → request_of a a.next_index_to_retire ≡ r
    → r.last_in_packet ≡ 0
    → a.b.remaining_space ≡ 1442
    → answer order x a ≡ some (count_retired (responded r x a))
unfolding answer retire set_result set_out_value_length write_out_value append_request_no_key_value
    after_flush response_to get_max_out_key_length copy get_out_value request_of put_header
answer-more order x a r found more left = rw (found, more, left) refl

answer-last :
    (order : ByteOrder) (x : Answer) (a : Accessor) (r : Parsed)
    → request_of a a.next_index_to_retire ≡ r
    → r.last_in_packet ≡ 1
    → answer order x a
      ≡ after_flush order r (
          make_new_pending_response_batch
            (flush_pending_response_batch order r.src_buf (responded r x a)))
unfolding answer retire set_result set_out_value_length write_out_value append_request_no_key_value
    response_to copy get_out_value request_of put_header
answer-last order x a r found last = simp (found, last)

-- What waits to be sent behind a flush, and whether it is a full burst.
abbrev waiting : ByteOrder → Packet → Accessor → List Packet
waiting order src a = a.tx ++ (finished_response order src a.b ∷ [])

abbrev full_burst : ByteOrder → Packet → Accessor → Bool
full_burst order src a = length (waiting order src a) == 32

abbrev flushed : ByteOrder → Packet → Accessor → Accessor
flushed order src a = record a {
  oldest_time = if length a.tx == 0 then a.now else a.oldest_time;
  tx = if full_burst order src a then [] else waiting order src a;
  sent = if full_burst order src a then a.sent ++ (waiting order src a ∷ []) else a.sent;
}

flush-flushed :
    (order : ByteOrder) (src : Packet) (a : Accessor)
    → flush_pending_response_batch order src a ≡ flushed order src a
unfolding flush_pending_response_batch check_pending_tx_full send_pending
flush-flushed order src a = split (full_burst order src a)
  where
    a' : Accessor
    a' = record a {
      oldest_time = if length a.tx == 0 then a.now else a.oldest_time;
      tx = waiting order src a;
    }

    split :
        (c : Bool)
        → (if c then record a' { sent = a.sent ++ (waiting order src a ∷ []); tx = [] } else a')
          ≡ record a' {
            tx = if c then [] else waiting order src a;
            sent = if c then a.sent ++ (waiting order src a ∷ []) else a.sent;
          }
    split true = refl
    split false = refl

-- The state behind the last request of a packet.
abbrev pub finished : ByteOrder → Parsed → Answer → Packet → List Packet → Accessor → Accessor
finished order r x next spare a = count_retired (
    release r.src_buf
      (record (flushed order r.src_buf (responded r x a)) { b = new_builder next; spare = spare }))

pub answer-finished :
    (order : ByteOrder) (x : Answer) (a : Accessor) (r : Parsed) (next : Packet)
    → (spare : List Packet) → request_of a a.next_index_to_retire ≡ r
    → r.last_in_packet ≡ 1
    → a.spare ≡ next ∷ spare
    → answer order x a ≡ some (finished order r x next spare a)
unfolding after_flush make_new_pending_response_batch take_buffer
answer-finished order x a r next spare found last some_spare =
    answer-last order x a r found last
    ∙ ap (λ s. after_flush order r (make_new_pending_response_batch s))
        (flush-flushed order r.src_buf (responded r x a))
    ∙ simp (some_spare, last)
