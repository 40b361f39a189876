-- ===== src/Datagram/ServeTests.antt =====
-- A server that answers two requests.
use enso_eval.Base.{
  ◌+◌, ◌^◌, ◌<◌, ◌≡◌, refl, true, false, some, List, [], ◌∷◌, ◌++◌, length, replicate, arith,
}
use enso_eval.Util.{roundup8}
use enso_eval.Datagram.Defs.{Request, new_builder}
use enso_eval.Datagram.Frame.{IsSendable}
use enso_eval.Datagram.Batch.{AllSendable, batch_end}
use enso_eval.Datagram.Parse.{Parsed, Accessor, parse_request_batch, empty_packet, empty_parsed}
use enso_eval.Datagram.Ring.{window}
use enso_eval.Datagram.Window.{mark}
use enso_eval.Datagram.Server.{client_packet}
use enso_eval.Datagram.Defs.{Packet}
use enso_eval.Datagram.Serve.{Answer, serve}
use enso_eval.Datagram.Served.{answers, Served}
use enso_eval.Datagram.Reply.{response, Answers, serve-answers}
use enso_eval.Datagram.Respond.{response_to}
use enso_eval.Datagram.Exchange.{reply, replies, exchange}
use enso_eval.Datagram.Tests.{
  little_endian, set_one, get_one, two, server, set_one-IsSendable, get_one-IsSendable, two_end,
  zeroes_refused,
}

-- `kSuccess` and the value of the first answer, and the value again for the get.
abbrev value_3 : Answer
value_3 = record { result = 0; value = λ i. 65 + i; value_length = 3 }

abbrev no_value : Answer
no_value = record { result = 0; value = λ i. 0; value_length = 0 }

abbrev two_answers : List Answer
two_answers = no_value ∷ value_3 ∷ []

reply-IsSendable :
    (r : Request) (x : Answer)
    → IsSendable r
    → x.result < 2 ^ 8
    → x.value_length < 2 ^ 24
    → IsSendable (reply r x)
reply-IsSendable r x fits p q = record {
  operation_fits = fits.operation_fits;
  result_fits = p;
  opaque_fits = fits.opaque_fits;
  key_hash_fits = fits.key_hash_fits;
  key_length_fits = omega arith;
  value_length_fits = q;
}

replies_end : batch_end 48 (replies two two_answers) ≡ 104
unfolding batch_end roundup8
replies_end = refl

-- The same server with nothing in its ring, a new pending batch and a free buffer.
abbrev idle_server : Accessor
idle_server = record server {
  next_index_to_retire = 130;
  b = new_builder empty_packet;
  spare = empty_packet ∷ [];
}

-- The packets of the two.
abbrev asked : Packet
asked = client_packet little_endian empty_packet two

abbrev answered : Packet
answered = response little_endian asked empty_packet (replies two two_answers)

exchange_example :
    (a' : Accessor) × (parse_request_batch little_endian 3 idle_server ≡ some (true, a'))
    × Served little_endian asked answered empty_packet [] 2 a'
        (serve little_endian two_answers (some a'))
    × Answers little_endian asked answered (replies two two_answers) 3
exchange_example =
    exchange little_endian empty_packet empty_packet empty_packet two two_answers idle_server 3
      (empty_packet ∷ []) [] [] refl (zeroes_refused false, tt) refl refl refl refl (omega arith)
      (omega arith) (omega arith) refl (omega arith) (set_one-IsSendable, (get_one-IsSendable, tt))
      (omega (arith, two_end))
      (
        reply-IsSendable set_one no_value set_one-IsSendable (omega arith) (omega arith),
        (reply-IsSendable get_one value_3 get_one-IsSendable (omega arith) (omega arith), tt),
      )
      (omega (arith, replies_end))

-- The parsed requests of the two, and a server that holds them while 31 responses wait.
abbrev parsed_two : List Parsed
parsed_two =
    record empty_parsed { src_buf = asked; key_hash = 7; opaque = 9; operation = 4 }
    ∷ record empty_parsed { src_buf = asked; key_hash = 7; opaque = 10; operation = 5 }
    ∷ []

abbrev busy_server : Accessor
busy_server = record idle_server {
  requests = empty_parsed ∷ empty_parsed ∷ (mark parsed_two ++ replicate 124 empty_parsed);
  tx = replicate 31 empty_packet;
}

parsed_answers-AllSendable : AllSendable (answers parsed_two two_answers)
unfolding response_to
parsed_answers-AllSendable = (omega arith, (omega arith, tt))

parsed_answers-end : batch_end 48 (answers parsed_two two_answers) ≡ 104
unfolding batch_end response_to roundup8
parsed_answers-end = refl

two_parsed :
    window busy_server.requests busy_server.next_index_to_retire (length parsed_two)
    ≡ mark parsed_two
unfolding mark
two_parsed = refl

serve-answers_example :
    let p = response little_endian asked empty_packet (answers parsed_two two_answers) in
    Served little_endian asked p empty_packet [] 2 busy_server
      (serve little_endian two_answers (some busy_server))
    × Answers little_endian asked p (answers parsed_two two_answers) 3
serve-answers_example =
    serve-answers little_endian asked empty_packet empty_packet [] parsed_two two_answers
      busy_server 3 refl refl (refl, refl, (refl, refl, tt)) refl (omega arith) (omega arith)
      two_parsed parsed_answers-AllSendable (omega (arith, parsed_answers-end)) (omega arith)
