-- ===== src/Datagram/Exchange.antt =====
-- From the requests of a client to the answers that it reads: the builder, the parser, `retire` and
-- the reader together (mica2/src/mica/datagram/datagram_protocol.h and datagram_server_impl.h).
use mathlib.Core.Path.{subst}
use enso_eval.Base.{
  ℕ, ◌+◌, ◌^◌, ◌≤◌, ◌<◌, ◌≡◌, refl, sym, ap, ◌∙◌, true, some, List, [], ◌∷◌, ◌++◌, length, arith,
}
use enso_eval.Datagram.Defs.{ByteOrder, Packet, Request, new_builder}
use enso_eval.Datagram.Frame.{behind}
use enso_eval.Datagram.Batch.{AllSendable, batch_end}
use enso_eval.Datagram.Parse.{Accessor, parse_request_batch}
use enso_eval.Datagram.Respond.{response_to}
use enso_eval.Datagram.Refuse.{AllRefused}
use enso_eval.Datagram.Ring.{entries, window}
use enso_eval.Datagram.Server.{client_packet, entries-length, parse_request_batch-append_all}
use enso_eval.Datagram.Serve.{Answer, serve}
use enso_eval.Datagram.Served.{answers, AllFrom, Served}
use enso_eval.Datagram.Reply.{response, Answers, serve-answers}

-- The reply to a request: its operation, number and hash, and what the processor says.
abbrev pub reply : Request → Answer → Request
reply r x = record {
  operation = r.operation;
  result = x.result;
  opaque = r.opaque;
  key_hash = r.key_hash;
  key = λ _. 0;
  key_length = 0;
  value = x.value;
  value_length = x.value_length;
}

abbrev pub replies : List Request → List Answer → List Request
replies [] xs = []
replies (r ∷ rs) [] = []
replies (r ∷ rs) (x ∷ xs) = reply r x ∷ replies rs xs

answers-entries :
    (q : Packet) (h : ℕ) (rs : List Request) (xs : List Answer)
    → answers (entries q h rs) xs ≡ replies rs xs
unfolding entries response_to
answers-entries q h [] xs = refl
answers-entries q h (r ∷ rs) [] = refl
answers-entries q h (r ∷ rs) (x ∷ xs) = ap (◌∷◌ (reply r x)) (answers-entries q (behind h r) rs xs)

replies-le : (rs : List Request) (xs : List Answer) → length (replies rs xs) ≤ length rs
replies-le [] xs = omega arith
replies-le (r ∷ rs) [] = omega arith
replies-le (r ∷ rs) (x ∷ xs) = omega (arith, replies-le rs xs)

entries-AllFrom : (q : Packet) (h : ℕ) (rs : List Request) → AllFrom q (entries q h rs)
unfolding entries
entries-AllFrom q h [] = tt
entries-AllFrom q h (r ∷ rs) = (refl, refl, entries-AllFrom q (behind h r) rs)

-- A client sends a batch of requests and the server, over DPDK, parses it behind packets that it
-- refuses and answers one request after the other: the parse returns true, the server returns with
-- one response behind those that wait to be sent, a new pending batch and the packet given back, and
-- the client reads from the response the operation, the number and the hash of each of its requests,
-- in order, with the result and the value that the processor gave. The ring and the pending batch
-- are empty, a buffer is free, requests and answers keep to the widths of their fields, the batch to
-- 65535 bytes and 128 requests, the answers to a frame, and no index leaves 16 bits.
pub exchange :
    (order : ByteOrder) (p buffer next : Packet) (rs : List Request) (xs : List Answer)
    → (a : Accessor) (fuel : ℕ) (bad rest spare : List Packet)
    → a.bufs ≡ bad ++ (client_packet order p rs ∷ rest)
    → AllRefused order bad
    → a.b ≡ new_builder buffer
    → a.spare ≡ next ∷ spare
    → length a.requests ≡ 128
    → a.next_index_to_retire ≡ a.next_index_to_prepare
    → a.next_index_to_prepare + length rs < 2 ^ 16
    → 0 < length rs
    → length rs ≤ 128
    → length rs ≡ length xs
    → length rs < fuel
    → AllSendable rs
    → batch_end 48 rs < 2 ^ 16
    → AllSendable (replies rs xs)
    → batch_end 48 (replies rs xs) ≤ 1514
    → let q = client_packet order p rs in
      let reply_packet = response order q buffer (replies rs xs) in
      (a' : Accessor) × (parse_request_batch order fuel a ≡ some (true, a'))
      × Served order q reply_packet next spare (length rs) a' (serve order xs (some a'))
      × Answers order q reply_packet (replies rs xs) fuel
exchange order p buffer next rs xs a fuel bad rest spare bufs refused new free full empty small
      some_request room same f fits short answers_fit frame =
    let q = client_packet order p rs in
    let ps = entries q 48 rs in
    let as_replies = answers-entries q 48 rs xs in
    let same_length : length ps ≡ length rs = entries-length q 48 rs in
    let (a', parsed, _, _, held, _, kept) =
      parse_request_batch-append_all order p rs a fuel bad rest bufs refused fits short f
        some_request full (omega (arith, empty)) (omega (arith, empty)) small in
    let starts : a'.next_index_to_retire ≡ a.next_index_to_prepare = kept.index ∙ empty in
    let held' =
      ap (λ i. window a'.requests i (length ps)) starts
      ∙ ap (window a'.requests a.next_index_to_prepare) same_length
      ∙ held in
    let served =
      serve-answers order q buffer next spare ps xs a' fuel (kept.batch ∙ new) (kept.buffers ∙ free)
        (entries-AllFrom q 48 rs) (omega (arith, same_length)) (omega (arith, same_length))
        (omega (arith, same_length, starts)) held' (subst AllSendable (sym as_replies) answers_fit)
        (subst (λ s. batch_end 48 s ≤ 1514) (sym as_replies) frame)
        (subst (λ s. length s < fuel) (sym as_replies) (omega (arith, replies-le rs xs))) in
    let (s, r) =
      subst
        (λ s.
          Served order q (response order q buffer s) next spare (length rs) a'
            (serve order xs (some a'))
          × Answers order q (response order q buffer s) s fuel)
        as_replies
        (subst
          (λ n.
            Served order q (response order q buffer (answers ps xs)) next spare n a'
              (serve order xs (some a'))
            × Answers order q (response order q buffer (answers ps xs)) (answers ps xs) fuel)
          same_length served) in
    (a', parsed, s, r)
