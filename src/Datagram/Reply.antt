-- ===== src/Datagram/Reply.antt =====
-- The response to a packet of requests (mica2/src/mica/datagram/datagram_server_impl.h): what a
-- client reads of it.
use mathlib.Core.Path.{subst}
use enso_eval.Base.{
  ℕ, ◌+◌, ◌%◌, ◌^◌, ◌≤◌, ◌<◌, ◌≡◌, refl, sym, ap, ◌∙◌, true, false, none, some, List, [], ◌∷◌, map,
  length, arith,
}
use enso_eval.Datagram.Defs.{
  ByteOrder, Packet, Request, Builder, new_builder, append_request_no_key_value, set_addresses,
  set_response, is_response, finalize,
}
use enso_eval.Datagram.Reader.{Reader, new_reader, is_valid, next_place, read_all}
use enso_eval.Datagram.Frame.{seen_of}
use enso_eval.Datagram.Batch.{AllSendable, batch_end, batch_end-le, Batch, put_all}
use enso_eval.Datagram.RoundTrip.{read_all-Batch, finalize-is_valid_magic}
use enso_eval.Datagram.Parse.{Parsed, Accessor}
use enso_eval.Datagram.Respond.{finished_response}
use enso_eval.Datagram.Answer.{put_in_place, put_in_place-Batch}
use enso_eval.Datagram.Ring.{window}
use enso_eval.Datagram.Window.{mark}
use enso_eval.Datagram.Serve.{Answer, serve, append_in_place}
use enso_eval.Datagram.Served.{answers, batch_of, AllFrom, Served, serve-Served}

batch_of-body :
    (b : Builder) (rs : List Request)
    → (batch_of b rs).buf.body ≡ put_all put_in_place b.buf.body b.h rs
unfolding append_request_no_key_value put_all
batch_of-body b [] = refl
batch_of-body b (r ∷ rs) = batch_of-body (append_in_place b r) rs

batch_of-h : (b : Builder) (rs : List Request) → (batch_of b rs).h ≡ batch_end b.h rs
unfolding append_request_no_key_value batch_end
batch_of-h b [] = refl
batch_of-h b (r ∷ rs) = batch_of-h (append_in_place b r) rs

batch_of-count :
    (b : Builder) (rs : List Request)
    → b.count < 2 ^ 16
    → (batch_of b rs).count ≡ (b.count + length rs) % 2 ^ 16
unfolding append_request_no_key_value
batch_of-count b [] h = omega arith
batch_of-count b (r ∷ rs) h = omega (arith, batch_of-count (append_in_place b r) rs (omega arith))

-- The response that carries the requests.
abbrev pub response : ByteOrder → Packet → Packet → List Request → Packet
response order src buffer rs = finished_response order src (batch_of (new_builder buffer) rs)

-- What a client finds in a packet: a valid response with these requests, from the addresses that
-- `src` was sent to, to those it came from.
pub record Answers (order : ByteOrder) (src p : Packet) (rs : List Request) (fuel : ℕ)
    : Type 0 where
  pub valid : (is_valid order false (new_reader p)).1 ≡ true
  pub response : is_response p ≡ true
  pub reads : read_all fuel (is_valid order false (new_reader p)).0 ≡ some (map seen_of rs)
  pub count : p.num_requests ≡ length rs % 2 ^ 8
  pub mac : (p.s_addr ≡ src.d_addr) × (p.d_addr ≡ src.s_addr)
  pub ipv4 : (p.src_addr ≡ src.dst_addr) × (p.dst_addr ≡ src.src_addr)
  pub udp : (p.src_port ≡ src.dst_port) × (p.dst_port ≡ src.src_port)

response-Answers :
    (order : ByteOrder) (src buffer : Packet) (rs : List Request) (fuel : ℕ)
    → AllSendable rs
    → batch_end 48 rs < 2 ^ 16
    → length rs < fuel
    → Answers order src (response order src buffer rs) rs fuel
unfolding finished_response set_response set_addresses finalize is_response next_place new_builder
response-Answers order src buffer rs fuel fits short f =
    let b = batch_of (new_builder buffer) rs in
    let place : b.h ≡ batch_end 48 rs = batch_of-h (new_builder buffer) rs in
    let b1 : Builder = set_response (record b { buf = set_addresses src b.buf }) in
    let accepted =
      finalize-is_valid_magic order false b1 (omega (arith, place, batch_end-le 48 rs))
        (omega (arith, place)) refl in
    let batch : Batch b.buf.body 48 rs =
      subst (λ m. Batch m 48 rs) (sym (batch_of-body (new_builder buffer) rs))
        (put_in_place-Batch buffer.body 48 rs fits) in
    let r : Reader = record { buf = response order src buffer rs; total_length = b.h; h = none } in
    record {
      valid = ap (λ s. s.1) accepted;
      response = refl;
      reads =
          ap (λ s. read_all fuel s.0) accepted
          ∙ read_all-Batch rs fuel r 48 fits f refl batch place;
      count = omega (arith, batch_of-count (new_builder buffer) rs (omega arith));
      mac = (refl, refl);
      ipv4 = (refl, refl);
      udp = (refl, refl);
    }

-- A server over DPDK that answers the requests of a packet one after the other, each with a value
-- written in place, a length and a result, returns with one response behind those that wait to be
-- sent (all of them are sent where they are then 32), a new pending batch and the packet given back;
-- a client accepts the response and reads the answers in order, between the swapped addresses. The
-- pending batch is new, a buffer is free, the answers fit a frame and the widths of their fields,
-- and the requests stand in the ring as the parser leaves them.
pub serve-answers :
    (order : ByteOrder) (src buffer next : Packet) (spare : List Packet)
    → (ps : List Parsed) (xs : List Answer) (a : Accessor) (fuel : ℕ) → a.b ≡ new_builder buffer
    → a.spare ≡ next ∷ spare
    → AllFrom src ps
    → length ps ≡ length xs
    → 0 < length ps
    → a.next_index_to_retire + length ps < 2 ^ 16
    → window a.requests a.next_index_to_retire (length ps) ≡ mark ps
    → AllSendable (answers ps xs)
    → batch_end 48 (answers ps xs) ≤ 1514
    → length (answers ps xs) < fuel
    → let p = response order src buffer (answers ps xs) in
      Served order src p next spare (length ps) a (serve order xs (some a))
      × Answers order src p (answers ps xs) fuel
serve-answers order src buffer next spare ps xs a fuel new free from same some_request room held
      fits short f =
    (
      subst
          (λ b.
            Served order src (finished_response order src (batch_of b (answers ps xs))) next spare
              (length ps) a (serve order xs (some a)))
          new
          (serve-Served order src next spare ps xs a from same some_request
            (ap (λ b. b.remaining_space) new ∙ unfold new_builder in refl) free room held),
      response-Answers order src buffer (answers ps xs) fuel fits (omega arith) f,
    )
