-- ===== src/Datagram/Served.antt =====
-- The state of the server behind the requests of a packet
-- (mica2/src/mica/datagram/datagram_server_impl.h).
use enso_eval.Base.{
  ℕ, suc, ◌+◌, ◌^◌, ◌<◌, ◌≡◌, refl, ap, ◌∙◌, Option, some, List, [], ◌∷◌, ◌++◌, length, get_or,
  ◌==◌, if◌then◌else◌, arith,
}
use enso_eval.Base.Bits.{bit_and-mask}
use enso_eval.Datagram.Defs.{
  ByteOrder, Packet, Request, Builder, new_builder, append_request_no_key_value,
}
use enso_eval.Datagram.Parse.{Parsed, Accessor, slot, release, empty_parsed}
use enso_eval.Datagram.Respond.{request_of, count_retired, response_to, finished_response}
use enso_eval.Datagram.Ring.{window}
use enso_eval.Datagram.Window.{mark}
use enso_eval.Datagram.Serve.{
  Answer, serve, answer_of, append_in_place, responded, finished, answer-more, answer-finished,
}

-- The answers as requests of the response batch, and the batch that they make.
abbrev pub answers : List Parsed → List Answer → List Request
answers [] xs = []
answers (r ∷ ps) [] = []
answers (r ∷ ps) (x ∷ xs) = answer_of r x ∷ answers ps xs

abbrev pub batch_of : Builder → List Request → Builder
batch_of b [] = b
batch_of b (r ∷ rs) = batch_of (append_in_place b r) rs

-- The parsed requests of one packet, before the last one is marked.
abbrev pub AllFrom : Packet → List Parsed → Type 0
AllFrom src [] = Unit
AllFrom src (r ∷ ps) = (r.src_buf ≡ src) × (r.last_in_packet ≡ 0) × AllFrom src ps

-- The state behind the retirement of them: a new pending batch, the response behind those that
-- wait, sent with them where they are a full burst, and the packet given back.
pub record Served (order : ByteOrder) (src response next : Packet) (spare : List Packet) (n : ℕ)
    (a : Accessor) (o : Option Accessor) : Type 0 where
  pub after : Accessor
  pub returns : o ≡ some after
  pub b_new : after.b ≡ new_builder next
  pub spare_left : after.spare ≡ spare
  pub tx_next :
      after.tx ≡ (if length (a.tx ++ (response ∷ [])) == 32 then [] else a.tx ++ (response ∷ []))
  pub sent_next : after.sent ≡ (
      if length (a.tx ++ (response ∷ [])) == 32
      then a.sent ++ ((a.tx ++ (response ∷ [])) ∷ [])
      else a.sent)
  pub released_next : after.released ≡ a.released ++ (src ∷ [])
  pub retired : after.next_index_to_retire ≡ a.next_index_to_retire + n

request_of-window :
    (a : Accessor) (k : ℕ) (r : Parsed) (rs : List Parsed)
    → window a.requests a.next_index_to_retire (suc k) ≡ r ∷ rs
    → request_of a a.next_index_to_retire ≡ r
unfolding request_of slot
request_of-window a k r rs e =
    ap (λ i. get_or a.requests i empty_parsed) (bit_and-mask 7 a.next_index_to_retire)
    ∙ ap (λ l. get_or l 0 empty_parsed) e

window-rest :
    (xs : List Parsed) (i k : ℕ) (r : Parsed) (rs : List Parsed)
    → window xs i (suc k) ≡ r ∷ rs
    → window xs (i + 1) k ≡ rs
window-rest xs i k r rs e = cc (e)

module _ (order : ByteOrder) (src next : Packet) (spare : List Packet) where
  pub serve-Served :
      (ps : List Parsed) (xs : List Answer) (a : Accessor)
      → AllFrom src ps
      → length ps ≡ length xs
      → 0 < length ps
      → a.b.remaining_space ≡ 1442
      → a.spare ≡ next ∷ spare
      → a.next_index_to_retire + length ps < 2 ^ 16
      → window a.requests a.next_index_to_retire (length ps) ≡ mark ps
      → Served order src
          (finished_response order src (batch_of a.b (answers ps xs)))
          next
          spare
          (length ps)
          a
          (serve order xs (some a))
  unfolding mark serve count_retired release append_request_no_key_value response_to
  serve-Served [] xs a from same some_request left buffer room held = absurd (omega arith)
  serve-Served (r ∷ ps) [] a from same some_request left buffer room held = absurd (omega arith)
  serve-Served (r ∷ []) (x ∷ y ∷ xs) a from same some_request left buffer room held =
      absurd (omega arith)
  serve-Served (r ∷ []) (x ∷ []) a (here, last, from) same some_request left buffer room held =
      let m = record r { last_in_packet = 1 } in
      record {
        after = finished order m x next spare a;
        returns =
            ap (serve order []) (
              answer-finished order x a m next spare (request_of-window a 0 m [] held) refl buffer);
        b_new = refl;
        spare_left = refl;
        tx_next = rw here refl;
        sent_next = rw here refl;
        released_next = rw here refl;
        retired = omega arith;
      }
  serve-Served (r ∷ r' ∷ ps) (x ∷ xs) a (here, more, from) same some_request left buffer room held =
      let a1 = count_retired (responded r x a) in
      let found = request_of-window a (suc (length ps)) r (mark (r' ∷ ps)) held in
      let moved : a1.next_index_to_retire ≡ a.next_index_to_retire + 1 = omega arith in
      let held1 =
        ap (λ i. window a.requests i (suc (length ps))) moved
        ∙ window-rest a.requests a.next_index_to_retire (suc (length ps)) r (mark (r' ∷ ps)) held in
      let rest =
        serve-Served (r' ∷ ps) xs a1 from (omega arith) (omega arith) left buffer
          (omega (arith, moved)) held1 in
      record {
        after = rest.after;
        returns = ap (serve order xs) (answer-more order x a r found more left) ∙ rest.returns;
        b_new = rest.b_new;
        spare_left = rest.spare_left;
        tx_next = rest.tx_next;
        sent_next = rest.sent_next;
        released_next = rest.released_next;
        retired = omega (arith, moved, rest.retired);
      }
