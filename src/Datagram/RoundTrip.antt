-- ===== src/Datagram/RoundTrip.antt =====
-- A batch that the builder finishes is valid, and the reader sees its requests in order.
use enso_eval.Base.{
  ℕ, zero, suc, ◌-◌, ◌%◌, ◌^◌, ◌≤◌, ◌<◌, ◌≡◌, refl, sym, ap, ◌∙◌, Bool, true, false, not, ◌&&◌,
  ◌==◌, none, some, List, [], ◌∷◌, map, length, sub64, arith,
}
use mathlib.Core.Path.{subst}
use mathlib.Core.Option
use enso_eval.Datagram.Defs.{
  ByteOrder, Packet, Request, Builder, append_all, new_builder, set_request, is_request, finalize,
}
use enso_eval.Datagram.Reader.{Reader, new_reader, is_valid, next_place, read_all, seen}
use enso_eval.Datagram.Frame.{seen_of, behind}
use enso_eval.Datagram.Requests.{seen_at-Carries, request_end-Carries}
use enso_eval.Datagram.Batch.{
  AllSendable, batch_end, Batch, put_all-Batch, batch_end-le, append_all-body, append_all-h,
  append_all-count,
}
use enso_eval.Datagram.Walk.{find_next-more, find_next-end, read_all-more, read_all-end, seen-at}

pub read_all-Batch :
    (rs : List Request) (fuel : ℕ) (r : Reader) (h : ℕ)
    → AllSendable rs
    → length rs < fuel
    → next_place r.buf.body r.h ≡ h
    → Batch r.buf.body h rs
    → r.total_length ≡ batch_end h rs
    → read_all fuel r ≡ some (map seen_of rs)
unfolding batch_end next_place
read_all-Batch rs zero r h fits f place batch ends = absurd (omega arith)
read_all-Batch [] (suc fuel) r h fits f place batch ends =
    read_all-end fuel r (find_next-end r (omega arith))
read_all-Batch (q ∷ rs) (suc fuel) r h (fits, more) f place (c, batch) ends =
    let r' : Reader = record r { h = some h } in
    let found =
      find_next-more r h (behind h q) place (request_end-Carries r.buf.body h q fits c)
        (omega arith) (omega (arith, batch_end-le (behind h q) rs)) in
    let rest =
      read_all-Batch rs fuel r' (behind h q) more (omega arith)
        (request_end-Carries r.buf.body h q fits c) batch ends in
    read_all-more fuel r r' found
    ∙ ap (λ o. Option.map (◌∷◌ (seen r')) o) rest
    ∙ ap (λ s. some (s ∷ map seen_of rs)) (seen-at r h ∙ seen_at-Carries r.buf.body h q fits c)

-- A finished packet passes every check, and the reader takes its length for that of the batch.
pub finalize-is_valid_magic :
    (order : ByteOrder) (use_enso : Bool) (b : Builder)
    → 48 ≤ b.h
    → b.h < 2 ^ 16
    → (not (b.buf.magic == 0x78) && not (b.buf.magic == 0x79)) ≡ false
    → is_valid order use_enso (new_reader (finalize order use_enso b))
      ≡ (record { buf = finalize order use_enso b; total_length = b.h; h = none }, true)
unfolding is_valid new_reader finalize
finalize-is_valid_magic order use_enso b low fits known = both use_enso
  where
    ip : order.to_cpu (order.to_be (sub64 b.h 14 % 2 ^ 16)) ≡ b.h - 14
    ip = order.swap_back (sub64 b.h 14 % 2 ^ 16) (omega arith) ∙ omega arith

    udp : order.to_cpu (order.to_be (sub64 (sub64 b.h 14) 20 % 2 ^ 16)) ≡ b.h - 34
    udp = order.swap_back (sub64 (sub64 b.h 14) 20 % 2 ^ 16) (omega arith) ∙ omega arith

    both :
        (enso : Bool)
        → is_valid order enso (new_reader (finalize order enso b))
          ≡ (record { buf = finalize order enso b; total_length = b.h; h = none }, true)
    both true = ground (arith, ip, udp, order.same_swap 2048, known)
    both false = ground (arith, ip, udp, order.same_swap 2048, known)

pub finalize-is_valid :
    (order : ByteOrder) (use_enso : Bool) (b : Builder)
    → 48 ≤ b.h
    → b.h < 2 ^ 16
    → is_valid order use_enso (new_reader (finalize order use_enso (set_request b))) ≡ (
      record { buf = finalize order use_enso (set_request b); total_length = b.h; h = none },
      true,
    )
unfolding set_request
finalize-is_valid order use_enso b low fits =
    finalize-is_valid_magic order use_enso (set_request b) low fits refl

module _ (order : ByteOrder) (use_enso : Bool) where
  -- The reader accepts what the builder finishes as a request, sees exactly the requests that were
  -- appended, in their order, and `num_requests` counts them modulo 256; the requests keep to the
  -- widths of their fields and the packet to 65535 bytes.
  pub read_all-append_all :
      (p : Packet) (rs : List Request) (fuel : ℕ)
      → AllSendable rs
      → batch_end 48 rs < 2 ^ 16
      → length rs < fuel
      → let q = finalize order use_enso (set_request (append_all (new_builder p) rs)) in
        let (r, valid) = is_valid order use_enso (new_reader q) in
        (valid ≡ true)
        × (is_request q ≡ true)
        × (read_all fuel r ≡ some (map seen_of rs))
        × (q.num_requests ≡ length rs % 2 ^ 8)
  unfolding new_builder
  read_all-append_all p rs fuel fits short f =
      let b = append_all (new_builder p) rs in
      let place : b.h ≡ batch_end 48 rs = append_all-h (new_builder p) rs in
      let accepted =
        finalize-is_valid order use_enso b (omega (arith, place, batch_end-le 48 rs))
          (omega (arith, place)) in
      let batch : Batch b.buf.body 48 rs =
        subst (λ m. Batch m 48 rs) (sym (append_all-body (new_builder p) rs))
          (put_all-Batch p.body 48 rs fits) in
      let q = finalize order use_enso (set_request b) in
      let r : Reader = record { buf = q; total_length = b.h; h = none } in
      (
        ap (λ s. s.1) accepted,
        unfold is_request finalize set_request in refl,
        ap (λ s. read_all fuel s.0) accepted
            ∙ read_all-Batch rs fuel r 48 fits f (unfold next_place in refl)
                (unfold finalize set_request in batch) place,
        unfold finalize set_request in
            omega (arith, append_all-count (new_builder p) rs (omega arith)),
      )
