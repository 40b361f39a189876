-- ===== src/Datagram/Server.antt =====
-- `parse_request_batch` (mica2/src/mica/datagram/datagram_server_impl.h): from the packets of a
-- client to the ring of parsed requests.
use mathlib.Core.Path.{subst}
use enso_eval.Base.{
  ℕ, suc, ◌+◌, ◌-◌, ◌^◌, ◌≤◌, ◌<◌, ◌≡◌, refl, sym, ap, ◌∙◌, Bool, true, false, not, ◌||◌, none,
  some, List, [], ◌∷◌, ◌++◌, length, ◌==◌, if◌then◌else◌, ne→==, arith,
}
use enso_eval.Datagram.Defs.{
  ByteOrder, Packet, Request, append_all, new_builder, set_request, finalize, is_request,
}
use enso_eval.Datagram.Reader.{Reader, new_reader, is_valid, next_place}
use enso_eval.Datagram.Frame.{behind}
use enso_eval.Datagram.Batch.{
  AllSendable, batch_end, batch_end-le, Batch, put_all-Batch, append_all-body, append_all-h,
}
use enso_eval.Datagram.RoundTrip.{finalize-is_valid}
use enso_eval.Datagram.Parse.{
  Parsed, Accessor, put_parsed, parse_requests, parse_packet, parse_bufs, parse_request_batch,
  finish_packet, proceed, mark_last,
}
use enso_eval.Datagram.Ring.{
  entries, put_entries, put_entries-length, put_entries-next, parse_requests-Batch, window,
}
use enso_eval.Datagram.Window.{
  put_entries-window, put_entries-window_kept, mark, mark_last-window, mark_last-window_kept,
}
use enso_eval.Datagram.Refuse.{AllRefused, parse_bufs-refused}

parse_packet-accepted :
    (order : ByteOrder) (fuel : ℕ) (use_enso : Bool) (p : Packet) (r : Reader) (a : Accessor)
    → is_valid order use_enso (new_reader p) ≡ (r, true)
    → is_request p ≡ true
    → parse_packet order fuel use_enso p a ≡ finish_packet use_enso p a (parse_requests fuel r a)
unfolding parse_packet
parse_packet-accepted order fuel use_enso p r a valid request =
    ap
      (λ s.
        if not s.1 || not (is_request p)
        then some (false, a)
        else finish_packet use_enso p a (parse_requests fuel s.0 a))
      valid
    ∙ rw request refl

pub entries-length : (q : Packet) (h : ℕ) (ls : List Request) → length (entries q h ls) ≡ length ls
unfolding entries
entries-length q h [] = refl
entries-length q h (r ∷ ls) = ap suc (entries-length q (behind h r) ls)

-- The packet of a client.
abbrev pub client_packet : ByteOrder → Packet → List Request → Packet
client_packet order p rs = finalize order false (set_request (append_all (new_builder p) rs))

module _ (order : ByteOrder) (p : Packet) (rs : List Request) (a : Accessor) where
  abbrev q : Packet
  q = client_packet order p rs

  -- The state behind the walk over it.
  abbrev pub entered : Accessor
  entered = put_entries (entries (client_packet order p rs) 48 rs) a

  client_packet-walk :
      (fuel : ℕ)
      → AllSendable rs
      → batch_end 48 rs < 2 ^ 16
      → length rs < fuel
      → parse_requests fuel
          (record { buf = q; total_length = (append_all (new_builder p) rs).h; h = none })
          a
        ≡ some entered
  unfolding new_builder finalize set_request
  client_packet-walk fuel fits short f =
      let batch : Batch (append_all (new_builder p) rs).buf.body 48 rs =
        subst (λ m. Batch m 48 rs) (sym (append_all-body (new_builder p) rs))
          (put_all-Batch p.body 48 rs fits) in
      parse_requests-Batch rs fuel _ 48 a fits f (unfold next_place in refl) batch
        (append_all-h (new_builder p) rs)

  entered-next :
      a.next_index_to_prepare + length rs < 2 ^ 16
      → entered.next_index_to_prepare ≡ a.next_index_to_prepare + length rs
  entered-next room =
      let same = entries-length q 48 rs in
      put_entries-next (entries q 48 rs) a (omega (arith, same)) ∙ omega (arith, same)

  parse_packet-client :
      (fuel : ℕ)
      → AllSendable rs
      → batch_end 48 rs < 2 ^ 16
      → length rs < fuel
      → 0 < length rs
      → a.next_index_to_prepare + length rs < 2 ^ 16
      → parse_packet order fuel false q a ≡ some (true, mark_last entered)
  parse_packet-client fuel fits short f some_request room =
      let place : (append_all (new_builder p) rs).h ≡ batch_end 48 rs =
        unfold new_builder in append_all-h (new_builder p) rs in
      let valid =
        finalize-is_valid order false (append_all (new_builder p) rs)
          (omega (arith, place, batch_end-le 48 rs)) (omega (arith, place)) in
      parse_packet-accepted order fuel false q _ a valid
        (unfold finalize set_request is_request in refl)
      ∙ ap (finish_packet false q a) (client_packet-walk fuel fits short f)
      ∙ unfold finish_packet in rw moved refl
    where
      moved : (a.next_index_to_prepare == entered.next_index_to_prepare) ≡ false
      moved =
          ne→== a.next_index_to_prepare entered.next_index_to_prepare
            (λ e. omega (arith, entered-next room, e))

-- The new entries, with the mark.
marked_window :
    (order : ByteOrder) (p : Packet) (rs : List Request) (a : Accessor)
    → length a.requests ≡ 128
    → a.next_index_to_prepare + length rs < 2 ^ 16
    → length rs ≤ 128
    → 0 < length rs
    → window (mark_last (entered order p rs a)).requests a.next_index_to_prepare (length rs)
      ≡ mark (entries (client_packet order p rs) 48 rs)
marked_window order p [] a full small room some_request = absurd (omega arith)
marked_window order p (r ∷ rs) a full small room some_request =
    let xs = entries (client_packet order p (r ∷ rs)) 48 (r ∷ rs) in
    let e = entered order p (r ∷ rs) a in
    let same : length xs ≡ suc (length rs) =
      entries-length (client_packet order p (r ∷ rs)) 48 (r ∷ rs) in
    let next = entered-next order p (r ∷ rs) a small in
    let new = put_entries-window xs a full (omega (arith, same)) (omega (arith, same)) in
    mark_last-window e a.next_index_to_prepare (length rs) (put_entries-length xs a ∙ full)
      (omega arith) (omega (arith, next))
    ∙ ap mark (ap (λ k. window e.requests a.next_index_to_prepare k) (sym same) ∙ new)

-- What `retire` goes on from.
pub record IsKept (a a' : Accessor) : Type 0 where
  pub index : a'.next_index_to_retire ≡ a.next_index_to_retire
  pub batch : a'.b ≡ a.b
  pub buffers : a'.spare ≡ a.spare
  pub pending : a'.tx ≡ a.tx

put_entries-IsKept : (xs : List Parsed) (a : Accessor) → IsKept a (put_entries xs a)
unfolding put_entries put_parsed
put_entries-IsKept [] a = record { index = refl; batch = refl; buffers = refl; pending = refl }
put_entries-IsKept (x ∷ xs) a =
    let k = put_entries-IsKept xs (put_parsed x a) in
    record { index = k.index; batch = k.batch; buffers = k.buffers; pending = k.pending }

-- The server on the batch of a client, behind packets that it refuses, over DPDK. The call returns
-- true and leaves the packets behind the batch; the requests stand in the ring from the next index
-- on, in order, the last one marked; the entries that are not retired are kept, and so are the
-- pending response batch, the free buffers and what waits to be sent. The batch has at least one
-- request and keeps to the widths of the fields and to 65535 bytes, the ring has room for it beside
-- the entries that are not retired, and no index leaves 16 bits.
pub parse_request_batch-append_all :
    (order : ByteOrder) (p : Packet) (rs : List Request) (a : Accessor)
    → (fuel : ℕ) (bad rest : List Packet) → a.bufs ≡ bad ++ (client_packet order p rs ∷ rest)
    → AllRefused order bad
    → AllSendable rs
    → batch_end 48 rs < 2 ^ 16
    → length rs < fuel
    → 0 < length rs
    → length a.requests ≡ 128
    → a.next_index_to_retire ≤ a.next_index_to_prepare
    → a.next_index_to_prepare + length rs ≤ a.next_index_to_retire + 128
    → a.next_index_to_prepare + length rs < 2 ^ 16
    → let n = a.next_index_to_prepare in
      let i = a.next_index_to_retire in
      (a' : Accessor) × (parse_request_batch order fuel a ≡ some (true, a'))
      × (a'.bufs ≡ rest)
      × (a'.next_index_to_prepare ≡ n + length rs)
      × (window a'.requests n (length rs) ≡ mark (entries (client_packet order p rs) 48 rs))
      × (window a'.requests i (n - i) ≡ window a.requests i (n - i))
      × IsKept a a'
unfolding parse_request_batch parse_bufs proceed mark_last
parse_request_batch-append_all order p rs a fuel bad rest bufs refused fits short f some_request
      full below room small =
    let q = client_packet order p rs in
    let xs = entries q 48 rs in
    let e = entered order p rs a in
    let waiting = a.next_index_to_prepare - a.next_index_to_retire in
    let same : length xs ≡ length rs = entries-length q 48 rs in
    let next = entered-next order p rs a small in
    let full' : length e.requests ≡ 128 = put_entries-length xs a ∙ full in
    let k = put_entries-IsKept xs a in
    let last =
      ap (proceed (parse_bufs order fuel rest) rest)
        (parse_packet-client order p rs a fuel fits short f some_request small) in
    (
      record (mark_last e) { bufs = rest },
      ap (λ l. parse_bufs order fuel l a) bufs
          ∙ parse_bufs-refused order fuel bad (q ∷ rest) a refused
          ∙ last,
      refl,
      next,
      marked_window order p rs a full small (omega arith) some_request,
      mark_last-window_kept e a.next_index_to_retire waiting full' (omega (arith, next))
            (omega (arith, next))
          ∙ put_entries-window_kept xs a a.next_index_to_retire waiting full (omega (arith, same))
              (omega (arith, same)) (omega arith),
      record { index = k.index; batch = k.batch; buffers = k.buffers; pending = k.pending },
    )
