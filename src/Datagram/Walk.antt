-- ===== src/Datagram/Walk.antt =====
-- The walk of a reader over a packet, `while (r.find_next())`: its rounds and its end.
use enso_eval.Base.{
  ℕ, zero, suc, ◌+◌, ◌*◌, ◌≤◌, ◌<◌, ◌≡◌, refl, ap, ◌∙◌, Bool, true, false, Option, some, List, [],
  ◌∷◌, le→ltb, lt→ltb, dec_lt, arith,
}
use mathlib.Core.Option
use enso_eval.Datagram.Memory.{Memory}
use enso_eval.Datagram.Defs.{request_end}
use enso_eval.Datagram.Reader.{Reader, Seen, find_next, next_place, read_all, round, seen, seen_at}

-- One round that finds a request, and the round that ends the walk.
pub find_next-more :
    (r : Reader) (h e : ℕ)
    → next_place r.buf.body r.h ≡ h
    → request_end r.buf.body h ≡ e
    → h + 24 ≤ e
    → e ≤ r.total_length
    → find_next r ≡ (record r { h = some h }, true)
unfolding find_next
find_next-more r h e place ends p q =
    rw (place, ends, le→ltb r.total_length (h + 24) (omega arith), le→ltb r.total_length e q)

pub find_next-end :
    (r : Reader) → r.total_length < next_place r.buf.body r.h + 24 → (find_next r).1 ≡ false
unfolding find_next
find_next-end r p = rw (lt→ltb r.total_length (next_place r.buf.body r.h + 24) p)

pub read_all-more :
    (fuel : ℕ) (r r' : Reader)
    → find_next r ≡ (r', true)
    → read_all (suc fuel) r ≡ Option.map (◌∷◌ (seen r')) (read_all fuel r')
unfolding read_all round
read_all-more fuel r r' e = ap (round (read_all fuel)) e

round-end :
    (again : Reader → Option (List Seen)) (s : Reader × Bool)
    → s.1 ≡ false
    → round again s ≡ some []
unfolding round
round-end again (r, true) e = cc
round-end again (r, false) e = refl

pub read_all-end :
    (fuel : ℕ) (r : Reader) → (find_next r).1 ≡ false → read_all (suc fuel) r ≡ some []
unfolding read_all
read_all-end fuel r e = round-end (read_all fuel) (find_next r) e

pub seen-at : (r : Reader) (h : ℕ) → seen (record r { h = some h }) ≡ seen_at r.buf.body h
unfolding seen
seen-at r h = refl

find_next-stop :
    (r : Reader)
    → r.total_length < request_end r.buf.body (next_place r.buf.body r.h)
    → (find_next r).1 ≡ false
unfolding find_next
find_next-stop r p =
    ground (arith, lt→ltb r.total_length (request_end r.buf.body (next_place r.buf.body r.h)) p)

request_end-le : (m : Memory) (h : ℕ) → h + 24 ≤ request_end m h
unfolding request_end
request_end-le m h = omega arith

-- Every packet is walked to its end: the reader moves on by 24 bytes at least, up to the length.
pub read_all_ends :
    (fuel : ℕ) (r : Reader)
    → r.total_length < next_place r.buf.body r.h + 24 * suc fuel
    → (found : List Seen) × (read_all (suc fuel) r ≡ some found)
read_all_ends zero r h = ([], read_all-end zero r (find_next-end r (omega arith)))
read_all_ends (suc fuel) r h =
    let place = next_place r.buf.body r.h in
    let low = request_end-le r.buf.body place in
    elim (dec_lt r.total_length (request_end r.buf.body place)) [
      | yes stop ↦ ([], read_all-end (suc fuel) r (find_next-stop r stop))
      | no go ↦
          let r' : Reader = record r { h = some place } in
          let (found, e) = read_all_ends fuel r' (unfold next_place in omega arith) in
          let more =
            find_next-more r place (request_end r.buf.body place) refl refl low (omega arith) in
          (
            seen r' ∷ found,
            read_all-more (suc fuel) r r' more ∙ ap (λ o. Option.map (◌∷◌ (seen r')) o) e,
          )
    ]
