-- ===== src/Datagram/Refuse.antt =====
-- The packets that the server refuses (mica2/src/mica/datagram/datagram_server_impl.h).
use enso_eval.Base.{
  ℕ, zero, suc, ◌≡◌, refl, ap, ◌∙◌, Bool, true, false, not, ◌&&◌, ◌||◌, none, some, List, [], ◌∷◌,
  ◌++◌, arith,
}
use enso_eval.Datagram.Defs.{ByteOrder, Packet, is_request}
use enso_eval.Datagram.Reader.{new_reader, is_valid}
use enso_eval.Datagram.Parse.{Accessor, parse_packet, parse_bufs, parse_iter, proceed}

-- What the server takes for a request.
abbrev pub accepted : ByteOrder → Bool → Packet → Bool
accepted order use_enso p = (is_valid order use_enso (new_reader p)).1 && is_request p

abbrev pub AllRefused : ByteOrder → List Packet → Type 0
AllRefused order [] = Unit
AllRefused order (p ∷ ps) = (accepted order false p ≡ false) × AllRefused order ps

parse_packet-refused :
    (order : ByteOrder) (fuel : ℕ) (use_enso : Bool) (p : Packet) (a : Accessor)
    → accepted order use_enso p ≡ false
    → parse_packet order fuel use_enso p a ≡ some (false, a)
unfolding parse_packet
parse_packet-refused order fuel use_enso p a h =
    ground (arith, refuses (is_valid order use_enso (new_reader p)).1 (is_request p) h)
  where
    refuses : (v q : Bool) → (v && q) ≡ false → (not v || not q) ≡ true
    refuses true true e = cc
    refuses true false e = refl
    refuses false q e = refl

-- DPDK: packets that are refused are skipped.
pub parse_bufs-refused :
    (order : ByteOrder) (fuel : ℕ) (bad rest : List Packet) (a : Accessor)
    → AllRefused order bad
    → parse_bufs order fuel (bad ++ rest) a ≡ parse_bufs order fuel rest a
unfolding parse_bufs proceed
parse_bufs-refused order fuel [] rest a h = refl
parse_bufs-refused order fuel (p ∷ bad) rest a (h, hs) =
    ap (proceed (parse_bufs order fuel (bad ++ rest)) (bad ++ rest))
      (parse_packet-refused order fuel false p a h)
    ∙ parse_bufs-refused order fuel bad rest a hs

-- With `USE_ENSO`, `parse_request_batch` does not come back from a packet that it refuses: it looks
-- at the same packet again, round after round, and no number of rounds is enough.
pub parse_iter-stuck :
    (order : ByteOrder) (fuel rounds : ℕ) (p : Packet) (rest : List Packet) (a : Accessor)
    → accepted order true p ≡ false
    → parse_iter order fuel rounds (p ∷ rest) a ≡ none
unfolding parse_iter proceed
parse_iter-stuck order fuel zero p rest a h = refl
parse_iter-stuck order fuel (suc rounds) p rest a h =
    ap (proceed (parse_iter order fuel rounds (p ∷ rest)) rest)
      (parse_packet-refused order fuel true p a h)
    ∙ parse_iter-stuck order fuel rounds p rest a h
