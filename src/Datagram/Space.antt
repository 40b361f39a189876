-- ===== src/Datagram/Space.antt =====
-- The space that the builder believes it has left (mica2/src/mica/datagram/datagram_protocol.h):
-- `remaining_space_` is set once and never taken from.
use enso_eval.Base.{◌+◌, ◌≤◌, ◌≡◌, refl, true, List, [], ◌∷◌, add64, arith}
use enso_eval.Util.{roundup8}
use enso_eval.Datagram.Defs.{
  Packet, Request, Builder, has_sufficient_space, get_max_out_key_length, append_request,
  append_all, new_builder,
}
use enso_eval.Datagram.Batch.{batch_end, append_all-h}

append_all-remaining_space :
    (b : Builder) (rs : List Request) → (append_all b rs).remaining_space ≡ b.remaining_space
unfolding append_all append_request
append_all-remaining_space b [] = refl
append_all-remaining_space b (r ∷ rs) = append_all-remaining_space (append_request b r) rs

-- Once a batch is as long as a frame (1514 bytes), the builder still has room by its own account for
-- every request that fits an empty one: `has_sufficient_space` holds, the length that a response
-- may have is still 1442, and the next request is written behind the end of the frame.
pub has_sufficient_space_overruns :
    (p : Packet) (rs : List Request) (r : Request)
    → add64 (roundup8 r.key_length) (roundup8 r.value_length) ≤ 1442
    → 1514 ≤ batch_end 48 rs
    → let b = append_all (new_builder p) rs in
      (has_sufficient_space b r.key_length r.value_length ≡ true)
      × (get_max_out_key_length b ≡ 1442)
      × (1514 + 24 ≤ (append_request b r).h)
unfolding has_sufficient_space get_max_out_key_length append_request new_builder
has_sufficient_space_overruns p rs r fits full =
    let left = append_all-remaining_space (new_builder p) rs in
    let place = append_all-h (new_builder p) rs in
    (ground (arith, left), left, omega (arith, place))
