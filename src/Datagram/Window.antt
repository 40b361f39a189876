-- ===== src/Datagram/Window.antt =====
-- The entries of a packet in the ring of parsed requests, and those that wait to be retired
-- (mica2/src/mica/datagram/datagram_server_impl.h).
use enso_eval.Base.{
  ℕ, zero, suc, ◌+◌, ◌-◌, ◌%◌, ◌^◌, ◌≤◌, ◌<◌, ◌≡◌, ◌≢◌, refl, sym, ap, ◌∙◌, bit_and, List, [], ◌∷◌,
  length, get_or, get_or-set, ◌==◌, if◌then◌else◌, ne→==, ==_refl, arith,
}
use enso_eval.Base.Bits.{bit_and-mask}
use enso_eval.Datagram.Parse.{Parsed, Accessor, put_parsed, empty_parsed, mark_last}
use enso_eval.Datagram.Ring.{
  put_entries, put_entries-other, put_parsed-length, put_parsed-get, window,
}

put_parsed-next :
    (x : Parsed) (a : Accessor)
    → a.next_index_to_prepare + 1 < 2 ^ 16
    → (put_parsed x a).next_index_to_prepare ≡ a.next_index_to_prepare + 1
unfolding put_parsed
put_parsed-next x a h = omega arith

-- The new entries, in order, from the index on that was to be prepared next.
pub put_entries-window :
    (xs : List Parsed) (a : Accessor)
    → length a.requests ≡ 128
    → a.next_index_to_prepare + length xs < 2 ^ 16
    → length xs ≤ 128
    → window (put_entries xs a).requests a.next_index_to_prepare (length xs) ≡ xs
unfolding put_entries
put_entries-window [] a full h room = refl
put_entries-window (x ∷ xs) a full h room =
    let n = a.next_index_to_prepare in
    let a' = put_parsed x a in
    let next = put_parsed-next x a (omega arith) in
    let full' : length a'.requests ≡ 128 = put_parsed-length x a ∙ full in
    let first : get_or (put_entries xs a').requests (n % 128) empty_parsed ≡ x =
      put_entries-other xs a' n full' (omega (arith, next)) (omega (arith, next))
        (omega (arith, next))
      ∙ put_parsed-get x a (n % 128) full (omega arith)
      ∙ rw (==_refl (n % 128)) in
    let rest = put_entries-window xs a' full' (omega (arith, next)) (omega arith) in
    let moved = ap (λ k. window (put_entries xs a').requests k (length xs)) (sym next) ∙ rest in
    cc (first, moved)

-- Entries that are not retired are kept while the ring holds at most 128 of them.
pub put_entries-window_kept :
    (xs : List Parsed) (a : Accessor) (i k : ℕ)
    → length a.requests ≡ 128
    → a.next_index_to_prepare + length xs < 2 ^ 16
    → a.next_index_to_prepare + length xs ≤ i + 128
    → i + k ≤ a.next_index_to_prepare
    → window (put_entries xs a).requests i k ≡ window a.requests i k
put_entries-window_kept xs a i zero full h room old = refl
put_entries-window_kept xs a i (suc k) full h room old =
    let first = put_entries-other xs a i full h room (omega arith) in
    let rest = put_entries-window_kept xs a (i + 1) k full h (omega arith) (omega arith) in
    cc (first, rest)

-- The last entry of a packet carries the mark.
abbrev pub marked : Parsed → Parsed
marked x = record x { last_in_packet = 1 }

unfoldable pub mark : List Parsed → List Parsed
mark [] = []
mark (x ∷ []) = marked x ∷ []
mark (x ∷ y ∷ xs) = x ∷ mark (y ∷ xs)

last_slot : (n : ℕ) → 0 < n → bit_and (n + 127) 127 ≡ (n - 1) % 128
last_slot n h = bit_and-mask 7 (n + 127) ∙ omega arith

mark_last-get :
    (a : Accessor) (i : ℕ)
    → length a.requests ≡ 128
    → 0 < a.next_index_to_prepare
    → i < 128
    → get_or (mark_last a).requests i empty_parsed ≡ (
        if (a.next_index_to_prepare - 1) % 128 == i
        then marked (get_or a.requests ((a.next_index_to_prepare - 1) % 128) empty_parsed)
        else get_or a.requests i empty_parsed)
unfolding mark_last
mark_last-get a i full h p =
    let n = a.next_index_to_prepare in
    rw (last_slot n h) (
      get_or-set a.requests ((n - 1) % 128) i
        (marked (get_or a.requests ((n - 1) % 128) empty_parsed)) empty_parsed (omega arith))

mark_last-at :
    (a : Accessor) (i : ℕ)
    → length a.requests ≡ 128
    → i + 1 ≡ a.next_index_to_prepare
    → get_or (mark_last a).requests (i % 128) empty_parsed
      ≡ marked (get_or a.requests (i % 128) empty_parsed)
mark_last-at a i full e =
    let last : (a.next_index_to_prepare - 1) % 128 ≡ i % 128 = omega arith in
    mark_last-get a (i % 128) full (omega arith) (omega arith) ∙ rw (last, ==_refl (i % 128)) refl

mark_last-other :
    (a : Accessor) (i : ℕ)
    → length a.requests ≡ 128
    → i + 1 < a.next_index_to_prepare
    → a.next_index_to_prepare ≤ i + 128
    → get_or (mark_last a).requests (i % 128) empty_parsed
      ≡ get_or a.requests (i % 128) empty_parsed
mark_last-other a i full p q =
    let apart : (a.next_index_to_prepare - 1) % 128 ≢ i % 128 = λ e. omega arith in
    mark_last-get a (i % 128) full (omega arith) (omega arith)
    ∙ rw (ne→== ((a.next_index_to_prepare - 1) % 128) (i % 128) apart) refl

pub mark_last-window :
    (a : Accessor) (i k : ℕ)
    → length a.requests ≡ 128
    → k < 128
    → i + suc k ≡ a.next_index_to_prepare
    → window (mark_last a).requests i (suc k) ≡ mark (window a.requests i (suc k))
unfolding mark
mark_last-window a i zero full p e = let only = mark_last-at a i full (omega arith) in cc (only)
mark_last-window a i (suc k) full p e =
    let first = mark_last-other a i full (omega arith) (omega arith) in
    let rest = mark_last-window a (i + 1) k full (omega arith) (omega arith) in
    ap (λ x. x ∷ window (mark_last a).requests (i + 1) (suc k)) first
    ∙ ap (◌∷◌ (get_or a.requests (i % 128) empty_parsed)) rest

pub mark_last-window_kept :
    (a : Accessor) (i k : ℕ)
    → length a.requests ≡ 128
    → i + k < a.next_index_to_prepare
    → a.next_index_to_prepare ≤ i + 128
    → window (mark_last a).requests i k ≡ window a.requests i k
mark_last-window_kept a i zero full p q = refl
mark_last-window_kept a i (suc k) full p q =
    let first = mark_last-other a i full (omega arith) q in
    let rest = mark_last-window_kept a (i + 1) k full (omega arith) (omega arith) in
    cc (first, rest)
