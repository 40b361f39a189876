-- ===== src/Latency/Count.antt =====
-- `count` (mica2/src/mica/util/latency.h) is the number of latencies that a histogram was given.
use enso_eval.Base.{
  ℕ, zero, suc, ◌+◌, ◌/◌, ◌%◌, ◌^◌, ◌<◌, ◌≡◌, refl, ap, ◌∙◌, Bool, true, false, List, [], ◌∷◌,
  length, add64, sub64, ltb, ltb→lt, ltb→le, arith,
}
use enso_eval.Latency.{Latency, reset, bump, update, count_bins, count}
use enso_eval.Latency.Observe.{updated, Aligned, Aligned-updated, observe_all}

-- A loop of `count` that starts with one more ends with one more.
count_bins-carry : (c : ℕ) (xs : List ℕ) → count_bins (add64 c 1) xs ≡ add64 (count_bins c xs) 1
unfolding count_bins
count_bins-carry c [] = refl
count_bins-carry c (x ∷ xs) =
    let swap : add64 (add64 c 1) x ≡ add64 (add64 c x) 1 = omega arith in
    ap (λ n. count_bins n xs) swap ∙ count_bins-carry (add64 c x) xs

count_bins-bump :
    (c i : ℕ) (xs : List ℕ) → i < length xs → count_bins c (bump i xs) ≡ add64 (count_bins c xs) 1
unfolding count_bins bump
count_bins-bump c i [] h = absurd (omega arith)
count_bins-bump c zero (x ∷ xs) h =
    let swap : add64 c (add64 x 1) ≡ add64 (add64 c x) 1 = omega arith in
    ap (λ n. count_bins n xs) swap ∙ count_bins-carry (add64 c x) xs
count_bins-bump c (suc i) (x ∷ xs) h = count_bins-bump (add64 c x) i xs (omega arith)

module _ (l : Latency) (i : ℕ) where
  abbrev c0 : ℕ
  c0 = count_bins 0 l.bin0

  abbrev c1 : ℕ
  c1 = count_bins c0 l.bin1

  abbrev c2 : ℕ
  c2 = count_bins c1 l.bin2

  abbrev c3 : ℕ
  c3 = count_bins c2 l.bin3

  -- One more from the last range, the one before, and so on.
  carry4 :
      (c : ℕ)
      → add64 (count_bins (add64 c 1) l.bin4) l.bin5 ≡ add64 (add64 (count_bins c l.bin4) l.bin5) 1
  carry4 c = omega (arith, count_bins-carry c l.bin4)

  count-bin4 : i < length l.bin4 → count (record l { bin4 = bump i l.bin4 }) ≡ add64 (count l) 1
  unfolding count
  count-bin4 h = omega (arith, count_bins-bump c3 i l.bin4 h)

  count-bin3 : i < length l.bin3 → count (record l { bin3 = bump i l.bin3 }) ≡ add64 (count l) 1
  unfolding count
  count-bin3 h = rw (count_bins-bump c2 i l.bin3 h) (carry4 c3)

  count-bin2 : i < length l.bin2 → count (record l { bin2 = bump i l.bin2 }) ≡ add64 (count l) 1
  unfolding count
  count-bin2 h = rw (count_bins-bump c1 i l.bin2 h, count_bins-carry c2 l.bin3) (carry4 c3)

  count-bin1 : i < length l.bin1 → count (record l { bin1 = bump i l.bin1 }) ≡ add64 (count l) 1
  unfolding count
  count-bin1 h =
      rw (count_bins-bump c0 i l.bin1 h, count_bins-carry c1 l.bin2, count_bins-carry c2 l.bin3)
        (carry4 c3)

  count-bin0 : i < length l.bin0 → count (record l { bin0 = bump i l.bin0 }) ≡ add64 (count l) 1
  unfolding count
  count-bin0 h =
      rw
        (
          count_bins-bump 0 i l.bin0 h,
          count_bins-carry c0 l.bin1,
          count_bins-carry c1 l.bin2,
          count_bins-carry c2 l.bin3,
        )
        (carry4 c3)

count-updated :
    (us : ℕ) (l : Latency) (c0 c1 c2 c3 c4 : Bool)
    → Aligned reset l
    → ltb us 128 ≡ c0
    → ltb us 384 ≡ c1
    → ltb us 896 ≡ c2
    → ltb us 1920 ≡ c3
    → ltb us 3968 ≡ c4
    → count (updated c0 c1 c2 c3 c4 us l) ≡ add64 (count l) 1
count-updated us l true _ _ _ _ a e0 e1 e2 e3 e4 =
    count-bin0 l us (omega (arith, a.same0, ltb→lt us 128 e0))
count-updated us l false true _ _ _ a e0 e1 e2 e3 e4 =
    count-bin1 l (sub64 us 128 / 2) (omega (arith, a.same1, ltb→le us 128 e0, ltb→lt us 384 e1))
count-updated us l false false true _ _ a e0 e1 e2 e3 e4 =
    count-bin2 l (sub64 us 384 / 4) (omega (arith, a.same2, ltb→le us 384 e1, ltb→lt us 896 e2))
count-updated us l false false false true _ a e0 e1 e2 e3 e4 =
    count-bin3 l (sub64 us 896 / 8) (omega (arith, a.same3, ltb→le us 896 e2, ltb→lt us 1920 e3))
count-updated us l false false false false true a e0 e1 e2 e3 e4 =
    count-bin4 l (sub64 us 1920 / 16) (omega (arith, a.same4, ltb→le us 1920 e3, ltb→lt us 3968 e4))
count-updated us l false false false false false a e0 e1 e2 e3 e4 = unfold count in omega arith

pub count-observe_all_from :
    (us : List ℕ) (l : Latency)
    → Aligned reset l
    → count l < 2 ^ 64
    → count (observe_all us l) ≡ (count l + length us) % 2 ^ 64
unfolding observe_all update
count-observe_all_from [] l a small = omega arith
count-observe_all_from (u ∷ us) l a small =
    let c0 = ltb u 128 in
    let c1 = ltb u 384 in
    let c2 = ltb u 896 in
    let c3 = ltb u 1920 in
    let c4 = ltb u 3968 in
    let one = count-updated u l c0 c1 c2 c3 c4 a refl refl refl refl refl in
    let rest =
      count-observe_all_from us (update u l) (Aligned-updated c0 c1 c2 c3 c4 u reset l a)
        (omega (arith, one)) in
    omega (arith, one, rest)
