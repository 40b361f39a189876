-- ===== src/Latency/Merge.antt =====
-- The sum of two histograms (`operator+=` of mica2/src/mica/util/latency.h).
use enso_eval.Base.{
  ℕ, zero, suc, ◌+◌, ◌/◌, ◌%◌, ◌^◌, ◌≡◌, refl, sym, ap, ◌∙◌, Bool, true, false, List, [], ◌∷◌,
  length, replicate, add64, sub64, ltb, arith,
}
use enso_eval.Latency.{Latency, reset, bump, update, add_bins, add_assign, count}
use enso_eval.Latency.Count.{count-observe_all_from}
use enso_eval.Latency.Observe.{
  updated, Aligned, Aligned-updated, Words, IsRange, IsHistogram, observe_all,
}

add_bins-bump :
    (i : ℕ) (xs ys : List ℕ)
    → length xs ≡ length ys
    → add_bins xs (bump i ys) ≡ bump i (add_bins xs ys)
unfolding add_bins bump
add_bins-bump i [] [] e = refl
add_bins-bump i [] (y ∷ ys) e = absurd (omega arith)
add_bins-bump i (x ∷ xs) [] e = absurd (omega arith)
add_bins-bump zero (x ∷ xs) (y ∷ ys) e =
    let one : add64 x (add64 y 1) ≡ add64 (add64 x y) 1 = omega arith in cc (one)
add_bins-bump (suc i) (x ∷ xs) (y ∷ ys) e =
    ap (◌∷◌ (add64 x y)) (add_bins-bump i xs ys (omega arith))

add_bins-zeroes : (xs : List ℕ) → Words xs → add_bins xs (replicate (length xs) 0) ≡ xs
unfolding add_bins
add_bins-zeroes [] w = refl
add_bins-zeroes (x ∷ xs) (small, w) =
    let same : add64 x 0 ≡ x = omega arith in let rest = add_bins-zeroes xs w in cc (same, rest)

add_bins-reset : (xs : List ℕ) → IsRange xs → add_bins xs (replicate 128 0) ≡ xs
add_bins-reset xs (full, words) =
    ap (λ n. add_bins xs (replicate n 0)) (sym full) ∙ add_bins-zeroes xs words

add_assign-reset : (l : Latency) → IsHistogram l → add_assign l reset ≡ l
unfolding add_assign
add_assign-reset l h =
    let r0 = add_bins-reset l.bin0 h.range0 in
    let r1 = add_bins-reset l.bin1 h.range1 in
    let r2 = add_bins-reset l.bin2 h.range2 in
    let r3 = add_bins-reset l.bin3 h.range3 in
    let r4 = add_bins-reset l.bin4 h.range4 in
    let r5 : add64 l.bin5 0 ≡ l.bin5 = omega (arith, h.longer) in simp (r0, r1, r2, r3, r4, r5)

add_assign-updated :
    (c0 c1 c2 c3 c4 : Bool) (us : ℕ) (l o : Latency)
    → Aligned l o
    → add_assign l (updated c0 c1 c2 c3 c4 us o) ≡ updated c0 c1 c2 c3 c4 us (add_assign l o)
unfolding add_assign
add_assign-updated true _ _ _ _ us l o a =
    ap (λ b. record (add_assign l o) { bin0 = b }) (add_bins-bump us l.bin0 o.bin0 a.same0)
add_assign-updated false true _ _ _ us l o a =
    ap (λ b. record (add_assign l o) { bin1 = b })
      (add_bins-bump (sub64 us 128 / 2) l.bin1 o.bin1 a.same1)
add_assign-updated false false true _ _ us l o a =
    ap (λ b. record (add_assign l o) { bin2 = b })
      (add_bins-bump (sub64 us 384 / 4) l.bin2 o.bin2 a.same2)
add_assign-updated false false false true _ us l o a =
    ap (λ b. record (add_assign l o) { bin3 = b })
      (add_bins-bump (sub64 us 896 / 8) l.bin3 o.bin3 a.same3)
add_assign-updated false false false false true us l o a =
    ap (λ b. record (add_assign l o) { bin4 = b })
      (add_bins-bump (sub64 us 1920 / 16) l.bin4 o.bin4 a.same4)
add_assign-updated false false false false false us l o a =
    let one : add64 l.bin5 (add64 o.bin5 1) ≡ add64 (add64 l.bin5 o.bin5) 1 = omega arith in
    ap (λ n. record (add_assign l o) { bin5 = n }) one

add_assign-observe_all_from :
    (us : List ℕ) (l o : Latency)
    → Aligned l o
    → add_assign l (observe_all us o) ≡ observe_all us (add_assign l o)
unfolding observe_all update
add_assign-observe_all_from [] l o a = refl
add_assign-observe_all_from (u ∷ us) l o a =
    add_assign-observe_all_from us l (update u o)
      (Aligned-updated (ltb u 128) (ltb u 384) (ltb u 896) (ltb u 1920) (ltb u 3968) u l o a)
    ∙ ap (observe_all us)
        (add_assign-updated (ltb u 128) (ltb u 384) (ltb u 896) (ltb u 1920) (ltb u 3968) u l o a)

-- Adding the histogram of some latencies to another is the same as observing them there, one by one,
-- in whatever bins they fall and where counters wrap, and `count` goes up by their number, modulo
-- 2^64; the other has 128 words in each range.
pub add_assign-observe_all :
    (us : List ℕ) (l : Latency)
    → IsHistogram l
    → (add_assign l (observe_all us reset) ≡ observe_all us l)
      × (count (add_assign l (observe_all us reset)) ≡ (count l + length us) % 2 ^ 64)
add_assign-observe_all us l h =
    let aligned : Aligned reset l = record {
      same0 = sym h.range0.0;
      same1 = sym h.range1.0;
      same2 = sym h.range2.0;
      same3 = sym h.range3.0;
      same4 = sym h.range4.0;
    } in
    let merged =
      add_assign-observe_all_from us l reset (record {
        same0 = h.range0.0;
        same1 = h.range1.0;
        same2 = h.range2.0;
        same3 = h.range3.0;
        same4 = h.range4.0;
      })
      ∙ ap (observe_all us) (add_assign-reset l h) in
    (merged, ap count merged ∙ count-observe_all_from us l aligned (unfold count in omega arith))
