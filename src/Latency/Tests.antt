-- ===== src/Latency/Tests.antt =====
-- Histograms of a few latencies.
use enso_eval.Base.{ℕ, zero, suc, ◌+◌, ◌-◌, ◌%◌, ◌^◌, ◌≡◌, refl, [], ◌∷◌, replicate, arith}
use enso_eval.Latency.{
  Latency, reset, bump, update, add_assign, count_bins, count, sum_bins, sum, min_bins, min,
  max_bins, max,
}
use enso_eval.Latency.Observe.{Words, IsHistogram, observe_all}
use enso_eval.Latency.Merge.{add_assign-observe_all}

-- One histogram with a counter at its end.
abbrev nearly_full : Latency
nearly_full = record reset { bin5 = 2 ^ 64 - 1 }

zeroes-Words : (n : ℕ) → Words (replicate n 0)
zeroes-Words zero = tt
zeroes-Words (suc n) = (omega arith, zeroes-Words n)

nearly_full-IsHistogram : IsHistogram nearly_full
nearly_full-IsHistogram = record {
  range0 = (refl, zeroes-Words 128);
  range1 = (refl, zeroes-Words 128);
  range2 = (refl, zeroes-Words 128);
  range3 = (refl, zeroes-Words 128);
  range4 = (refl, zeroes-Words 128);
  longer = omega arith;
}

add_assign-observe_all_example :
    (add_assign nearly_full (observe_all (5 ∷ 200 ∷ 5000 ∷ 3967 ∷ []) reset)
      ≡ observe_all (5 ∷ 200 ∷ 5000 ∷ 3967 ∷ []) nearly_full)
    × (count (add_assign nearly_full (observe_all (5 ∷ 200 ∷ 5000 ∷ 3967 ∷ []) reset))
        ≡ (count nearly_full + 4) % 2 ^ 64)
add_assign-observe_all_example =
    add_assign-observe_all (5 ∷ 200 ∷ 5000 ∷ 3967 ∷ []) nearly_full nearly_full-IsHistogram

-- The count, the sum and the extremes of a few latencies.
abbrev few : Latency
few = observe_all (5 ∷ 200 ∷ 5000 ∷ 3967 ∷ []) reset

few_count : count few ≡ 4
unfolding count count_bins observe_all update bump
few_count = refl

few_sum : sum few ≡ 5 + 200 + 3968 + 3952
unfolding sum sum_bins observe_all update bump
few_sum = refl

few_min : min few ≡ 5
unfolding min min_bins observe_all update bump
few_min = refl

few_max : max few ≡ 3968
unfolding max max_bins observe_all update bump
few_max = refl
