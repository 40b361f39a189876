-- ===== src/Latency/Observe.antt =====
-- What a histogram says of the latencies that it was given (mica2/src/mica/util/latency.h).
use enso_eval.Base.{
  ℕ, zero, suc, ◌/◌, ◌^◌, ◌<◌, ◌≡◌, refl, sym, ap, ◌∙◌, Bool, true, false, List, [], ◌∷◌, length,
  add64, sub64, if◌then◌else◌,
}
use enso_eval.Latency.{bump, Latency, update}

abbrev pub Words : List ℕ → Type 0
Words [] = Unit
Words (x ∷ xs) = (x < 2 ^ 64) × Words xs

-- Ranges of 128 bins, and words in all of them.
abbrev pub IsRange : List ℕ → Type 0
IsRange xs = (length xs ≡ 128) × Words xs

pub record IsHistogram (l : Latency) : Type 0 where
  pub range0 : IsRange l.bin0
  pub range1 : IsRange l.bin1
  pub range2 : IsRange l.bin2
  pub range3 : IsRange l.bin3
  pub range4 : IsRange l.bin4
  pub longer : l.bin5 < 2 ^ 64

unfoldable pub observe_all : List ℕ → Latency → Latency
observe_all [] l = l
observe_all (us ∷ rest) l = observe_all rest (update us l)

length-bump : (i : ℕ) (xs : List ℕ) → length (bump i xs) ≡ length xs
unfolding bump
length-bump i [] = refl
length-bump zero (x ∷ xs) = refl
length-bump (suc i) (x ∷ xs) = ap suc (length-bump i xs)

-- `update` with the outcomes of its tests.
abbrev pub updated : Bool → Bool → Bool → Bool → Bool → ℕ → Latency → Latency
updated c0 c1 c2 c3 c4 us l =
    if c0
    then record l { bin0 = bump us l.bin0 }
    else if c1
    then record l { bin1 = bump (sub64 us 128 / 2) l.bin1 }
    else if c2
    then record l { bin2 = bump (sub64 us 384 / 4) l.bin2 }
    else if c3
    then record l { bin3 = bump (sub64 us 896 / 8) l.bin3 }
    else if c4
    then record l { bin4 = bump (sub64 us 1920 / 16) l.bin4 }
    else record l { bin5 = add64 l.bin5 1 }

-- Histograms with as many bins.
pub record Aligned (l o : Latency) : Type 0 where
  pub same0 : length l.bin0 ≡ length o.bin0
  pub same1 : length l.bin1 ≡ length o.bin1
  pub same2 : length l.bin2 ≡ length o.bin2
  pub same3 : length l.bin3 ≡ length o.bin3
  pub same4 : length l.bin4 ≡ length o.bin4

pub Aligned-updated :
    (c0 c1 c2 c3 c4 : Bool) (us : ℕ) (l o : Latency)
    → Aligned l o
    → Aligned l (updated c0 c1 c2 c3 c4 us o)
Aligned-updated true _ _ _ _ us l o a = record {
  same0 = a.same0 ∙ sym (length-bump us o.bin0);
  same1 = a.same1;
  same2 = a.same2;
  same3 = a.same3;
  same4 = a.same4;
}
Aligned-updated false true _ _ _ us l o a = record {
  same0 = a.same0;
  same1 = a.same1 ∙ sym (length-bump (sub64 us 128 / 2) o.bin1);
  same2 = a.same2;
  same3 = a.same3;
  same4 = a.same4;
}
Aligned-updated false false true _ _ us l o a = record {
  same0 = a.same0;
  same1 = a.same1;
  same2 = a.same2 ∙ sym (length-bump (sub64 us 384 / 4) o.bin2);
  same3 = a.same3;
  same4 = a.same4;
}
Aligned-updated false false false true _ us l o a = record {
  same0 = a.same0;
  same1 = a.same1;
  same2 = a.same2;
  same3 = a.same3 ∙ sym (length-bump (sub64 us 896 / 8) o.bin3);
  same4 = a.same4;
}
Aligned-updated false false false false true us l o a = record {
  same0 = a.same0;
  same1 = a.same1;
  same2 = a.same2;
  same3 = a.same3;
  same4 = a.same4 ∙ sym (length-bump (sub64 us 1920 / 16) o.bin4);
}
Aligned-updated false false false false false us l o a = record {
  same0 = a.same0;
  same1 = a.same1;
  same2 = a.same2;
  same3 = a.same3;
  same4 = a.same4;
}
