-- ===== src/Latency.antt =====
-- The histogram of latencies of mica2 (mica2/src/mica/util/latency.h): five ranges of 128 bins each, of
-- growing width, and one bin for all that is longer.
pub mod Observe
pub mod Merge
pub mod Count
mod Tests
use enso_eval.Base.{
  ℕ, zero, suc, ◌+◌, ◌-◌, ◌*◌, ◌/◌, ◌%◌, ◌^◌, List, [], ◌∷◌, replicate, get_or, add64, sub64, ◌==◌,
  ltb, if◌then◌else◌,
}

pub record Latency : Type 0 where
  pub bin0 : List ℕ
  pub bin1 : List ℕ
  pub bin2 : List ℕ
  pub bin3 : List ℕ
  pub bin4 : List ℕ
  pub bin5 : ℕ

abbrev pub reset : Latency
reset = record {
  bin0 = replicate 128 0;
  bin1 = replicate 128 0;
  bin2 = replicate 128 0;
  bin3 = replicate 128 0;
  bin4 = replicate 128 0;
  bin5 = 0;
}

-- `bin[i]++`
unfoldable pub bump : ℕ → List ℕ → List ℕ
bump i [] = []
bump zero (x ∷ xs) = add64 x 1 ∷ xs
bump (suc i) (x ∷ xs) = x ∷ bump i xs

unfoldable pub update : ℕ → Latency → Latency
update us l =
    if ltb us 128
    then record l { bin0 = bump us l.bin0 }
    else if ltb us 384
    then record l { bin1 = bump (sub64 us 128 / 2) l.bin1 }
    else if ltb us 896
    then record l { bin2 = bump (sub64 us 384 / 4) l.bin2 }
    else if ltb us 1920
    then record l { bin3 = bump (sub64 us 896 / 8) l.bin3 }
    else if ltb us 3968
    then record l { bin4 = bump (sub64 us 1920 / 16) l.bin4 }
    else record l { bin5 = add64 l.bin5 1 }

-- `operator+=`, one range and all.
unfoldable pub add_bins : List ℕ → List ℕ → List ℕ
add_bins [] ys = []
add_bins (x ∷ xs) [] = x ∷ xs
add_bins (x ∷ xs) (y ∷ ys) = add64 x y ∷ add_bins xs ys

unfoldable pub add_assign : Latency → Latency → Latency
add_assign l o = record {
  bin0 = add_bins l.bin0 o.bin0;
  bin1 = add_bins l.bin1 o.bin1;
  bin2 = add_bins l.bin2 o.bin2;
  bin3 = add_bins l.bin3 o.bin3;
  bin4 = add_bins l.bin4 o.bin4;
  bin5 = add64 l.bin5 o.bin5;
}

-- The loops of `count` and `sum` over one range; `i` is the index of its first bin.
unfoldable pub count_bins : ℕ → List ℕ → ℕ
count_bins count [] = count
count_bins count (x ∷ xs) = count_bins (add64 count x) xs

unfoldable pub count : Latency → ℕ
count l =
    let c0 = count_bins 0 l.bin0 in
    let c1 = count_bins c0 l.bin1 in
    let c2 = count_bins c1 l.bin2 in
    let c3 = count_bins c2 l.bin3 in let c4 = count_bins c3 l.bin4 in add64 c4 l.bin5

unfoldable pub sum_bins : ℕ → ℕ → ℕ → ℕ → List ℕ → ℕ
sum_bins base step i sum [] = sum
sum_bins base step i sum (x ∷ xs) =
    sum_bins base step (i + 1) (add64 sum (x * (base + i * step) % 2 ^ 64)) xs

unfoldable pub sum : Latency → ℕ
sum l =
    let s0 = sum_bins 0 1 0 0 l.bin0 in
    let s1 = sum_bins 128 2 0 s0 l.bin1 in
    let s2 = sum_bins 384 4 0 s1 l.bin2 in
    let s3 = sum_bins 896 8 0 s2 l.bin3 in
    let s4 = sum_bins 1920 16 0 s3 l.bin4 in add64 s4 (l.bin5 * 3968 % 2 ^ 64)

unfoldable pub avg : Latency → ℕ
avg l = sum l / (if ltb 1 (count l) then count l else 1)

-- The first bin of a range that is not 0, or what the ranges behind it say.
unfoldable pub min_bins : ℕ → ℕ → ℕ → List ℕ → ℕ → ℕ
min_bins base step i [] others = others
min_bins base step i (x ∷ xs) others =
    let behind = min_bins base step (i + 1) xs others in if x == 0 then behind else base + i * step

unfoldable pub min : Latency → ℕ
min l =
    let m4 = min_bins 1920 16 0 l.bin4 3968 in
    let m3 = min_bins 896 8 0 l.bin3 m4 in
    let m2 = min_bins 384 4 0 l.bin2 m3 in
    let m1 = min_bins 128 2 0 l.bin1 m2 in min_bins 0 1 0 l.bin0 m1

-- The loops of `max`, from the last bin of a range down.
unfoldable pub max_bins : List ℕ → ℕ → ℕ → ℕ → ℕ → ℕ
max_bins bins base step zero others = others
max_bins bins base step (suc i) others =
    let below = max_bins bins base step i others in
    if get_or bins i 0 == 0 then below else base + i * step

unfoldable pub max : Latency → ℕ
max l =
    let m0 = max_bins l.bin0 0 1 128 0 in
    let m1 = max_bins l.bin1 128 2 128 m0 in
    let m2 = max_bins l.bin2 384 4 128 m1 in
    let m3 = max_bins l.bin3 896 8 128 m2 in
    let m4 = max_bins l.bin4 1920 16 128 m3 in if l.bin5 == 0 then m4 else 3968
