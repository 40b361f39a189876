-- ===== src/Processor/Stages.antt =====
-- The first stages of the pipeline (mica2/src/mica/processor/partitions_impl/process.h).
use enso_eval.Base.{
  ℕ, suc, ◌+◌, ◌-◌, ◌*◌, ◌/◌, ◌%◌, ◌^◌, ◌≤◌, ◌<◌, ◌≡◌, ◌≢◌, ◌⊎◌, inl, inr, refl, sym, ap, ◌∙◌,
  bit_and, Bool, true, false, Option, some, length, get_or, get_or-set, set, length-set, add64,
  sub64, ◌==◌, ltb, lt→ltb, le→ltb, ne→==, ==_refl, dec_lt, arith,
}
use mathlib.Core.Path.{subst}
use enso_eval.Base.Bits.{bit_and-mask, pow-pos}
use native.Mathlib.Nat.{div-add-mod, mod-lt}
use enso_eval.Processor.Pipeline.{Pipe, k_unknown, stage0_done, stage0, stage1}

-- Places of a ring that are less than a lap apart differ.
mod_apart : (a b m : ℕ) → a < b → b < a + m → a % m ≢ b % m
mod_apart a b m p q e =
    let low = div-add-mod a m in
    let high = div-add-mod b m in
    elim (dec_lt (a / m) (b / m)) [
      | yes up ↦ omega (arith, low, high, mul_mono m (suc (a / m)) (b / m) up, mul_step m (a / m))
      | no down ↦ omega (arith, low, high, mul_mono m (b / m) (a / m) (omega arith))
    ]
  where
    mul_mono : (m x y : ℕ) → x ≤ y → m * x ≤ m * y
    mul_mono m x y h = grind arith

    mul_step : (m x : ℕ) → m * suc x ≡ m * x + m
    mul_step m x = grind arith

-- A run of the pipeline: what its stages do, the number `n` of requests and the partition of each, a
-- property `Good` of the state that every request keeps, and a ring of `2 ^ k` places.
pub record Job (W : Type 0) : Type 1 where
  pub prepare : ℕ → W → Bool × W
  pub partition_of : W → ℕ → ℕ
  pub handle : ℕ → ℕ → W → Option W
  pub n : ℕ
  pub part : ℕ → ℕ
  pub Good : W → Type 0
  pub ready : (i : ℕ) (w : W) → Good w → prepare i w ≡ (ltb i n, w)
  pub stable : (i : ℕ) (w : W) → Good w → partition_of w i ≡ part i
  pub keeps : (i q : ℕ) (w w' : W) → Good w → handle i q w ≡ some w' → Good w'
  pub gap : ℕ
  pub k : ℕ
  pub some_gap : 0 < gap
  pub small_gap : gap < 2 ^ 16
  pub few : n < 2 ^ 32 - 1
  pub room : 3 * gap ≤ 2 ^ k

module _ {W : Type 0} (job : Job W) where
  open job use {
    prepare, partition_of, handle, n, part, Good, ready, stable, keeps, gap, k, some_gap, small_gap,
    few, room,
  }

  -- What is known before round `i` of the number of requests.
  abbrev pub Known : ℕ → ℕ → ℕ → Type 0
  Known i count count_plus_gap =
      ((count ≡ k_unknown) × (count_plus_gap ≡ k_unknown + 3 * gap) × (i ≤ n))
      ⊎ ((count ≡ n) × (count_plus_gap ≡ n + 3 * gap) × (n < i))

  -- The partitions of the requests in the pipeline are at hand.
  pub record At (i : ℕ) (s : Pipe W) : Type 0 where
    pub known : Known i s.count s.count_plus_gap
    pub as_big : length s.partition_ids ≡ 2 ^ k
    pub held :
        (j : ℕ)
        → i ≤ j + 3 * gap
        → j + gap < i
        → j < n
        → get_or s.partition_ids (j % 2 ^ k) 0 ≡ part j
    pub good : Good s.world

  pub record Prepared (i : ℕ) (s s' : Pipe W) : Type 0 where
    pub known : Known (i + 1) s'.count s'.count_plus_gap
    pub ids : s'.partition_ids ≡ s.partition_ids
    pub world : s'.world ≡ s.world

  pub prepare_more :
      (i : ℕ) (s : Pipe W)
      → Known i s.count s.count_plus_gap
      → Good s.world
      → Prepared i s (stage0 prepare partition_of handle gap i s)
  unfolding stage0 stage0_done
  prepare_more i s (inr (c, e, p)) good =
      let known_already : (s.count == k_unknown) ≡ false = ground arith in
      let same : stage0 prepare partition_of handle gap i s ≡ s = rw known_already refl in
      subst (λ s'. Prepared i s s') (sym same)
        (record { known = inr (c, e, omega arith); ids = refl; world = refl })
  prepare_more i s (inl (c, e, p)) good =
      let unknown_yet : (s.count == k_unknown) ≡ true = ground arith in
      elim (dec_lt i n) [
        | yes more ↦
            let same : stage0 prepare partition_of handle gap i s ≡ record s { world = s.world } =
              rw unknown_yet (
                ap (stage0_done prepare partition_of handle gap i s)
                  (ready i s.world good ∙ ap (λ b. (b, s.world)) (lt→ltb i n more))) in
            subst (λ s'. Prepared i s s') (sym same)
              (record { known = inl (c, e, omega arith); ids = refl; world = refl })
        | no end ↦
            let last : i ≡ n = omega arith in
            let same : stage0 prepare partition_of handle gap i s
                ≡ record s { count = i; count_plus_gap = add64 i (3 * gap); world = s.world } =
              rw unknown_yet (
                ap (stage0_done prepare partition_of handle gap i s)
                  (ready i s.world good ∙ ap (λ b. (b, s.world)) (le→ltb i n (omega arith)))) in
            subst (λ s'. Prepared i s s') (sym same)
              (record { known = inr (last, omega arith, omega arith); ids = refl; world = refl })
      ]

  -- With that, an index of a request that was prepared is below `count` exactly if there is one.
  pub count-lt : (i j count cpg : ℕ) → Known (i + 1) count cpg → j ≤ i → ltb j count ≡ ltb j n
  count-lt i j count cpg (inl (c, e, p)) h = ground arith
  count-lt i j count cpg (inr (c, e, p)) h = rw c refl

  -- The index of a later stage: so many requests behind, or far above every count.
  pub behind_index : (i d : ℕ) → i < 2 ^ 34 → d < 2 ^ 18 → d ≤ i → sub64 i d ≡ i - d
  behind_index i d p q h = omega arith

  pub no_index : (i d : ℕ) → i < d → d < 2 ^ 18 → 2 ^ 63 < sub64 i d
  no_index i d p q = omega arith

  pub Known-count : (i count cpg : ℕ) → Known (i + 1) count cpg → count < 2 ^ 32
  Known-count i count cpg (inl (c, e, p)) = omega arith
  Known-count i count cpg (inr (c, e, p)) = omega arith

  -- After stage 1 the partition of one more request is at hand.
  pub record Entered (i : ℕ) (s s' : Pipe W) : Type 0 where
    pub known : Known (i + 1) s'.count s'.count_plus_gap
    pub as_big : length s'.partition_ids ≡ 2 ^ k
    pub held :
        (j : ℕ)
        → i ≤ j + 3 * gap
        → j + gap ≤ i
        → j < n
        → get_or s'.partition_ids (j % 2 ^ k) 0 ≡ part j
    pub world : s'.world ≡ s.world

  pub slot : (j : ℕ) → bit_and j (2 ^ k - 1) ≡ j % 2 ^ k
  slot j = bit_and-mask k j

  enter_skip :
      (i : ℕ) (s s' : Pipe W)
      → At i s
      → Prepared i s s'
      → ((j : ℕ) → j + gap ≡ i → n ≤ j)
      → Entered i s s'
  enter_skip i s s' at p none_new = record {
    known = p.known;
    as_big = ap length p.ids ∙ at.as_big;
    held = λ j low high more. elim (dec_lt (j + gap) i) [
      | yes old ↦ ap (λ l. get_or l (j % 2 ^ k) 0) p.ids ∙ at.held j low old more
      | no new ↦ absurd (omega (arith, none_new j (omega arith)))
    ];
    world = p.world;
  }

  enter_put :
      (i : ℕ) (s s' : Pipe W)
      → At i s
      → Prepared i s s'
      → gap ≤ i
      → Entered i s (record s' {
        partition_ids =
            set s'.partition_ids (bit_and (i - gap) (2 ^ k - 1)) (partition_of s'.world (i - gap));
      })
  enter_put i s s' at p late =
      let ids = s'.partition_ids in
      let size : length ids ≡ 2 ^ k = ap length p.ids ∙ at.as_big in
      let inside : (i - gap) % 2 ^ k < 2 ^ k = mod-lt (i - gap) (pow-pos k) in
      let place = slot (i - gap) in
      let value : partition_of s'.world (i - gap) ≡ part (i - gap) =
        ap (λ w. partition_of w (i - gap)) p.world ∙ stable (i - gap) s.world at.good in
      record {
        known = p.known;
        as_big =
            length-set ids (bit_and (i - gap) (2 ^ k - 1)) (partition_of s'.world (i - gap)) ∙ size;
        held = λ j low high more.
            ap (λ a. get_or (set ids a (partition_of s'.world (i - gap))) (j % 2 ^ k) 0) place
            ∙ get_or-set ids ((i - gap) % 2 ^ k) (j % 2 ^ k) (partition_of s'.world (i - gap)) 0
                (omega (arith, size, inside))
            ∙ elim (dec_lt (j + gap) i) [
              | yes old ↦
                  rw
                    (ne→== ((i - gap) % 2 ^ k) (j % 2 ^ k) (λ e.
                      mod_apart j (i - gap) (2 ^ k) (omega arith) (omega (arith, room)) (sym e)))
                    (ap (λ l. get_or l (j % 2 ^ k) 0) p.ids ∙ at.held j low old more)
              | no new ↦
                  let same : j ≡ i - gap = omega arith in
                  rw (same, ==_refl ((i - gap) % 2 ^ k)) value
            ];
        world = p.world;
      }

  pub enter_more :
      (i : ℕ) (s s' : Pipe W)
      → At i s
      → Prepared i s s'
      → i < n + 3 * gap
      → Entered i s (stage1 prepare partition_of handle (2 ^ k - 1) (sub64 i gap) s')
  unfolding stage1
  enter_more i s s' at p short = elim (dec_lt i gap) [
    | yes early ↦
        let skip : ltb (sub64 i gap) s'.count ≡ false = le→ltb (sub64 i gap) s'.count (
          omega (
            arith,
            no_index i gap early (omega arith),
            Known-count i s'.count s'.count_plus_gap p.known,
          )) in
        rw skip (enter_skip i s s' at p (λ j e. omega arith))
    | no late ↦
        let index = behind_index i gap (omega arith) (omega arith) (omega arith) in
        let test = count-lt i (i - gap) s'.count s'.count_plus_gap p.known (omega arith) in
        elim (dec_lt (i - gap) n) [
          | yes there ↦
              rw (index, test, lt→ltb (i - gap) n there) (enter_put i s s' at p (omega arith))
          | no past ↦
              rw (index, test, le→ltb (i - gap) n (omega arith))
                (enter_skip i s s' at p (λ j e. omega arith))
        ]
  ]
