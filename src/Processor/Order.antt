-- ===== src/Processor/Order.antt =====
-- The pipeline handles every request once and in order (mica2/src/mica/processor/partitions_impl/process.h).
use enso_eval.Base.{
  ℕ, zero, suc, ◌+◌, ◌-◌, ◌*◌, ◌^◌, ◌≤◌, ◌<◌, ◌≡◌, inl, inr, refl, sym, ap, ◌∙◌, bit_and, Bool,
  true, false, Option, none, some, get_or, replicate, length-replicate, sub64, ltb, lt→ltb, le→ltb,
  dec_lt, arith,
}
use mathlib.Core.Path.{subst}
use mathlib.Core.Option
use enso_eval.Util.{next_power_of_two-le}
use enso_eval.Processor.Pipeline.{
  Pipe, k_unknown, stage0, stage1, put_world, stage3, round, again, loop, pipeline, one_by_one,
}
use enso_eval.Processor.Stages.{
  Job, Known, At, prepare_more, behind_index, no_index, Known-count, enter_more, slot, count-lt,
}

again-some : {A : Type 0} (f : A → Option A) (a : A) → again f (some a) ≡ f a
unfolding again
again-some f a = refl

module _ {W : Type 0} (job : Job W) where
  open job use {
    prepare, partition_of, handle, n, part, Good, ready, stable, keeps, gap, k, some_gap, small_gap,
    few, room,
  }

  -- Three subtractions of the gap.
  third_index : (i : ℕ) → sub64 (sub64 (sub64 i gap) gap) gap ≡ sub64 i (3 * gap)
  third_index i = omega (arith, small_gap)

  abbrev mask : ℕ
  mask = 2 ^ k - 1

  -- A round of the pipeline, while it fills and while it hands requests on.
  round-fill :
      (i : ℕ) (s : Pipe W)
      → At job i s
      → i < n + 3 * gap
      → i < 3 * gap
      → (s' : Pipe W) × (round prepare partition_of handle gap mask i s ≡ some s')
        × At job (i + 1) s'
        × (s'.world ≡ s.world)
  unfolding round stage3
  round-fill i s at short early =
      let s0 = stage0 prepare partition_of handle gap i s in
      let s1 = stage1 prepare partition_of handle mask (sub64 i gap) s0 in
      let e = enter_more job i s s0 at (prepare_more job i s at.known at.good) short in
      let skip : ltb (sub64 (sub64 (sub64 i gap) gap) gap) s1.count ≡ false =
        le→ltb (sub64 (sub64 (sub64 i gap) gap) gap) s1.count (
          omega (
            arith,
            third_index i,
            no_index job i (3 * gap) early (omega arith),
            Known-count job i s1.count s1.count_plus_gap e.known,
          )) in
      (
        s1,
        rw skip refl,
        record {
          known = e.known;
          as_big = e.as_big;
          held = λ j low high more. e.held j (omega arith) (omega arith) more;
          good = subst Good (sym e.world) at.good;
        },
        e.world,
      )

  round-hand_on :
      (i : ℕ) (s : Pipe W)
      → At job i s
      → i < n + 3 * gap
      → 3 * gap ≤ i
      → (s' : Pipe W) × (round prepare partition_of handle gap mask i s
          ≡ put_world prepare partition_of handle s'
              (handle (i - 3 * gap) (part (i - 3 * gap)) s.world))
        × ((w : W) → Good w → At job (i + 1) (record s' { world = w }))
  unfolding round stage3
  round-hand_on i s at short late =
      let s0 = stage0 prepare partition_of handle gap i s in
      let s1 = stage1 prepare partition_of handle mask (sub64 i gap) s0 in
      let e = enter_more job i s s0 at (prepare_more job i s at.known at.good) short in
      let j = i - 3 * gap in
      let index : sub64 (sub64 (sub64 i gap) gap) gap ≡ j =
        third_index i ∙ behind_index job i (3 * gap) (omega arith) (omega arith) late in
      let there : ltb j s1.count ≡ true =
        count-lt job i j s1.count s1.count_plus_gap e.known (omega arith)
        ∙ lt→ltb j n (omega arith) in
      let mine : get_or s1.partition_ids (bit_and j mask) 0 ≡ part j =
        ap (λ a. get_or s1.partition_ids a 0) (slot job j)
        ∙ e.held j (omega arith) (omega arith) (omega arith) in
      (
        s1,
        rw (index, there, mine, e.world) refl,
        λ w good. record {
          known = e.known;
          as_big = e.as_big;
          held = λ j low high more. e.held j (omega arith) (omega arith) more;
          good = good;
        },
      )

  abbrev run : ℕ → ℕ → Pipe W → Option (Pipe W)
  run = λ fuel i s. loop prepare partition_of handle fuel gap mask i s

  abbrev world : Option (Pipe W) → Option W
  world = Option.map (λ s. s.world)

  abbrev in_order : ℕ → ℕ → W → Option W
  in_order = one_by_one prepare partition_of handle part

  -- The test of the loop.
  test-lt : (i : ℕ) (s : Pipe W) → At job i s → i < n + 3 * gap → ltb i s.count_plus_gap ≡ true
  test-lt i s at short = lt→ltb i s.count_plus_gap (below at.known)
    where
      below : Known job i s.count s.count_plus_gap → i < s.count_plus_gap
      below (inl (c, e, p)) = omega (arith, some_gap, few)
      below (inr (c, e, p)) = omega arith

  test-le : (i : ℕ) (s : Pipe W) → At job i s → i ≡ n + 3 * gap → ltb i s.count_plus_gap ≡ false
  test-le i s at last = le→ltb i s.count_plus_gap (above at.known)
    where
      above : Known job i s.count s.count_plus_gap → s.count_plus_gap ≤ i
      above (inl (c, e, p)) = absurd (omega (arith, some_gap))
      above (inr (c, e, p)) = omega arith

  loop-step :
      (fuel i : ℕ) (s : Pipe W)
      → ltb i s.count_plus_gap ≡ true
      → run (suc fuel) i s
        ≡ again (run fuel (i + 1)) (round prepare partition_of handle gap mask i s)
  unfolding loop
  loop-step fuel i s h = rw h refl

  loop-stop :
      (fuel i : ℕ) (s : Pipe W) → ltb i s.count_plus_gap ≡ false → run (suc fuel) i s ≡ some s
  unfolding loop
  loop-stop fuel i s h = rw h refl

  -- One request, in the pipeline and in order.
  one_more :
      (fuel i m j : ℕ) (s' : Pipe W) (o : Option W)
      → ((w : W) → o ≡ some w → world (run fuel i (record s' { world = w })) ≡ in_order m (j + 1) w)
      → world (again (run fuel i) (put_world prepare partition_of handle s' o))
        ≡ again (in_order m (j + 1)) o
  unfolding again put_world
  one_more fuel i m j s' none rest = refl
  one_more fuel i m j s' (some w) rest = rest w refl

  in_order-step :
      (m j : ℕ) (w : W) → in_order (suc m) j w ≡ again (in_order m (j + 1)) (handle j (part j) w)
  unfolding one_by_one
  in_order-step m j w = refl

  pub loop-in_order :
      (fuel i : ℕ) (s : Pipe W)
      → At job i s
      → i ≤ n + 3 * gap
      → n + 3 * gap < i + fuel
      → world (run fuel i s) ≡ in_order (n - (i - 3 * gap)) (i - 3 * gap) s.world
  loop-in_order zero i s at low high = absurd (omega arith)
  loop-in_order (suc fuel) i s at low high = elim (dec_lt i (n + 3 * gap)) [
    | no end ↦
        let all : n - (i - 3 * gap) ≡ 0 = omega arith in
        ap world (loop-stop fuel i s (test-le i s at (omega arith)))
        ∙ rw all (unfold one_by_one in refl)
    | yes short ↦ elim (dec_lt i (3 * gap)) [
      | yes early ↦
          let (s', e, at', same) = round-fill i s at short early in
          let still : i + 1 - 3 * gap ≡ i - 3 * gap = omega arith in
          ap world (
            loop-step fuel i s (test-lt i s at short)
            ∙ ap (again (run fuel (i + 1))) e
            ∙ again-some (run fuel (i + 1)) s')
          ∙ loop-in_order fuel (i + 1) s' at' (omega arith) (omega arith)
          ∙ rw (still, same) refl
      | no late ↦
          let (s', e, at') = round-hand_on i s at short (omega arith) in
          let j = i - 3 * gap in
          let next : i + 1 - 3 * gap ≡ j + 1 = omega arith in
          let left : n - j ≡ suc (n - (j + 1)) = omega arith in
          ap world (loop-step fuel i s (test-lt i s at short) ∙ ap (again (run fuel (i + 1))) e)
          ∙ one_more fuel (i + 1) (n - (j + 1)) j s' (handle j (part j) s.world) (λ w h.
            loop-in_order fuel (i + 1) (record s' { world = w })
              (at' w (keeps j (part j) s.world w at.good h)) (omega arith) (omega arith)
            ∙ ap (λ x. in_order (n - x) x w) next)
          ∙ sym (in_order-step (n - (j + 1)) j s.world)
          ∙ ap (λ x. in_order x j s.world) (sym left)
    ]
  ]

-- The pipeline does what handling the requests one by one does: with any gap of 1 to 65535, each of
-- the `n` requests that `prepare` admits is handled once, in order, on its own partition, and then
-- the loop ends. `prepare` only tests the index; the partition of a request does not change while
-- others are handled; and there are fewer than 2^32 - 1 requests.
pub pipeline-in_order :
    {W : Type 0} (prepare : ℕ → W → Bool × W) (partition_of : W → ℕ → ℕ)
    (handle : ℕ → ℕ → W → Option W) (n : ℕ) (part : ℕ → ℕ) (Good : W → Type 0) (gap fuel : ℕ)
    (w : W)
    → ((i : ℕ) (w : W) → Good w → prepare i w ≡ (ltb i n, w))
    → ((i : ℕ) (w : W) → Good w → partition_of w i ≡ part i)
    → ((i q : ℕ) (w w' : W) → Good w → handle i q w ≡ some w' → Good w')
    → 0 < gap
    → gap < 2 ^ 16
    → n < 2 ^ 32 - 1
    → n + 3 * gap < fuel
    → Good w
    → Option.map (λ s. s.world) (pipeline prepare partition_of handle fuel gap w)
      ≡ one_by_one prepare partition_of handle part n 0 w
unfolding pipeline
pipeline-in_order {W} prepare partition_of handle n part Good gap fuel w ready stable keeps some_gap
      small_gap few enough good =
    let (k, e, room) = next_power_of_two-le (3 * gap) (omega arith) in
    let job : Job W = record {
      prepare = prepare;
      partition_of = partition_of;
      handle = handle;
      n = n;
      part = part;
      Good = Good;
      ready = ready;
      stable = stable;
      keeps = keeps;
      gap = gap;
      k = k;
      some_gap = some_gap;
      small_gap = small_gap;
      few = few;
      room = room;
    } in
    let none_left : 0 - 3 * gap ≡ 0 = omega arith in
    let all : n - 0 ≡ n = omega arith in
    let start : ℕ → Pipe W = λ size. record {
      count = k_unknown;
      count_plus_gap = k_unknown + 3 * gap;
      partition_ids = replicate size 0;
      world = w;
    } in
    let at : At job 0 (start (2 ^ k)) = record {
      known = inl (refl, refl, omega arith);
      as_big = length-replicate (2 ^ k) 0;
      held = λ j low high more. absurd (omega arith);
      good = good;
    } in
    ap
      (λ size.
        Option.map (λ s. s.world)
          (loop prepare partition_of handle fuel gap (size - 1) 0 (start size)))
      e
    ∙ loop-in_order job fuel 0 (start (2 ^ k)) at (omega arith) (omega arith)
    ∙ ap (λ x. one_by_one prepare partition_of handle part (n - x) x w) none_left
    ∙ ap (λ x. one_by_one prepare partition_of handle part x 0 w) all
