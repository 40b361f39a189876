-- ===== src/Processor/Accept.antt =====
-- `Partitions::process` on arrays of requests, and what the owners of partitions can rely on
-- (mica2/src/mica/processor/partitions_impl/process.h).
use mathlib.Core.Path.{subst}
use mathlib.Core.Option
use enso_eval.Base.{
  ℕ, ◌+◌, ◌-◌, ◌*◌, ◌/◌, ◌%◌, ◌^◌, ◌<◌, ◌≡◌, refl, ap, ◌∙◌, Option, none, some, List, get_or, ltb,
}
use enso_eval.Processor.Interface.{TableOps, RequestAccessor, RequestArray, array_accessor}
use enso_eval.Processor.Defs.{Partitions, stats_of, get_partition_id}
use enso_eval.Processor.Dispatch.{World, handle}
use enso_eval.Processor.Pipeline.{Pipe, pipeline, again, one_by_one}
use enso_eval.Processor.Order.{pipeline-in_order}
use enso_eval.Processor.Process.{
  prepare_request, partition_of_request, process, last_world, end_of_process,
}
use enso_eval.Processor.Keeps.{OptionAll, IsKept, Kept, handle-Kept}

-- The requests of an array that are read, which no call changes.
abbrev pub Inputs : ℕ → List ℕ → RequestArray → Type 0
Inputs n hashes r = (r.count ≡ n) × (r.key_hashes ≡ hashes)

pub Inputs-IsKept : (n : ℕ) (hashes : List ℕ) → IsKept array_accessor (Inputs n hashes)
Inputs-IsKept n hashes = record {
  write_out = λ i ws r h. h;
  set_out_value_length = λ i k r h. h;
  set_result = λ i v r h. h;
  retire = λ i r h. h;
}

pub OptionAll-some {ℓ κ} :
    {A : Type ℓ} (P : A → Type κ) (o : Option A) (a : A) → OptionAll P o → o ≡ some a → P a
OptionAll-some P o a h e = subst (OptionAll P) e h

last_world-map :
    (O : TableOps) (A : RequestAccessor) (o : Option (Pipe (World O A)))
    → last_world O A o ≡ Option.map (λ s. s.world) o
unfolding last_world
last_world-map O A none = refl
last_world-map O A (some s) = refl

module _ (O : TableOps) (lcore_id n c : ℕ) (hashes : List ℕ) where
  abbrev W : Type 0
  W = World O array_accessor

  -- The state while the requests are handled.
  abbrev Good : W → Type 0
  Good w = Inputs n hashes w.1 × (w.0.partition_count ≡ c)

  ready : (i : ℕ) (w : W) → Good w → prepare_request O array_accessor i w ≡ (ltb i n, w)
  unfolding prepare_request
  ready i (p, r) good = ap (λ k. (ltb i k, (p, r))) good.0.0

  stable :
      (i : ℕ) (w : W)
      → Good w
      → partition_of_request O array_accessor w i ≡ get_or hashes i 0 / 2 ^ 48 % c % 2 ^ 16
  unfolding partition_of_request get_partition_id
  stable i (p, r) good =
      ap (λ l. get_or l i 0 / 2 ^ 48 % p.partition_count % 2 ^ 16) good.0.1
      ∙ ap (λ k. get_or hashes i 0 / 2 ^ 48 % k % 2 ^ 16) good.1

  keeps : (i q : ℕ) (w w' : W) → Good w → handle O array_accessor lcore_id i q w ≡ some w' → Good w'
  keeps i q (p, r) w' (inputs, count) e =
      let P = Inputs n hashes in
      let kept = Inputs-IsKept n hashes in
      let after =
        OptionAll-some (Kept O array_accessor P kept p)
          (handle O array_accessor lcore_id i q (p, r)) w'
          (handle-Kept O array_accessor P kept lcore_id i q p r inputs) e in
      (after.0, after.1.0 ∙ count)

-- The pipeline on an array of requests.
pub last_world-in_order :
    (O : TableOps) (lcore_id fuel gap : ℕ) (p : Partitions O.Table) (r : RequestArray)
    → 0 < gap
    → gap < 2 ^ 16
    → r.count < 2 ^ 32 - 1
    → r.count + 3 * gap < fuel
    → last_world O array_accessor (
        pipeline
          (prepare_request O array_accessor)
          (partition_of_request O array_accessor)
          (handle O array_accessor lcore_id)
          fuel
          gap
          (p, r))
      ≡ one_by_one
          (prepare_request O array_accessor)
          (partition_of_request O array_accessor)
          (handle O array_accessor lcore_id)
          (λ i. get_partition_id p (get_or r.key_hashes i 0))
          r.count
          0
          (p, r)
last_world-in_order O lcore_id fuel gap p r some_gap small_gap few enough =
    last_world-map O array_accessor _
    ∙ pipeline-in_order (prepare_request O array_accessor) (partition_of_request O array_accessor)
        (handle O array_accessor lcore_id) r.count
        (λ i. get_partition_id p (get_or r.key_hashes i 0))
        (Good O lcore_id r.count p.partition_count r.key_hashes) gap fuel (p, r)
        (ready O lcore_id r.count p.partition_count r.key_hashes)
        (unfold get_partition_id in stable O lcore_id r.count p.partition_count r.key_hashes)
        (keeps O lcore_id r.count p.partition_count r.key_hashes) some_gap small_gap few enough
        ((refl, refl), refl)

-- `process` on an array of requests is the handling of its requests one after the other, each on the
-- partition of its hash, and then the end of `process`: with the stage gap of the core, 1 to 65535,
-- and fewer than 2^32 - 1 requests.
pub process-in_order :
    (O : TableOps) (lcore_id fuel rounds start_t now : ℕ) (p : Partitions O.Table)
    (r : RequestArray)
    → let gap = (stats_of p lcore_id).stage_gap in
      0 < gap
      → gap < 2 ^ 16
      → r.count < 2 ^ 32 - 1
      → r.count + 3 * gap < fuel
      → process O array_accessor lcore_id fuel rounds start_t now (p, r)
        ≡ again (end_of_process O array_accessor lcore_id rounds start_t now) (
            one_by_one
              (prepare_request O array_accessor)
              (partition_of_request O array_accessor)
              (handle O array_accessor lcore_id)
              (λ i. get_partition_id p (get_or r.key_hashes i 0))
              r.count
              0
              (p, r))
unfolding process
process-in_order O lcore_id fuel rounds start_t now p r some_gap small_gap few enough =
    ap (again (end_of_process O array_accessor lcore_id rounds start_t now)) (
      last_world-in_order O lcore_id fuel (stats_of p lcore_id).stage_gap p r some_gap small_gap few
        enough)
