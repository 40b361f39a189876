-- ===== src/Processor/Single.antt =====
-- `Partitions::process` with one partition against `SimpleProcessor::process`, on an array of requests.
use mathlib.Core.Path.{fun_ext, subst}
use enso_eval.Base.{
  ℕ, zero, suc, ◌+◌, ◌-◌, ◌*◌, ◌/◌, ◌%◌, ◌^◌, ◌<◌, ◌≡◌, ◌≢◌, refl, sym, ap, ◌∙◌, Option, none, some,
  false, List, ◌∷◌, get_or, lt→ltb, le→ltb, arith,
}
use enso_eval.Processor.Interface.{
  Operation, reset, noop_read, noop_write, add, set, get, test, delete, increment, unknown,
  TableOps, RequestArray, array_accessor,
}
use enso_eval.Processor.Defs.{Partitions, get_owner_lcore_id, get_partition_id}
use enso_eval.Processor.Dispatch.{World, handle, is_reset}
use enso_eval.Processor.Pipeline.{pipeline, again, one_by_one}
use enso_eval.Processor.Process.{
  Simple, simple_handle, simple_round, simple_process, prepare_request, partition_of_request,
  last_world,
}
use enso_eval.Processor.Keeps.{IsKept, OptionAll, Kept, handle-Kept}
use enso_eval.Processor.Accept.{Inputs, last_world-in_order}
use enso_eval.Processor.Simple.{of_partitions, of_simple, handle-simple_handle}

-- The requests of an array that are read, with their operations.
abbrev Asked : ℕ → List ℕ → List Operation → RequestArray → Type 0
Asked n hashes types r = Inputs n hashes r × (r.req_types ≡ types)

Asked-IsKept :
    (n : ℕ) (hashes : List ℕ) (types : List Operation)
    → IsKept array_accessor (Asked n hashes types)
Asked-IsKept n hashes types = record {
  write_out = λ i ws r h. h;
  set_out_value_length = λ i k r h. h;
  set_result = λ i v r h. h;
  retire = λ i r h. h;
}

no_reset : (O : TableOps) (op : Operation) → op ≢ reset → is_reset O array_accessor op ≡ false
unfolding is_reset
no_reset O reset h = absurd (h refl)
no_reset O noop_read h = refl
no_reset O noop_write h = refl
no_reset O add h = refl
no_reset O set h = refl
no_reset O get h = refl
no_reset O test h = refl
no_reset O delete h = refl
no_reset O increment h = refl
no_reset O unknown h = refl

-- None of the first `n` operations is a reset.
abbrev pub NoReset : ℕ → List Operation → Type 0
NoReset n types = (i : ℕ) → i < n → get_or types i unknown ≢ reset

module _ (O : TableOps) (lcore_id n : ℕ) (hashes : List ℕ) (types : List Operation)
    (rest : List (Option O.Table)) (safe : NoReset n types) where
  -- One partition with the table `t`, which the core owns, and the array of the requests.
  pub record IsSingle (w : World O array_accessor) (t : O.Table) : Type 0 where
    pub one_partition : w.0.partition_count ≡ 1
    pub own : get_owner_lcore_id w.0 0 ≡ lcore_id
    pub one_table : w.0.tables ≡ some t ∷ rest
    pub inputs : Asked n hashes types w.1

  simple_process-more :
      (fuel i : ℕ) (t : O.Table) (r : RequestArray)
      → r.count ≡ n
      → i < n
      → simple_process O array_accessor (suc fuel) i (t, r)
        ≡ again
            (simple_process O array_accessor fuel (i + 1))
            (simple_handle O array_accessor i (t, r))
  unfolding simple_process simple_round
  simple_process-more fuel i t r e h =
      ap
        (λ b.
          simple_round O array_accessor (λ x. simple_process O array_accessor fuel (i + 1) x) i t
            (b, r))
        (lt→ltb i r.count (omega arith))

  simple_process-end :
      (fuel : ℕ) (t : O.Table) (r : RequestArray)
      → r.count ≡ n
      → simple_process O array_accessor (suc fuel) n (t, r) ≡ some (t, r)
  unfolding simple_process simple_round
  simple_process-end fuel t r e =
      ap
        (λ b.
          simple_round O array_accessor (λ x. simple_process O array_accessor fuel (n + 1) x) n t
            (b, r))
        (le→ltb n r.count (omega arith))

  -- Both processors after one request: both wait for ever, or they are alike again.
  alike :
      (w : World O array_accessor) (o : Option (World O array_accessor))
      (o' : Option (Simple O array_accessor))
      (f : World O array_accessor → Option (World O array_accessor))
      (g : Simple O array_accessor → Option (Simple O array_accessor))
      → w.0.partition_count ≡ 1
      → get_owner_lcore_id w.0 0 ≡ lcore_id
      → OptionAll (Kept O array_accessor (Asked n hashes types) (Asked-IsKept n hashes types) w.0) o
      → of_partitions O array_accessor rest o ≡ of_simple O array_accessor rest o'
      → ((w : World O array_accessor) (t : O.Table)
          → IsSingle w t
          → of_partitions O array_accessor rest (f w)
            ≡ of_simple O array_accessor rest (g (t, w.1)))
      → of_partitions O array_accessor rest (again f o)
        ≡ of_simple O array_accessor rest (again g o')
  unfolding again
  alike w none none f g one own kept e more = refl
  alike w none (some s) f g one own kept e more = cc
  alike w (some v) none f g one own kept e more = cc
  alike w (some (p', r')) (some (t', r'')) f g one own kept e more =
      let owners = kept.1.1 in
      let same : r' ≡ r'' = cc (e) in
      more (p', r') t'
        (record {
          one_partition = kept.1.0 ∙ one;
          own = unfold get_owner_lcore_id in (ap (λ l. get_or l 0 0) owners ∙ own);
          one_table = cc (e);
          inputs = kept.0;
        })
      ∙ ap (λ x. of_simple O array_accessor rest (g (t', x))) same

  single-in_order :
      (m i : ℕ) (p : Partitions O.Table) (r : RequestArray) (t : O.Table)
      → i + m ≡ n
      → IsSingle (p, r) t
      → of_partitions O array_accessor rest (
          one_by_one
            (prepare_request O array_accessor)
            (partition_of_request O array_accessor)
            (handle O array_accessor lcore_id)
            (λ j. 0)
            m
            i
            (p, r))
        ≡ of_simple O array_accessor rest (simple_process O array_accessor (suc m) i (t, r))
  unfolding one_by_one
  single-in_order zero i p r t e single =
      let last : i ≡ n = omega arith in
      ap (λ ts. some (ts, r)) single.one_table
      ∙ ap (of_simple O array_accessor rest) (
          sym (simple_process-end 0 t r single.inputs.0.0)
          ∙ ap (λ k. simple_process O array_accessor 1 k (t, r)) (sym last))
  single-in_order (suc m) i p r t e single =
      let kept = Asked-IsKept n hashes types in
      alike (p, r) (handle O array_accessor lcore_id i 0 (p, r))
        (simple_handle O array_accessor i (t, r)) _
        (simple_process O array_accessor (suc m) (i + 1)) single.one_partition single.own
        (handle-Kept O array_accessor (Asked n hashes types) kept lcore_id i 0 p r single.inputs)
        (handle-simple_handle O array_accessor rest lcore_id i p r t single.own single.one_table (
          no_reset O (array_accessor.get_operation r i)
            (subst (λ l. get_or l i unknown ≢ reset) (sym single.inputs.1) (safe i (omega arith)))))
        (λ w t'. single-in_order m (i + 1) w.0 w.1 t' (omega arith))
      ∙ ap (of_simple O array_accessor rest)
          (sym (simple_process-more (suc m) i t r single.inputs.0.0 (omega arith)))

-- On an array of requests without a reset, `Partitions` with one partition, which the core owns, does
-- what `SimpleProcessor` does: the pipeline ends with the same table at the first place of `tables_`
-- and the same results, or waits for ever where that waits; the other places of `tables_`, whatever
-- they hold, stay as they are. (A reset goes over all places, also those without a table.) The stage
-- gap is 1 to 65535, and there are fewer than 2^32 - 1 requests.
pub pipeline-simple_process :
    (O : TableOps) (lcore_id fuel gap : ℕ) (p : Partitions O.Table) (r : RequestArray) (t : O.Table)
    (rest : List (Option O.Table))
    → 0 < gap
    → gap < 2 ^ 16
    → r.count < 2 ^ 32 - 1
    → r.count + 3 * gap < fuel
    → p.partition_count ≡ 1
    → get_owner_lcore_id p 0 ≡ lcore_id
    → p.tables ≡ some t ∷ rest
    → NoReset r.count r.req_types
    → of_partitions O array_accessor rest (
        last_world O array_accessor (
          pipeline
            (prepare_request O array_accessor)
            (partition_of_request O array_accessor)
            (handle O array_accessor lcore_id)
            fuel
            gap
            (p, r)))
      ≡ of_simple O array_accessor rest (simple_process O array_accessor (suc r.count) 0 (t, r))
pipeline-simple_process O lcore_id fuel gap p r t rest some_gap small_gap few enough one own
      one_table safe =
    let part_zero : (λ (i : ℕ). get_partition_id p (get_or r.key_hashes i 0)) ≡ (λ i. 0) =
      fun_ext (λ i. only (get_or r.key_hashes i 0)) in
    ap (of_partitions O array_accessor rest) (
      last_world-in_order O lcore_id fuel gap p r some_gap small_gap few enough
      ∙ ap
          (λ part.
            one_by_one (prepare_request O array_accessor) (partition_of_request O array_accessor)
              (handle O array_accessor lcore_id) part r.count 0 (p, r))
          part_zero)
    ∙ single-in_order O lcore_id r.count r.key_hashes r.req_types rest safe r.count 0 p r t
        (omega arith)
        (record {
          one_partition = one;
          own = own;
          one_table = one_table;
          inputs = ((refl, refl), refl);
        })
  where
    only : (h : ℕ) → get_partition_id p h ≡ 0
    only h = unfold get_partition_id in (ap (λ k. h / 2 ^ 48 % k % 2 ^ 16) one ∙ omega arith)
