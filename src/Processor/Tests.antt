-- ===== src/Processor/Tests.antt =====
-- The processors on three requests over tables that hold one value.
use mathlib.Core.Option
use enso_eval.Base.{
  ℕ, zero, suc, ◌^◌, ◌≡◌, ◌≢◌, inl, refl, true, false, Option, none, some, List, [], ◌∷◌, get_or,
  replicate, arith,
}
use enso_eval.Util.{next_power_of_two}
use enso_eval.LTable.State.{Result, success, not_found, error, rejected, not_processed}
use enso_eval.Processor.Interface.{Operation, TableOps, RequestArray, array_accessor}
use enso_eval.Processor.Defs.{
  Partitions, LoadStats, no_queue, stats_of, get_partition_id, get_owner_lcore_id, count_request,
  update_recent_key_hash, set_new_owner_lcore_id, enqueue_change, apply_pending_owner_lcore_changes,
}
use enso_eval.Processor.Dispatch.{World, handle, is_accepted, is_reset, accepts}
use enso_eval.Processor.Pipeline.{pipeline, round, again, one_by_one}
use enso_eval.Processor.Process.{
  prepare_request, partition_of_request, process, last_world, end_of_process, simple_process,
  add_processing_time,
}
use enso_eval.Processor.Keeps.{OptionAll}
use enso_eval.Processor.Accept.{process-in_order}
use enso_eval.Processor.Owners.{handle_refused, handle-Elsewhere, handle-reset_unset}
use enso_eval.Processor.Simple.{of_partitions, of_simple}
use enso_eval.Processor.Single.{NoReset, pipeline-simple_process}

-- A table of one value.
abbrev cell : TableOps
cell = record {
  Table = Option (List ℕ);
  reset = λ t. some none;
  set = λ h key value overwrite t. some (success, some value);
  get = λ h key room mutation t. elim t [
    | none ↦ some ((not_found, [], 0), none)
    | some v ↦ some ((success, v, 8), some v)
  ];
  test = λ h key t. some (success, t);
  del = λ h key t. some (success, none);
  increment = λ h key amount t. some ((error, 0), t);
}

abbrev requests : RequestArray
requests = record {
  count = 3;
  req_types = Operation.set ∷ Operation.get ∷ Operation.delete ∷ [];
  key_hashes = 7 ∷ 7 ∷ 2 ^ 48 ∷ [];
  keys = (1 ∷ []) ∷ (1 ∷ []) ∷ (2 ∷ []) ∷ [];
  values = (40 ∷ []) ∷ [] ∷ [] ∷ [];
  value_lengths = 8 ∷ 0 ∷ 0 ∷ [];
  out_results = not_processed ∷ not_processed ∷ not_processed ∷ [];
  out_values = [] ∷ [] ∷ [] ∷ [];
  out_value_lengths = 8 ∷ 8 ∷ 8 ∷ [];
}

-- Two partitions: core 0 owns the first one, core 1 the second; exclusive access.
abbrev load : LoadStats
load = record { request_count = 0 ∷ 0 ∷ []; processing_time = 0; stage_gap = 2 }

abbrev pair : Partitions (Option (List ℕ))
pair = record {
  concurrent_read = false;
  concurrent_write = false;
  partition_count = 2;
  owner_lcore_ids = 0 ∷ 1 ∷ [];
  tables = some none ∷ some (some (5 ∷ [])) ∷ none ∷ [];
  pending_owner_lcore_changes =
      (record no_queue {
        items = replicate 16 (record { partition_id = 0; new_owner_lcore_id = 0 });
      })
      ∷ (record no_queue {
        items = replicate 16 (record { partition_id = 0; new_owner_lcore_id = 0 });
      })
      ∷ [];
  load_stats = load ∷ load ∷ [];
  recent_key_hashes = replicate 128 0 ∷ replicate 128 0 ∷ [];
}

abbrev outcome :
    World cell array_accessor → List Result × List (List ℕ) × List (Option (Option (List ℕ)))
outcome (p, r) = (r.out_results, r.out_values, p.tables)

-- Core 0 sets and gets the value of the first partition; the request on the second is rejected.
process_results :
    Option.map outcome (process cell array_accessor 0 20 1 0 100 (pair, requests))
    ≡ some (
      success ∷ success ∷ rejected ∷ [],
      [] ∷ (40 ∷ []) ∷ [] ∷ [],
      some (some (40 ∷ [])) ∷ some (some (5 ∷ [])) ∷ none ∷ [],
    )
unfolding process prepare_request partition_of_request last_world end_of_process add_processing_time
    handle get_partition_id stats_of round accepts get_owner_lcore_id next_power_of_two
    update_recent_key_hash count_request apply_pending_owner_lcore_changes
process_results = refl

process-in_order_example :
    process cell array_accessor 0 20 1 0 100 (pair, requests)
    ≡ again (end_of_process cell array_accessor 0 1 0 100) (
        one_by_one
          (prepare_request cell array_accessor)
          (partition_of_request cell array_accessor)
          (handle cell array_accessor 0)
          (λ i. get_partition_id pair (get_or requests.key_hashes i 0))
          3
          0
          (pair, requests))
process-in_order_example =
    process-in_order cell 0 20 1 0 100 pair requests (unfold stats_of in omega arith)
      (unfold stats_of in omega arith) (omega arith) (unfold stats_of in omega arith)

handle_refused_example :
    (p' : Partitions (Option (List ℕ))) × (handle cell array_accessor 0 2 1 (pair, requests)
      ≡ some (
        p',
        record requests {
          out_value_lengths = 8 ∷ 8 ∷ 0 ∷ [];
          out_results = not_processed ∷ not_processed ∷ rejected ∷ [];
        },
      ))
    × (p'.tables ≡ pair.tables)
    × (p'.owner_lcore_ids ≡ pair.owner_lcore_ids)
    × (p'.load_stats ≡ pair.load_stats)
handle_refused_example =
    handle_refused cell array_accessor 0 2 1 pair requests
      (unfold get_owner_lcore_id in λ e. omega arith) (inl (refl, refl))

set_is_no_reset : is_reset cell array_accessor Operation.set ≡ false
unfolding is_reset
set_is_no_reset = refl

handle-Elsewhere_example :
    OptionAll
      (λ (w : World cell array_accessor).
        (j : ℕ) → 0 ≢ j → get_or w.0.tables j none ≡ get_or pair.tables j none)
      (handle cell array_accessor 0 0 0 (pair, requests))
handle-Elsewhere_example = handle-Elsewhere cell array_accessor 0 0 0 pair requests set_is_no_reset

abbrev with_reset : RequestArray
with_reset = record requests { req_types = Operation.reset ∷ [] }

reset_is_accepted : is_accepted cell array_accessor 0 0 0 (pair, with_reset) ≡ true
unfolding is_accepted accepts get_owner_lcore_id
reset_is_accepted = refl

handle-reset_unset_example : handle cell array_accessor 0 0 0 (pair, with_reset) ≡ none
handle-reset_unset_example =
    handle-reset_unset cell array_accessor 0 0 0 2 pair with_reset refl reset_is_accepted
      (omega arith) refl

abbrev alone : Partitions (Option (List ℕ))
alone = record pair { partition_count = 1; tables = some none ∷ replicate 255 none }

three-NoReset : NoReset 3 requests.req_types
three-NoReset zero h = λ e. cc (e)
three-NoReset (suc zero) h = λ e. cc (e)
three-NoReset (suc (suc zero)) h = λ e. cc (e)
three-NoReset (suc (suc (suc i))) h = absurd (omega arith)

pipeline-simple_process_example :
    of_partitions cell array_accessor (replicate 255 none) (
      last_world cell array_accessor (
        pipeline
          (prepare_request cell array_accessor)
          (partition_of_request cell array_accessor)
          (handle cell array_accessor 0)
          20
          2
          (alone, requests)))
    ≡ of_simple cell array_accessor
        (replicate 255 none)
        (simple_process cell array_accessor 4 0 (none, requests))
pipeline-simple_process_example =
    pipeline-simple_process cell 0 20 2 alone requests none (replicate 255 none) (omega arith)
      (omega arith) (omega arith) (omega arith) refl (unfold get_owner_lcore_id in refl) refl
      three-NoReset

-- A change of owner goes through the queue of the old one.
give_away :
    Option.map
      (λ p. p.owner_lcore_ids)
      (elim (set_new_owner_lcore_id 0 1 pair) [
        | none ↦ none
        | some p ↦ apply_pending_owner_lcore_changes 3 0 p
      ])
    ≡ some (1 ∷ 1 ∷ [])
unfolding set_new_owner_lcore_id enqueue_change apply_pending_owner_lcore_changes
give_away = refl
