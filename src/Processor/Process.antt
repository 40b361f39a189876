-- ===== src/Processor/Process.antt =====
-- `Partitions::process` (mica2/src/mica/processor/partitions_impl/process.h) and
-- `SimpleProcessor::process` (simple_processor.h) as wholes.
use enso_eval.Base.{
  ℕ, zero, suc, ◌+◌, Bool, true, false, Option, none, some, set as put_at, add64, sub64,
  if◌then◌else◌,
}
use enso_eval.LTable.State.{success}
use enso_eval.Processor.Interface.{TableOps, RequestAccessor}
use enso_eval.Processor.Defs.{
  Partitions, stats_of, get_partition_id, apply_pending_owner_lcore_changes,
}
use enso_eval.Processor.Dispatch.{World, Done, handle, is_reset, execute}
use enso_eval.Processor.Pipeline.{Pipe, pipeline, again}

module _ (O : TableOps) (A : RequestAccessor) where
  open O use {Table}
  open A use {Requests}

  unfoldable pub prepare_request : ℕ → World O A → Bool × World O A
  prepare_request i (p, r) = let (ready, r') = A.prepare i r in (ready, (p, r'))

  unfoldable pub partition_of_request : World O A → ℕ → ℕ
  partition_of_request (p, r) i = get_partition_id p (A.get_key_hash r i)

  -- `start_t` and `now` are what `rdtsc` gives.
  unfoldable pub add_processing_time : ℕ → ℕ → ℕ → Partitions Table → Partitions Table
  add_processing_time lcore_id start_t now p =
      let st = stats_of p lcore_id in
      record p {
        load_stats =
            put_at p.load_stats lcore_id
              (record st { processing_time = add64 st.processing_time (sub64 now start_t) });
      }

  unfoldable pub end_of_process : ℕ → ℕ → ℕ → ℕ → World O A → Option (World O A)
  end_of_process lcore_id rounds start_t now (p, r) =
      elim (apply_pending_owner_lcore_changes rounds lcore_id
        (add_processing_time lcore_id start_t now p)) [ none ↦ none | some p' ↦ some (p', r) ]

  unfoldable pub last_world : Option (Pipe (World O A)) → Option (World O A)
  last_world none = none
  last_world (some s) = some s.world

  -- The stage gap is that of the core; with `kAutoStageGap` false nothing changes it.
  unfoldable pub process : ℕ → ℕ → ℕ → ℕ → ℕ → World O A → Option (World O A)
  unfolding pipeline again
  process lcore_id fuel rounds start_t now w = again (end_of_process lcore_id rounds start_t now) (
      last_world (
        pipeline prepare_request partition_of_request (handle O A lcore_id) fuel
          (stats_of w.0 lcore_id).stage_gap w))

  -- `SimpleProcessor`: one table, every request accepted.
  abbrev pub Simple : Type 0
  Simple = Table × Requests

  unfoldable pub simple_finish : ℕ → Option (Done O A) → Option Simple
  simple_finish i none = none
  simple_finish i (some (result, t, r)) = some (t, A.retire i (A.set_result i result r))

  unfoldable pub simple_reset : ℕ → Requests → Option Table → Option (Done O A)
  simple_reset i r none = none
  simple_reset i r (some t) = some (success, t, A.set_out_value_length i 0 r)

  unfoldable pub simple_handle : ℕ → Simple → Option Simple
  unfolding simple_finish simple_reset execute is_reset
  simple_handle i (t, r) = simple_finish i (
      if is_reset O A (A.get_operation r i)
      then simple_reset i r (O.reset t)
      else execute O A (A.get_operation r i) i true t r)

  -- `for (index = 0;; index++)`; `none` also when the fuel runs out.
  unfoldable pub simple_round :
      (Simple → Option Simple) → ℕ → Table → Bool × Requests → Option Simple
  unfolding again simple_handle
  simple_round more i t (true, r) = again more (simple_handle i (t, r))
  simple_round more i t (false, r) = some (t, r)

  unfoldable pub simple_process : ℕ → ℕ → Simple → Option Simple
  unfolding simple_round
  simple_process zero i w = none
  simple_process (suc fuel) i (t, r) =
      simple_round (simple_process fuel (i + 1)) i t (A.prepare i r)
