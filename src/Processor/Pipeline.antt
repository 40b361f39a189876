-- ===== src/Processor/Pipeline.antt =====
-- The pipeline of `Partitions::process` (mica2/src/mica/processor/partitions_impl/process.h), over what
-- its stages do, and the loop of `SimpleProcessor::process` (simple_processor.h).
use enso_eval.Base.{
  ℕ, zero, suc, ◌+◌, ◌-◌, ◌*◌, ◌^◌, bit_and, Bool, true, false, Option, none, some, List, get_or,
  set, replicate, add64, sub64, ◌==◌, ltb, if◌then◌else◌,
}
use enso_eval.Util.{next_power_of_two}

-- The local variables of the loop: `count`, `count_plus_gap`, `partition_ids`, and the state that
-- the accessor, the partitions and the tables share.
pub record Pipe (W : Type 0) : Type 0 where
  pub count : ℕ
  pub count_plus_gap : ℕ
  pub partition_ids : List ℕ
  pub world : W

-- `static_cast<uint32_t>(-1)`: the number of requests is not known yet.
abbrev pub k_unknown : ℕ
k_unknown = 2 ^ 32 - 1

-- The rest of the work, unless a table waits for ever.
unfoldable pub again : {A : Type 0} → (A → Option A) → Option A → Option A
again f none = none
again f (some s) = f s

-- Requests are at hand while `prepare` says so; `partition_of` is `get_partition_id` of the hash of a
-- request, and `handle` the last stage. Prefetching has no effect that the model sees.
module _ {W : Type 0} (prepare : ℕ → W → Bool × W) (partition_of : W → ℕ → ℕ)
    (handle : ℕ → ℕ → W → Option W) where
  unfoldable pub stage0_done : ℕ → ℕ → Pipe W → Bool × W → Pipe W
  stage0_done gap i s (true, w) = record s { world = w }
  stage0_done gap i s (false, w) = record s {
    count = i;
    count_plus_gap = add64 i (3 * gap);
    world = w;
  }

  unfoldable pub stage0 : ℕ → ℕ → Pipe W → Pipe W
  unfolding stage0_done
  stage0 gap i s = if s.count == k_unknown then stage0_done gap i s (prepare i s.world) else s

  unfoldable pub stage1 : ℕ → ℕ → Pipe W → Pipe W
  stage1 mask index s =
      if ltb index s.count
      then record s {
        partition_ids = set s.partition_ids (bit_and index mask) (partition_of s.world index);
      }
      else s

  unfoldable pub put_world : Pipe W → Option W → Option (Pipe W)
  put_world s none = none
  put_world s (some w) = some (record s { world = w })

  unfoldable pub stage3 : ℕ → ℕ → Pipe W → Option (Pipe W)
  unfolding put_world
  stage3 mask index s =
      if ltb index s.count
      then put_world s (handle index (get_or s.partition_ids (bit_and index mask) 0) s.world)
      else some s

  -- One round: the indices go down by the gap, below 0 they wrap.
  unfoldable pub round : ℕ → ℕ → ℕ → Pipe W → Option (Pipe W)
  unfolding stage0 stage1 stage3
  round gap mask i s =
      let s0 = stage0 gap i s in
      let index1 = sub64 i gap in
      let s1 = stage1 mask index1 s0 in
      let index2 = sub64 index1 gap in let index3 = sub64 index2 gap in stage3 mask index3 s1

  -- `for (i_ = 0; i_ < count_plus_gap; i_++)`, with a gap that does not change (`kAutoStageGap` is
  -- false); `none` when the fuel runs out.
  unfoldable pub loop : ℕ → ℕ → ℕ → ℕ → Pipe W → Option (Pipe W)
  unfolding again
  loop zero gap mask i s = none
  loop (suc fuel) gap mask i s =
      let rest = again (loop fuel gap mask (i + 1)) (round gap mask i s) in
      if ltb i s.count_plus_gap then rest else some s

  unfoldable pub pipeline : ℕ → ℕ → W → Option (Pipe W)
  unfolding loop
  pipeline fuel gap w =
      let pipeline_size = next_power_of_two (3 * gap) in
      loop fuel gap (pipeline_size - 1) 0 (record {
        count = k_unknown;
        count_plus_gap = k_unknown + 3 * gap;
        partition_ids = replicate pipeline_size 0;
        world = w;
      })

  -- The requests `i`, `i + 1`, ... one after the other.
  unfoldable pub one_by_one : (ℕ → ℕ) → ℕ → ℕ → W → Option W
  unfolding again
  one_by_one part zero i w = some w
  one_by_one part (suc n) i w = again (one_by_one part n (i + 1)) (handle i (part i) w)
