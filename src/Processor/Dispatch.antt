-- ===== src/Processor/Dispatch.antt =====
-- One request: acceptance by the owner of its partition, and the operation on the table
-- (mica2/src/mica/processor/partitions_impl/process.h, simple_processor.h).
use enso_eval.Base.{
  ℕ, zero, suc, ◌%◌, ◌/◌, Bool, true, false, not, ◌||◌, Option, none, some, List, [], ◌∷◌, get_or,
  set as put_at, ◌==◌, ltb, if◌then◌else◌,
}
use enso_eval.LTable.State.{Result, success, error, partial_value, rejected}
use enso_eval.Processor.Interface.{
  Operation, reset, noop_read, noop_write, add, set, get, test, delete, increment, unknown,
  TableOps, RequestAccessor,
}
use enso_eval.Processor.Defs.{Partitions, get_owner_lcore_id, count_request, update_recent_key_hash}

-- The rule of acceptance: reads and writes by a core that does not own the partition.
unfoldable pub accepts : Operation → Bool → Bool → Bool → Bool
accepts noop_read read write owner = read || owner
accepts get read write owner = read || owner
accepts test read write owner = read || owner
accepts reset read write owner = write || owner
accepts noop_write read write owner = write || owner
accepts add read write owner = write || owner
accepts set read write owner = write || owner
accepts delete read write owner = write || owner
accepts increment read write owner = write || owner
accepts unknown read write owner = true

unfoldable pub found : Result → Bool
found success = true
found partial_value = true
found _ = false

unfoldable pub succeeded : Result → Bool
succeeded success = true
succeeded _ = false

-- The tables that are reset, unless one waits for ever.
unfoldable pub prepend :
    {T : Type 0} → Option T → Option (List (Option T)) → Option (List (Option T))
prepend none l = none
prepend (some t) none = none
prepend (some t) (some l) = some (some t ∷ l)

-- The bytes of a word.
unfoldable pub little_endian : ℕ → ℕ → List ℕ
little_endian zero v = []
little_endian (suc n) v = v % 256 ∷ little_endian n (v / 256)

module _ (O : TableOps) (A : RequestAccessor) where
  open O use {Table}
  open A use {Requests}

  -- What an operation leaves: its result, the table and the requests.
  abbrev pub Done : Type 0
  Done = Result × Table × Requests

  -- The `get` and the `increment` of the switch, on what the table answers.
  unfoldable pub answer_get : ℕ → Requests → (Result × List ℕ × ℕ) × Table → Done
  unfolding found
  answer_get i r ((result, bytes, out_length), t) = (
    result,
    t,
    A.set_out_value_length i (if found result then out_length else 0) (A.write_out i bytes r),
  )

  unfoldable pub answer_increment : ℕ → Requests → (Result × ℕ) × Table → Done
  unfolding succeeded
  answer_increment i r ((result, value), t) =
      if succeeded result
      then (result, t, A.set_out_value_length i 8 (A.write_out i (little_endian 8 value) r))
      else (result, t, A.set_out_value_length i 0 r)

  unfoldable pub answer_plain : ℕ → Requests → Result × Table → Done
  answer_plain i r (result, t) = (result, t, A.set_out_value_length i 0 r)

  unfoldable pub lift : {B : Type 0} → (B → Done) → Option B → Option Done
  lift f none = none
  lift f (some b) = some (f b)

  -- The switch over the operation on one table, but for `kReset`.
  unfoldable pub execute : Operation → ℕ → Bool → Table → Requests → Option Done
  unfolding answer_get answer_increment answer_plain lift
  execute reset i allow_mutation t r = lift (answer_plain i r) (some (success, t))
  execute noop_read i allow_mutation t r = lift (answer_plain i r) (some (success, t))
  execute noop_write i allow_mutation t r = lift (answer_plain i r) (some (success, t))
  execute add i allow_mutation t r =
      lift (answer_plain i r) (O.set (A.get_key_hash r i) (A.get_key r i) (A.get_value r i) false t)
  execute set i allow_mutation t r =
      lift (answer_plain i r) (O.set (A.get_key_hash r i) (A.get_key r i) (A.get_value r i) true t)
  execute get i allow_mutation t r =
      lift (answer_get i r)
        (O.get (A.get_key_hash r i) (A.get_key r i) (A.get_out_value_length r i) allow_mutation t)
  execute test i allow_mutation t r =
      lift (answer_plain i r) (O.test (A.get_key_hash r i) (A.get_key r i) t)
  execute delete i allow_mutation t r =
      lift (answer_plain i r) (O.del (A.get_key_hash r i) (A.get_key r i) t)
  execute increment i allow_mutation t r =
      if not (A.get_value_length r i == 8) || ltb (A.get_out_value_length r i) 8
      then lift (answer_plain i r) (some (error, t))
      else lift (answer_increment i r)
          (O.increment (A.get_key_hash r i) (A.get_key r i) (get_or (A.get_value r i) 0 0) t)
  execute unknown i allow_mutation t r = lift (answer_plain i r) (some (error, t))

  -- `for (auto& table : tables_) table->reset()`: all places of the array; `none` at a pointer that
  -- was never set.
  unfoldable pub reset_tables : List (Option Table) → Option (List (Option Table))
  unfolding prepend
  reset_tables [] = some []
  reset_tables (none ∷ l) = none
  reset_tables (some t ∷ l) = prepend (O.reset t) (reset_tables l)

  abbrev pub World : Type 0
  World = Partitions Table × Requests

  unfoldable pub is_reset : Operation → Bool
  is_reset reset = true
  is_reset _ = false

  -- Back into the world: the result is set and the request retired.
  unfoldable pub finish : ℕ → ℕ → Partitions Table → Option Done → Option World
  finish i partition_id p none = none
  finish i partition_id p (some (result, t, r)) = some (
    record p { tables = put_at p.tables partition_id (some t) },
    A.retire i (A.set_result i result r),
  )

  unfoldable pub run_on : ℕ → ℕ → Bool → World → Option Table → Option World
  unfolding finish execute
  run_on i partition_id owner (p, r) none = none
  run_on i partition_id owner (p, r) (some t) =
      finish i partition_id p (execute (A.get_operation r i) i owner t r)

  unfoldable pub finish_reset : ℕ → World → Option (List (Option Table)) → Option World
  finish_reset i w none = none
  finish_reset i (p, r) (some tables) = some (
    record p { tables = tables },
    A.retire i (A.set_result i success (A.set_out_value_length i 0 r)),
  )

  unfoldable pub run_reset : ℕ → World → Option World
  unfolding reset_tables finish_reset
  run_reset i w = finish_reset i w (reset_tables w.0.tables)

  unfoldable pub reject : ℕ → World → World
  reject i (p, r) = (p, A.retire i (A.set_result i rejected (A.set_out_value_length i 0 r)))

  -- The last stage of `process` on request `i` of a partition, on the core `lcore_id`.
  unfoldable pub is_accepted : ℕ → ℕ → ℕ → World → Bool
  is_accepted lcore_id i partition_id (p, r) =
      accepts (A.get_operation r i) p.concurrent_read p.concurrent_write
        (get_owner_lcore_id p partition_id == lcore_id)

  unfoldable pub run_accepted : ℕ → ℕ → ℕ → World → Option World
  unfolding is_reset run_reset run_on
  run_accepted lcore_id i partition_id (p, r) =
      let w : World = (count_request lcore_id partition_id p, r) in
      if is_reset (A.get_operation r i)
      then run_reset i w
      else run_on i partition_id (get_owner_lcore_id p partition_id == lcore_id) w
          (get_or p.tables partition_id none)

  unfoldable pub remember : ℕ → ℕ → Option World → Option World
  remember lcore_id key_hash none = none
  remember lcore_id key_hash (some (p, r)) = some (update_recent_key_hash lcore_id key_hash p, r)

  unfoldable pub handle : ℕ → ℕ → ℕ → World → Option World
  unfolding is_accepted run_accepted reject remember
  handle lcore_id i partition_id w = remember lcore_id (A.get_key_hash w.1 i) (
      if is_accepted lcore_id i partition_id w
      then run_accepted lcore_id i partition_id w
      else some (reject i w))
