-- ===== src/Processor/Simple.antt =====
-- `Partitions` with one partition against `SimpleProcessor` (mica2/src/mica/processor).
use mathlib.Core.Option
use enso_eval.Base.{
  ℕ, ◌≡◌, refl, ap, ◌∙◌, Bool, true, false, Option, none, some, List, ◌∷◌, get_or, set as put_at,
  ◌==◌, if◌then◌else◌, ==_refl, arith,
}
use enso_eval.Processor.Interface.{
  Operation, reset, noop_read, noop_write, add, set, get, test, delete, increment, unknown,
  TableOps, RequestAccessor,
}
use enso_eval.Processor.Defs.{Partitions, get_owner_lcore_id, count_request, update_recent_key_hash}
use enso_eval.Processor.Dispatch.{
  World, Done, accepts, handle, is_accepted, run_accepted, remember, is_reset, run_on, finish,
  execute, reject,
}
use enso_eval.Processor.Process.{Simple, simple_handle, simple_finish}

accepts-owner : (op : Operation) (read write : Bool) → accepts op read write true ≡ true
unfolding accepts
accepts-owner noop_read true write = refl
accepts-owner noop_read false write = refl
accepts-owner get true write = refl
accepts-owner get false write = refl
accepts-owner test true write = refl
accepts-owner test false write = refl
accepts-owner reset read true = refl
accepts-owner reset read false = refl
accepts-owner noop_write read true = refl
accepts-owner noop_write read false = refl
accepts-owner add read true = refl
accepts-owner add read false = refl
accepts-owner set read true = refl
accepts-owner set read false = refl
accepts-owner delete read true = refl
accepts-owner delete read false = refl
accepts-owner increment read true = refl
accepts-owner increment read false = refl
accepts-owner unknown read write = refl

module _ (O : TableOps) (A : RequestAccessor) (rest : List (Option O.Table)) where
  -- The tables and the requests, of either processor; `rest` are the places of `tables_` behind the
  -- first, which hold no table.
  abbrev pub Seen : Type 0
  Seen = List (Option O.Table) × A.Requests

  abbrev pub of_partitions : Option (World O A) → Option Seen
  of_partitions = Option.map (λ w. (w.0.tables, w.1))

  abbrev pub of_simple : Option (Simple O A) → Option Seen
  of_simple = Option.map (λ w. (some w.0 ∷ rest, w.1))

  remember-seen :
      (lcore_id key_hash : ℕ) (o : Option (World O A))
      → of_partitions (remember O A lcore_id key_hash o) ≡ of_partitions o
  unfolding remember update_recent_key_hash
  remember-seen lcore_id key_hash none = refl
  remember-seen lcore_id key_hash (some (p, r)) =
      let same : (update_recent_key_hash lcore_id key_hash p).tables ≡ p.tables = ground arith in
      ap (λ ts. some (ts, r)) same

  finish-seen :
      (i : ℕ) (p : Partitions O.Table) (t : O.Table) (o : Option (Done O A))
      → p.tables ≡ some t ∷ rest
      → of_partitions (finish O A i 0 p o) ≡ of_simple (simple_finish O A i o)
  unfolding finish simple_finish
  finish-seen i p t none one = refl
  finish-seen i p t (some (v, t', r)) one =
      ap (λ ts. some (put_at ts 0 (some t'), A.retire i (A.set_result i v r))) one

  ours :
      (lcore_id i : ℕ) (p : Partitions O.Table) (r : A.Requests)
      → get_owner_lcore_id p 0 ≡ lcore_id
      → is_accepted O A lcore_id i 0 (p, r) ≡ true
  unfolding is_accepted
  ours lcore_id i p r owner =
      ap (λ k. accepts (A.get_operation r i) p.concurrent_read p.concurrent_write (k == lcore_id))
        owner
      ∙ ap (accepts (A.get_operation r i) p.concurrent_read p.concurrent_write) (==_refl lcore_id)
      ∙ accepts-owner (A.get_operation r i) p.concurrent_read p.concurrent_write

  accepted-seen :
      (lcore_id i : ℕ) (p : Partitions O.Table) (r : A.Requests) (t : O.Table)
      → get_owner_lcore_id p 0 ≡ lcore_id
      → p.tables ≡ some t ∷ rest
      → is_reset O A (A.get_operation r i) ≡ false
      → of_partitions (run_accepted O A lcore_id i 0 (p, r))
        ≡ of_simple (simple_finish O A i (execute O A (A.get_operation r i) i true t r))
  unfolding run_accepted run_on count_request
  accepted-seen lcore_id i p r t owner one single =
      let p' : Partitions O.Table = count_request lcore_id 0 p in
      let mine : (get_owner_lcore_id p 0 == lcore_id) ≡ true =
        ap (λ k. k == lcore_id) owner ∙ ==_refl lcore_id in
      rw single (
        ap
          (λ ts.
            of_partitions
              (run_on O A i 0 (get_owner_lcore_id p 0 == lcore_id) (p', r) (get_or ts 0 none)))
          one
        ∙ ap (λ b. of_partitions (run_on O A i 0 b (p', r) (some t))) mine
        ∙ finish-seen i p' t _ one)

  -- With one partition, which the core owns, `Partitions` handles a request that is no reset as
  -- `SimpleProcessor` does: it leaves the same table and the same requests, or waits where that waits.
  pub handle-simple_handle :
      (lcore_id i : ℕ) (p : Partitions O.Table) (r : A.Requests) (t : O.Table)
      → get_owner_lcore_id p 0 ≡ lcore_id
      → p.tables ≡ some t ∷ rest
      → is_reset O A (A.get_operation r i) ≡ false
      → of_partitions (handle O A lcore_id i 0 (p, r)) ≡ of_simple (simple_handle O A i (t, r))
  unfolding handle simple_handle
  handle-simple_handle lcore_id i p r t owner one single =
      let op = A.get_operation r i in
      let w : World O A = (p, r) in
      remember-seen lcore_id (A.get_key_hash r i) _
      ∙ ap
          (λ b.
            of_partitions (if b then run_accepted O A lcore_id i 0 w else some (reject O A i w)))
          (ours lcore_id i p r owner)
      ∙ accepted-seen lcore_id i p r t owner one single
      ∙ rw single refl
