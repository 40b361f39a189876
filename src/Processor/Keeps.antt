-- ===== src/Processor/Keeps.antt =====
-- What the handling of one request keeps, whatever the table answers.
use enso_eval.Base.{
  ℕ, ◌≡◌, refl, Bool, not, ◌||◌, ltb, Option, none, some, List, get_or, ◌==◌, Bool-cases, inl, inr,
  arith,
}
use enso_eval.LTable.State.{Result, success, error, rejected}
use enso_eval.Processor.Interface.{
  Operation, reset, noop_read, noop_write, add, set, get, test, delete, increment, unknown,
  TableOps, RequestAccessor,
}
use enso_eval.Processor.Defs.{Partitions, count_request, update_recent_key_hash}
use enso_eval.Processor.Dispatch.{
  World, Done, little_endian, answer_get, answer_increment, answer_plain, lift, execute, finish,
  run_on, finish_reset, run_reset, reset_tables, run_accepted, reject, remember, succeeded, handle,
  is_reset, is_accepted,
}

-- `P` holds of what a step gives, if it gives anything.
abbrev pub OptionAll {ℓ κ} : {A : Type ℓ} → (A → Type κ) → Option A → Type κ
OptionAll P none = Unit
OptionAll P (some a) = P a

-- A property of the requests that the calls of the accessor keep.
pub record IsKept (A : RequestAccessor) (P : A.Requests → Type 0) : Type 0 where
  pub write_out : (i : ℕ) (ws : List ℕ) (r : A.Requests) → P r → P (A.write_out i ws r)
  pub set_out_value_length : (i n : ℕ) (r : A.Requests) → P r → P (A.set_out_value_length i n r)
  pub set_result : (i : ℕ) (v : Result) (r : A.Requests) → P r → P (A.set_result i v r)
  pub retire : (i : ℕ) (r : A.Requests) → P r → P (A.retire i r)

module _ (O : TableOps) (A : RequestAccessor) (P : A.Requests → Type 0) (kept : IsKept A P) where
  lift-Kept :
      {B : Type 0} (f : B → Done O A) (o : Option B)
      → ((b : B) → P (f b).2)
      → OptionAll (λ d. P d.2) (lift O A f o)
  unfolding lift
  lift-Kept f none h = tt
  lift-Kept f (some b) h = h b

  plain-Kept : (i : ℕ) (r : A.Requests) (b : Result × O.Table) → P r → P (answer_plain O A i r b).2
  unfolding answer_plain
  plain-Kept i r (v, t) h = kept.set_out_value_length i 0 r h

  get-Kept :
      (i : ℕ) (r : A.Requests) (b : (Result × List ℕ × ℕ) × O.Table)
      → P r
      → P (answer_get O A i r b).2
  unfolding answer_get
  get-Kept i r ((v, ws, n), t) h =
      kept.set_out_value_length i _ (A.write_out i ws r) (kept.write_out i ws r h)

  increment-Kept :
      (i : ℕ) (r : A.Requests) (b : (Result × ℕ) × O.Table) → P r → P (answer_increment O A i r b).2
  unfolding answer_increment
  increment-Kept i r ((v, n), t) h = elim (Bool-cases (succeeded v)) [
    | inl done ↦ rw done (
        kept.set_out_value_length i 8 (A.write_out i (little_endian 8 n) r)
          (kept.write_out i (little_endian 8 n) r h))
    | inr failed ↦ rw failed (kept.set_out_value_length i 0 r h)
  ]

  execute-Kept :
      (op : Operation) (i : ℕ) (owner : Bool) (t : O.Table) (r : A.Requests)
      → P r
      → OptionAll (λ d. P d.2) (execute O A op i owner t r)
  unfolding execute
  execute-Kept reset i owner t r h = plain-Kept i r (success, t) h
  execute-Kept noop_read i owner t r h = plain-Kept i r (success, t) h
  execute-Kept noop_write i owner t r h = plain-Kept i r (success, t) h
  execute-Kept add i owner t r h = lift-Kept _ _ (λ b. plain-Kept i r b h)
  execute-Kept set i owner t r h = lift-Kept _ _ (λ b. plain-Kept i r b h)
  execute-Kept get i owner t r h = lift-Kept _ _ (λ b. get-Kept i r b h)
  execute-Kept test i owner t r h = lift-Kept _ _ (λ b. plain-Kept i r b h)
  execute-Kept delete i owner t r h = lift-Kept _ _ (λ b. plain-Kept i r b h)
  execute-Kept increment i owner t r h =
      elim (Bool-cases (not (A.get_value_length r i == 8) || ltb (A.get_out_value_length r i) 8)) [
        | inl bad ↦ rw bad (plain-Kept i r (error, t) h)
        | inr good ↦ rw good (lift-Kept _ _ (λ b. increment-Kept i r b h))
      ]
  execute-Kept unknown i owner t r h = plain-Kept i r (error, t) h

  -- The set-up of the partitions: what no request changes.
  abbrev pub SameSetup : Partitions O.Table → Partitions O.Table → Type 0
  SameSetup p p' =
      (p'.partition_count ≡ p.partition_count)
      × (p'.owner_lcore_ids ≡ p.owner_lcore_ids)
      × (p'.concurrent_read ≡ p.concurrent_read)
      × (p'.concurrent_write ≡ p.concurrent_write)

  abbrev pub Kept : Partitions O.Table → World O A → Type 0
  Kept p w = P w.1 × SameSetup p w.0

  finish-Kept :
      (i q : ℕ) (p : Partitions O.Table) (o : Option (Done O A))
      → OptionAll (λ d. P d.2) o
      → OptionAll (Kept p) (finish O A i q p o)
  unfolding finish
  finish-Kept i q p none h = tt
  finish-Kept i q p (some (v, t, r)) h =
      (kept.retire i _ (kept.set_result i v r h), (refl, refl, refl, refl))

  run_on-Kept :
      (i q : ℕ) (owner : Bool) (p : Partitions O.Table) (r : A.Requests) (o : Option O.Table)
      → P r
      → OptionAll (Kept p) (run_on O A i q owner (p, r) o)
  unfolding run_on
  run_on-Kept i q owner p r none h = tt
  run_on-Kept i q owner p r (some t) h =
      finish-Kept i q p _ (execute-Kept (A.get_operation r i) i owner t r h)

  finish_reset-Kept :
      (i : ℕ) (p : Partitions O.Table) (r : A.Requests) (o : Option (List (Option O.Table)))
      → P r
      → OptionAll (Kept p) (finish_reset O A i (p, r) o)
  unfolding finish_reset
  finish_reset-Kept i p r none h = tt
  finish_reset-Kept i p r (some ts) h = (
    kept.retire i _ (kept.set_result i success _ (kept.set_out_value_length i 0 r h)),
    (refl, refl, refl, refl),
  )

  run_accepted-Kept :
      (lcore_id i q : ℕ) (p : Partitions O.Table) (r : A.Requests)
      → P r
      → OptionAll (Kept p) (run_accepted O A lcore_id i q (p, r))
  unfolding run_accepted run_reset count_request
  run_accepted-Kept lcore_id i q p r h =
      let p' : Partitions O.Table = count_request lcore_id q p in
      elim (Bool-cases (is_reset O A (A.get_operation r i))) [
        | inl all ↦ rw all (finish_reset-Kept i p' r (reset_tables O A p.tables) h)
        | inr one ↦ rw one (run_on-Kept i q _ p' r (get_or p.tables q none) h)
      ]

  update-SameSetup :
      (lcore_id key_hash : ℕ) (p p' : Partitions O.Table)
      → SameSetup p p'
      → SameSetup p (update_recent_key_hash lcore_id key_hash p')
  unfolding update_recent_key_hash
  update-SameSetup lcore_id key_hash p p' (a, b, c, d) =
      (ground arith, ground arith, ground arith, ground arith)

  remember-Kept :
      (lcore_id key_hash : ℕ) (p : Partitions O.Table) (o : Option (World O A))
      → OptionAll (Kept p) o
      → OptionAll (Kept p) (remember O A lcore_id key_hash o)
  unfolding remember
  remember-Kept lcore_id key_hash p none h = tt
  remember-Kept lcore_id key_hash p (some (p', r)) (good, same) =
      (good, update-SameSetup lcore_id key_hash p p' same)

  -- A request keeps what the accessor keeps, the owners and the modes.
  pub handle-Kept :
      (lcore_id i q : ℕ) (p : Partitions O.Table) (r : A.Requests)
      → P r
      → OptionAll (Kept p) (handle O A lcore_id i q (p, r))
  unfolding handle reject
  handle-Kept lcore_id i q p r h =
      remember-Kept lcore_id (A.get_key_hash r i) p _
        (elim (Bool-cases (is_accepted O A lcore_id i q (p, r))) [
          | inl ours ↦ rw ours (run_accepted-Kept lcore_id i q p r h)
          | inr refused ↦ rw refused (
            kept.retire i _ (kept.set_result i rejected _ (kept.set_out_value_length i 0 r h)),
            (refl, refl, refl, refl),
          )
        ])
