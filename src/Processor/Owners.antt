-- ===== src/Processor/Owners.antt =====
-- What the owner of a partition can rely on, and what a reset does to the array of tables
-- (mica2/src/mica/processor/partitions_impl/process.h).
use enso_eval.Base.{
  ℕ, zero, suc, ◌<◌, ◌≡◌, ◌≢◌, ◌⊎◌, inl, inr, refl, ap, ◌∙◌, Bool, true, false, Option, none, some,
  List, [], ◌∷◌, length, get_or, set as put_at, Bool-cases, ne→==, arith,
}
use enso_eval.LTable.State.{rejected}
use enso_eval.Processor.Interface.{
  Operation, reset, noop_read, noop_write, add, set, get, test, delete, increment, unknown,
  TableOps, RequestAccessor,
}
use enso_eval.Processor.Defs.{Partitions, get_owner_lcore_id, count_request, update_recent_key_hash}
use enso_eval.Processor.Dispatch.{
  World, Done, accepts, handle, is_accepted, run_accepted, reject, remember, is_reset, run_reset,
  reset_tables, prepend, finish_reset, run_on, finish,
}
use enso_eval.Processor.Keeps.{OptionAll}

-- The operations that may change a table, and those that only read it.
abbrev pub may_write : Operation → Bool
may_write noop_read = false
may_write get = false
may_write test = false
may_write unknown = false
may_write _ = true

abbrev pub only_reads : Operation → Bool
only_reads noop_read = true
only_reads get = true
only_reads test = true
only_reads _ = false

refuses_write :
    (op : Operation) (read : Bool) → may_write op ≡ true → accepts op read false false ≡ false
unfolding accepts
refuses_write reset read h = refl
refuses_write noop_write read h = refl
refuses_write add read h = refl
refuses_write set read h = refl
refuses_write delete read h = refl
refuses_write increment read h = refl
refuses_write noop_read read h = cc
refuses_write get read h = cc
refuses_write test read h = cc
refuses_write unknown read h = cc

refuses_read :
    (op : Operation) (write : Bool) → only_reads op ≡ true → accepts op false write false ≡ false
unfolding accepts
refuses_read noop_read write h = refl
refuses_read get write h = refl
refuses_read test write h = refl
refuses_read reset write h = cc
refuses_read noop_write write h = cc
refuses_read add write h = cc
refuses_read set write h = cc
refuses_read delete write h = cc
refuses_read increment write h = cc
refuses_read unknown write h = cc

get_or-set_other {ℓ} :
    {A : Type ℓ} (xs : List A) (i j : ℕ) (v d : A)
    → i ≢ j
    → get_or (put_at xs i v) j d ≡ get_or xs j d
get_or-set_other [] i j v d h = refl
get_or-set_other (x ∷ xs) zero zero v d h = absurd (h refl)
get_or-set_other (x ∷ xs) zero (suc j) v d h = refl
get_or-set_other (x ∷ xs) (suc i) zero v d h = refl
get_or-set_other (x ∷ xs) (suc i) (suc j) v d h = get_or-set_other xs i j v d (λ e. h (ap suc e))

module _ (O : TableOps) (A : RequestAccessor) where
  is_accepted-refused :
      (lcore_id i q : ℕ) (p : Partitions O.Table) (r : A.Requests)
      → get_owner_lcore_id p q ≢ lcore_id
      → (((may_write (A.get_operation r i) ≡ true) × (p.concurrent_write ≡ false))
          ⊎ ((only_reads (A.get_operation r i) ≡ true) × (p.concurrent_read ≡ false)))
      → is_accepted O A lcore_id i q (p, r) ≡ false
  unfolding is_accepted
  is_accepted-refused lcore_id i q p r other (inl (kind, mode)) =
      let op = A.get_operation r i in
      ap (accepts op p.concurrent_read p.concurrent_write)
        (ne→== (get_owner_lcore_id p q) lcore_id other)
      ∙ ap (λ b. accepts op p.concurrent_read b false) mode
      ∙ refuses_write op p.concurrent_read kind
  is_accepted-refused lcore_id i q p r other (inr (kind, mode)) =
      let op = A.get_operation r i in
      ap (accepts op p.concurrent_read p.concurrent_write)
        (ne→== (get_owner_lcore_id p q) lcore_id other)
      ∙ ap (λ b. accepts op b p.concurrent_write false) mode
      ∙ refuses_read op p.concurrent_write kind

  -- A core that does not own the partition of a request cannot touch a table with it where the mode
  -- of the request is exclusive: a request that may write without concurrent writes, or one that
  -- reads without concurrent reads, is answered `kRejected` with no value and retired; all tables,
  -- the owners and the load counters stay as they are.
  pub handle_refused :
      (lcore_id i q : ℕ) (p : Partitions O.Table) (r : A.Requests)
      → get_owner_lcore_id p q ≢ lcore_id
      → (((may_write (A.get_operation r i) ≡ true) × (p.concurrent_write ≡ false))
          ⊎ ((only_reads (A.get_operation r i) ≡ true) × (p.concurrent_read ≡ false)))
      → (p' : Partitions O.Table) × (handle O A lcore_id i q (p, r)
          ≡ some (p', A.retire i (A.set_result i rejected (A.set_out_value_length i 0 r))))
        × (p'.tables ≡ p.tables)
        × (p'.owner_lcore_ids ≡ p.owner_lcore_ids)
        × (p'.load_stats ≡ p.load_stats)
  unfolding handle reject remember update_recent_key_hash
  handle_refused lcore_id i q p r other mode =
      let no_entry = is_accepted-refused lcore_id i q p r other mode in
      (
        update_recent_key_hash lcore_id (A.get_key_hash r i) p,
        rw no_entry refl,
        ground arith,
        ground arith,
        ground arith,
      )

  -- The tables of the other partitions.
  abbrev pub Elsewhere : ℕ → Partitions O.Table → World O A → Type 0
  Elsewhere q p w = (j : ℕ) → q ≢ j → get_or w.0.tables j none ≡ get_or p.tables j none

  finish-Elsewhere :
      (i q : ℕ) (p : Partitions O.Table) (o : Option (Done O A))
      → OptionAll (Elsewhere q p) (finish O A i q p o)
  unfolding finish
  finish-Elsewhere i q p none = tt
  finish-Elsewhere i q p (some (v, t, r)) = λ j h. get_or-set_other p.tables q j (some t) none h

  run_on-Elsewhere :
      (i q : ℕ) (owner : Bool) (p : Partitions O.Table) (r : A.Requests) (o : Option O.Table)
      → OptionAll (Elsewhere q p) (run_on O A i q owner (p, r) o)
  unfolding run_on
  run_on-Elsewhere i q owner p r none = tt
  run_on-Elsewhere i q owner p r (some t) = finish-Elsewhere i q p _

  remember-Elsewhere :
      (lcore_id key_hash q : ℕ) (p : Partitions O.Table) (o : Option (World O A))
      → OptionAll (Elsewhere q p) o
      → OptionAll (Elsewhere q p) (remember O A lcore_id key_hash o)
  unfolding remember update_recent_key_hash
  remember-Elsewhere lcore_id key_hash q p none h = tt
  remember-Elsewhere lcore_id key_hash q p (some (p', r)) h = λ j other. ground (arith, h j other)

  -- Whatever the table answers, a request that is no reset changes no table but that of its partition.
  pub handle-Elsewhere :
      (lcore_id i q : ℕ) (p : Partitions O.Table) (r : A.Requests)
      → is_reset O A (A.get_operation r i) ≡ false
      → OptionAll (Elsewhere q p) (handle O A lcore_id i q (p, r))
  unfolding handle reject run_accepted count_request
  handle-Elsewhere lcore_id i q p r one =
      remember-Elsewhere lcore_id (A.get_key_hash r i) q p _
        (elim (Bool-cases (is_accepted O A lcore_id i q (p, r))) [
          | inl ours ↦
              rw (ours, one)
                (run_on-Elsewhere i q _ (count_request lcore_id q p) r (get_or p.tables q none))
          | inr refused ↦ rw refused (λ j h. refl)
        ])

  prepend-none : (o : Option O.Table) → prepend o none ≡ none
  unfolding prepend
  prepend-none none = refl
  prepend-none (some t) = refl

  reset_tables-none :
      (l : List (Option O.Table)) (j : ℕ)
      → j < length l
      → get_or l j none ≡ none
      → reset_tables O A l ≡ none
  unfolding reset_tables
  reset_tables-none [] j inside h = absurd (omega arith)
  reset_tables-none (none ∷ l) j inside h = refl
  reset_tables-none (some t ∷ l) zero inside h = cc
  reset_tables-none (some t ∷ l) (suc j) inside h =
      ap (prepend (O.reset t)) (reset_tables-none l j (omega arith) h) ∙ prepend-none (O.reset t)

  -- A reset goes over the whole array of tables. Where a place of it holds no table, as behind
  -- `partition_count_` it does, a reset that is accepted runs into an unset pointer.
  pub handle-reset_unset :
      (lcore_id i q j : ℕ) (p : Partitions O.Table) (r : A.Requests)
      → A.get_operation r i ≡ reset
      → is_accepted O A lcore_id i q (p, r) ≡ true
      → j < length p.tables
      → get_or p.tables j none ≡ none
      → handle O A lcore_id i q (p, r) ≡ none
  unfolding handle run_accepted run_reset finish_reset remember count_request is_reset
  handle-reset_unset lcore_id i q j p r op ours inside unset =
      rw (ours, op, reset_tables-none p.tables j inside unset) refl
