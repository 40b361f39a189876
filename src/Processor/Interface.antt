-- ===== src/Processor/Interface.antt =====
-- What a processor is given: the tables, and the accessor of the requests
-- (mica2/src/mica/processor/request_accessor.h, processor/types.h).
use enso_eval.Base.{ℕ, Bool, Option, List, [], ◌∷◌, get_or, set as put_at, ltb}
use enso_eval.LTable.State.{Result}

-- `processor::Operation`; `unknown` is a byte that is none of them.
pub data Operation : Type 0 where
  reset noop_read noop_write add set get test delete increment unknown : Operation

-- `Processor::Table`. A table waits for ever where an operation gives `none`. A `get` gives the
-- result, the bytes that it copies out and the length that it reports; an `increment` the result
-- and the new value.
pub record TableOps : Type 1 where
  pub Table : Type 0
  pub reset : Table → Option Table
  pub set : ℕ → List ℕ → List ℕ → Bool → Table → Option (Result × Table)
  pub get : ℕ → List ℕ → ℕ → Bool → Table → Option ((Result × List ℕ × ℕ) × Table)
  pub test : ℕ → List ℕ → Table → Option (Result × Table)
  pub del : ℕ → List ℕ → Table → Option (Result × Table)
  pub increment : ℕ → List ℕ → ℕ → Table → Option ((Result × ℕ) × Table)

-- `RequestAccessor`, with the state that its calls change. Keys and values are lists of words of 8
-- bytes; `write_out` stores bytes through the pointer of `get_out_value`.
pub record RequestAccessor : Type 1 where
  pub Requests : Type 0
  pub prepare : ℕ → Requests → Bool × Requests
  pub get_operation : Requests → ℕ → Operation
  pub get_key_hash : Requests → ℕ → ℕ
  pub get_key : Requests → ℕ → List ℕ
  pub get_value : Requests → ℕ → List ℕ
  pub get_value_length : Requests → ℕ → ℕ
  pub get_out_value_length : Requests → ℕ → ℕ
  pub write_out : ℕ → List ℕ → Requests → Requests
  pub set_out_value_length : ℕ → ℕ → Requests → Requests
  pub set_result : ℕ → Result → Requests → Requests
  pub retire : ℕ → Requests → Requests

-- `RequestArrayAccessor`: arrays that the caller gives.
pub record RequestArray : Type 0 where
  pub count : ℕ
  pub req_types : List Operation
  pub key_hashes : List ℕ
  pub keys : List (List ℕ)
  pub values : List (List ℕ)
  pub value_lengths : List ℕ
  pub out_results : List Result
  pub out_values : List (List ℕ)
  pub out_value_lengths : List ℕ

-- A buffer whose first bytes are replaced.
abbrev pub over : List ℕ → List ℕ → List ℕ
over [] old = old
over (b ∷ bs) [] = b ∷ over bs []
over (b ∷ bs) (x ∷ old) = b ∷ over bs old

abbrev pub array_accessor : RequestAccessor
array_accessor = record {
  Requests = RequestArray;
  prepare = λ i r. (ltb i r.count, r);
  get_operation = λ r i. get_or r.req_types i Operation.unknown;
  get_key_hash = λ r i. get_or r.key_hashes i 0;
  get_key = λ r i. get_or r.keys i [];
  get_value = λ r i. get_or r.values i [];
  get_value_length = λ r i. get_or r.value_lengths i 0;
  get_out_value_length = λ r i. get_or r.out_value_lengths i 0;
  write_out = λ i bs r. record r {
    out_values = put_at r.out_values i (over bs (get_or r.out_values i []));
  };
  set_out_value_length = λ i n r. record r { out_value_lengths = put_at r.out_value_lengths i n };
  set_result = λ i v r. record r { out_results = put_at r.out_results i v };
  retire = λ i r. r;
}
