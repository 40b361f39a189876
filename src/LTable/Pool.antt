-- ===== src/LTable/Pool.antt =====
-- What the table asks of its pool (`StaticConfig::Pool`, mica2/src/mica/pool/pool.h): the type
-- parameter of `LTable` as a record of operations.
use enso_eval.Base.{ℕ, Bool, Option}

pub record Pool : Type 1 where
  pub State : Type 0
  -- whether `Pool::Tag` is `CircularLogTag`
  pub circular : Bool
  -- word `i` of `get_item(offset)`
  pub read : State → ℕ → ℕ → ℕ
  pub write : State → ℕ → ℕ → ℕ → State
  -- the length that `get_item(offset, out_len)` reports
  pub item_size : State → ℕ → ℕ
  -- `none` for `kInsufficientSpace`
  pub allocate : State → ℕ → Option (ℕ × State)
  pub release : State → ℕ → State
  -- `none` while the lock is taken
  pub lock : State → Option State
  pub unlock : State → State
  pub reset : State → State
  -- the three of `LTablePoolSpecialization` (ltable_impl/specialization.h)
  pub is_valid : State → ℕ → Bool
  pub get_tail : State → ℕ
  pub get_mask : State → ℕ
