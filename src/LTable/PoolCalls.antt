-- ===== src/LTable/PoolCalls.antt =====
-- The table's calls of its pool that only change the pool's state.
use enso_eval.Base.{ℕ, none, some}
use enso_eval.LTable.Pool.{Pool}
use enso_eval.LTable.State.{Config, M}

module _ (P : Pool) (c : Config) where
  open P use {
    State, circular, read, write, item_size, allocate, release, is_valid, get_tail, get_mask,
  }

  -- `pool_->lock()` and `pool_->unlock()`.
  unfoldable pub lock_pool : M State (Unit {0})
  lock_pool t = elim (P.lock t.pool) [ none ↦ none | some s ↦ some (tt, record t { pool = s }) ]

  unfoldable pub unlock_pool : M State (Unit {0})
  unlock_pool t = some (tt, record t { pool = P.unlock t.pool })

  unfoldable pub release_item : ℕ → M State (Unit {0})
  release_item o t = some (tt, record t { pool = release t.pool o })
