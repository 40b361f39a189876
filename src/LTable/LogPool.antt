-- ===== src/LTable/LogPool.antt =====
-- The circular log as the pool of a table: `BasicLossyLTableConfig::Pool` (ltable.h).
use enso_eval.Base.{true}
use enso_eval.CircularLog
use enso_eval.CircularLog.{Log}
use enso_eval.LTable.Pool.{Pool}

abbrev pub log_pool : Pool
log_pool = record {
  State = Log;
  circular = true;
  read = CircularLog.read;
  write = CircularLog.write;
  item_size = CircularLog.item_size;
  allocate = CircularLog.allocate;
  release = CircularLog.release;
  lock = CircularLog.lock;
  unlock = CircularLog.unlock;
  reset = CircularLog.reset;
  is_valid = CircularLog.is_valid;
  get_tail = CircularLog.get_tail;
  get_mask = CircularLog.get_mask;
}
