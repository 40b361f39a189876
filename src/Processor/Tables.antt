-- ===== src/Processor/Tables.antt =====
-- `LTable` as the table of a processor (`Processor::Table`, mica2/src/mica/processor/partitions.h).
use enso_eval.Base.{none, some}
use enso_eval.LTable.Pool.{Pool}
use enso_eval.LTable.State.{Config}
use enso_eval.LTable.State
use enso_eval.LTable.Set
use enso_eval.LTable.Get
use enso_eval.LTable.Del
use enso_eval.LTable.Init
use enso_eval.Processor.Interface.{TableOps}

abbrev pub ltable : Pool → Config → TableOps
ltable P c = record {
  Table = State.Table P.State;
  reset = λ t. elim (Init.reset P c t) [ none ↦ none | some (u, t') ↦ some t' ];
  set = λ h key value overwrite t. Set.set P c h key value overwrite t;
  get = λ h key room mutation t. Get.get P c h key room mutation t;
  test = λ h key t. Get.test P c h key t;
  del = λ h key t. Del.del P c h key t;
  increment = λ h key amount t. Del.increment P c h key amount t;
}
