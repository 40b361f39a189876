-- ===== src/LTable/Steps.antt =====
-- Rules for runs in the table's monad, one statement at a time, and what its counters do.
use enso_eval.Base.{◌≡◌, Bool, true, false, Option, some, if◌then◌else◌, arith}
use enso_eval.LTable.State.{Config, Stats, Table, M, ◌>>=◌, ◌>>◌, stat}

pub step :
    {S A B : Type 0} (m : M S A) (f : A → M S B) {t t' : Table S} {a : A} {r : Option (B × Table S)}
    → m t ≡ some (a, t')
    → f a t' ≡ r
    → (m >>= f) t ≡ r
step m f e h = rw (◌>>=◌, e) h

pub then_step :
    {S A B : Type 0} (m : M S A) (k : M S B) {t t' : Table S} {a : A} {r : Option (B × Table S)}
    → m t ≡ some (a, t')
    → k t' ≡ r
    → (m >> k) t ≡ r
then_step m k e h = rw (◌>>◌, e) h

pub choose :
    {S A : Type 0} {t : Table S} (b : Bool) (m m' : M S A) {r r' : Option (A × Table S)}
    → m t ≡ r
    → m' t ≡ r'
    → (if b then m else m') t ≡ (if b then r else r')
choose true m m' e e' = e
choose false m m' e e' = e'

-- The table with its counters changed, where they are collected.
abbrev pub counted : {S : Type 0} → Config → Table S → (Stats → Stats) → Table S
counted c t f = if c.collect_stats then record t { stats = f t.stats } else t

pub stat-counted :
    {S : Type 0} (c : Config) (t : Table S) (f : Stats → Stats)
    → stat c f t ≡ some (tt, counted c t f)
unfolding stat
stat-counted c t f = ground arith
