-- ===== src/CircularLog/Tests.antt =====
-- The circular log at concrete inputs.
use enso_eval.Base.{ℕ, ◌%◌, ◌^◌, ◌≡◌, refl, arith, true, some, ◌==◌, if◌then◌else◌}
use enso_eval.CircularLog.Defs.{Log, push_tail, allocate, item_size, write, is_valid}
use enso_eval.CircularLog.Bounds.{IsValid, done}
use enso_eval.CircularLog.Push.{Pushed, push_tail-total, allocate-Pushed}
use enso_eval.CircularLog.Integrity.{here, push, is_valid-intact, get_item_overruns}

abbrev fresh : Log
fresh = record {
  concurrent = true;
  concurrent_access_mode = 2;
  size = 64;
  mask = 63;
  lock = 0;
  head = 0;
  tail = 0;
  mem = λ a. 0;
}

fresh-IsValid : IsValid 6 fresh
fresh-IsValid = record {
  power = refl;
  small = omega arith;
  masked = refl;
  ordered = omega arith;
  fits = omega arith;
  items = done;
}

push_tail-total_example :
    (l' : Log) × (push_tail fresh 16 ≡ some (0 % 2 ^ 48, l')) × Pushed 6 16 fresh l'
push_tail-total_example =
    push_tail-total 6 16 fresh fresh-IsValid (omega arith) (omega arith) (omega arith)

-- Two items of sixteen bytes.
abbrev one : Log
one = record fresh { tail = 16; mem = λ a. if 0 == a then 16 else 0 }

abbrev two : Log
two = record one { tail = 32; mem = λ a. if 16 == a then 16 else if 0 == a then 16 else 0 }

allocate-one : allocate fresh 8 ≡ some (0, one)
unfolding allocate
allocate-one = refl

allocate-two : allocate one 8 ≡ some (16, two)
unfolding allocate
allocate-two = refl

get_item_overruns_example :
    (item_size two 0 ≡ 16)
    × (item_size two 16 ≡ 16)
    × ((v : ℕ) → item_size (write two 0 1 v) 16 ≡ v)
get_item_overruns_example =
    get_item_overruns 1 8 fresh fresh-IsValid (omega arith) (omega arith) allocate-one allocate-two

one-Pushed : Pushed 6 16 fresh one
one-Pushed = (allocate-Pushed 6 8 fresh fresh-IsValid (omega arith) (omega arith) allocate-one).1

two-Pushed : Pushed 6 16 one two
two-Pushed = (allocate-Pushed 6 8 one one-Pushed.valid (omega arith) (omega arith) allocate-two).1

is_valid-two : is_valid two 0 ≡ true
unfolding is_valid
is_valid-two = refl

is_valid-intact_example : two.mem (8 % 64) ≡ one.mem (8 % 64)
is_valid-intact_example =
    is_valid-intact 0 16 one two (push 16 here (omega arith) two-Pushed) (omega arith) (omega arith)
      (omega arith) is_valid-two 8 (omega arith) (omega arith)
