-- ===== src/Queue/Tests.antt =====
-- The queues at concrete inputs: a ring of four places whose tail has wrapped.
use enso_eval.Base.{
  ℕ, suc, ◌≡◌, ◌≢◌, ◌⊎◌, refl, arith, [], ◌∷◌, ◌++◌, length, true, false, none, some,
}
use enso_eval.Queue.{
  Queue, SingleThreadedQueue, enqueue, dequeue, approximate_size, full, empty, size, head_item,
  pop_head, put_tail, push_tail,
}
use enso_eval.Queue.Ring.{IsRing, span}
use enso_eval.Queue.Fifo.{held, IsQueue, enqueue-appends, dequeue-takes, approximate_size-held}
use enso_eval.Queue.Single.{stored, IsSingle, push_tail-appends, pop_head-takes}

abbrev wrapped : Queue ℕ
wrapped = record { head_lock = 0; head = 3; tail_lock = 0; tail = 1; items = 8 ∷ 9 ∷ 9 ∷ 7 ∷ [] }

abbrev single : SingleThreadedQueue ℕ
single = record { head = 3; tail = 1; items = 8 ∷ 9 ∷ 9 ∷ 7 ∷ [] }

wrapped-IsRing : IsRing 4 3 1 4
wrapped-IsRing = record {
  narrow = omega arith;
  some_place = omega arith;
  head_inside = omega arith;
  tail_inside = omega arith;
  as_big = refl;
}

wrapped_items : held 4 0 wrapped ≡ 7 ∷ 8 ∷ []
unfolding span
wrapped_items = refl

enqueue-appends_example :
    ((suc (length (held 4 0 wrapped)) ≡ 4)
      × (enqueue 4 0 true true wrapped 5 ≡ some (false, wrapped)))
    ⊎ ((q' : Queue ℕ) × (enqueue 4 0 true true wrapped 5 ≡ some (true, q'))
        × IsQueue 4 0 q'
        × (suc (length (held 4 0 wrapped)) ≢ 4)
        × (held 4 0 q' ≡ held 4 0 wrapped ++ 5 ∷ []))
enqueue-appends_example = enqueue-appends 4 0 true true wrapped 5 wrapped-IsRing refl

dequeue-takes_example :
    ((held 4 0 wrapped ≡ []) × (dequeue 4 0 true true wrapped ≡ some (none, wrapped)))
    ⊎ ((v : ℕ) × (q' : Queue ℕ) × (dequeue 4 0 true true wrapped ≡ some (some v, q'))
        × IsQueue 4 0 q'
        × (held 4 0 wrapped ≡ v ∷ held 4 0 q'))
dequeue-takes_example = dequeue-takes 4 0 true true wrapped wrapped-IsRing refl

approximate_size-held_example : approximate_size 4 0 true true wrapped ≡ length (held 4 0 wrapped)
approximate_size-held_example = approximate_size-held 4 0 true true wrapped wrapped-IsRing

push_tail-appends_example :
    ((full 4 0 single ≡ true) × (suc (length (stored 4 0 single)) ≡ 4))
    ⊎ let q' = push_tail 4 0 (put_tail 4 0 single 5) in
      (full 4 0 single ≡ false)
      × (suc (length (stored 4 0 single)) ≢ 4)
      × IsSingle 4 0 q'
      × (stored 4 0 q' ≡ stored 4 0 single ++ 5 ∷ [])
push_tail-appends_example = push_tail-appends 4 0 single 5 wrapped-IsRing

pop_head-takes_example :
    (size 4 0 single ≡ length (stored 4 0 single))
    × (((empty 4 0 single ≡ true) × (stored 4 0 single ≡ []))
        ⊎ ((empty 4 0 single ≡ false)
            × IsSingle 4 0 (pop_head 4 0 single)
            × (stored 4 0 single ≡ head_item 4 0 single ∷ stored 4 0 (pop_head 4 0 single))))
pop_head-takes_example = pop_head-takes 4 0 single wrapped-IsRing
