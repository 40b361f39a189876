-- ===== src/Datagram/Batch.antt =====
-- The memory that a sequence of `append_request` leaves (mica2/src/mica/datagram/datagram_protocol.h).
use enso_eval.Base.{ℕ, ◌+◌, ◌%◌, ◌^◌, ◌≤◌, ◌<◌, ◌≡◌, refl, ◌∙◌, List, [], ◌∷◌, length, arith}
use enso_eval.Datagram.Memory.{Memory}
use enso_eval.Datagram.Defs.{Request, Builder, put_request, append_request, append_all}
use enso_eval.Datagram.Frame.{IsSendable, behind}
use enso_eval.Datagram.Requests.{Carries, Agree-Carries, put_request-Carries, put_request-below}

abbrev pub AllSendable : List Request → Type 0
AllSendable [] = Unit
AllSendable (r ∷ rs) = IsSendable r × AllSendable rs

-- The end of a batch.
unfoldable pub batch_end : ℕ → List Request → ℕ
batch_end h [] = h
batch_end h (r ∷ rs) = batch_end (behind h r) rs

-- The requests stand one behind the other from `h` on.
abbrev pub Batch : Memory → ℕ → List Request → Type 0
Batch m h [] = Unit
Batch m h (r ∷ rs) = Carries m h r × Batch m (behind h r) rs

-- The memory that the appends leave, where one of them does `put`.
abbrev pub Put : Type 0
Put = Memory → ℕ → Request → Memory

unfoldable pub put_all : Put → Memory → ℕ → List Request → Memory
put_all put m h [] = m
put_all put m h (r ∷ rs) = put_all put (put m h r) (behind h r) rs

-- An append that keeps what is below it and leaves its request.
module _ (put : Put)
    (below : (m : Memory) (h : ℕ) (r : Request) (i : ℕ) → i < h → put m h r i ≡ m i)
    (carries : (m : Memory) (h : ℕ) (r : Request) → IsSendable r → Carries (put m h r) h r) where
  put_all-below :
      (m : Memory) (h : ℕ) (rs : List Request) (i : ℕ) → i < h → put_all put m h rs i ≡ m i
  unfolding put_all
  put_all-below m h [] i p = refl
  put_all-below m h (r ∷ rs) i p =
      put_all-below (put m h r) (behind h r) rs i (omega arith) ∙ below m h r i p

  pub put_all-carries :
      (m : Memory) (h : ℕ) (rs : List Request) → AllSendable rs → Batch (put_all put m h rs) h rs
  unfolding put_all
  put_all-carries m h [] fits = tt
  put_all-carries m h (r ∷ rs) (fits, more) =
      let m' = put m h r in
      (
        Agree-Carries m' (put_all put m' (behind h r) rs) h r fits
            (λ i p q. put_all-below m' (behind h r) rs i q) (carries m h r fits),
        put_all-carries m' (behind h r) rs more,
      )

pub put_all-Batch :
    (m : Memory) (h : ℕ) (rs : List Request)
    → AllSendable rs
    → Batch (put_all put_request m h rs) h rs
put_all-Batch = put_all-carries put_request put_request-below put_request-Carries

pub batch_end-le : (h : ℕ) (rs : List Request) → h ≤ batch_end h rs
unfolding batch_end
batch_end-le h [] = omega arith
batch_end-le h (r ∷ rs) = omega (arith, batch_end-le (behind h r) rs)

pub append_all-body :
    (b : Builder) (rs : List Request)
    → (append_all b rs).buf.body ≡ put_all put_request b.buf.body b.h rs
unfolding append_all append_request put_all
append_all-body b [] = refl
append_all-body b (r ∷ rs) = append_all-body (append_request b r) rs

pub append_all-h : (b : Builder) (rs : List Request) → (append_all b rs).h ≡ batch_end b.h rs
unfolding append_all append_request batch_end
append_all-h b [] = refl
append_all-h b (r ∷ rs) = append_all-h (append_request b r) rs

pub append_all-count :
    (b : Builder) (rs : List Request)
    → b.count < 2 ^ 16
    → (append_all b rs).count ≡ (b.count + length rs) % 2 ^ 16
unfolding append_all append_request
append_all-count b [] h = omega arith
append_all-count b (r ∷ rs) h = omega (arith, append_all-count (append_request b r) rs)
