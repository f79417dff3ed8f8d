-- ===== src/RingBuffer/Fifo.antt =====
-- What ringbuffer/ringbuffer.go does, without its array and indices: a bounded first-in first-out list that can be
-- closed. Pop, TryPop and Drain hand out the items that are left after Close too; the comment of TryPop says that it
-- returns false then.
use kit4go.RingBuffer.{Status, done, refused, err_closed, waiting}
use kit4go.Common.{ℕ, Bool, true, List, [], ◌∷◌, ◌++◌, ◌==◌, if◌then◌else◌, length}

pub record Fifo {ℓ} (A : Type ℓ) : Type ℓ where
  pub items : List A
  pub limit : ℕ
  pub shut : Bool

-- One attempt of a call, in the order in which the lock admits them.
pub data Op {ℓ} (A : Type ℓ) : Type ℓ where
  push try_push : A → Op A
  pop try_pop drain close : Op A

-- The status of an attempt and the items that it hands out.
abbrev pub Reply {ℓ} : Type ℓ → Type ℓ
Reply A = Status × List A

module _ {ℓ} {A : Type ℓ} where
  -- `full` is the reply when there is no room and the list is open.
  unfoldable pub append_item : Status → Fifo A → A → Reply A × Fifo A
  append_item full q x =
      if q.shut
      then ((full, []), q)
      else if length q.items == q.limit
      then ((full, []), q)
      else ((done, []), record q { items = q.items ++ (x ∷ []) })

  unfoldable pub take_item : Status → List A → Fifo A → Reply A × Fifo A
  take_item none_left [] q = ((none_left, []), q)
  take_item none_left (x ∷ xs) q = ((done, x ∷ []), record q { items = xs })

  unfoldable pub step : Fifo A → Op A → Reply A × Fifo A
  unfolding append_item take_item
  step q (push x) = append_item (if q.shut then err_closed else waiting) q x
  step q (try_push x) = append_item refused q x
  step q pop = take_item (if q.shut then err_closed else waiting) q.items q
  step q try_pop = take_item refused q.items q
  step q drain = ((done, q.items), record q { items = [] })
  step q close = ((done, []), record q { shut = true })

  unfoldable pub run : Fifo A → List (Op A) → List (Reply A)
  run q [] = []
  run q (o ∷ os) = let (r, q') = step q o in r ∷ run q' os
