-- ===== src/Queue/Calls.antt =====
-- The calls of a queue of queue/queue.go, and their answers on a list of its elements in order.
use kit4go.Common.{ℕ, Bool, Option, none, some, List, [], ◌∷◌, ◌++◌, ◌==◌, length}

-- a call, and the answer of one
pub data Op (A : Type 0) : Type 0 where
  enqueue : A → Op A
  dequeue front back len is_empty clear to_slice : Op A

pub data Reply (A : Type 0) : Type 0 where
  done : Reply A
  item : Option A → Reply A
  number : ℕ → Reply A
  test : Bool → Reply A
  slice : List A → Reply A

module _ {A : Type 0} where
  abbrev pub last : List A → Option A
  last [] = none
  last (x ∷ []) = some x
  last (x ∷ y ∷ ys) = last (y ∷ ys)

  -- the calls on a list
  unfoldable pub list_step : Op A → List A → Reply A × List A
  list_step (Op.enqueue v) xs = (done, xs ++ (v ∷ []))
  list_step Op.dequeue [] = (item none, [])
  list_step Op.dequeue (x ∷ xs) = (item (some x), xs)
  list_step Op.front [] = (item none, [])
  list_step Op.front (x ∷ xs) = (item (some x), x ∷ xs)
  list_step Op.back xs = (item (last xs), xs)
  list_step Op.len xs = (number (length xs), xs)
  list_step Op.is_empty xs = (test (length xs == 0), xs)
  list_step Op.clear xs = (done, [])
  list_step Op.to_slice xs = (slice xs, xs)

  unfoldable pub list_run : List (Op A) → List A → List (Reply A)
  unfolding list_step
  list_run [] xs = []
  list_run (o ∷ os) xs = let (r, xs') = list_step o xs in r ∷ list_run os xs'
