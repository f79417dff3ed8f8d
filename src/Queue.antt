-- ===== src/Queue.antt =====
-- `queue.Queue` of queue/queue.go: a slice and the index of its front. `z` is the zero value that
-- `Dequeue` leaves in the slot. The capacity of the slice, which only `append` sees, is not modelled.
use kit4go.Common.{
  ℕ, suc, ◌-◌, ◌/◌, Bool, Option, none, some, List, [], ◌∷◌, ◌++◌, ltb, leb, if◌then◌else◌, length,
  set, get_or, drop,
}
mod Tests
pub mod Calls
pub mod Refine

pub record Queue (A : Type 0) : Type 0 where
  pub items : List A
  pub head : ℕ

module _ {A : Type 0} where
  unfoldable pub new : List A → Queue A
  new vals = record { items = vals; head = 0 }

  unfoldable pub enqueue : A → Queue A → Queue A
  enqueue v q = record q { items = q.items ++ (v ∷ []) }

  -- the slide of the elements to the front, once more than half of the slice is in front of them
  unfoldable pub compact : Queue A → Queue A
  compact q =
      if ltb (length q.items / 2) q.head
      then record { items = drop q.head q.items; head = 0 }
      else q

  -- `none` is `ok` false
  unfoldable pub dequeue : A → Queue A → Option A × Queue A
  unfolding compact
  dequeue z q = if leb (length q.items) q.head then (none, q) else (
    some (get_or q.items q.head z),
    compact (record { items = set q.items q.head z; head = suc q.head }),
  )

  unfoldable pub front : A → Queue A → Option A
  front z q = if leb (length q.items) q.head then none else some (get_or q.items q.head z)

  unfoldable pub back : A → Queue A → Option A
  back z q =
      if leb (length q.items) q.head then none else some (get_or q.items (length q.items - 1) z)

  unfoldable pub len : Queue A → ℕ
  len q = length q.items - q.head

  unfoldable pub is_empty : Queue A → Bool
  is_empty q = leb (length q.items) q.head

  unfoldable pub clear : Queue A → Queue A
  clear q = record { items = []; head = 0 }

  unfoldable pub to_slice : Queue A → List A
  to_slice q = drop q.head q.items
