-- ===== src/Queue/Tests.antt =====
-- A queue that slides its elements to the front in the middle of a run of calls.
use kit4go.Queue.{new}
use kit4go.Queue.Calls.{Op, list_run}
use kit4go.Queue.Refine.{run, calls_lem}
use kit4go.Common.{ℕ, ◌≡◌, List, [], ◌∷◌}

abbrev calls : List (Op ℕ)
calls =
    Op.dequeue
    ∷ Op.enqueue 4
    ∷ Op.dequeue
    ∷ Op.dequeue
    ∷ Op.back
    ∷ Op.len
    ∷ Op.dequeue
    ∷ Op.dequeue
    ∷ Op.clear
    ∷ Op.to_slice
    ∷ []

calls_lem_example : run 0 calls (new (1 ∷ 2 ∷ 3 ∷ [])) ≡ list_run calls (1 ∷ 2 ∷ 3 ∷ [])
calls_lem_example = calls_lem 0 calls (1 ∷ 2 ∷ 3 ∷ [])
