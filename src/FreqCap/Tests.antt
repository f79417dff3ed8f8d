-- ===== src/FreqCap/Tests.antt =====
-- Tests of the frequency cap.
use kit4go.FreqCap
use kit4go.FreqCap.{Counter}
use kit4go.FreqCap.Tracks.{empty_counter, logged}
use kit4go.FreqCap.Window.{recent}
use kit4go.FreqCap.Cap.{Call, run, step, cap_lem}
use kit4go.Common.Assoc.{lookup, erase_if, map_values, put}
use kit4go.Common.{ℕ, ◌≤◌, ◌≡◌, refl, List, [], ◌∷◌, arith, ℕ_discrete}

-- a maximum of two events in 10, for at most two keys
abbrev calls : List (Call ℕ)
calls =
    Call.allow 7 1
    ∷ Call.allow 7 4
    ∷ Call.allow 7 5
    ∷ Call.count 7 6
    ∷ Call.allow 9 7
    ∷ Call.allow 7 12
    ∷ []

abbrev after : List (Call ℕ) → Counter ℕ × List (ℕ × ℕ)
unfolding run step FreqCap.allow FreqCap.count
after xs = run ℕ_discrete xs (empty_counter 10 2 2, [])

allowed : (after calls).1 ≡ (7, 12) ∷ (9, 7) ∷ (7, 4) ∷ (7, 1) ∷ []
unfolding after lookup erase_if map_values put ℕ_discrete
allowed = refl

-- With a maximum of 3, the event at 14 is refused though only 5 and 9 are in its window: making room for key
-- 8 at 13 trimmed the events of key 7 in place and left 9 there twice.
abbrev crowded : Counter ℕ × List (ℕ × ℕ)
unfolding run step FreqCap.allow FreqCap.count
crowded =
    run ℕ_discrete
      (Call.allow 7 1 ∷ Call.allow 7 5 ∷ Call.allow 7 9 ∷ Call.allow 8 13 ∷ Call.allow 7 14 ∷ [])
      (empty_counter 10 3 0, [])

refused_early : crowded.1 ≡ (8, 13) ∷ (7, 9) ∷ (7, 5) ∷ (7, 1) ∷ []
unfolding crowded lookup erase_if map_values put ℕ_discrete
refused_early = refl

cap_lem_example :
    recent 10 13 (logged ℕ_discrete 7 (run ℕ_discrete calls (empty_counter 10 2 2, [])).1) ≤ 2
cap_lem_example =
    cap_lem ℕ_discrete 10 2 2 0 calls 7 13 (omega arith)
      (omega arith, (omega arith, (omega arith, (omega arith, (omega arith, (omega arith, tt))))))
      (omega arith)

abbrev one_key : Counter ℕ
one_key = record (empty_counter 10 2 1) { keys = (7, 4 ∷ []) ∷ [] }
