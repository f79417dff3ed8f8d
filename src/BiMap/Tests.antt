-- ===== src/BiMap/Tests.antt =====
-- Tests of the bidirectional map.
use kit4go.BiMap.{BiMap, InsertError, new, get, get_key, insert, from_map, delete, delete_value}
use kit4go.BiMap.Pairing.{IsPairing, new-IsPairing}
use kit4go.BiMap.Runs.{Op, run, run-IsPairing}
use kit4go.Common.Assoc.{lookup, put}
use kit4go.Common.{ℕ, ◌≡◌, refl, inl, inr, none, List, [], ◌∷◌, ℕ_discrete}

abbrev two_pairs : BiMap ℕ ℕ
two_pairs = record { forward = (1, 10) ∷ (2, 20) ∷ []; reverse = (10, 1) ∷ (20, 2) ∷ [] }

from_two_pairs : from_map ℕ_discrete ℕ_discrete ((1, 10) ∷ (2, 20) ∷ []) ≡ inl two_pairs
unfolding from_map kit4go.BiMap.insert_all new insert lookup put ℕ_discrete
from_two_pairs = refl

from_shared_value :
    from_map ℕ_discrete ℕ_discrete ((1, 10) ∷ (2, 10) ∷ []) ≡ inr InsertError.duplicate_value
unfolding from_map kit4go.BiMap.insert_all new insert lookup put ℕ_discrete
from_shared_value = refl

abbrev ops : List (Op ℕ ℕ)
ops =
    Op.insert 1 10
    ∷ Op.insert 2 20
    ∷ Op.insert 3 10
    ∷ Op.delete_value 10
    ∷ Op.insert 3 10
    ∷ Op.delete 2
    ∷ []

run-IsPairing_example : IsPairing ℕ_discrete ℕ_discrete (run ℕ_discrete ℕ_discrete ops new)
run-IsPairing_example =
    run-IsPairing ℕ_discrete ℕ_discrete ops new (new-IsPairing ℕ_discrete ℕ_discrete)

inserted : (insert ℕ_discrete ℕ_discrete 3 30 two_pairs).1 ≡ none
unfolding insert lookup ℕ_discrete
inserted = refl
