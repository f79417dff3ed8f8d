-- ===== src/ConsistentHash/Tests.antt =====
-- Runs of consistenthash/consistenthash.go, and its theorems at concrete inputs.
use kit4go.ConsistentHash.{
  Map, new, add, remove, get, get_n, append_dedup, contains, score_node, get_loop, better, node_of,
  select, scored, swap_front, max_from,
}
use kit4go.ConsistentHash.Choice.{get_n_lem, get_n-get, Ranked}
use kit4go.ConsistentHash.Moves.{get-changes_little}
use kit4go.Common.Int.{pos}
use kit4go.Common.Words.{same_bytes}
use kit4go.Common.{
  ℕ, ◌+◌, ◌*◌, ◌%◌, ◌≡◌, refl, ap, ◌⊎◌, some, List, [], ◌∷◌, arith, get_elem?, get_or,
}

-- a hash by position, which gives node 3 the highest score of the key below
abbrev hash : List ℕ → ℕ
hash [] = 0
hash (b ∷ bs) = (3 * b + 2 * hash bs) % 11

abbrev id : ℕ → List ℕ
id n = n ∷ []

abbrev shards : Map ℕ
shards = record { id = id; hash = hash; nodes = 1 ∷ 2 ∷ 3 ∷ [] }

abbrev user_key : List ℕ
user_key = 5 ∷ []

new_twice : new id hash (1 ∷ 2 ∷ 1 ∷ 3 ∷ []) ≡ shards
unfolding new append_dedup contains same_bytes
new_twice = refl

get_user : get user_key shards ≡ some 3
unfolding get score_node get_loop better node_of
get_user = refl

get_two : get_n user_key (pos 2) shards ≡ 3 ∷ 2 ∷ []
unfolding get_n select scored swap_front max_from score_node
get_two = refl

get_n_lem_example : (chosen rest : List (ℕ × ℕ)) × Ranked user_key (pos 2) shards chosen rest
get_n_lem_example = get_n_lem user_key (pos 2) shards

get_n-get_example : get_elem? (get_n user_key (pos 2) shards) 0 ≡ get user_key shards
get_n-get_example = get_n-get user_key 1 shards

three_apart : ¬ Path ℕ 3 2
three_apart e = omega arith

get-changes_little_example :
    (get user_key (remove 2 shards) ≡ some 3)
    × ((get user_key (add (4 ∷ []) shards) ≡ some 3)
        ⊎ ((i : ℕ) × (x : ℕ) × (get_elem? (4 ∷ []) i ≡ some x)
            × (get user_key (add (4 ∷ []) shards) ≡ some x)))
get-changes_little_example =
    get-changes_little user_key 3 2 (4 ∷ []) shards get_user
      (λ e. three_apart (ap (λ (bs : List ℕ). get_or bs 0 0) e))
