-- ===== src/ConsistentHash.antt =====
-- `consistenthash.Map[T]` of consistenthash/consistenthash.go. Strings are lists of bytes; the hash, which
-- the standard library or the caller provides, and `id` are fields. A node with its score is a pair. The
-- pool of scratch buffers only saves allocations: a score is the hash of the two strings joined.
use kit4go.Common.Words.{same_bytes}
use kit4go.Common.Int.{ℤ, pos_part}
use kit4go.Common.{
  ℕ, zero, suc, min, max, Bool, false, ◌||◌, Option, none, some, List, [], ◌∷◌, ◌++◌, map, ltb,
  ◌==◌, if◌then◌else◌, length, get_elem?, set, take,
}
pub mod Selection
pub mod Choice
pub mod Moves
mod Tests

pub record Map (T : Type 0) : Type 0 where
  pub id : T → List ℕ
  pub hash : List ℕ → ℕ
  pub nodes : List T

module _ {T : Type 0} where
  -- `containsLocked`
  unfoldable pub contains : (T → List ℕ) → List ℕ → List T → Bool
  unfolding same_bytes
  contains id i [] = false
  contains id i (n ∷ ns) = let rest = contains id i ns in same_bytes (id n) i || rest

  unfoldable pub append_dedup : (T → List ℕ) → List T → List T → List T
  unfolding contains
  append_dedup id [] nodes = nodes
  append_dedup id (n ∷ ns) nodes =
      append_dedup id ns (if contains id (id n) nodes then nodes else nodes ++ (n ∷ []))

  -- `New` with the hash that `WithHash` or the default gives and the nodes of `WithNodes`
  unfoldable pub new : (T → List ℕ) → (List ℕ → ℕ) → List T → Map T
  unfolding append_dedup
  new id hash ns = record { id = id; hash = hash; nodes = append_dedup id ns [] }

  unfoldable pub add : List T → Map T → Map T
  unfolding append_dedup
  add ns m = record m { nodes = append_dedup m.id ns m.nodes }

  -- the loop of `Remove`
  unfoldable pub drop_id : (T → List ℕ) → List ℕ → List T → List T
  unfolding same_bytes
  drop_id id target [] = []
  drop_id id target (n ∷ ns) =
      let rest = drop_id id target ns in if same_bytes (id n) target then rest else n ∷ rest

  unfoldable pub remove : T → Map T → Map T
  unfolding drop_id
  remove node m = record m { nodes = drop_id m.id (m.id node) m.nodes }

  unfoldable pub len : Map T → ℕ
  len m = length m.nodes

  unfoldable pub score_node : Map T → List ℕ → T → ℕ
  score_node m key node = m.hash (m.id node ++ key)

  -- one round of `Get`: the best node so far with its score, if `bestSet`
  unfoldable pub better : Option (T × ℕ) → T → ℕ → Option (T × ℕ)
  better none n score = some (n, score)
  better (some (best, best_score)) n score =
      if ltb best_score score then some (n, score) else some (best, best_score)

  unfoldable pub get_loop : (T → ℕ) → Option (T × ℕ) → List T → Option (T × ℕ)
  unfolding better
  get_loop score best [] = best
  get_loop score best (n ∷ ns) = get_loop score (better best n (score n)) ns

  unfoldable pub node_of : Option (T × ℕ) → Option T
  node_of none = none
  node_of (some e) = some e.0

  unfoldable pub get : List ℕ → Map T → Option T
  unfolding get_loop score_node node_of
  get key m = node_of (get_loop (score_node m key) none m.nodes)

  -- the inner loop of `GetN` from index `j` on: the index of the highest score, which is `top`
  unfoldable pub max_from : ℕ → ℕ → ℕ → List (T × ℕ) → ℕ
  max_from max top j [] = max
  max_from max top j (e ∷ es) =
      max_from (if ltb top e.1 then j else max) (if ltb top e.1 then e.1 else top) (suc j) es

  -- the swap of the first entry with the one at an index
  unfoldable pub swap_front : List (T × ℕ) → ℕ → List (T × ℕ)
  swap_front [] i = []
  swap_front (x ∷ xs) zero = x ∷ xs
  swap_front (x ∷ xs) (suc i) = elim (get_elem? xs i) [ none ↦ x ∷ xs | some y ↦ y ∷ set xs i x ]

  -- the outer loop of `GetN` on the entries from index `i` on
  unfoldable pub select : ℕ → List (T × ℕ) → List (T × ℕ)
  unfolding max_from swap_front
  select zero xs = xs
  select (suc n) [] = []
  select (suc n) (x ∷ xs) = elim (swap_front (x ∷ xs) (max_from 0 x.1 1 xs)) [
    | [] ↦ []
    | y ∷ ys ↦ y ∷ select n ys
  ]

  unfoldable pub scored : (T → ℕ) → List T → List (T × ℕ)
  scored score [] = []
  scored score (n ∷ ns) = (n, score n) ∷ scored score ns

  unfoldable pub get_n : List ℕ → ℤ → Map T → List T
  unfolding select scored score_node
  get_n key n m =
      let scores = scored (score_node m key) m.nodes in
      let n' = min (pos_part n) (length scores) in
      if pos_part n == 0 || length m.nodes == 0
      then []
      else map (λ e. e.0) (take n' (select n' scores))
