-- ===== src/LoadBalance.antt =====
-- `loadbalance.Balancer[T]` of loadbalance/loadbalance.go. `id` names a value by something that can be
-- compared, a string in the source. The number that `rand.IntN` returns is an argument. Weights are
-- positive once `addLocked` has clamped them. Current weights are ints and wrap at 64 bits; the sum of the weights
-- is exact, which is the code's below 2^63.
use mathlib.Core.Logic.{ite}
use kit4go.Common.Int.{ℤ, pos, negsuc, ltb_ℤ, wrap_int64, ◌+ℤ◌, ◌-ℤ◌}
use kit4go.Common.{
  ℕ, zero, suc, ◌+◌, ◌-◌, Option, none, some, List, [], ◌∷◌, ◌++◌, ltb, leb, ◌==◌, if◌then◌else◌,
  length, get_elem?,
}
pub mod Weights
pub mod Picks
pub mod Rounds
pub mod Fair
mod Tests

pub data Strategy : Type 0 where
  smooth_weighted_rr round_robin random weighted_random : Strategy

pub record Entry (V : Type 0) : Type 0 where
  pub value : V
  pub weight : ℕ
  pub current_weight : ℤ

pub record Balancer (V : Type 0) : Type 0 where
  pub entries : List (Entry V)
  pub total_weight : ℕ
  pub rr_idx : ℕ
  pub strategy : Strategy

-- the weight that `addLocked` uses for one that is not positive
unfoldable pub clamp_weight : ℤ → ℕ
clamp_weight (pos zero) = 1
clamp_weight (pos (suc w)) = suc w
clamp_weight (negsuc w) = 1

-- `best == nil || e.currentWeight > best.currentWeight`, where an entry is its index and its weight
unfoldable pub better : Option (ℕ × ℤ) → ℕ → ℤ → Option (ℕ × ℤ)
better none i raised = some (i, raised)
better (some (j, top)) i raised = if ltb_ℤ top raised then some (i, raised) else some (j, top)

module _ {V : Type 0} where
  -- the loop of `nextSWRR` from index `i` on: `best` is the index and the current weight of the best
  -- entry so far
  unfoldable pub raise_loop : Option (ℕ × ℤ) → ℕ → List (Entry V) → List (Entry V) × Option (ℕ × ℤ)
  unfolding better
  raise_loop best i [] = ([], best)
  raise_loop best i (e ∷ es) =
      let raised = wrap_int64 (e.current_weight +ℤ pos e.weight) in
      let (es', best') = raise_loop (better best i raised) (suc i) es in
      (record e { current_weight = raised } ∷ es', best')

  -- `best.currentWeight -= b.totalWeight`
  unfoldable pub lower : ℕ → ℕ → List (Entry V) → List (Entry V)
  lower total i [] = []
  lower total zero (e ∷ es) =
      record e { current_weight = wrap_int64 (e.current_weight -ℤ pos total) } ∷ es
  lower total (suc i) (e ∷ es) = e ∷ lower total i es

  -- `nextSWRR`: the index of the entry that it returns
  unfoldable pub next_swrr : Balancer V → Option ℕ × Balancer V
  unfolding raise_loop lower
  next_swrr b =
      let (raised, best) = raise_loop none 0 b.entries in
      elim best [
        | none ↦ (none, b)
        | some (i, top) ↦ (some i, record b { entries = lower b.total_weight i raised })
      ]

  unfoldable pub next_round_robin : Balancer V → Option ℕ × Balancer V
  next_round_robin b =
      let i = if leb (length b.entries) b.rr_idx then 0 else b.rr_idx in
      (some i, record b { rr_idx = suc i })

  -- the loop of `nextWeightedRandom`, with the last index where the loop falls through
  unfoldable pub weighted_index : ℕ → ℕ → ℕ → ℕ → List (Entry V) → ℕ
  weighted_index last r cum i [] = last
  weighted_index last r cum i (e ∷ es) =
      let rest = weighted_index last r (cum + e.weight) (suc i) es in
      if ltb r (cum + e.weight) then i else rest

  -- `Next`, with the index in place of the value; `r` is what `rand.IntN` returns
  unfoldable pub next : ℕ → Balancer V → Option ℕ × Balancer V
  unfolding next_swrr next_round_robin weighted_index
  next r b = if length b.entries == 0 then (none, b) else (elim b.strategy [
    | round_robin ↦ next_round_robin b
    | random ↦ (some r, b)
    | weighted_random ↦ (some (weighted_index (length b.entries - 1) r 0 0 b.entries), b)
    | smooth_weighted_rr ↦ next_swrr b
  ])

  -- the value at the index that `Next` found
  unfoldable pub next_value : ℕ → Balancer V → Option V × Balancer V
  unfolding next
  next_value r b =
      let (found, b') = next r b in
      (
        elim found [
          | none ↦ none
          | some i ↦ elim (get_elem? b.entries i) [ none ↦ none | some e ↦ some e.value ]
        ],
        b',
      )

module _ {V I : Type 0} (id : V → I) (dec : Discrete I) where
  -- the loop of `addLocked`: the entries with a new weight for the value's id, and the old weight
  unfoldable pub reweigh : V → ℕ → List (Entry V) → Option (ℕ × List (Entry V))
  reweigh v w [] = none
  reweigh v w (e ∷ es) =
      let rest = reweigh v w es in
      ite (dec (id e.value) (id v))
        (some (e.weight, record e { weight = w; current_weight = pos 0 } ∷ es))
        (elim rest [ none ↦ none | some (old, es') ↦ some (old, e ∷ es') ])

  unfoldable pub add : V → ℤ → Balancer V → Balancer V
  unfolding reweigh clamp_weight
  add v weight b =
      let w = clamp_weight weight in
      elim (reweigh v w b.entries) [
        | some (old, es) ↦ record b { entries = es; total_weight = b.total_weight - old + w }
        | none ↦ record b {
          entries = b.entries ++ (record { value = v; weight = w; current_weight = pos 0 } ∷ []);
          total_weight = b.total_weight + w;
        }
      ]

  -- the loop of `New`
  unfoldable pub add_all : List (V × ℤ) → Balancer V → Balancer V
  unfolding add
  add_all [] b = b
  add_all ((v, w) ∷ vs) b = add_all vs (add v w b)

  unfoldable pub new : Strategy → List (V × ℤ) → Balancer V
  unfolding add_all
  new strategy vs =
      add_all vs (record { entries = []; total_weight = 0; rr_idx = 0; strategy = strategy })

  -- the loop of `Remove`
  unfoldable pub remove_loop : I → List (Entry V) → ℕ → List (Entry V) × ℕ
  remove_loop target [] total = ([], total)
  remove_loop target (e ∷ es) total =
      let dropped = remove_loop target es (total - e.weight) in
      let kept = remove_loop target es total in
      ite (dec (id e.value) target) dropped (e ∷ kept.0, kept.1)

  unfoldable pub remove : V → Balancer V → Balancer V
  unfolding remove_loop
  remove v b =
      let (es, total) = remove_loop (id v) b.entries b.total_weight in
      record b { entries = es; total_weight = total }
