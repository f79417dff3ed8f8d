-- ===== src/Limiter/FixedWindow/Bound.antt =====
-- What the fixed window keeps under every interleaving: `count` never passes `rate`.
use kit4go.Limiter.FixedWindow.{
  FixedWindow, count_with, Pc, idle, top, advancing, zeroing, counting, swapping, answered, Event,
}
use kit4go.Common.Int.{pos_part, neg_part}
use kit4go.Common.{ℕ, ◌^◌, ◌≤◌, ◌<◌, ◌≡◌, List, [], ◌∷◌}

-- The tokens that calls ask for in these proofs, and the rates, are below 2^62.
abbrev IsSmall : ℕ → Type 0
IsSmall n = n < 2 ^ 62

-- calls that ask for fewer tokens than that
abbrev pub SmallCalls : List Event → Type 0
SmallCalls [] = Unit
SmallCalls (Event.call i n now ∷ es) = (pos_part n < 2 ^ 62) × SmallCalls es
SmallCalls (Event.act i ∷ es) = SmallCalls es
SmallCalls (Event.close ∷ es) = SmallCalls es

-- A goroutine before its last swap has found room.
abbrev PcIsOk : ℕ → Pc → Type 0
PcIsOk rate idle = Unit
PcIsOk rate (top attempt n now) = IsSmall n
PcIsOk rate (advancing attempt n now start) = IsSmall n
PcIsOk rate (zeroing attempt n now) = IsSmall n
PcIsOk rate (counting attempt n now) = IsSmall n
PcIsOk rate (swapping attempt n now cur) =
    IsSmall n × (neg_part (count_with cur n) ≡ 0) × (pos_part (count_with cur n) ≤ rate)
PcIsOk rate (answered ok) = Unit

pub record IsBounded (rate : ℕ) (w : FixedWindow) : Type 0 where
  pub rate_kept : w.rate ≡ rate
  pub small : rate < 2 ^ 62
  pub whole : neg_part w.count ≡ 0
  pub count_in : pos_part w.count ≤ rate
  pub pcs_ok : (i : ℕ) → PcIsOk rate (w.pcs i)
