-- ===== src/Buckets.antt =====
-- A ring of per-second counters with a running sum: `counts`, `base` and `sum` of
-- limiter/sliding_window.go with its `advance`. breaker/breaker.go rolls two such rings together.
-- A second is a number of seconds since the epoch. The sums are Go `int`s that are subtracted from;
-- in a ring that tracks a history (Buckets/Tracks) no subtraction goes below zero.
use kit4go.Common.{ℕ, zero, suc, ◌+◌, ◌-◌, ◌%◌, List, [], ◌∷◌, leb, if◌then◌else◌, set, get_or}
pub mod Span
pub mod Tracks
pub mod History

pub record Ring : Type 0 where
  pub counts : List ℕ
  pub base : ℕ
  pub sum : ℕ

-- one round of the loop `for base < sec`; `n` is the number of slots
unfoldable pub round : ℕ → Ring → Ring
round n r =
    let i = (r.base + 1) % n in
    record { counts = set r.counts i 0; base = r.base + 1; sum = r.sum - get_or r.counts i 0 }

-- the loop, with the rounds that are left
unfoldable pub roll : ℕ → ℕ → Ring → Ring
unfolding round
roll n zero r = r
roll n (suc k) r = roll n k (round n r)

-- the loop `for i := range counts`: the cleared slots and the sum that is left
unfoldable pub clear_all : List ℕ → ℕ → List ℕ × ℕ
clear_all [] sum = ([], sum)
clear_all (c ∷ cs) sum = let (cs', sum') = clear_all cs (sum - c) in (0 ∷ cs', sum')

unfoldable pub advance : ℕ → ℕ → Ring → Ring
unfolding roll clear_all
advance n sec r =
    if leb sec r.base
    then r
    else if leb n (sec - r.base)
    then (let (cs, s) = clear_all r.counts r.sum in record r { counts = cs; sum = s; base = sec })
    else roll n (sec - r.base) r

-- `counts[sec % n] += k; sum += k`
unfoldable pub charge : ℕ → ℕ → ℕ → Ring → Ring
charge n sec k r = record r {
  counts = set r.counts (sec % n) (get_or r.counts (sec % n) 0 + k);
  sum = r.sum + k;
}
