-- ===== src/Breaker/Window.antt =====
-- The sliding window of breaker/breaker.go: two rings of per-second buckets, of all calls and of
-- failures, that `advance` rolls in lockstep. The sums are Go `int`s; in a window that holds a history
-- (Breaker/Window/History) no subtraction goes below zero.
use kit4go.Common.{
  ℕ, zero, suc, ◌+◌, ◌-◌, ◌%◌, Bool, List, [], ◌∷◌, ltb, leb, if◌then◌else◌, length, set, get_or,
  replicate,
}
pub mod History

pub record Window : Type 0 where
  pub counts : List ℕ
  pub fails : List ℕ
  pub base : ℕ
  pub sum_total : ℕ
  pub sum_fail : ℕ

-- one round of the loop `for b.base < sec`
unfoldable pub round : ℕ → Window → Window
round n w =
    let i = (w.base + 1) % n in
    record {
      counts = set w.counts i 0;
      fails = set w.fails i 0;
      base = w.base + 1;
      sum_total = w.sum_total - get_or w.counts i 0;
      sum_fail = w.sum_fail - get_or w.fails i 0;
    }

-- the loop, with the rounds that are left
unfoldable pub roll : ℕ → ℕ → Window → Window
unfolding round
roll n zero w = w
roll n (suc k) w = roll n k (round n w)

-- the loop `for i := range b.counts`; the two rings are equally long
unfoldable pub clear_both : List ℕ → List ℕ → ℕ → ℕ → List ℕ × List ℕ × ℕ × ℕ
clear_both [] fs total fail = ([], fs, total, fail)
clear_both (c ∷ cs) [] total fail = (c ∷ cs, [], total, fail)
clear_both (c ∷ cs) (f ∷ fs) total fail =
    let (cs', fs', total', fail') = clear_both cs fs (total - c) (fail - f) in
    (0 ∷ cs', 0 ∷ fs', total', fail')

unfoldable pub advance : ℕ → Window → Window
unfolding roll clear_both
advance sec w =
    let n = length w.counts in
    if leb sec w.base
    then w
    else if leb n (sec - w.base)
    then (let (cs, fs, total, fail) = clear_both w.counts w.fails w.sum_total w.sum_fail in
        record { counts = cs; fails = fs; base = sec; sum_total = total; sum_fail = fail })
    else roll n (sec - w.base) w

-- `counts[i]++; sumTotal++`, and the same of the failures unless the call succeeded
unfoldable pub record_at : ℕ → Bool → Window → Window
record_at i success w = record {
  counts = set w.counts i (get_or w.counts i 0 + 1);
  fails = if success then w.fails else set w.fails i (get_or w.fails i 0 + 1);
  base = w.base;
  sum_total = w.sum_total + 1;
  sum_fail = if success then w.sum_fail else w.sum_fail + 1;
}

-- `recordWindow(success)` at the second that the clock shows
unfoldable pub record_window : Bool → ℕ → Window → Window
unfolding advance record_at
record_window success now_sec w =
    let w' = advance now_sec w in
    let sec = (if ltb now_sec w'.base then w'.base else now_sec) in
    record_at (sec % length w'.counts) success w'

-- the window of a new breaker, and the one that `toClosed` leaves
unfoldable pub fresh : ℕ → ℕ → Window
fresh n now_sec = record {
  counts = replicate n 0;
  fails = replicate n 0;
  base = now_sec;
  sum_total = 0;
  sum_fail = 0;
}
