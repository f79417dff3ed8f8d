-- ===== src/Limiter/SlidingWindow.antt =====
-- limiter/sliding_window.go. The mutex makes each `acquire` one step. `rate` is a float64: a fraction
-- stands for it, below 2^53: then the test `float64(sum) + float64(n) <= rate` decides as the exact one does, since
-- no sum that passes reaches 2^53, and one that does is not rounded below it. Larger rates are not modelled.
use kit4go.Buckets.{Ring, advance, charge}
use kit4go.Limiter.{Metrics, zero_metrics, count_allowed, count_denied, Ops, Poll, WaitResult, wait}
use kit4go.Common.Int.{ℤ, pos, negsuc}
use kit4go.Common.{
  ℕ, zero, suc, ◌+◌, ◌*◌, ◌/◌, max, Bool, true, false, List, ltb, leb, if◌then◌else◌, replicate,
}
pub mod Rate

pub record Fraction : Type 0 where
  pub num : ℕ
  pub den : ℕ

pub record SlidingWindow : Type 0 where
  pub rate : Fraction
  pub window_sec : ℕ
  pub ring : Ring
  pub metrics : Metrics
  pub closed : Bool

abbrev pub second : ℕ
second = 1_000_000_000

-- `newSlidingWindow`, with the window in nanoseconds and the clock at the call
unfoldable pub new : Fraction → ℤ → ℕ → SlidingWindow
new rate window now = record {
  rate = rate;
  window_sec = max 1 secs;
  ring = record { counts = replicate (max 1 secs) 0; base = now / second; sum = 0 };
  metrics = zero_metrics;
  closed = false;
}
  where
    secs : ℕ
    secs = elim window [ pos w ↦ w / second | negsuc w ↦ 0 ]

-- `float64(sw.sum) + float64(n) <= sw.rate`, for a rate below 2^53
abbrev pub fits : Fraction → ℕ → Bool
fits rate total = leb (total * rate.den) rate.num

-- `acquire(n)` at a clock reading
unfoldable pub acquire : ℕ → ℕ → SlidingWindow → Bool × SlidingWindow
unfolding advance charge count_allowed count_denied
acquire n now sw =
    let ring = advance sw.window_sec (now / second) sw.ring in
    let sec = (if ltb (now / second) ring.base then ring.base else now / second) in
    if fits sw.rate (ring.sum + n)
    then (
      true,
      record sw { ring = charge sw.window_sec sec n ring; metrics = count_allowed n sw.metrics },
    )
    else (false, record sw { ring = ring; metrics = count_denied sw.metrics })

unfoldable pub allow : ℕ → SlidingWindow → Bool × SlidingWindow
allow now sw = if sw.closed then (false, sw) else acquire 1 now sw

pub try_acquire : ℤ → ℕ → SlidingWindow → Bool × SlidingWindow
try_acquire (pos zero) now sw = (true, sw)
try_acquire (negsuc n) now sw = (true, sw)
try_acquire (pos (suc n)) now sw = if sw.closed then (false, sw) else acquire (suc n) now sw

unfoldable pub close : SlidingWindow → SlidingWindow
close sw = record sw { closed = true }

pub wait_for : Bool → ℕ → List (Poll SlidingWindow) → SlidingWindow → WaitResult × SlidingWindow
wait_for = wait (record { allow = allow; is_closed = λ sw. sw.closed })
