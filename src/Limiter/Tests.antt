-- ===== src/Limiter/Tests.antt =====
-- The limiters on concrete schedules.
use kit4go.Limiter.{Ops, Poll, acquired, wait}
use kit4go.Limiter.SlidingWindow
use kit4go.Limiter.SlidingWindow.{SlidingWindow, Fraction, second}
use kit4go.Limiter.SlidingWindow.Rate
use kit4go.Limiter.SlidingWindow.Rate.{Call}
use kit4go.Limiter.Gcra
use kit4go.Limiter.Gcra.Conform.{cost_of, grants_conform}
use kit4go.Limiter.FixedWindow
use kit4go.Common.Int.{ℤ, pos, wrap_int64, ◌+ℤ◌, ◌-ℤ◌}
use kit4go.Common.{◌+◌, ◌*◌, ◌^◌, ◌≤◌, ◌≡◌, refl, false, List, [], ◌∷◌, ◌++◌, arith}

abbrev ops : Ops SlidingWindow
ops = record { allow = SlidingWindow.allow; is_closed = λ sw. sw.closed }

-- two tokens in two seconds
abbrev rate : Fraction
rate = record { num = 2; den = 1 }

abbrev two_seconds : ℤ
two_seconds = pos (2 * second)

sw : SlidingWindow
sw = SlidingWindow.new rate two_seconds (10 * second)

abbrev poll : (SlidingWindow → SlidingWindow) → Poll SlidingWindow
poll before = record {
  before = before;
  during = λ s. s;
  done_before = false;
  done_during = false;
  now = 10 * second;
}

granted_first :
    wait ops false (10 * second) [] sw ≡ (acquired, (SlidingWindow.allow (10 * second) sw).1)
unfolding wait SlidingWindow.allow SlidingWindow.acquire SlidingWindow.new sw
granted_first = refl

abbrev sliding_calls : List Call
sliding_calls =
    Call.try_acquire (pos 2) (10 * second)
    ∷ Call.allow (11 * second)
    ∷ Call.allow (12 * second)
    ∷ []

-- goroutines 1 and 2 race for the same token, and the one that loses its swap takes another
abbrev gcra_events : List Gcra.Event
gcra_events =
    Gcra.Event.call 1 (pos 1)
    ∷ Gcra.Event.call 2 (pos 1)
    ∷ Gcra.Event.act 1 100
    ∷ Gcra.Event.act 2 100
    ∷ Gcra.Event.act 1 0
    ∷ Gcra.Event.act 2 0
    ∷ Gcra.Event.act 2 100
    ∷ Gcra.Event.act 2 0
    ∷ []

two_granted :
    (Gcra.run (λ n. 10 * n) 20 gcra_events Gcra.new).grants ≡ (100, 1) ∷ [] ++ ((100, 1) ∷ [])
unfolding Gcra.run Gcra.step Gcra.new wrap_int64 ◌+ℤ◌ ◌-ℤ◌
two_granted = refl

-- One token per second and a burst of one: after a call of `Allow` the sum of `acquire` wraps for a cost near 2^63,
-- and the call is granted.
huge_cost_granted :
    (Gcra.run
      (λ n. 1_000_000_000 * n)
      1_000_000_000
      (Gcra.Event.call 1 (pos 1)
        ∷ Gcra.Event.act 1 (10 ^ 18)
        ∷ Gcra.Event.act 1 (10 ^ 18)
        ∷ Gcra.Event.call 1 (pos 9_223_372_036)
        ∷ Gcra.Event.act 1 (10 ^ 18)
        ∷ Gcra.Event.act 1 (10 ^ 18)
        ∷ [])
      Gcra.new).grants
    ≡ (10 ^ 18, 9_223_372_036) ∷ (10 ^ 18, 1) ∷ []
unfolding Gcra.run Gcra.step Gcra.new wrap_int64 ◌+ℤ◌ ◌-ℤ◌
huge_cost_granted = refl

grants_conform_example : 100 + 10 * 1 + cost_of (λ n. 10 * n) ((100, 1) ∷ []) ≤ 100 + 20
grants_conform_example =
    grants_conform (λ n. 10 * n) 20 gcra_events 100 1 100 1 [] [] (omega arith) (ground arith)
      two_granted
