-- ===== src/Breaker/Machine/Trip.antt =====
-- When breaker/breaker.go trips: the decision is taken on the calls and the failures of the trailing
-- window, and on nothing older.
use kit4go.Breaker.Options.{Options, RateOps, second}
use kit4go.Common.Words.{u32_mod}
use kit4go.Breaker.Window.{Window, advance, record_window}
use kit4go.Breaker.Machine.{Breaker}
use kit4go.Common.{ℕ, ◌/◌, ◌%◌, ◌≤◌, ◌<◌, ◌≡◌, ◌⊎◌, true, false}

module _ {R : Type 0} (ops : RateOps R) where
  -- the window after `recordFailure` in the closed state
  abbrev after_failure : ℕ → ℕ → Window → Window
  after_failure now now_window w =
      advance (now_window / second) (record_window false (now / second) w)

  -- what lets a breaker open: the calls, cut to a uint32, are not fewer than MinRequests, and there is a failure, where
  -- FailRate is not positive, or else the share of failures reaches FailRate
  pub MustTrip : Options R → ℕ → ℕ → Type 0
  MustTrip o calls fails =
      (o.min_requests ≤ calls % u32_mod)
      × (((ops.non_positive o.fail_rate ≡ true) × (0 < fails))
          ⊎ ((ops.non_positive o.fail_rate ≡ false) × (ops.reached fails calls o.fail_rate ≡ true)))
