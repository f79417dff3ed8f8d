-- ===== src/Breaker/Options.antt =====
-- breaker/options.go. Durations are int64 nanoseconds. `FailRate` is a float64: its type `R` and what
-- the code asks of it are parameters.
use kit4go.Common.Int.{ℤ, pos, negsuc, ltb_ℤ}
use kit4go.Common.{ℕ, zero, suc, ◌*◌, ◌/◌, Bool, true, false, ltb, ◌==◌, if◌then◌else◌}

pub data State : Type 0 where
  closed open_circuit half_open : State

pub data StateName : Type 0 where
  name_closed name_open name_half_open : StateName

-- `BreakerState.String`, on the three states
pub state_name : State → StateName
state_name closed = name_closed
state_name open_circuit = name_open
state_name half_open = name_half_open

-- `r == 0`, the constant 0.5, `r <= 0`, and `float64(f) / float64(t) >= r`
pub record RateOps (R : Type 0) : Type 0 where
  pub is_zero : R → Bool
  pub one_half : R
  pub non_positive : R → Bool
  pub reached : ℕ → ℕ → R → Bool

pub record Options (R : Type 0) : Type 0 where
  pub max_requests : ℕ
  pub interval : ℤ
  pub open_duration : ℤ
  pub fail_rate : R
  pub min_requests : ℕ

abbrev pub second : ℕ
second = 1_000_000_000

-- the whole seconds of a duration, as `int64(d.Seconds())` truncates them towards zero
abbrev pub whole_seconds : ℤ → ℕ
whole_seconds (pos d) = d / second
whole_seconds (negsuc d) = 0

abbrev pub non_positive_ℤ : ℤ → Bool
non_positive_ℤ (pos zero) = true
non_positive_ℤ (pos (suc d)) = false
non_positive_ℤ (negsuc d) = true

module _ {R : Type 0} (ops : RateOps R) where
  pub default_options : Options R
  default_options = record {
    max_requests = 5;
    interval = pos (60 * second);
    open_duration = pos (30 * second);
    fail_rate = ops.one_half;
    min_requests = 10;
  }

  -- the first half of `withDefaults`: zero fields are replaced
  pub fill_defaults : Options R → Options R
  unfolding default_options
  fill_defaults o =
      let d = default_options in
      record {
        max_requests = if o.max_requests == 0 then d.max_requests else o.max_requests;
        interval = if non_positive_ℤ o.interval then d.interval else o.interval;
        open_duration = if non_positive_ℤ o.open_duration then d.open_duration else o.open_duration;
        fail_rate = if ops.is_zero o.fail_rate then d.fail_rate else o.fail_rate;
        min_requests = if o.min_requests == 0 then d.min_requests else o.min_requests;
      }

  -- the second half: clamps, and an interval of whole seconds
  pub clamp_options : Options R → Options R
  unfolding default_options
  clamp_options o =
      let secs = whole_seconds o.interval in
      record o {
        max_requests = if ltb o.max_requests 1 then 1 else o.max_requests;
        min_requests = if ltb o.min_requests 1 then 1 else o.min_requests;
        interval = if ltb secs 1 then pos second else pos (secs * second);
        open_duration =
            if ltb_ℤ o.open_duration (pos 0)
            then default_options.open_duration
            else o.open_duration;
      }

  pub with_defaults : Options R → Options R
  unfolding fill_defaults clamp_options
  with_defaults o = clamp_options (fill_defaults o)
