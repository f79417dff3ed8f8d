-- ===== src/Breaker/Machine/Schedule/Tests.antt =====
-- A breaker with one probe slot that trips on the first failure.
use kit4go.Buckets.History.{Charge}
use kit4go.Breaker.Options.{State, half_open, RateOps, second}
use kit4go.Breaker.Window.{fresh, record_window}
use kit4go.Breaker.Machine.{Breaker, reject, before_call, record_success, to_closed}
use kit4go.Breaker.Machine.Schedule.{Clocks, Action, idle, replied, rejected, failed, settle, act}
use kit4go.Common.Int.{pos}
use kit4go.Common.{ℕ, ◌*◌, ◌/◌, ◌≡◌, refl, true, false, List, [], ◌∷◌, ◌==◌}

-- the rate is never looked at: every failure is enough
abbrev ops : RateOps ℕ
ops = record {
  is_zero = λ r. r == 0;
  one_half = 1;
  non_positive = λ r. r == 0;
  reached = λ f t r. true;
}

abbrev breaker : State → Breaker ℕ
breaker st = record {
  opts = record {
    max_requests = 1;
    interval = pos second;
    open_duration = pos second;
    fail_rate = 1;
    min_requests = 1;
  };
  state = st;
  expiry = 0;
  window = fresh 1 5;
  half_open_success = 0;
  half_open_count = 1;
  half_open_gen = 4;
  total = 0;
  successes = 0;
  failures = 0;
  consec_fail = 0;
  events = [];
}

abbrev clocks : Clocks
clocks = record { at_record = 5 * second; at_window = 5 * second; at_trip = 5 * second }

-- a goroutine's call fails and trips the breaker; two others then race for the one slot
abbrev race : List (ℕ × Action)
race =
    (0, Action.call 0)
    ∷ (0, Action.start false clocks)
    ∷ (0, Action.finish failed clocks)
    ∷ (1, Action.call (9 * second))
    ∷ (2, Action.call (9 * second))
    ∷ (2, Action.lock (9 * second))
    ∷ (1, Action.lock (9 * second))
    ∷ []

abbrev one_call : List Charge
one_call = ((record_window false (5 * second / second) (fresh 1 5)).base, 1) ∷ []

turned_down : act ops idle (Action.call 0) (breaker half_open) ≡ (
  replied rejected,
  record (breaker half_open) { total = 1; events = (reject, half_open) ∷ [] },
)
unfolding act settle before_call record_success to_closed
turned_down = refl
