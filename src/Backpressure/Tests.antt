-- ===== src/Backpressure/Tests.antt =====
-- A run of backpressure/backpressure.go, and its theorem at a concrete input.
use kit4go.Backpressure.{Pc, new, go_to, resume, Event, begin, act, run}
use kit4go.Backpressure.Bound.{AllIdle, MaximaWithin, in_flight_le}
use kit4go.Common.Int.{pos}
use kit4go.Common.{◌+◌, ◌≤◌, ◌≡◌, refl, List, [], ◌∷◌, arith}

-- two goroutines that race for one place
abbrev callers : List Pc
callers = Pc.idle ∷ Pc.idle ∷ []

abbrev race : List Event
race =
    Event.try_acquire 0
    ∷ Event.try_acquire 1
    ∷ Event.step 0
    ∷ Event.step 1
    ∷ Event.step 0
    ∷ Event.step 1
    ∷ Event.step 1
    ∷ Event.step 0
    ∷ Event.step 0
    ∷ Event.step 0
    ∷ Event.step 0
    ∷ []

one_wins : run race (new (pos 1) callers) ≡ record {
  max = 1;
  current = 1;
  rejected = 1;
  accepted = 1;
  released = 0;
  goroutines = callers;
}
unfolding run act begin resume go_to new
one_wins = refl

callers_idle : AllIdle callers
unfolding AllIdle
callers_idle = (refl, (refl, tt))

race_within : MaximaWithin 1 race
unfolding MaximaWithin
race_within = tt

in_flight_le_example :
    ((run race (new (pos 1) callers)).current + (run race (new (pos 1) callers)).released
      ≡ (run race (new (pos 1) callers)).accepted)
    × ((run race (new (pos 1) callers)).current ≤ 1)
in_flight_le_example = in_flight_le 1 (pos 1) callers race (omega arith) callers_idle race_within
