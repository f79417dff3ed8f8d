-- ===== src/Semaphore/Tests.antt =====
-- Tests of the semaphore.
use kit4go.Semaphore.{
  Pc, Semaphore, Action, Event, idle_goroutine, new, put_goroutine, take_token, start_release,
  send_token, act_on, act, run,
}
use kit4go.Semaphore.Permits.{all_held, permits_le_capacity}
use kit4go.Common.Int.{pos}
use kit4go.Common.{ℕ, ◌≤◌, ◌<◌, ◌≡◌, refl, false, some, List, [], ◌∷◌, arith, get_elem?}

-- three permits and three goroutines
abbrev three : Semaphore
three = record {
  capacity = 3;
  tokens = 3;
  closed = false;
  locked = false;
  panicked = false;
  goroutines = idle_goroutine ∷ idle_goroutine ∷ idle_goroutine ∷ [];
}

made : new (pos 3) (idle_goroutine ∷ idle_goroutine ∷ idle_goroutine ∷ []) ≡ some three
unfolding new
made = refl

-- one permit, a take of two beside it, a wait for two that wakes too early, and releases
abbrev events : List Event
events =
    Event.step 0 Action.receive
    ∷ Event.step 1 (Action.weigh 2)
    ∷ Event.step 1 Action.resume
    ∷ Event.step 2 Action.weigh_wake
    ∷ Event.step 0 (Action.release 1)
    ∷ Event.step 0 Action.resume
    ∷ Event.step 0 Action.resume
    ∷ Event.step 1 Action.resume
    ∷ Event.step 2 Action.resume
    ∷ Event.step 1 Action.resume
    ∷ Event.step 1 (Action.release 2)
    ∷ Event.step 1 Action.resume
    ∷ Event.close
    ∷ Event.step 1 Action.resume
    ∷ []

after_events : (run events three).tokens ≡ 3
unfolding run act act_on take_token start_release send_token put_goroutine
after_events = refl

permits_le_capacity_example :
    (all_held (run events three).goroutines ≤ 3)
    × ((run events three).panicked ≡ false)
    × ((i : ℕ) (held : ℕ)
        → get_elem? (run events three).goroutines i
          ≡ some (record { pc = Pc.put_back; held = held })
        → (run events three).tokens < 3)
permits_le_capacity_example =
    permits_le_capacity {size = 3} events three
      (record { sized = refl; conserved = omega arith; calm = refl })
