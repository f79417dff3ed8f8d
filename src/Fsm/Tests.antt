-- ===== src/Fsm/Tests.antt =====
-- An order machine: 0 is new, 1 paid, 2 shipped; event 7 pays if the context says so, event 8 ships.
use kit4go.Fsm.{Rule, Machine, send}
use kit4go.Fsm.Reach.{Step, send-Step}
use kit4go.Common.{ℕ, Bool, true, false, none, some, List, [], ◌∷◌, ℕ_discrete}

abbrev order : List (Rule ℕ ℕ Bool ℕ)
order =
    record { source = 0; event = 7; guard = some (λ c. c); action = none; target = 1 }
    ∷ record { source = 1; event = 8; guard = none; action = some (λ c. none); target = 2 }
    ∷ []

abbrev machine : Machine ℕ ℕ Bool ℕ
machine = record {
  current = 0;
  rules = order;
  on_enter = λ s. false;
  on_exit = λ s. false;
  listeners = [];
}

send-Step_example :
    Step ℕ_discrete ℕ_discrete 7 true
      (λ m. m)
      machine
      (send ℕ_discrete ℕ_discrete 7 true (λ m. m) machine)
send-Step_example = send-Step ℕ_discrete ℕ_discrete 7 true (λ m. m) machine
