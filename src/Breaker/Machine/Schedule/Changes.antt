-- ===== src/Breaker/Machine/Schedule/Changes.antt =====
-- What the machine of breaker/breaker.go promises of its states and its probe slots.
use kit4go.Common.Words.{add64}
use kit4go.Breaker.Options.{State, closed, open_circuit, half_open, RateOps}
use kit4go.Breaker.Machine.{
  Breaker, reject, Admission, admit, turned_away, contend, take_slot, before_call,
  to_half_open_or_reject, record_success, record_failure,
}
use kit4go.Breaker.Machine.Schedule.{
  Pc, idle, locking, admitted, running, replied, Action, rejected, Outcome, returned, failed,
  panicked, Clocks, act, settle, start_call, finish_call,
}
use kit4go.Common.{ℕ, ◌≡◌, refl, ◌≢◌, Bool, true, false, ◌∷◌, arith}

-- The changes of state that the breaker may make: from closed to open, from open to half open, and
-- from half open to either of the others.
abbrev pub may_change : State → State → Bool
may_change closed half_open = false
may_change open_circuit closed = false
may_change _ _ = true

may_stay : (s : State) → may_change s s ≡ true
may_stay closed = refl
may_stay open_circuit = refl
may_stay half_open = refl

module _ {R : Type 0} (ops : RateOps R) where
  take_slot-state : (b : Breaker R) → (take_slot b).1.state ≡ b.state
  unfolding take_slot
  take_slot-state b = ground arith

  before_call-state : (now : ℕ) (b : Breaker R) → (before_call now b).1.state ≡ b.state
  unfolding before_call
  before_call-state now b = ground arith

  lock-may_change :
      (now : ℕ) (b : Breaker R) → may_change b.state (to_half_open_or_reject now b).1.state ≡ true
  unfolding to_half_open_or_reject
  lock-may_change now b = ground arith

  settle-state : (r : Admission × Breaker R) → (settle r).1.state ≡ r.1.state
  unfolding settle
  settle-state (admit, b) = refl
  settle-state (contend, b) = refl
  settle-state (turned_away, b) = refl

  record_success-may_change :
      (gen now : ℕ) (b : Breaker R) → may_change b.state (record_success gen now b).state ≡ true
  unfolding record_success
  record_success-may_change gen now b = ground arith

  record_failure-may_change :
      (gen now now_window now_trip : ℕ) (b : Breaker R)
      → may_change b.state (record_failure ops gen now now_window now_trip b).state ≡ true
  unfolding record_failure
  record_failure-may_change gen now now_window now_trip b = ground arith

  finish_call-may_change :
      (gen : ℕ) (slot : Bool) (o : Outcome) (t : Clocks) (b : Breaker R)
      → may_change b.state (finish_call ops gen slot o t b).state ≡ true
  unfolding finish_call
  finish_call-may_change gen slot returned t b = record_success-may_change gen t.at_record b
  finish_call-may_change gen slot failed t b = record_failure-may_change gen _ _ _ b
  finish_call-may_change gen true panicked t b = record_failure-may_change gen _ _ _ b
  finish_call-may_change gen false panicked t b = may_stay b.state

  -- No action of a goroutine moves the breaker from closed to half open, or from open to closed.
  pub act-may_change :
      (pc : Pc) (a : Action) (b : Breaker R) → may_change b.state (act ops pc a b).1.state ≡ true
  unfolding act start_call
  act-may_change idle (Action.call now) b = rw (settle-state, before_call-state) (may_stay b.state)
  act-may_change locking (Action.lock now) b = rw settle-state (lock-may_change now b)
  act-may_change admitted (Action.start true t) b = record_failure-may_change _ _ _ _ _
  act-may_change admitted (Action.start false t) b = may_stay b.state
  act-may_change (running gen slot) (Action.finish o t) b = finish_call-may_change gen slot o t b
  act-may_change pc a b = may_stay b.state

  -- An `Execute` that a goroutine's action answers with ErrCircuitOpen counts one call and calls the
  -- hook with "reject"; nothing else of the breaker changes.
  pub rejected-changes_little :
      (pc : Pc) (a : Action) (b b' : Breaker R)
      → pc ≢ replied rejected
      → act ops pc a b ≡ (replied rejected, b')
      → b' ≡ record b { total = add64 b.total 1; events = (reject, b.state) ∷ b.events }
  unfolding act settle start_call before_call to_half_open_or_reject
  rejected-changes_little idle (Action.call now) b b' h e = ground arith
  rejected-changes_little locking (Action.lock now) b b' h e = ground arith
  rejected-changes_little pc a b b' h e = ground arith
