-- ===== src/Breaker/Machine/Schedule.antt =====
-- `Execute` of breaker/breaker.go as the actions of goroutines that share one breaker: the admission,
-- the second look under the lock, the capture of the epoch with the check of the context, and the
-- record of the outcome of `fn`. A schedule lists whose action comes next, with its clock readings. Each of
-- these is one step here, with no other call between its loads and stores, as in a program that calls one at a time;
-- interleavings of single loads and stores are not modelled.
mod Tests
pub mod Changes
pub mod Probes
use kit4go.Common.Words.{add64}
use kit4go.Breaker.Options.{State, closed, open_circuit, half_open, RateOps}
use kit4go.Breaker.Machine.{
  Breaker, EventName, reject, Admission, admit, turned_away, contend, fire, before_call,
  to_half_open_or_reject, record_success, record_failure,
}
use kit4go.Common.{ℕ, suc, Bool, true, false, List, [], ◌∷◌, ◌==◌, if◌then◌else◌}

-- what `fn` does
pub data Outcome : Type 0 where
  returned failed panicked : Outcome

-- what `Execute` gives back: `ErrCircuitOpen`, the context's error, or the outcome of `fn`
pub data Reply : Type 0 where
  rejected ctx_error : Reply
  passed_on : Outcome → Reply

pub data Pc : Type 0 where
  idle locking admitted : Pc
  running : ℕ → Bool → Pc
  replied : Reply → Pc

-- the clock readings of a record: of `recordWindow` or `toClosed`, of `maybeTrip`, and of the trip
pub record Clocks : Type 0 where
  pub at_record : ℕ
  pub at_window : ℕ
  pub at_trip : ℕ

-- The next action of a goroutine: it calls `Execute`, takes the lock, checks its context, or its `fn`
-- ends.
pub data Action : Type 0 where
  call : ℕ → Action
  lock : ℕ → Action
  start : Bool → Clocks → Action
  finish : Outcome → Clocks → Action

pub is_half_open : State → Bool
is_half_open half_open = true
is_half_open _ = false

-- The probes that the epoch has admitted, after the action of a goroutine at a position, with the
-- state before and the position after.
pub note_probe : Pc → Action → State → Pc → ℕ → ℕ
note_probe idle (call now) half_open admitted p = suc p
note_probe locking (lock now) half_open admitted p = suc p
note_probe locking (lock now) open_circuit admitted p = 1
note_probe _ _ _ _ p = p

-- all goroutines, and how many probes the current half-open epoch has admitted
pub record System (R : Type 0) : Type 0 where
  pub breaker : Breaker R
  pub pcs : ℕ → Pc
  pub probes : ℕ

module _ {R : Type 0} where
  -- the end of an admission
  pub settle : Admission × Breaker R → Pc × Breaker R
  unfolding fire
  settle (admit, b) = (admitted, b)
  settle (contend, b) = (locking, b)
  settle (turned_away, b) = (replied rejected, fire reject (record b { total = add64 b.total 1 }))

  module _ (ops : RateOps R) where
    pub start_call : Bool → Clocks → Breaker R → Pc × Breaker R
    unfolding is_half_open
    start_call ctx_err t b₀ =
        let b = record b₀ { total = add64 b₀.total 1 } in
        if ctx_err
        then (
          replied ctx_error,
          record_failure ops b₀.half_open_gen t.at_record t.at_window t.at_trip b,
        )
        else (running b₀.half_open_gen (is_half_open b₀.state), b)

    pub finish_call : ℕ → Bool → Outcome → Clocks → Breaker R → Breaker R
    finish_call gen slot returned t b = record_success gen t.at_record b
    finish_call gen slot failed t b = record_failure ops gen t.at_record t.at_window t.at_trip b
    finish_call gen slot panicked t b =
        if slot then record_failure ops gen t.at_record t.at_window t.at_trip b else b

    -- one action of a goroutine that stands at `pc`; an action that does not fit changes nothing
    pub act : Pc → Action → Breaker R → Pc × Breaker R
    unfolding settle start_call finish_call
    act idle (call now) b = settle (before_call now b)
    act locking (lock now) b = settle (to_half_open_or_reject now b)
    act admitted (start ctx_err t) b = start_call ctx_err t b
    act (running gen slot) (finish o t) b = (replied (passed_on o), finish_call gen slot o t b)
    act pc a b = (pc, b)

    -- `Execute` with no other goroutine in between
    pub execute : ℕ → ℕ → Bool → Outcome → Clocks → Breaker R → Pc × Breaker R
    unfolding act
    execute now now_lock ctx_err o t b =
        let (p₁, b₁) = act idle (call now) b in
        let (p₂, b₂) = act p₁ (lock now_lock) b₁ in
        let (p₃, b₃) = act p₂ (start ctx_err t) b₂ in act p₃ (finish o t) b₃

    pub step : ℕ × Action → System R → System R
    unfolding act note_probe
    step (i, a) s =
        let (pc, b) = act (s.pcs i) a s.breaker in
        record {
          breaker = b;
          pcs = λ j. if j == i then pc else s.pcs j;
          probes = note_probe (s.pcs i) a s.breaker.state pc s.probes;
        }

    pub run : List (ℕ × Action) → System R → System R
    unfolding step
    run [] s = s
    run (x ∷ xs) s = run xs (step x s)
