-- ===== src/Breaker/Machine.antt =====
-- `Breaker` of breaker/breaker.go. Each function takes the clock readings that the code makes in it,
-- in nanoseconds since the epoch. The atomics are bit patterns of their width. `events` is what an
-- installed hook has been called with, newest first.
use kit4go.Common.Int.{ℤ, pos, negsuc, pos_part}
use kit4go.Common.Words.{add64, add32, ltb_int32, u32_mod}
use kit4go.Breaker.Options.{
  State, closed, open_circuit, half_open, RateOps, Options, second, whole_seconds, with_defaults,
}
use kit4go.Breaker.Window.{Window, advance, record_window, fresh}
use kit4go.Common.{
  ℕ, ◌+◌, ◌/◌, ◌%◌, max, Bool, true, false, List, [], ◌∷◌, ltb, leb, ◌==◌, if◌then◌else◌, length,
}
pub mod Schedule
pub mod Trip

pub data EventName : Type 0 where
  success failure trip recover reject : EventName

pub record Breaker (R : Type 0) : Type 0 where
  pub opts : Options R
  pub state : State
  pub expiry : ℕ
  pub window : Window
  pub half_open_success : ℕ
  pub half_open_count : ℕ
  pub half_open_gen : ℕ
  pub total : ℕ
  pub successes : ℕ
  pub failures : ℕ
  pub consec_fail : ℕ
  pub events : List (EventName × State)

-- What `beforeCall` decides: nil, `ErrCircuitOpen`, or the way on to `toHalfOpenOrReject`.
pub data Admission : Type 0 where
  admit turned_away contend : Admission

module _ {R : Type 0} where
  pub fire : EventName → Breaker R → Breaker R
  fire e b = record b { events = (e, b.state) ∷ b.events }

  -- The methods are here as one call makes them, with no other call between their loads and stores.
  --
  -- The number of probe slots, `int32(b.opts.MaxRequests)`, has room for one more than `count`
  pub take_slot : Breaker R → Admission × Breaker R
  take_slot b =
      if ltb_int32 b.opts.max_requests (add32 b.half_open_count 1)
      then (turned_away, b)
      else (admit, record b { half_open_count = add32 b.half_open_count 1 })

  -- `beforeCall`, up to the call of `toHalfOpenOrReject`
  pub before_call : ℕ → Breaker R → Admission × Breaker R
  unfolding take_slot
  before_call now b = elim b.state [
    | closed ↦ (admit, b)
    | open_circuit ↦ (if ltb now b.expiry then turned_away else contend, b)
    | half_open ↦
        if leb b.opts.max_requests b.half_open_count then (turned_away, b) else take_slot b
  ]

  -- `toHalfOpenOrReject`, which looks again under the lock
  pub to_half_open_or_reject : ℕ → Breaker R → Admission × Breaker R
  unfolding take_slot
  to_half_open_or_reject now b = elim b.state [
    | closed ↦ (turned_away, b)
    | half_open ↦ take_slot b
    | open_circuit ↦ if ltb now b.expiry then (turned_away, b) else (
      admit,
      record b {
        state = half_open;
        half_open_gen = add32 b.half_open_gen 1;
        half_open_success = 0;
        half_open_count = 1;
      },
    )
  ]

  -- the state and the expiry that a trip sets
  pub trip_locked : ℕ → Breaker R → Breaker R
  unfolding fire
  trip_locked now b =
      fire trip (record b { state = open_circuit; expiry = now + pos_part b.opts.open_duration })

  pub to_open : ℕ → Breaker R → Breaker R
  unfolding fire
  to_open now b = fire trip (record b {
    state = open_circuit;
    expiry = now + pos_part b.opts.open_duration;
    half_open_success = 0;
    half_open_count = 0;
  })

  pub to_closed : ℕ → Breaker R → Breaker R
  unfolding fire
  to_closed now b = elim b.state [
    | closed ↦ b
    | open_circuit ↦ b
    | half_open ↦ fire recover (record b {
      window = fresh (length b.window.counts) (now / second);
      half_open_success = 0;
      half_open_count = 0;
      state = closed;
    })
  ]

  -- `recordSuccess(gen)`
  pub record_success : ℕ → ℕ → Breaker R → Breaker R
  unfolding fire to_closed
  record_success gen now b₀ =
      let b = record b₀ { successes = add64 b₀.successes 1; consec_fail = 0 } in
      fire success (elim b₀.state [
        | open_circuit ↦ b
        | closed ↦ record b { window = record_window true (now / second) b₀.window }
        | half_open ↦
            let credited = record b { half_open_success = add32 b₀.half_open_success 1 } in
            if b₀.half_open_gen == gen
            then if leb b₀.opts.max_requests credited.half_open_success
              then to_closed now credited
              else credited
            else b
      ])

  module _ (ops : RateOps R) where
    -- the two tests of `maybeTrip`, on the calls and the failures of the live window; the first one cuts the
    -- calls to a uint32
    pub should_trip : Options R → ℕ → ℕ → Bool
    should_trip o total fail =
        if ltb (total % u32_mod) o.min_requests
        then false
        else if ops.non_positive o.fail_rate
        then ltb 0 fail
        else ops.reached fail total o.fail_rate

    -- `maybeTrip`, at the clock of its window and the clock of the trip
    pub maybe_trip : ℕ → ℕ → Breaker R → Breaker R
    unfolding should_trip trip_locked
    maybe_trip now now_trip b = elim b.state [
      | open_circuit ↦ b
      | half_open ↦ b
      | closed ↦
          let b' = record b { window = advance (now / second) b.window } in
          if should_trip b.opts b'.window.sum_total b'.window.sum_fail
          then trip_locked now_trip b'
          else b'
    ]

    -- `recordFailure(gen)`, at the clocks of `recordWindow`, `maybeTrip` and the trip
    pub record_failure : ℕ → ℕ → ℕ → ℕ → Breaker R → Breaker R
    unfolding fire to_open maybe_trip
    record_failure gen now now_window now_trip b₀ =
        let b = record b₀ {
          failures = add64 b₀.failures 1;
          consec_fail = add32 b₀.consec_fail 1;
        } in
        fire failure (elim b₀.state [
          | open_circuit ↦ b
          | closed ↦
              maybe_trip now_window now_trip
                (record b { window = record_window false (now / second) b₀.window })
          | half_open ↦ if b₀.half_open_gen == gen then to_open now_trip b else b
        ])

-- `NewBreaker`
pub new_breaker : {R : Type 0} → RateOps R → Options R → ℕ → Breaker R
new_breaker ops o now =
    let opts = with_defaults ops o in
    record {
      opts = opts;
      state = closed;
      expiry = 0;
      window = fresh (max 1 (whole_seconds opts.interval)) (now / second);
      half_open_success = 0;
      half_open_count = 0;
      half_open_gen = 0;
      total = 0;
      successes = 0;
      failures = 0;
      consec_fail = 0;
      events = [];
    }
