-- ===== src/Limiter.antt =====
-- limiter/limiter.go: what the limiters share. `Wait` is the same loop in each of them, over the
-- limiter's own `Allow`; it is modelled once, over the interface `Ops`.
-- A clock reading is a number of nanoseconds since the epoch.
mod Tests
pub mod Wait
pub mod SlidingWindow
pub mod FixedWindow
pub mod Gcra
use kit4go.Common.Words.{add64}
use kit4go.Common.{ℕ, Bool, List, [], ◌∷◌, if◌then◌else◌}

-- `LimiterMetrics`, uint64 counters
pub record Metrics : Type 0 where
  pub allowed : ℕ
  pub denied : ℕ
  pub acquired : ℕ

abbrev pub zero_metrics : Metrics
zero_metrics = record { allowed = 0; denied = 0; acquired = 0 }

-- `allowed.Add(1); acquired.Add(uint64(n))`
unfoldable pub count_allowed : ℕ → Metrics → Metrics
count_allowed n m = record m { allowed = add64 m.allowed 1; acquired = add64 m.acquired n }

-- `denied.Add(1)`
unfoldable pub count_denied : Metrics → Metrics
count_denied m = record m { denied = add64 m.denied 1 }

-- The part of the `Limiter` interface that `Wait` calls: `Allow` at a clock reading, and the flag.
pub record Ops (S : Type 0) : Type 0 where
  pub allow : ℕ → S → Bool × S
  pub is_closed : S → Bool

-- `nil`, `ctx.Err()`, `ErrLimiterClosed`; `polling` is a `Wait` that has not returned yet.
pub data WaitResult : Type 0 where
  acquired cancelled limiter_closed polling : WaitResult

-- One iteration of the loop as `Wait` meets it: what other goroutines did to the limiter before the
-- iteration and during its sleep, whether the context was done by then, and the clock after the sleep.
pub record Poll (S : Type 0) : Type 0 where
  pub before : S → S
  pub during : S → S
  pub done_before : Bool
  pub done_during : Bool
  pub now : ℕ

-- `closedWaitResult`, given whether the context is done
unfoldable pub closed_wait_result : Bool → WaitResult
closed_wait_result ctx_done = if ctx_done then cancelled else limiter_closed

module _ {S : Type 0} (ops : Ops S) where
  open ops use {allow, is_closed}

  unfoldable pub wait_loop : List (Poll S) → S → WaitResult × S
  unfolding closed_wait_result
  wait_loop [] s = (polling, s)
  wait_loop (p ∷ ps) s =
      let s' = p.before s in
      let (ok, s'') = allow p.now (p.during s') in
      if is_closed s'
      then (closed_wait_result p.done_before, s')
      else if p.done_before
      then (cancelled, s')
      else if p.done_during
      then (cancelled, p.during s')
      else if ok
      then (acquired, s'')
      else wait_loop ps s''

  -- `Wait(ctx)`: the context's state at the entry, the clock of the first try, and the polls
  unfoldable pub wait : Bool → ℕ → List (Poll S) → S → WaitResult × S
  unfolding wait_loop
  wait ctx_done now ps s =
      let (ok, s') = allow now s in
      if is_closed s
      then (closed_wait_result ctx_done, s)
      else if ok
      then (acquired, s')
      else wait_loop ps s'
