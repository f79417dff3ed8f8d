-- ===== src/Limiter/Gcra.antt =====
-- limiter/gcra.go. `emissionNs` is a float64: what the code computes from it, `int64(cost *
-- emissionNs)` for `n` tokens and `int64(burstOffsetNs)`, are parameters, which are not negative for products below
-- 2^63. Goroutines share `tat` through Load and CompareAndSwap; a schedule lists whose atomic action comes next, with
-- the clock reading that it sees. Times are nanoseconds since the epoch; the sums are int64 and wrap.
use kit4go.Limiter.{Metrics, zero_metrics, count_allowed, count_denied, Ops, Poll, WaitResult, wait}
use kit4go.Common.Int.{ℤ, pos, negsuc, pos_part, ltb_ℤ, same_ℤ, wrap_int64, ◌+ℤ◌, ◌-ℤ◌}
use kit4go.Common.{
  ℕ, zero, suc, ◌-◌, min, max, Bool, true, false, not, List, [], ◌∷◌, ◌==◌, if◌then◌else◌,
}
pub mod Conform

-- where a goroutine stands in `acquire(n)`: at the top of an attempt, before its CompareAndSwap with
-- the clock and the value that it loaded, or back in its caller
pub data Pc : Type 0 where
  idle : Pc
  top : ℕ → ℕ → Pc
  swapping : ℕ → ℕ → ℕ → ℤ → Pc
  answered : Bool → Pc

-- the limiter, its goroutines, and the grants so far, newest first: the clock reading and the tokens
pub record Gcra : Type 0 where
  pub tat : ℤ
  pub metrics : Metrics
  pub closed : Bool
  pub pcs : ℕ → Pc
  pub grants : List (ℕ × ℕ)

-- A goroutine calls `TryAcquire(n)` (`Allow` is `TryAcquire(1)`), or takes its next action.
pub data Event : Type 0 where
  call : ℕ → ℤ → Event
  act : ℕ → ℕ → Event
  close : Event

unfoldable pub new : Gcra
new = record { tat = pos 0; metrics = zero_metrics; closed = false; pcs = λ i. idle; grants = [] }

pub set_pc : ℕ → Pc → Gcra → Gcra
set_pc i pc g = record g { pcs = λ j. if j == i then pc else g.pcs j }

-- the theoretical arrival time after `n` tokens
pub new_tat : (ℕ → ℕ) → ℕ → ℕ → ℤ → ℤ
new_tat cost_ns n now loaded =
    wrap_int64 ((if ltb_ℤ loaded (pos now) then pos now else loaded) +ℤ pos (cost_ns n))

-- `(newTAT - now) > int64(g.burstOffsetNs)`
abbrev pub is_over : ℕ → ℕ → ℤ → Bool
is_over burst_offset now tat = ltb_ℤ (pos burst_offset) (wrap_int64 (tat -ℤ pos now))

module _ (cost_ns : ℕ → ℕ) (burst_offset : ℕ) where
  -- the test of an attempt that has loaded `tat`
  pub decide : ℕ → ℕ → ℕ → ℕ → Gcra → Gcra
  unfolding new_tat set_pc
  decide i n now attempt g =
      if is_over burst_offset now (new_tat cost_ns n now g.tat)
      then set_pc i (answered false) (record g { metrics = count_denied g.metrics })
      else set_pc i (swapping attempt n now g.tat) g

  -- the CompareAndSwap; `attempt` counts the attempts that are left after this one
  pub swap : ℕ → ℕ → ℕ → ℕ → ℤ → Gcra → Gcra
  unfolding new_tat set_pc
  swap i attempt n now loaded g =
      if same_ℤ g.tat loaded
      then set_pc i (answered true) (record g {
        tat = new_tat cost_ns n now loaded;
        metrics = count_allowed n g.metrics;
        grants = (now, n) ∷ g.grants;
      })
      else if attempt == 0
      then set_pc i (answered false) (record g { metrics = count_denied g.metrics })
      else set_pc i (top (attempt - 1) n) g

  pub begin : ℕ → ℤ → Gcra → Gcra
  unfolding set_pc
  begin i (pos zero) g = set_pc i (answered true) g
  begin i (negsuc n) g = set_pc i (answered true) g
  begin i (pos (suc n)) g = set_pc i (if g.closed then answered false else top 1 (suc n)) g

  pub act_at : Pc → ℕ → ℕ → Gcra → Gcra
  unfolding decide swap
  act_at idle i now g = g
  act_at (top attempt n) i now g = decide i n now attempt g
  act_at (swapping attempt n t loaded) i now g = swap i attempt n t loaded g
  act_at (answered ok) i now g = g

  unfoldable pub step : Event → Gcra → Gcra
  unfolding begin act_at
  step (call i n) g = begin i n g
  step (act i now) g = act_at (g.pcs i) i now g
  step close g = record g { closed = true }

  unfoldable pub run : List Event → Gcra → Gcra
  run [] g = g
  run (e ∷ es) g = run es (step e g)

  -- `Allow` with no other goroutine between its actions, as `Wait` calls it
  pub allow : ℕ → Gcra → Bool × Gcra
  unfolding new_tat
  allow now g =
      if g.closed
      then (false, g)
      else if is_over burst_offset now (new_tat cost_ns 1 now g.tat)
      then (false, record g { metrics = count_denied g.metrics })
      else (
        true,
        record g {
          tat = new_tat cost_ns 1 now g.tat;
          metrics = count_allowed 1 g.metrics;
          grants = (now, 1) ∷ g.grants;
        },
      )

  pub wait_for : Bool → ℕ → List (Poll Gcra) → Gcra → WaitResult × Gcra
  wait_for = wait (record { allow = allow; is_closed = λ g. g.closed })

  -- `nextDelay`, in nanoseconds: how long `Wait` sleeps
  pub next_delay : ℕ → Gcra → ℕ
  next_delay now g =
      let deficit = wrap_int64 (wrap_int64 (g.tat -ℤ pos now) -ℤ pos burst_offset) in
      if not (ltb_ℤ (pos now) g.tat)
      then 0
      else if not (ltb_ℤ (pos 0) deficit)
      then 0
      else min 1_000_000 (max 1_000 (pos_part deficit))
