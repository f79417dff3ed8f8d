-- ===== src/Limiter/FixedWindow.antt =====
-- limiter/fixed_window.go. Goroutines share `windowStart` and `count` through Load, Store and
-- CompareAndSwap; a schedule lists whose atomic action comes next, with the clock that a call reads.
-- Times are nanoseconds since the epoch. `count` and the end of the window are int64, and their sums wrap.
use kit4go.Limiter.{Metrics, zero_metrics, count_allowed, count_denied, Ops, Poll, WaitResult, wait}
use kit4go.Common.Int.{ℤ, pos, negsuc, ltb_ℤ, wrap_int64, ◌+ℤ◌, same_ℤ}
use kit4go.Common.{
  ℕ, zero, suc, ◌+◌, ◌-◌, Bool, true, false, not, List, [], ◌∷◌, ltb, ◌==◌, if◌then◌else◌,
}
pub mod Bound
pub mod Race

-- where a goroutine stands in `acquire(n)`: the attempts left after this one, `n`, the clock that it
-- has read, and what it has loaded
pub data Pc : Type 0 where
  idle : Pc
  top : ℕ → ℕ → ℕ → Pc
  advancing : ℕ → ℕ → ℕ → ℕ → Pc
  zeroing : ℕ → ℕ → ℕ → Pc
  counting : ℕ → ℕ → ℕ → Pc
  swapping : ℕ → ℕ → ℕ → ℤ → Pc
  answered : Bool → Pc

-- the limiter, its goroutines, and the grants so far, newest first: the start of the window that was
-- current, and the tokens
pub record FixedWindow : Type 0 where
  pub rate : ℕ
  pub window_ns : ℕ
  pub count : ℤ
  pub window_start : ℕ
  pub metrics : Metrics
  pub closed : Bool
  pub pcs : ℕ → Pc
  pub grants : List (ℕ × ℕ)

-- A goroutine calls `TryAcquire(n)` (`Allow` is `TryAcquire(1)`) and reads the clock, or takes its
-- next action.
pub data Event : Type 0 where
  call : ℕ → ℤ → ℕ → Event
  act : ℕ → Event
  close : Event

abbrev pub second : ℕ
second = 1_000_000_000

-- `max(x, low)` of an int64
abbrev pub at_least : ℕ → ℤ → ℕ
at_least low (pos x) = if ltb x low then low else x
at_least low (negsuc x) = low

-- `newFixedWindow`
pub new : ℤ → ℤ → ℕ → FixedWindow
new rate window now = record {
  rate = at_least 1 rate;
  window_ns = at_least second window;
  count = pos 0;
  window_start = now;
  metrics = zero_metrics;
  closed = false;
  pcs = λ i. idle;
  grants = [];
}

pub set_pc : ℕ → Pc → FixedWindow → FixedWindow
set_pc i pc w = record w { pcs = λ j. if j == i then pc else w.pcs j }

-- `denied.Add(1); return false`
pub deny : ℕ → FixedWindow → FixedWindow
unfolding set_pc
deny i w = set_pc i (answered false) (record w { metrics = count_denied w.metrics })

-- the end of an attempt that lost a race
pub retry : ℕ → ℕ → ℕ → ℕ → FixedWindow → FixedWindow
unfolding set_pc deny
retry i attempt n now w = if attempt == 0 then deny i w else set_pc i (top (attempt - 1) n now) w

-- `cur + int64(n)`
abbrev pub count_with : ℤ → ℕ → ℤ
count_with cur n = wrap_int64 (cur +ℤ pos n)

-- `now >= start + windowNs`
abbrev pub has_elapsed : ℕ → FixedWindow → Bool
has_elapsed now w = not (ltb_ℤ (pos now) (wrap_int64 (pos (w.window_start + w.window_ns))))

-- the next atomic action of a goroutine
pub act_at : Pc → ℕ → FixedWindow → FixedWindow
unfolding set_pc deny retry
act_at idle i w = w
act_at (top attempt n now) i w =
    set_pc i
      (if has_elapsed now w then advancing attempt n now w.window_start else counting attempt n now)
      w
act_at (advancing attempt n now start) i w =
    if w.window_start == start
    then set_pc i (zeroing attempt n now) (record w { window_start = now })
    else retry i attempt n now w
act_at (zeroing attempt n now) i w = set_pc i (counting attempt n now) (record w { count = pos 0 })
act_at (counting attempt n now) i w =
    if ltb_ℤ (pos w.rate) (count_with w.count n)
    then deny i w
    else set_pc i (swapping attempt n now w.count) w
act_at (swapping attempt n now cur) i w =
    if same_ℤ w.count cur
    then set_pc i (answered true) (record w {
      count = count_with cur n;
      metrics = count_allowed n w.metrics;
      grants = (w.window_start, n) ∷ w.grants;
    })
    else retry i attempt n now w
act_at (answered ok) i w = w

pub begin : ℕ → ℤ → ℕ → FixedWindow → FixedWindow
unfolding set_pc
begin i (pos zero) now w = set_pc i (answered true) w
begin i (negsuc n) now w = set_pc i (answered true) w
begin i (pos (suc n)) now w = set_pc i (if w.closed then answered false else top 1 (suc n) now) w

pub step : Event → FixedWindow → FixedWindow
unfolding begin act_at
step (call i n now) w = begin i n now w
step (act i) w = act_at (w.pcs i) i w
step close w = record w { closed = true }

pub run : List Event → FixedWindow → FixedWindow
unfolding step
run [] w = w
run (e ∷ es) w = run es (step e w)

-- `Allow` with no other goroutine between its actions, as `Wait` calls it
pub allow : ℕ → FixedWindow → Bool × FixedWindow
unfolding run
allow now w =
    let w' = run (call 0 (pos 1) now ∷ act 0 ∷ act 0 ∷ act 0 ∷ act 0 ∷ act 0 ∷ []) w in
    (elim (w'.pcs 0) [ answered ok ↦ ok | _ ↦ false ], w')

pub wait_for : Bool → ℕ → List (Poll FixedWindow) → FixedWindow → WaitResult × FixedWindow
wait_for = wait (record { allow = allow; is_closed = λ w. w.closed })
