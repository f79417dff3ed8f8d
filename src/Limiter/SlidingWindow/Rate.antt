-- ===== src/Limiter/SlidingWindow/Rate.antt =====
-- The promise of limiter/sliding_window.go: at most `rate` tokens in the trailing window.
use kit4go.Buckets.History.{Charge, Logs}
use kit4go.Limiter.SlidingWindow
use kit4go.Limiter.SlidingWindow.{SlidingWindow, Fraction}
use kit4go.Common.Int.{ℤ, pos, negsuc}
use kit4go.Common.{ℕ, zero, suc, ◌*◌, ◌≤◌, ◌≡◌, Bool, true, List, [], ◌∷◌, if◌then◌else◌}

-- a call by some goroutine, with the clock that it reads under the lock
pub data Call : Type 0 where
  allow : ℕ → Call
  try_acquire : ℤ → ℕ → Call
  close : Call

-- The tokens that a call asks for.
pub tokens : Call → ℕ
tokens (allow now) = 1
tokens (try_acquire (pos n) now) = n
tokens (try_acquire (negsuc n) now) = 0
tokens close = 0

pub step : Call → SlidingWindow → Bool × SlidingWindow
step (allow now) sw = SlidingWindow.allow now sw
step (try_acquire n now) sw = SlidingWindow.try_acquire n now sw
step close sw = (true, SlidingWindow.close sw)

-- The log with a grant of `n` tokens; a call for none is answered without a look at the ring.
pub record_grant : ℕ → ℕ → List Charge → List Charge
record_grant base zero log = log
record_grant base (suc n) log = (base, suc n) ∷ log

-- the limiter after a sequence of calls, and the log of the tokens that were granted, each at the
-- second that it was charged to
pub run : List Call → SlidingWindow → List Charge → SlidingWindow × List Charge
run [] sw log = (sw, log)
run (c ∷ cs) sw log =
    let (ok, sw') = step c sw in
    run cs sw' (if ok then record_grant sw'.ring.base (tokens c) log else log)

-- The ring holds the log, within the rate; the rate and the window are those of `new`.
pub record Bounded (rate : Fraction) (n : ℕ) (log : List Charge) (sw : SlidingWindow) : Type 0 where
  pub rate_kept : sw.rate ≡ rate
  pub window_kept : sw.window_sec ≡ n
  pub logs : Logs sw.window_sec log sw.ring
  pub bounded : sw.ring.sum * sw.rate.den ≤ sw.rate.num
