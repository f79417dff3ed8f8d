-- ===== src/Limiter/FixedWindow/Race.antt =====
-- A schedule in which limiter/fixed_window.go grants more than `rate` tokens in one window: the reset
-- moves `windowStart` and clears `count` in two actions, and a grant between them is forgotten; and one in which
-- the sum of the count and the tokens wraps.
use kit4go.Limiter.FixedWindow.{Event, answered, second, new, step, run}
use kit4go.Common.Int.{pos, negsuc, wrap_int64, ◌+ℤ◌}
use kit4go.Common.{ℕ, ◌-◌, ◌^◌, ◌≡◌, refl, true, List, [], ◌∷◌}

-- Goroutine 1 finds the window expired and moves `windowStart`; goroutine 2 takes `rate` tokens;
-- goroutine 1 then clears `count` and takes one more.
unfoldable pub schedule : ℕ → ℕ → List Event
schedule rate now =
    Event.call 1 (pos 1) now
    ∷ Event.act 1
    ∷ Event.act 1
    ∷ Event.call 2 (pos rate) now
    ∷ Event.act 2
    ∷ Event.act 2
    ∷ Event.act 2
    ∷ Event.act 1
    ∷ Event.act 1
    ∷ Event.act 1
    ∷ []

-- With a rate of 2 and a window of a second: in this schedule the window that begins when the first one has elapsed
-- grants 3 tokens, all with clocks inside it.
race_over_admits :
    let w' = run (schedule 2 second) (new (pos 2) (pos second) 0) in
    (w'.window_start ≡ second) × (w'.grants ≡ (second, 1) ∷ (second, 2) ∷ [])
unfolding run step schedule new wrap_int64 ◌+ℤ◌
race_over_admits = (refl, refl)

-- one token, and then all that an int counts
abbrev huge_call : List Event
huge_call =
    Event.call 1 (pos 1) 0
    ∷ Event.act 1
    ∷ Event.act 1
    ∷ Event.act 1
    ∷ Event.call 1 (pos (2 ^ 63 - 1)) 0
    ∷ Event.act 1
    ∷ Event.act 1
    ∷ Event.act 1
    ∷ []

-- With a rate of 2 the sum of `acquire` wraps to the least int64, and the second call is granted.
huge_call_granted :
    let w' = run huge_call (new (pos 2) (pos second) 0) in
    (w'.count ≡ negsuc (2 ^ 63 - 1)) × (w'.pcs 1 ≡ answered true)
unfolding run step new wrap_int64 ◌+ℤ◌
huge_call_granted = (refl, refl)
