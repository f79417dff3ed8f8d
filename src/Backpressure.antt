-- ===== src/Backpressure.antt =====
-- `backpressure.Gate` of backpressure/backpressure.go as the atomic operations of goroutines, one at a time:
-- the loads, the compare-and-swaps and the additions of `TryAcquire` and `Release`. The numbers are int32s
-- that are not negative, so that `cur+1`, at most the maximum, does not wrap. `accepted` and `released`
-- count the calls that returned true, for the statements.
use kit4go.Common.Int.{ℤ, pos_part}
use kit4go.Common.Words.{add64}
use kit4go.Common.{
  ℕ, suc, ◌-◌, Bool, Option, none, some, List, [], ◌∷◌, leb, ◌==◌, if◌then◌else◌, get_elem?, set,
}
pub mod Bound
mod Tests

-- the next operation of a goroutine: none, in `TryAcquire` the load of the current number, the load of the
-- maximum, the count of a rejection or the swap, in `Release` the load or the swap
pub data Pc : Type 0 where
  idle load_current reject load_release : Pc
  load_max swap_up swap_down : ℕ → Pc

pub record Gate : Type 0 where
  pub max : ℕ
  pub current : ℕ
  pub rejected : ℕ
  pub accepted : ℕ
  pub released : ℕ
  pub goroutines : List Pc

-- `New` and the clamp of `SetMax`
unfoldable pub new : ℤ → List Pc → Gate
new max_concurrent gs = record {
  max = pos_part max_concurrent;
  current = 0;
  rejected = 0;
  accepted = 0;
  released = 0;
  goroutines = gs;
}

unfoldable pub set_max : ℤ → Gate → Gate
set_max max g = record g { max = pos_part max }

unfoldable pub go_to : ℕ → Pc → Gate → Gate
go_to i pc g = record g { goroutines = set g.goroutines i pc }

-- the next operation of the `i`-th goroutine, which is at `pc`
unfoldable pub resume : ℕ → Pc → Gate → Gate
unfolding go_to
resume i Pc.idle g = g
resume i Pc.load_current g = go_to i (Pc.load_max g.current) g
resume i (Pc.load_max cur) g = go_to i (if leb g.max cur then Pc.reject else Pc.swap_up cur) g
resume i Pc.reject g = go_to i Pc.idle (record g { rejected = add64 g.rejected 1 })
resume i (Pc.swap_up cur) g =
    if g.current == cur
    then go_to i Pc.idle (record g { current = suc cur; accepted = suc g.accepted })
    else go_to i Pc.load_current g
resume i Pc.load_release g = go_to i (if g.current == 0 then Pc.idle else Pc.swap_down g.current) g
resume i (Pc.swap_down cur) g =
    if g.current == cur
    then go_to i Pc.idle (record g { current = cur - 1; released = suc g.released })
    else go_to i Pc.load_release g

-- the start of a `TryAcquire` or of a `Release` by an idle goroutine, its next operation, or `SetMax`
pub data Event : Type 0 where
  try_acquire release step : ℕ → Event
  set_maximum : ℤ → Event

unfoldable pub begin : ℕ → Pc → Option Pc → Gate → Gate
unfolding go_to
begin i pc (some Pc.idle) g = go_to i pc g
begin i pc at g = g

unfoldable pub act : Event → Gate → Gate
unfolding begin resume set_max
act (Event.try_acquire i) g = begin i Pc.load_current (get_elem? g.goroutines i) g
act (Event.release i) g = begin i Pc.load_release (get_elem? g.goroutines i) g
act (Event.step i) g = elim (get_elem? g.goroutines i) [ none ↦ g | some pc ↦ resume i pc g ]
act (Event.set_maximum max) g = set_max max g

unfoldable pub run : List Event → Gate → Gate
unfolding act
run [] g = g
run (e ∷ es) g = run es (act e g)

unfoldable pub is_overloaded : Gate → Bool
is_overloaded g = leb g.max g.current
