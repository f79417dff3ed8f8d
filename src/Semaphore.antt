-- ===== src/Semaphore.antt =====
-- `semaphore.Semaphore` of semaphore/semaphore.go as the channel operations of goroutines, one at a time.
-- The buffered channel of tokens is their number. A wait that gives up, by the context or by `Close`, takes
-- no token and changes nothing. A `Release` of several permits looks at `closed` once, and then sends one token
-- at a time; other goroutines and `Close` may come between. `held` counts the permits of a goroutine, for the
-- statements: `Release` takes them off at its look.
use kit4go.Common.Int.{ℤ, pos, negsuc, pos_part}
use kit4go.Common.{
  ℕ, zero, suc, ◌+◌, ◌-◌, Bool, true, false, ◌||◌, Option, none, some, List, [], ◌∷◌, ltb, ◌==◌,
  if◌then◌else◌, get_elem?, set,
}
pub mod Permits
mod Tests

-- what a goroutine does: nothing, the put-back of the token that woke it, a take of so many tokens under `wmu`,
-- or the sends of so many tokens in `Release`
pub data Pc : Type 0 where
  idle put_back : Pc
  taking releasing : ℕ → Pc

pub record Goroutine : Type 0 where
  pub pc : Pc
  pub held : ℕ

pub record Semaphore : Type 0 where
  pub capacity : ℕ
  pub tokens : ℕ
  pub closed : Bool
  pub locked : Bool
  pub panicked : Bool
  pub goroutines : List Goroutine

pub data Action : Type 0 where
  receive weigh_wake resume : Action
  weigh release : ℕ → Action

-- `none` is the panic
unfoldable pub new : ℤ → List Goroutine → Option Semaphore
new capacity gs =
    if pos_part capacity == 0
    then none
    else some (record {
      capacity = pos_part capacity;
      tokens = pos_part capacity;
      closed = false;
      locked = false;
      panicked = false;
      goroutines = gs;
    })

abbrev idle_goroutine : Goroutine
idle_goroutine = record { pc = Pc.idle; held = 0 }

unfoldable pub put_goroutine : ℕ → Goroutine → Semaphore → Semaphore
put_goroutine i g s = record s { goroutines = set s.goroutines i g }

-- a receive of one token, for what the goroutine does next
unfoldable pub take_token : ℕ → Goroutine → Semaphore → Semaphore
unfolding put_goroutine
take_token i g s =
    if s.tokens == 0 then s else put_goroutine i g (record s { tokens = s.tokens - 1 })

-- the look of `Release(n)` at `closed`, by a goroutine that holds the permits
unfoldable pub start_release : ℕ → ℕ → ℕ → Semaphore → Semaphore
unfolding put_goroutine
start_release n i held s =
    if ltb held n
    then s
    else put_goroutine i
        (record { pc = if s.closed then Pc.idle else Pc.releasing n; held = held - n }) s

-- a send of `Release`, for what the goroutine does next
unfoldable pub send_token : ℕ → Goroutine → Semaphore → Semaphore
unfolding put_goroutine
send_token i g s =
    if ltb s.tokens s.capacity
    then put_goroutine i g (record s { tokens = s.tokens + 1 })
    else record s { panicked = true }

-- one step of a goroutine; a step that it cannot take changes nothing
unfoldable pub act_on : Action → ℕ → Pc → ℕ → Semaphore → Semaphore
unfolding take_token start_release send_token put_goroutine
act_on Action.receive i Pc.idle held s = take_token i (record { pc = Pc.idle; held = suc held }) s
act_on Action.weigh_wake i Pc.idle held s =
    take_token i (record { pc = Pc.put_back; held = held }) s
act_on (Action.weigh n) i Pc.idle held s =
    if s.locked || ltb s.tokens n
    then s
    else put_goroutine i (record { pc = Pc.taking n; held = held }) (record s { locked = true })
act_on (Action.release n) i Pc.idle held s = start_release n i held s
act_on Action.resume i Pc.put_back held s =
    if ltb s.tokens s.capacity
    then put_goroutine i (record { pc = Pc.idle; held = held }) (record s { tokens = s.tokens + 1 })
    else s
act_on Action.resume i (Pc.taking zero) held s =
    put_goroutine i (record { pc = Pc.idle; held = held }) (record s { locked = false })
act_on Action.resume i (Pc.taking (suc n)) held s =
    take_token i (record { pc = Pc.taking n; held = suc held }) s
act_on Action.resume i (Pc.releasing zero) held s =
    put_goroutine i (record { pc = Pc.idle; held = held }) s
act_on Action.resume i (Pc.releasing (suc n)) held s =
    send_token i (record { pc = Pc.releasing n; held = held }) s
act_on a i pc held s = s

-- a step of the `i`-th goroutine, or `Close`
pub data Event : Type 0 where
  step : ℕ → Action → Event
  close : Event

unfoldable pub act : Event → Semaphore → Semaphore
unfolding act_on
act (Event.step i a) s = elim (get_elem? s.goroutines i) [
  | none ↦ s
  | some g ↦ act_on a i g.pc g.held s
]
act Event.close s = record s { closed = true }

unfoldable pub run : List Event → Semaphore → Semaphore
unfolding act
run [] s = s
run (e ∷ es) s = run es (act e s)

unfoldable pub available : Semaphore → ℕ
available s = s.tokens
