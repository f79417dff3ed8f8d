-- ===== src/Semaphore/Permits.antt =====
-- semaphore/semaphore.go never hands out more permits than its capacity.
use kit4go.Semaphore.{
  Pc, Goroutine, Semaphore, Action, Event, put_goroutine, take_token, start_release, send_token,
  act_on, act, run,
}
use kit4go.Common.{
  ℕ, zero, suc, ◌+◌, ◌-◌, ◌≤◌, ◌<◌, ◌≡◌, refl, ap, inl, inr, Bool, true, false, ◌||◌, some, List,
  [], ◌∷◌, arith, ltb, ◌==◌, if◌then◌else◌, Bool-cases, Option-cases, get_elem?, set,
}

-- the tokens that a goroutine has out of the channel
abbrev owned_at : Pc → ℕ → ℕ
owned_at Pc.idle held = held
owned_at Pc.put_back held = suc held
owned_at (Pc.taking n) held = held
owned_at (Pc.releasing n) held = held + n

abbrev owned : Goroutine → ℕ
owned g = owned_at g.pc g.held

abbrev all_owned : List Goroutine → ℕ
all_owned [] = 0
all_owned (g ∷ gs) = owned g + all_owned gs

-- the permits that the goroutines hold
abbrev pub all_held : List Goroutine → ℕ
all_held [] = 0
all_held (g ∷ gs) = g.held + all_held gs

held-le-owned : (gs : List Goroutine) → all_held gs ≤ all_owned gs
held-le-owned [] = omega arith
held-le-owned (g ∷ gs) = ground (arith, held-le-owned gs)

all_owned-set :
    (gs : List Goroutine) (i : ℕ) (g g' : Goroutine)
    → get_elem? gs i ≡ some g
    → all_owned (set gs i g') + owned g ≡ all_owned gs + owned g'
all_owned-set [] i g g' h = absurd (ground arith)
all_owned-set (x ∷ xs) zero g g' h =
    let same : x ≡ g = ground arith in omega (arith, ap (λ y. owned y) same)
all_owned-set (x ∷ xs) (suc i) g g' h = omega (arith, all_owned-set xs i g g' h)

-- no token is in two places, and no release has found the channel full
pub record IsValid (capacity : ℕ) (s : Semaphore) : Type 0 where
  pub sized : s.capacity ≡ capacity
  pub conserved : s.tokens + all_owned s.goroutines ≤ s.capacity
  pub calm : s.panicked ≡ false

-- a change of one goroutine and of the tokens that makes no token
moved :
    {size : ℕ} (s : Semaphore) (i t : ℕ) (g g' : Goroutine)
    → IsValid size s
    → get_elem? s.goroutines i ≡ some g
    → t + owned g' ≤ s.tokens + owned g
    → t + all_owned (set s.goroutines i g') ≤ s.capacity
moved s i t g g' v at le = omega (arith, all_owned-set s.goroutines i g g' at, v.conserved)

take_token-IsValid :
    {size : ℕ} (s : Semaphore) (i : ℕ) (g g' : Goroutine)
    → IsValid size s
    → get_elem? s.goroutines i ≡ some g
    → owned g' ≡ suc (owned g)
    → IsValid size (take_token i g' s)
unfolding take_token put_goroutine
take_token-IsValid s i g g' v at more = elim (Bool-cases (s.tokens == 0)) [
  | inl none_left ↦ rw none_left v
  | inr some_left ↦ rw some_left (record {
    conserved = moved s i (s.tokens - 1) g g' v at (ground arith);
    calm = v.calm;
    sized = v.sized;
  })
]

-- The channel has room for a token that a goroutine has.
has_room :
    {size : ℕ} (s : Semaphore) (i : ℕ) (g : Goroutine)
    → IsValid size s
    → get_elem? s.goroutines i ≡ some g
    → 0 < owned g
    → ltb s.tokens s.capacity ≡ true
has_room s i g v at some_owned =
    let less : s.tokens < s.capacity =
      omega (
        arith,
        all_owned-set s.goroutines i g (record { pc = Pc.idle; held = 0 }) at,
        v.conserved,
      ) in
    ground arith

send_token-IsValid :
    {size : ℕ} (s : Semaphore) (i : ℕ) (g g' : Goroutine)
    → IsValid size s
    → get_elem? s.goroutines i ≡ some g
    → owned g ≡ suc (owned g')
    → IsValid size (send_token i g' s)
unfolding send_token put_goroutine
send_token-IsValid s i g g' v at fewer = rw (has_room s i g v at (omega arith)) (record {
  conserved = moved s i (s.tokens + 1) g g' v at (omega arith);
  calm = v.calm;
  sized = v.sized;
})

owned-release :
    (closed : Bool) (n held : ℕ)
    → n ≤ held
    → owned_at (if closed then Pc.idle else Pc.releasing n) (held - n) ≤ held
owned-release true n held h = omega arith
owned-release false n held h = omega arith

start_release-IsValid :
    {size : ℕ} (s : Semaphore) (i n held : ℕ)
    → IsValid size s
    → get_elem? s.goroutines i ≡ some (record { pc = Pc.idle; held = held })
    → IsValid size (start_release n i held s)
unfolding start_release put_goroutine
start_release-IsValid s i n held v at = elim (Bool-cases (ltb held n)) [
  | inl few ↦ rw few v
  | inr enough ↦
      let fewer = owned-release s.closed n held (ground (arith, enough)) in
      rw enough (record {
        conserved = moved s i s.tokens _ _ v at (omega (arith, fewer));
        calm = v.calm;
        sized = v.sized;
      })
]

act_on-IsValid :
    {size : ℕ} (a : Action) (s : Semaphore) (i : ℕ) (pc : Pc) (held : ℕ)
    → IsValid size s
    → get_elem? s.goroutines i ≡ some (record { pc = pc; held = held })
    → IsValid size (act_on a i pc held s)
unfolding act_on put_goroutine
act_on-IsValid Action.receive s i Pc.idle held v at = take_token-IsValid s i _ _ v at refl
act_on-IsValid Action.receive s i Pc.put_back held v at = v
act_on-IsValid Action.receive s i (Pc.taking n) held v at = v
act_on-IsValid Action.receive s i (Pc.releasing n) held v at = v
act_on-IsValid Action.weigh_wake s i Pc.idle held v at = take_token-IsValid s i _ _ v at refl
act_on-IsValid Action.weigh_wake s i Pc.put_back held v at = v
act_on-IsValid Action.weigh_wake s i (Pc.taking n) held v at = v
act_on-IsValid Action.weigh_wake s i (Pc.releasing n) held v at = v
act_on-IsValid (Action.weigh n) s i Pc.idle held v at =
    elim (Bool-cases (s.locked || ltb s.tokens n)) [
      | inl waits ↦ rw waits v
      | inr goes ↦ rw goes (record {
        conserved = moved s i s.tokens _ _ v at (omega arith);
        calm = v.calm;
        sized = v.sized;
      })
    ]
act_on-IsValid (Action.weigh n) s i Pc.put_back held v at = v
act_on-IsValid (Action.weigh n) s i (Pc.taking m) held v at = v
act_on-IsValid (Action.weigh n) s i (Pc.releasing m) held v at = v
act_on-IsValid (Action.release n) s i Pc.idle held v at = start_release-IsValid s i n held v at
act_on-IsValid (Action.release n) s i Pc.put_back held v at = v
act_on-IsValid (Action.release n) s i (Pc.taking m) held v at = v
act_on-IsValid (Action.release n) s i (Pc.releasing m) held v at = v
act_on-IsValid Action.resume s i Pc.idle held v at = v
act_on-IsValid Action.resume s i Pc.put_back held v at =
    rw (has_room s i _ v at (omega arith)) (record {
      conserved = moved s i (s.tokens + 1) _ _ v at (omega arith);
      calm = v.calm;
      sized = v.sized;
    })
act_on-IsValid Action.resume s i (Pc.taking zero) held v at = record {
  conserved = moved s i s.tokens _ _ v at (omega arith);
  calm = v.calm;
  sized = v.sized;
}
act_on-IsValid Action.resume s i (Pc.taking (suc n)) held v at =
    take_token-IsValid s i _ _ v at refl
act_on-IsValid Action.resume s i (Pc.releasing zero) held v at = record {
  conserved = moved s i s.tokens _ _ v at (omega arith);
  calm = v.calm;
  sized = v.sized;
}
act_on-IsValid Action.resume s i (Pc.releasing (suc n)) held v at =
    send_token-IsValid s i _ _ v at (omega arith)

act-IsValid : {size : ℕ} (e : Event) (s : Semaphore) → IsValid size s → IsValid size (act e s)
unfolding act
act-IsValid Event.close s v = record { conserved = v.conserved; calm = v.calm; sized = v.sized }
act-IsValid (Event.step i a) s v = elim (Option-cases (get_elem? s.goroutines i)) [
  | inl absent ↦ rw (absent, act) v
  | inr (g, at) ↦ rw (at, act) (act_on-IsValid a s i g.pc g.held v at)
]

run-IsValid :
    {size : ℕ} (es : List Event) (s : Semaphore) → IsValid size s → IsValid size (run es s)
unfolding run
run-IsValid [] s v = v
run-IsValid (e ∷ es) s v = run-IsValid es (act e s) (act-IsValid e s v)

-- From a semaphore whose tokens and those that its goroutines have make at most its capacity, under every
-- interleaving of the channel operations of calls of `Acquire`, `TryAcquire` and `Release`, with any weights, and of
-- `Close`, where a goroutine releases only permits that it holds, and `Close` may come after the look of `Release` and
-- between its sends: the goroutines never hold more permits than the capacity, no release panics, and a goroutine
-- that puts a token back finds room for it.
pub permits_le_capacity :
    {size : ℕ} (es : List Event) (s : Semaphore)
    → IsValid size s
    → (all_held (run es s).goroutines ≤ size)
      × ((run es s).panicked ≡ false)
      × ((i : ℕ) (held : ℕ)
          → get_elem? (run es s).goroutines i ≡ some (record { pc = Pc.put_back; held = held })
          → (run es s).tokens < size)
permits_le_capacity es s v =
    let w = run-IsValid es s v in
    (
      omega (arith, w.conserved, w.sized, held-le-owned (run es s).goroutines),
      w.calm,
      λ i held at.
          (let room = has_room (run es s) i _ w at (omega arith) in ground (arith, w.sized)),
    )
