-- ===== src/Idempotency/Tests.antt =====
-- Tests of the idempotency cache.
use kit4go.Idempotency.{
  Cache, empty_entry, expired, is_completed, is_stale, evict, drop_oldest, oldest, become_leader,
  start, keeps, finish, forget,
}
use kit4go.Idempotency.Flight.{Action, act, run, IsValid, single_flight}
use kit4go.Common.Assoc.{DistinctKeys, lookup, put, erase, erase_if}
use kit4go.Common.{ℕ, ◌≡◌, refl, inl, inr, false, some, List, [], ◌∷◌, arith, ℕ_discrete}

abbrev empty_cache : Cache ℕ ℕ ℕ
empty_cache = record {
  heap = [];
  entries = [];
  ttl = 60;
  max_entries = 2;
  cache_errors = false;
  flights = [];
}

empty_cache-IsValid : IsValid ℕ_discrete empty_cache
unfolding lookup
empty_cache-IsValid = record {
  distinct = tt;
  inside = λ k id h. absurd (ground arith);
  aloft = λ k id h. absurd (ground arith);
  single = tt;
}

-- a success, a failure that is retried, and three keys for two entries
abbrev actions : List (Action ℕ ℕ ℕ)
actions =
    Action.start 7 1
    ∷ Action.start 8 2
    ∷ Action.finish 1 (inl 70) 3
    ∷ Action.finish 0 (inr 80) 4
    ∷ Action.start 8 5
    ∷ Action.start 9 6
    ∷ Action.start 9 7
    ∷ []

in_flight : (run ℕ_discrete actions empty_cache).flights ≡ (9, 3) ∷ (8, 2) ∷ []
unfolding run act start become_leader expired is_completed evict is_stale drop_oldest oldest finish
    keeps lookup put erase erase_if empty_entry ℕ_discrete
in_flight = refl

single_flight_example :
    DistinctKeys (run ℕ_discrete actions empty_cache).flights
    × ((k : ℕ) (id : ℕ)
        → lookup ℕ_discrete k (run ℕ_discrete actions empty_cache).flights ≡ some id
        → (lookup ℕ_discrete k (run ℕ_discrete actions empty_cache).entries ≡ some id)
          × (is_completed (run ℕ_discrete actions empty_cache).heap id ≡ false))
single_flight_example = single_flight ℕ_discrete actions empty_cache empty_cache-IsValid

-- A leader whose key was forgotten fails and drops the entry of the next leader, so that a third one starts
-- while the second one runs.
abbrev forgotten : Cache ℕ ℕ ℕ
unfolding start forget finish
forgotten =
    let first = (start ℕ_discrete 7 1 empty_cache).1 in
    let second = (start ℕ_discrete 7 3 (forget ℕ_discrete 7 first)).1 in
    let failed = finish ℕ_discrete 7 0 (inr 5) 4 second in (start ℕ_discrete 7 6 failed).1

two_leaders : forgotten.flights ≡ (7, 2) ∷ (7, 1) ∷ []
unfolding forgotten start become_leader expired is_completed evict is_stale drop_oldest oldest
    finish keeps forget lookup put erase erase_if empty_entry ℕ_discrete
two_leaders = refl
