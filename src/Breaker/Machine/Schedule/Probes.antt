-- ===== src/Breaker/Machine/Schedule/Probes.antt =====
-- The probe slots of breaker/breaker.go: how many an epoch admits, and what its outcomes count for.
use kit4go.Common.Words.{add32}
use kit4go.Breaker.Options.{State, closed, open_circuit, half_open, RateOps, second}
use kit4go.Breaker.Machine.{
  Breaker, before_call, to_half_open_or_reject, record_success, record_failure,
}
use kit4go.Breaker.Machine.Schedule.{
  Pc, idle, locking, admitted, running, Action, System, Outcome, returned, failed, panicked, Clocks,
  act, note_probe, step, run, settle, start_call, finish_call, is_half_open,
}
use kit4go.Common.{
  ℕ, ◌+◌, ◌/◌, ◌^◌, ◌≤◌, ◌<◌, ◌≡◌, ◌≢◌, ◌⊎◌, inl, Bool, false, List, [], ◌∷◌, arith, length,
  replicate,
}

module _ {R : Type 0} (ops : RateOps R) where
  -- A probe that an earlier epoch admitted, or a call from before the half-open state, changes
  -- neither the state nor the slots when it ends, whether or not its context or its `fn` failed.
  pub finish_call_stale :
      (gen : ℕ) (slot : Bool) (o : Outcome) (t : Clocks) (b : Breaker R)
      → b.state ≡ half_open
      → b.half_open_gen ≢ gen
      → let b' = finish_call ops gen slot o t b in
        (b'.state ≡ half_open)
        × (b'.half_open_count ≡ b.half_open_count)
        × (b'.half_open_success ≡ b.half_open_success)
        × (b'.half_open_gen ≡ b.half_open_gen)
        × (b'.expiry ≡ b.expiry)
  unfolding finish_call record_success record_failure
  finish_call_stale gen slot o t b h ne = ground arith

  -- what `record_success` does in the half-open state
  pub Recovery : ℕ → ℕ → Breaker R → Type 0
  Recovery gen now b =
      let b' = record_success gen now b in
      ((b'.state ≡ closed)
        × (b.half_open_gen ≡ gen)
        × (b.opts.max_requests ≤ add32 b.half_open_success 1)
        × (b'.window ≡ record {
          counts = replicate (length b.window.counts) 0;
          fails = replicate (length b.window.counts) 0;
          base = now / second;
          sum_total = 0;
          sum_fail = 0;
        })
        × (b'.half_open_success ≡ 0)
        × (b'.half_open_count ≡ 0))
      ⊎ ((b'.state ≡ half_open)
          × (((b.half_open_gen ≢ gen) × (b'.half_open_success ≡ b.half_open_success))
              ⊎ ((b.half_open_gen ≡ gen)
                  × (add32 b.half_open_success 1 < b.opts.max_requests)
                  × (b'.half_open_success ≡ add32 b.half_open_success 1)))
          × (b'.window ≡ b.window)
          × (b'.half_open_count ≡ b.half_open_count))

module _ {R : Type 0} (ops : RateOps R) {max : ℕ} (pos : 0 < max) (small : max + 1 < 2 ^ 31) where
  -- the slots taken in the half-open state are the probes that the schedule has counted
  abbrev Counted : Breaker R → ℕ → Type 0
  Counted b p =
      (b.opts.max_requests ≡ max)
      × (p ≤ max)
      × ((is_half_open b.state ≡ false) ⊎ (b.half_open_count ≡ p))

  -- split on the state by clauses: a breaker is its record with its own state
  record_success-Counted :
      (st : State) (gen now : ℕ) (b : Breaker R) (p : ℕ)
      → Counted (record b { state = st }) p
      → Counted (record_success gen now (record b { state = st })) p
  unfolding record_success is_half_open
  record_success-Counted closed gen now b p c = c
  record_success-Counted open_circuit gen now b p c = c
  record_success-Counted half_open gen now b p c = ground arith

  act-Counted :
      (pc : Pc) (a : Action) (b : Breaker R) (p : ℕ)
      → Counted b p
      → let (pc', b') = act ops pc a b in Counted b' (note_probe pc a b.state pc' p)
  unfolding act settle start_call finish_call before_call to_half_open_or_reject record_success
      record_failure note_probe is_half_open
  act-Counted idle (Action.call now) b p c = ground arith
  act-Counted locking (Action.lock now) b p c = ground arith
  act-Counted admitted (Action.start ctx_err t) b p c = ground arith
  act-Counted (running gen slot) (Action.finish returned t) b p c =
      record_success-Counted b.state gen t.at_record b p c
  act-Counted (running gen slot) (Action.finish failed t) b p c = ground arith
  act-Counted (running gen slot) (Action.finish panicked t) b p c = ground arith
  act-Counted pc a b p c = ground arith

  run-Counted :
      (xs : List (ℕ × Action)) (s : System R)
      → Counted s.breaker s.probes
      → let s' = run ops xs s in Counted s'.breaker s'.probes
  unfolding run
  run-Counted [] s c = c
  run-Counted ((i, a) ∷ xs) s c =
      run-Counted xs (step ops (i, a) s) (act-Counted (s.pcs i) a s.breaker s.probes c)

  -- With `MaxRequests` at least 1 and below 2^31 - 1, and from a breaker that is not half open: in
  -- no schedule of whole actions, with no other call between the stores of one, does a half-open epoch admit more
  -- probes than `MaxRequests`. In the code a caller may come between the stores of `toHalfOpenOrReject`.
  pub probes_le_max :
      (xs : List (ℕ × Action)) (b : Breaker R)
      → b.opts.max_requests ≡ max
      → is_half_open b.state ≡ false
      → (run ops xs (record { breaker = b; pcs = λ i. idle; probes = 0 })).probes ≤ max
  probes_le_max xs b e h = (run-Counted xs _ (e, omega arith, inl h)).1
