-- ===== src/Retry/Attempts.antt =====
-- Which attempts `retry.Do` of retry/retry.go makes, and what it returns.
use kit4go.Retry.{Result, Config, World, goes_on, retries, wait, loop, run}
use kit4go.Common.Int.{pos}
use kit4go.Common.{
  ℕ, zero, suc, ◌+◌, ◌-◌, ◌≤◌, ◌<◌, ◌≡◌, refl, sym, ap, ap₂, ◌∙◌, ◌⊎◌, inl, inr, true, false,
  Option, none, some, arith, Bool-cases, Option-cases,
}

module _ {T E : Type 0} (cfg : Config E) (w : World T E) where
  -- the attempt is made, fails with an error to be retried, and no context ends the wait after it
  pub record Continued (attempt : ℕ) (e : E) : Type 0 where
    pub goes : goes_on cfg.max_attempts attempt ≡ true
    pub live : w.cancelled attempt ≡ none
    pub fails : w.fn attempt ≡ inr e
    pub retried : retries cfg w e ≡ true
    pub waited : wait cfg w attempt ≡ none

  loop-Continued :
      (fuel attempt : ℕ) (last : Option E) (e : E)
      → Continued attempt e
      → loop cfg w (suc fuel) attempt last ≡ loop cfg w fuel (suc attempt) (some e)
  unfolding loop
  loop-Continued fuel attempt last e c = rw (c.goes, c.live, c.fails, c.retried, c.waited) refl

  -- the last error after `k` attempts
  abbrev last_of : Option E → (ℕ → E) → ℕ → ℕ → Option E
  last_of last errs attempt zero = last
  last_of last errs attempt (suc k) = last_of (some (errs attempt)) errs (suc attempt) k

  last_of-suc :
      (last : Option E) (errs : ℕ → E) (attempt k : ℕ)
      → last_of last errs attempt (suc k) ≡ some (errs (attempt + k))
  last_of-suc last errs attempt zero = ap (λ n. some (errs n)) (omega arith)
  last_of-suc last errs attempt (suc k) =
      last_of-suc (some (errs attempt)) errs (suc attempt) k ∙ ap (λ n. some (errs n)) (omega arith)

  last_of-end :
      (n : ℕ) (last : Option E) (errs : ℕ → E) → 0 < n → last_of last errs 1 n ≡ some (errs n)
  last_of-end zero last errs h = absurd (omega arith)
  last_of-end (suc k) last errs h =
      last_of-suc last errs 1 k ∙ ap (λ n. some (errs n)) (omega arith)

  loop-many :
      (k fuel attempt : ℕ) (last : Option E) (errs : ℕ → E)
      → ((i : ℕ) → attempt ≤ i → i < attempt + k → Continued i (errs i))
      → loop cfg w (k + fuel) attempt last
        ≡ loop cfg w fuel (attempt + k) (last_of last errs attempt k)
  loop-many zero fuel attempt last errs all =
      ap₂ (λ f n. loop cfg w f n last) (omega arith) (omega arith)
  loop-many (suc k) fuel attempt last errs all =
      ap (λ f. loop cfg w f attempt last) (omega arith)
      ∙ loop-Continued (k + fuel) attempt last (errs attempt)
          (all attempt (omega arith) (omega arith))
      ∙ loop-many k fuel (suc attempt) (some (errs attempt)) errs
          (λ i lo hi. all i (omega arith) (omega arith))
      ∙ ap (λ n. loop cfg w fuel n (last_of (some (errs attempt)) errs (suc attempt) k))
          (omega arith)

  -- If every one of the `n` attempts of the limit fails with an error to be retried, and no context ends, then
  -- `Do` returns no value, the error of the last attempt, and `n`.
  pub exhausted :
      (n spare : ℕ) (errs : ℕ → E)
      → 0 < n
      → cfg.max_attempts ≡ pos n
      → ((i : ℕ) → 0 < i → i ≤ n → Continued i (errs i))
      → run cfg w (suc n + spare)
        ≡ some (record { value = none; err = some (errs n); tries = pos n })
  unfolding run loop goes_on
  exhausted n spare errs some_attempt limit all =
      ap (λ m. loop cfg w m 1 none) (omega arith)
      ∙ loop-many n (suc spare) 1 none errs (λ i lo hi. all i (omega arith) (omega arith))
      ∙ ap₂ (λ m l. loop cfg w (suc spare) m l) {y = suc n} (omega arith)
          (last_of-end n none errs some_attempt)
      ∙ (let stops : goes_on cfg.max_attempts (suc n) ≡ false = rw limit (ground arith) in
          rw (stops, limit) refl)

  -- a value that `fn` gave at the last attempt, or an error, never both or neither
  abbrev pub Answers : ℕ → Result T E → Type 0
  Answers most r =
      (n : ℕ) × (n ≤ most)
      × (r.tries ≡ pos n)
      × (((v : T) × (r.value ≡ some v) × (r.err ≡ none) × (w.fn n ≡ inl v))
          ⊎ ((e : E) × (r.value ≡ none) × (r.err ≡ some e)))

  fn_cases : (o : T ⊎ E) → ((v : T) × (o ≡ inl v)) ⊎ ((e : E) × (o ≡ inr e))
  fn_cases (inl v) = inl (v, refl)
  fn_cases (inr e) = inr (e, refl)

  below_limit : (attempt most : ℕ) → goes_on (pos most) attempt ≡ true → 0 < most → attempt ≤ most
  unfolding goes_on
  below_limit attempt most goes some_attempt = ground arith

  past_limit : (attempt most : ℕ) → goes_on (pos most) attempt ≡ false → most < attempt
  unfolding goes_on
  past_limit attempt most stops = ground arith

  loop-Answers :
      (fuel attempt most : ℕ) (last : Option E)
      → cfg.max_attempts ≡ pos most
      → 0 < most
      → fuel + attempt ≡ most + 2
      → attempt ≤ suc most
      → (attempt ≡ 1) ⊎ ((e : E) × last ≡ some e)
      → (r : Result T E) × (loop cfg w fuel attempt last ≡ some r) × Answers most r
  unfolding loop goes_on
  loop-Answers zero attempt most last limit some_attempt enough h failed = absurd (omega arith)
  loop-Answers (suc fuel) attempt most last limit some_attempt enough h failed =
      elim (Bool-cases (goes_on cfg.max_attempts attempt)) [
        | inr stops ↦
            let past = past_limit attempt most (sym (ap (λ m. goes_on m attempt) limit) ∙ stops) in
            elim failed [
              | inl first ↦ absurd (omega arith)
              | inr (e, known) ↦
                  rw stops (_, refl, (most, omega arith, limit, inr (e, refl, known)))
            ]
        | inl goes ↦
            let within : attempt ≤ most =
              below_limit attempt most (sym (ap (λ m. goes_on m attempt) limit) ∙ goes)
                some_attempt in
            rw goes (elim (Option-cases (w.cancelled attempt)) [
              | inr (e, ended) ↦
                  rw ended (_, refl, (attempt - 1, omega arith, refl, inr (e, refl, refl)))
              | inl live ↦ rw live (elim (fn_cases (w.fn attempt)) [
                | inl (v, succeeds) ↦
                    rw succeeds (_, refl, (attempt, within, refl, inl (v, refl, refl, succeeds)))
                | inr (e, fails) ↦ rw fails (elim (Bool-cases (retries cfg w e)) [
                  | inr permanent ↦
                      rw permanent (_, refl, (attempt, within, refl, inr (e, refl, refl)))
                  | inl retried ↦ rw retried (elim (Option-cases (wait cfg w attempt)) [
                    | inr (stop, ended) ↦
                        rw ended (_, refl, (attempt, within, refl, inr (stop, refl, refl)))
                    | inl waited ↦ rw waited (
                        loop-Answers fuel (suc attempt) most (some e) limit some_attempt
                          (omega arith) (omega arith) (inr (e, refl)))
                  ])
                ])
              ])
            ])
      ]

  -- With a positive limit of `most` attempts, whatever the callbacks answer, `Do` returns after at most `most + 1`
  -- rounds of the loop: it made at most `most` attempts, and returns either the value of the last one and no error,
  -- or an error and no value.
  pub run-Answers :
      (most : ℕ)
      → cfg.max_attempts ≡ pos most
      → 0 < most
      → (r : Result T E) × (run cfg w (suc most) ≡ some r) × Answers most r
  unfolding run
  run-Answers most limit some_attempt =
      loop-Answers (suc most) 1 most none limit some_attempt (omega arith) (omega arith) (inl refl)
