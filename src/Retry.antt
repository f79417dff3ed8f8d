-- ===== src/Retry.antt =====
-- `retry.Do` and the backoffs of retry/retry.go. The callbacks are parameters: `fn` gives the outcome of
-- each attempt, `cancelled` the error of the context before an attempt, `interrupted` its error if it ends
-- while the attempt's delay runs. `Do` runs on fuel, since 0 attempts mean no limit; the counter of the
-- attempts is not cut at 63 bits. An absent value is Go's zero value.
use kit4go.Common.Int.{ℤ, pos, negsuc, pos_part}
use kit4go.Common.{
  ℕ, zero, suc, ◌-◌, ◌⊎◌, inl, inr, Bool, true, false, ◌&&◌, ◌||◌, Option, none, some, ltb, leb,
  ◌==◌, if◌then◌else◌,
}
pub mod Attempts
pub mod Delays
mod Tests

pub record Result (T E : Type 0) : Type 0 where
  pub value : Option T
  pub err : Option E
  pub tries : ℤ

pub record Config (E : Type 0) : Type 0 where
  pub max_attempts : ℤ
  pub backoff : ℕ → ℤ
  pub is_retryable : Option (E → Bool)

-- what the callbacks answer
pub record World (T E : Type 0) : Type 0 where
  pub fn : ℕ → T ⊎ E
  pub cancelled : ℕ → Option E
  pub interrupted : ℕ → Option E

unfoldable pub constant_backoff : ℤ → ℕ → ℤ
constant_backoff d attempt = d

unfoldable pub no_backoff : ℕ → ℤ
no_backoff attempt = pos 0

unfoldable pub default_config : {E : Type 0} → Config E
default_config = record { max_attempts = pos 3; backoff = no_backoff; is_retryable = none }

-- `cfg.MaxAttempts == 0 || attempt <= cfg.MaxAttempts`
unfoldable pub goes_on : ℤ → ℕ → Bool
goes_on (pos n) attempt = n == 0 || leb attempt n
goes_on (negsuc n) attempt = false

-- `cfg.MaxAttempts == 0 || attempt < cfg.MaxAttempts`
unfoldable pub has_next : ℤ → ℕ → Bool
has_next (pos n) attempt = n == 0 || ltb attempt n
has_next (negsuc n) attempt = false

module _ {T E : Type 0} (cfg : Config E) (w : World T E) where
  -- the classifier
  unfoldable pub retries : E → Bool
  retries e = elim cfg.is_retryable [ none ↦ true | some p ↦ p e ]

  -- the error that ends the wait before the next attempt
  unfoldable pub wait : ℕ → Option E
  unfolding has_next
  wait attempt =
      if has_next cfg.max_attempts attempt && ltb 0 (pos_part (cfg.backoff attempt))
      then w.interrupted attempt
      else none

  -- the loop from an attempt on, with `lastErr`; `none` is that the fuel ran out
  unfoldable pub loop : ℕ → ℕ → Option E → Option (Result T E)
  unfolding goes_on retries wait
  loop zero attempt last_err = none
  loop (suc fuel) attempt last_err =
      if goes_on cfg.max_attempts attempt
      then elim (w.cancelled attempt) [
        | some e ↦ some (record { value = none; err = some e; tries = pos (attempt - 1) })
        | none ↦ elim (w.fn attempt) [
          | inl v ↦ some (record { value = some v; err = none; tries = pos attempt })
          | inr e ↦ elim (retries e) [
            | false ↦ some (record { value = none; err = some e; tries = pos attempt })
            | true ↦ elim (wait attempt) [
              | some stop ↦ some (record { value = none; err = some stop; tries = pos attempt })
              | none ↦ loop fuel (suc attempt) (some e)
            ]
          ]
        ]
      ]
      else some (record { value = none; err = last_err; tries = cfg.max_attempts })

  unfoldable pub run : ℕ → Option (Result T E)
  run fuel = loop fuel 1 none
