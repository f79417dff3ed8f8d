-- ===== src/Retry/Tests.antt =====
-- Tests of the retry loop and its delays.
use kit4go.Retry.{Result, Config, World, goes_on, retries, has_next, wait, loop, run, no_backoff}
use kit4go.Retry.Attempts.{Continued, exhausted, Answers, run-Answers}
use kit4go.Retry.Delays.{exponential_backoff}
use kit4go.Common.Int.{pos, negsuc, wrap_int64, ◌*ℤ◌}
use kit4go.Common.{
  ℕ, ◌+◌, ◌^◌, ◌≤◌, ◌<◌, ◌≡◌, refl, ◌⊎◌, inl, inr, none, some, arith, leb, if◌then◌else◌,
}

-- attempts 1 and 2 fail with the errors 11 and 12, and the others succeed
abbrev answer : ℕ → ℕ ⊎ ℕ
answer attempt = if leb attempt 2 then inr (attempt + 10) else inl attempt

abbrev third_time : World ℕ ℕ
third_time = record { fn = answer; cancelled = λ n. none; interrupted = λ n. none }

abbrev always_failing : World ℕ ℕ
always_failing = record { fn = λ n. inr (n + 10); cancelled = λ n. none; interrupted = λ n. none }

abbrev limit_of : ℕ → Config ℕ
limit_of n = record { max_attempts = pos n; backoff = no_backoff; is_retryable = none }

fails_early : (i : ℕ) → 0 < i → i < 3 → Continued (limit_of 0) third_time i (i + 10)
unfolding goes_on retries wait has_next no_backoff
fails_early i lo hi = record {
  goes = refl;
  live = refl;
  fails = ground arith;
  retried = refl;
  waited = refl;
}

fails_always : (i : ℕ) → 0 < i → i ≤ 2 → Continued (limit_of 2) always_failing i (i + 10)
unfolding goes_on retries wait has_next no_backoff
fails_always i lo hi = record {
  goes = ground arith;
  live = refl;
  fails = refl;
  retried = refl;
  waited = ground arith;
}

exhausted_example :
    run (limit_of 2) always_failing (3 + 5)
    ≡ some (record { value = none; err = some 12; tries = pos 2 })
exhausted_example =
    exhausted (limit_of 2) always_failing 2 5 (λ i. i + 10) (omega arith) refl fails_always

run-Answers_example :
    (r : Result ℕ ℕ) × (run (limit_of 2) third_time 3 ≡ some r)
    × Answers (limit_of 2) third_time 2 r
run-Answers_example = run-Answers (limit_of 2) third_time 2 refl (omega arith)

-- a limit below 0 gives neither a value nor an error
negative_limit :
    run (record { max_attempts = negsuc 0; backoff = no_backoff; is_retryable = none }) third_time 9
    ≡ some (record { value = none; err = none; tries = negsuc 0 })
unfolding run loop goes_on
negative_limit = refl

-- twice the bound of the base, doubled 29 times, has wrapped to half a second
wrapped_delay : exponential_backoff (pos (2 ^ 35 + 1)) (pos (2 ^ 60)) 30 ≡ pos (2 ^ 29)
unfolding exponential_backoff wrap_int64 ◌*ℤ◌
wrapped_delay = refl
