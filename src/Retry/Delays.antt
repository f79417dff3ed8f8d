-- ===== src/Retry/Delays.antt =====
-- `ExponentialBackoff` of retry/retry.go, on int64 durations.
use native.Mathlib.Nat.{pow-le-pow_right, mul-le-mul_left, mul-pos}
use kit4go.Common.Int.{ℤ, pos, wrap_int64, ltb_ℤ, pos_part, ◌*ℤ◌, pos_times, wrap_int64_id}
use kit4go.Common.{
  ℕ, ◌-◌, ◌*◌, ◌^◌, ◌≤◌, ◌<◌, min, ◌≡◌, ap, ◌∙◌, inl, inr, ◌||◌, arith, ltb, leb, if◌then◌else◌,
  Bool-cases,
}

-- attempts count from 1; a shift by a negative number, which panics, is not reached by `Do`
unfoldable pub exponential_backoff : ℤ → ℤ → ℕ → ℤ
exponential_backoff base most attempt =
    let d = wrap_int64 (base *ℤ pos (2 ^ (attempt - 1))) in
    if ltb 30 attempt || ltb_ℤ most d || leb (pos_part d) 0 then most else d

-- With a positive base below 2^34 nanoseconds, which is 17 seconds, and a positive maximum, the delay after
-- one of the first 30 attempts is the base doubled for each attempt before it, cut at the maximum, and the
-- delay after a later attempt is the maximum.
pub exponential_lem :
    (base most attempt : ℕ)
    → 0 < base
    → base < 2 ^ 34
    → 0 < most
    → most < 2 ^ 63
    → 0 < attempt
    → exponential_backoff (pos base) (pos most) attempt
      ≡ (if leb attempt 30 then pos (min (base * 2 ^ (attempt - 1)) most) else pos most)
unfolding exponential_backoff
exponential_lem base most attempt some_base low some_most in_range first =
    elim (Bool-cases (leb attempt 30)) [
      | inr late ↦ ground arith
      | inl early ↦
          let factor : 2 ^ (attempt - 1) ≤ 2 ^ 29 =
            pow-le-pow_right {n = 2} (omega arith) {j = 29} (ground arith) in
          let grown : 0 < 2 ^ (attempt - 1) =
            pow-le-pow_right {n = 2} (omega arith) {i = 0} {j = attempt - 1} (omega arith) in
          let product : base * 2 ^ (attempt - 1) < 2 ^ 63 =
            omega (arith, mul-le-mul_left base factor) in
          let positive : 0 < base * 2 ^ (attempt - 1) = mul-pos some_base grown in
          let exact : wrap_int64 (pos base *ℤ pos (2 ^ (attempt - 1)))
              ≡ pos (base * 2 ^ (attempt - 1)) =
            ap wrap_int64 (pos_times base (2 ^ (attempt - 1)))
            ∙ wrap_int64_id (pos (base * 2 ^ (attempt - 1))) product in
          rw exact (ground arith)
    ]
