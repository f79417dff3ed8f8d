-- ===== src/Money/Division.antt =====
-- The rounding of `Money.Div` of money/money.go.
use native.Mathlib.Nat.{div-add-mod', mod-lt, div-le_self, mul-le-mul_left}
use kit4go.Money.{Rounding, Money, eq_ℤ, abs_i64, neg_int64, min_int64, round_dir, div}
use kit4go.Common.Signs.{mag-signed}
use kit4go.Money.Products.{signed-IsInt64}
use kit4go.Common.Int.{
  ℤ, pos, negsuc, wrap_int64, wrap_int64_id, ◌+ℤ◌, ◌-ℤ◌, ◌*ℤ◌, quot, rem, mag, is_neg, differ,
  signed, pos_times,
}
use kit4go.Common.{
  ℕ, suc, ◌+◌, ◌-◌, ◌*◌, ◌/◌, ◌%◌, ◌^◌, ◌≤◌, ◌<◌, ◌≡◌, refl, ap, ◌∙◌, ◌⊎◌, inl, inr, Bool, true,
  false, ◌&&◌, not, arith, ltb, leb, ◌==◌, if◌then◌else◌, Bool-cases,
}

-- `q` is `n / d` in the rounding mode, on magnitudes
abbrev pub Rounds : Rounding → ℕ → ℕ → ℕ → Type 0
Rounds Rounding.round_down n d q = (q * d ≤ n) × (n < q * d + d)
Rounds Rounding.round_up n d q = (n ≤ q * d) × (q * d < n + d)
Rounds Rounding.half_up n d q = (2 * (q * d) ≤ 2 * n + d) × (2 * n < 2 * (q * d) + d)
Rounds Rounding.half_even n d q =
    (2 * (q * d) ≤ 2 * n + d)
    × (2 * n ≤ 2 * (q * d) + d)
    × ((2 * (q * d) ≡ 2 * n + d) ⊎ (2 * n ≡ 2 * (q * d) + d) → q % 2 ≡ 0)

-- the decision of `roundDir` on magnitudes
unfoldable away : Rounding → ℕ → ℕ → ℕ → Bool
away Rounding.round_down r d q = false
away Rounding.round_up r d q = not (r == 0)
away Rounding.half_up r d q = not (r == 0) && leb d (r * 2)
away Rounding.half_even r d q =
    not (r == 0) && (if r * 2 == d then not (q % 2 == 0) else ltb d (r * 2))

up-Rounds :
    (mode : Rounding) (n d q r : ℕ)
    → q * d + r ≡ n
    → r < d
    → away mode r d q ≡ true
    → Rounds mode n d (suc q)
unfolding away
up-Rounds Rounding.round_down n d q r whole less up = absurd (ground arith)
up-Rounds Rounding.round_up n d q r whole less up =
    let next : suc q * d ≡ q * d + d = grind arith in ground arith
up-Rounds Rounding.half_up n d q r whole less up =
    let next : suc q * d ≡ q * d + d = grind arith in ground arith
up-Rounds Rounding.half_even n d q r whole less up =
    let next : suc q * d ≡ q * d + d = grind arith in ground arith

stay-Rounds :
    (mode : Rounding) (n d q r : ℕ)
    → q * d + r ≡ n
    → r < d
    → away mode r d q ≡ false
    → Rounds mode n d q
unfolding away
stay-Rounds Rounding.round_down n d q r whole less stay = ground arith
stay-Rounds Rounding.round_up n d q r whole less stay = ground arith
stay-Rounds Rounding.half_up n d q r whole less stay = ground arith
stay-Rounds Rounding.half_even n d q r whole less stay = ground arith

eq_signed_zero : (s : Bool) (n : ℕ) → eq_ℤ (signed s n) (pos 0) ≡ (n == 0)
unfolding eq_ℤ
eq_signed_zero true n = ground arith
eq_signed_zero false n = refl

pub abs_signed : (s : Bool) (n : ℕ) → n < 2 ^ 63 → abs_i64 (signed s n) ≡ pos n
unfolding abs_i64 neg_int64 wrap_int64 ◌-ℤ◌
abs_signed true n h = ground arith
abs_signed false n h = refl

abs_mag : (a : ℤ) → mag a < 2 ^ 63 → abs_i64 a ≡ pos (mag a)
unfolding abs_i64 neg_int64 wrap_int64 ◌-ℤ◌
abs_mag (pos n) h = refl
abs_mag (negsuc n) h = ground arith

step_signed :
    (s : Bool) (q : ℕ)
    → q < 2 ^ 63 - 1
    → wrap_int64 (signed s q +ℤ (if s then negsuc 0 else pos 1)) ≡ signed s (suc q)
unfolding wrap_int64 ◌+ℤ◌
step_signed true q h = ground arith
step_signed false q h = ground arith

-- what `roundDir` computes, on magnitudes
dir_parts :
    (s t : Bool) (r q : ℕ) (b : ℤ)
    → r < mag b
    → mag b ≤ 2 ^ 62
    → (wrap_int64 (abs_i64 (signed t r) *ℤ pos 2) ≡ pos (r * 2))
      × (abs_i64 b ≡ pos (mag b))
      × (eq_ℤ (signed t r) (pos 0) ≡ (r == 0))
      × (eq_ℤ (rem (signed s q) (pos 2)) (pos 0) ≡ (q % 2 == 0))
unfolding rem
dir_parts s t r q b less small = (
  ap (λ z. wrap_int64 (z *ℤ pos 2)) (abs_signed t r (omega arith))
      ∙ ap wrap_int64 (pos_times r 2)
      ∙ wrap_int64_id (pos (r * 2)) (omega arith),
  abs_mag b (omega arith),
  eq_signed_zero t r,
  eq_signed_zero (is_neg (signed s q)) (mag (signed s q) % 2)
      ∙ ap (λ m. m % 2 == 0) (mag-signed s q),
)

round_dir_lem :
    (mode : Rounding) (s t : Bool) (r q : ℕ) (b : ℤ)
    → r < mag b
    → mag b ≤ 2 ^ 62
    → round_dir (signed t r) b mode (signed s q) ≡ away mode r (mag b) q
unfolding round_dir away eq_ℤ
round_dir_lem Rounding.round_down s t r q b less small = ground arith
round_dir_lem Rounding.round_up s t r q b less small =
    let (twice, size, none_left, parity) = dir_parts s t r q b less small in
    rw none_left (ground arith)
round_dir_lem Rounding.half_up s t r q b less small =
    let (twice, size, none_left, parity) = dir_parts s t r q b less small in
    rw (none_left, twice, size) (ground arith)
round_dir_lem Rounding.half_even s t r q b less small =
    let (twice, size, none_left, parity) = dir_parts s t r q b less small in
    rw (none_left, twice, size, parity) (ground arith)

-- The quotient has room for one more.
quot_room :
    (mode : Rounding) (n d q r : ℕ)
    → q * d + r ≡ n
    → r < d
    → n ≤ 2 ^ 63
    → away mode r d q ≡ true
    → q < 2 ^ 63 - 1
unfolding away
quot_room mode n d q r whole less small up =
    let two : 2 ≤ d = omega (arith, some_rest mode up) in
    let twice : q * 2 ≤ q * d = mul-le-mul_left q two in omega (arith, whole, small, twice)
  where
    some_rest : (mode : Rounding) → away mode r d q ≡ true → 0 < r
    some_rest Rounding.round_down up = absurd (ground arith)
    some_rest Rounding.round_up up = ground arith
    some_rest Rounding.half_up up = ground arith
    some_rest Rounding.half_even up = ground arith

not_least : (a : ℤ) → mag a < 2 ^ 63 → eq_ℤ a min_int64 ≡ false
unfolding eq_ℤ
not_least (pos n) h = refl
not_least (negsuc n) h = ground arith

pub not_zero : (b : ℤ) → 0 < mag b → eq_ℤ b (pos 0) ≡ false
unfolding eq_ℤ
not_zero (pos n) h = ground arith
not_zero (negsuc n) h = refl

-- `Div` of an amount other than the least int64 by a divisor that is not 0 and at most 2^62 in magnitude
-- succeeds, keeps the currency, and gives the quotient in the rounding mode: its magnitude is the quotient
-- of the magnitudes cut (`RoundDown`), rounded up (`RoundUp`), or rounded to the nearest number, where a
-- half goes up (`RoundHalfUp`) or to the even number (`RoundHalfEven`); its sign is that of the exact quotient.
pub div_lem :
    (m : Money) (b : ℤ) (mode : Rounding)
    → mag m.amount < 2 ^ 63
    → 0 < mag b
    → mag b ≤ 2 ^ 62
    → (q : ℕ) × Rounds mode (mag m.amount) (mag b) q
      × (div m b mode
          ≡ inl (record { amount = signed (differ (is_neg m.amount) (is_neg b)) q; cur = m.cur }))
unfolding div quot rem
div_lem m b mode in_range some_b small =
    let a = m.amount in
    let s = differ (is_neg a) (is_neg b) in
    let q = mag a / mag b in
    let r = mag a % mag b in
    let whole : q * mag b + r ≡ mag a = div-add-mod' (mag a) (mag b) in
    let less : r < mag b = mod-lt (mag a) some_b in
    let few : q ≤ mag a = div-le_self (mag a) (mag b) in
    let exact : wrap_int64 (signed s q) ≡ signed s q =
      wrap_int64_id (signed s q) (signed-IsInt64 s q (omega arith)) in
    let dir : round_dir (signed (is_neg a) r) b mode (wrap_int64 (signed s q))
        ≡ away mode r (mag b) q =
      ap (round_dir (signed (is_neg a) r) b mode) exact
      ∙ round_dir_lem mode s (is_neg a) r q b less small in
    elim (Bool-cases (away mode r (mag b) q)) [
      | inr stay ↦ (
        q,
        stay-Rounds mode (mag a) (mag b) q r whole less stay,
        rw (not_zero b some_b, not_least a in_range, dir, stay, exact) refl,
      )
      | inl up ↦
          let room = quot_room mode (mag a) (mag b) q r whole less (omega arith) up in
          (
            suc q,
            up-Rounds mode (mag a) (mag b) q r whole less up,
            rw (not_zero b some_b, not_least a in_range, dir, up, exact, step_signed s q room) refl,
          )
    ]
