-- ===== src/Money/Major.antt =====
-- `FromMajor` of money/money.go. `registry` stands for the currencies of money/currency.go.
use kit4go.Money.{Currency, Money, MoneyError, eq_ℤ, min_int64, mul_checked}
use kit4go.Common.Int.{ℤ, pos, wrap_int64, ◌+ℤ◌, ◌-ℤ◌, mag, is_neg, differ}
use kit4go.Common.{
  ℕ, zero, suc, ◌/◌, ◌⊎◌, inl, inr, ◌&&◌, ◌||◌, not, Option, none, some, List, ltb, ◌==◌,
  if◌then◌else◌,
}

-- the length of `strconv.Itoa(n)`; an int64 has at most 19 digits
unfoldable pub digits : ℕ → ℕ → ℕ
digits zero n = 1
digits (suc fuel) n = let rest = digits fuel (n / 10) in if ltb n 10 then 1 else suc rest

-- the length of `strconv.Itoa(absInt(frac))`, where the least int64 keeps its sign
unfoldable pub frac_digits : ℤ → ℕ
unfolding digits eq_ℤ
frac_digits frac = if eq_ℤ frac min_int64 then 20 else digits 19 (mag frac)

-- the loop that multiplies by ten for each decimal
unfoldable pub scale_up : ℕ → ℤ → Option ℤ
scale_up zero minor = some minor
scale_up (suc n) minor = elim (mul_checked minor (pos 10)) [
  | none ↦ none
  | some next ↦ scale_up n next
]

-- the amount, once the whole part is scaled; the sum is not checked
unfoldable pub join_parts : Currency → ℤ → ℤ → Option ℤ → Money ⊎ MoneyError
unfolding eq_ℤ
join_parts c whole frac none = inr MoneyError.overflow
join_parts c whole frac (some minor) =
    let scaled = pos (mag frac) in
    let sum =
      if is_neg whole || is_neg frac
      then wrap_int64 (minor -ℤ scaled)
      else wrap_int64 (minor +ℤ scaled) in
    if eq_ℤ sum min_int64 then inr MoneyError.overflow else inl (record { amount = sum; cur = c })

unfoldable pub from_major : (List ℕ → Option Currency) → ℤ → ℤ → List ℕ → Money ⊎ MoneyError
unfolding eq_ℤ frac_digits scale_up join_parts
from_major registry whole frac code = elim (registry code) [
  | none ↦ inr MoneyError.unknown_currency
  | some c ↦
      if c.decimals == 0
      then (if not (eq_ℤ frac (pos 0))
          then inr MoneyError.invalid_amount
          else if eq_ℤ whole min_int64
          then inr MoneyError.overflow
          else inl (record { amount = whole; cur = c }))
      else if differ (is_neg whole) (is_neg frac)
          && not (eq_ℤ whole (pos 0))
          && not (eq_ℤ frac (pos 0))
      then inr MoneyError.invalid_amount
      else if ltb c.decimals (frac_digits frac)
      then inr MoneyError.invalid_amount
      else join_parts c whole frac (scale_up c.decimals whole)
]
