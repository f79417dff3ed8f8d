-- ===== src/Money.antt =====
-- `money.Money` of money/money.go, on int64 minor units. The registry of currencies of money/currency.go is
-- the function `registry`. Integer operators wrap as Go's do. What `Allocate` does on float64 is
-- three parameters; `Scale`, `Parse` and `String` are left out.
use kit4go.Common.Int.{
  ℤ, pos, negsuc, wrap_int64, ◌+ℤ◌, ◌-ℤ◌, ◌*ℤ◌, quot, rem, mag, is_neg, differ, ltb_ℤ,
}
use kit4go.Common.{
  ℕ, ◌-◌, ◌^◌, ◌⊎◌, inl, inr, Bool, true, false, ◌&&◌, ◌||◌, not, Option, none, some, List, [], ◌∷◌,
  ◌==◌, if◌then◌else◌,
}
pub mod Products
pub mod Checked
pub mod Division
pub mod Arithmetic
pub mod Allocate
pub mod Major
pub mod Shares
pub mod Remainder
mod Tests

pub record Currency : Type 0 where
  pub code : List ℕ
  pub numeric : List ℕ
  pub decimals : ℕ

pub data MoneyError : Type 0 where
  currency_mismatch unknown_currency overflow invalid_amount divide_by_zero : MoneyError
  no_ratios negative_ratio zero_ratios : MoneyError

pub data Rounding : Type 0 where
  half_up half_even round_down round_up : Rounding

pub record Money : Type 0 where
  pub amount : ℤ
  pub cur : Currency

unfoldable pub eq_ℤ : ℤ → ℤ → Bool
eq_ℤ (pos a) (pos b) = a == b
eq_ℤ (pos a) (negsuc b) = false
eq_ℤ (negsuc a) (pos b) = false
eq_ℤ (negsuc a) (negsuc b) = a == b

-- `==` of strings
unfoldable pub eq_bytes : List ℕ → List ℕ → Bool
eq_bytes [] [] = true
eq_bytes [] (b ∷ bs) = false
eq_bytes (a ∷ rest) [] = false
eq_bytes (a ∷ rest) (b ∷ bs) = a == b && eq_bytes rest bs

-- `==` of two Currency structs
unfoldable pub same_currency : Currency → Currency → Bool
unfolding eq_bytes
same_currency a b =
    eq_bytes a.code b.code && eq_bytes a.numeric b.numeric && a.decimals == b.decimals

-- the value of `math.MinInt64`
abbrev pub min_int64 : ℤ
min_int64 = negsuc (2 ^ 63 - 1)

unfoldable pub add_checked : ℤ → ℤ → Option ℤ
add_checked a b =
    let s = wrap_int64 (a +ℤ b) in if differ (ltb_ℤ a s) (ltb_ℤ (pos 0) b) then none else some s

-- the sign bits of `a ^ b` and `a ^ d`
unfoldable pub sub_checked : ℤ → ℤ → Option ℤ
sub_checked a b =
    let d = wrap_int64 (a -ℤ b) in
    if differ (is_neg a) (is_neg b) && differ (is_neg a) (is_neg d) then none else some d

unfoldable pub mul_checked : ℤ → ℤ → Option ℤ
unfolding eq_ℤ
mul_checked a b =
    if eq_ℤ a (pos 0) || eq_ℤ b (pos 0)
    then some (pos 0)
    else if eq_ℤ a min_int64 && eq_ℤ b (negsuc 0)
    then none
    else (let p = wrap_int64 (a *ℤ b) in if eq_ℤ (wrap_int64 (quot p b)) a then some p else none)

-- `-x`
unfoldable pub neg_int64 : ℤ → ℤ
neg_int64 x = wrap_int64 (pos 0 -ℤ x)

unfoldable pub abs_i64 : ℤ → ℤ
unfolding neg_int64
abs_i64 x = if is_neg x then neg_int64 x else x

-- whether the quotient moves one step away from zero
unfoldable pub round_dir : ℤ → ℤ → Rounding → ℤ → Bool
unfolding eq_ℤ abs_i64
round_dir r divisor mode q =
    let twice = wrap_int64 (abs_i64 r *ℤ pos 2) in
    let abs_div = abs_i64 divisor in
    if eq_ℤ r (pos 0) then false else elim mode [
      | round_down ↦ false
      | round_up ↦ true
      | half_even ↦
          if eq_ℤ twice abs_div then not (eq_ℤ (rem q (pos 2)) (pos 0)) else ltb_ℤ abs_div twice
      | half_up ↦ not (ltb_ℤ twice abs_div)
    ]

-- a checked amount in a currency
unfoldable pub in_currency : Currency → Option ℤ → Money ⊎ MoneyError
in_currency c none = inr MoneyError.overflow
in_currency c (some n) = inl (record { amount = n; cur = c })

unfoldable pub add : Money → Money → Money ⊎ MoneyError
unfolding same_currency in_currency add_checked
add m other =
    if same_currency m.cur other.cur
    then in_currency m.cur (add_checked m.amount other.amount)
    else inr MoneyError.currency_mismatch

unfoldable pub sub : Money → Money → Money ⊎ MoneyError
unfolding same_currency in_currency sub_checked
sub m other =
    if same_currency m.cur other.cur
    then in_currency m.cur (sub_checked m.amount other.amount)
    else inr MoneyError.currency_mismatch

unfoldable pub mul : Money → ℤ → Money ⊎ MoneyError
unfolding in_currency mul_checked
mul m factor = in_currency m.cur (mul_checked m.amount factor)

unfoldable pub div : Money → ℤ → Rounding → Money ⊎ MoneyError
unfolding eq_ℤ round_dir
div m divisor mode =
    if eq_ℤ divisor (pos 0)
    then inr MoneyError.divide_by_zero
    else if eq_ℤ m.amount min_int64 && eq_ℤ divisor (negsuc 0)
    then inr MoneyError.overflow
    else (let q = wrap_int64 (quot m.amount divisor) in
        let r = rem m.amount divisor in
        let step = if differ (is_neg m.amount) (is_neg divisor) then negsuc 0 else pos 1 in
        inl (record {
          amount = if round_dir r divisor mode q then wrap_int64 (q +ℤ step) else q;
          cur = m.cur;
        }))

unfoldable pub negate : Money → Money
unfolding neg_int64
negate m = record m { amount = neg_int64 m.amount }

unfoldable pub abs : Money → Money
unfolding neg_int64
abs m = if is_neg m.amount then record m { amount = neg_int64 m.amount } else m

-- -1, 0 or 1
unfoldable pub cmp : Money → Money → ℤ ⊎ MoneyError
unfolding same_currency
cmp m other =
    if same_currency m.cur other.cur
    then inl (
        if ltb_ℤ m.amount other.amount
        then negsuc 0
        else if ltb_ℤ other.amount m.amount
        then pos 1
        else pos 0)
    else inr MoneyError.currency_mismatch

unfoldable pub equal : Money → Money → Bool
unfolding eq_ℤ same_currency
equal m other = eq_ℤ m.amount other.amount && same_currency m.cur other.cur

unfoldable pub from_minor : (List ℕ → Option Currency) → ℤ → List ℕ → Money ⊎ MoneyError
unfolding eq_ℤ
from_minor registry minor code = elim (registry code) [
  | none ↦ inr MoneyError.unknown_currency
  | some c ↦
      if eq_ℤ minor min_int64
      then inr MoneyError.overflow
      else inl (record { amount = minor; cur = c })
]
