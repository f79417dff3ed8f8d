-- ===== src/Decimal.antt =====
-- `decimal.Decimal` of decimal/decimal.go. A `*big.Int` is an integer, and none the nil of a zero value; the
-- scale is a number, since no operation makes a negative one. A string is the list of its bytes. The decimal
-- digits of a number and the reading of a string are those of math/big, a parameter. `int64` arguments are
-- integers of any size.
use kit4go.Common.Int.{
  ℤ, pos, negsuc, pos_part, neg_part, ◌+ℤ◌, ◌-ℤ◌, ◌*ℤ◌, quot, mag, is_neg, ltb_ℤ, signed,
}
use kit4go.Common.{
  ℕ, zero, suc, ◌+◌, ◌-◌, ◌^◌, ◌⊎◌, inl, inr, Bool, true, false, ◌||◌, Option, none, some, List, [],
  ◌∷◌, ◌++◌, ltb, leb, ◌==◌, if◌then◌else◌, length, take, drop, replicate,
}
pub mod Text
mod Digits
pub mod Laws
mod Tests

pub record Decimal : Type 0 where
  pub value : Option ℤ
  pub scale : ℕ

pub data DecimalError : Type 0 where
  parse_error scale_mismatch negative_scale divide_by_zero : DecimalError

abbrev of_value : ℤ → ℕ → Decimal
of_value v scale = record { value = some v; scale = scale }

-- `none` is the panic
unfoldable pub new : ℤ → ℤ → Option Decimal
new unscaled (pos scale) = some (of_value unscaled scale)
new unscaled (negsuc scale) = none

unfoldable pub from_int : ℤ → Option Decimal
unfolding new
from_int v = new v (pos 0)

unfoldable pub value_or_zero : Decimal → ℤ
value_or_zero d = elim d.value [ none ↦ pos 0 | some v ↦ v ]

unfoldable pub sign_of : ℤ → ℤ
sign_of (pos zero) = pos 0
sign_of (pos (suc n)) = pos 1
sign_of (negsuc n) = negsuc 0

unfoldable pub sign : Decimal → ℤ
unfolding sign_of
sign d = elim d.value [ none ↦ pos 0 | some v ↦ sign_of v ]

unfoldable pub is_zero : Decimal → Bool
unfolding sign
is_zero d = mag (sign d) == 0

unfoldable pub add : Decimal → Decimal → Decimal ⊎ DecimalError
unfolding value_or_zero
add d other =
    if d.scale == other.scale
    then inl (of_value (value_or_zero d +ℤ value_or_zero other) d.scale)
    else inr DecimalError.scale_mismatch

unfoldable pub sub : Decimal → Decimal → Decimal ⊎ DecimalError
unfolding value_or_zero
sub d other =
    if d.scale == other.scale
    then inl (of_value (value_or_zero d -ℤ value_or_zero other) d.scale)
    else inr DecimalError.scale_mismatch

unfoldable pub mul : ℤ → Decimal → Decimal
unfolding value_or_zero
mul factor d = of_value (value_or_zero d *ℤ factor) d.scale

unfoldable pub mul_decimal : Decimal → Decimal → Decimal
unfolding value_or_zero
mul_decimal d other = of_value (value_or_zero d *ℤ value_or_zero other) (d.scale + other.scale)

unfoldable pub div : ℤ → Decimal → Decimal ⊎ DecimalError
unfolding value_or_zero
div divisor d =
    if mag divisor == 0
    then inr DecimalError.divide_by_zero
    else inl (of_value (quot (value_or_zero d) divisor) d.scale)

-- `big.Int.Cmp`
unfoldable pub cmp_value : ℤ → ℤ → ℤ
cmp_value a b = if ltb_ℤ a b then negsuc 0 else if ltb_ℤ b a then pos 1 else pos 0

unfoldable pub cmp : Decimal → Decimal → ℤ ⊎ DecimalError
unfolding value_or_zero cmp_value
cmp d other =
    if d.scale == other.scale
    then inl (cmp_value (value_or_zero d) (value_or_zero other))
    else inr DecimalError.scale_mismatch

unfoldable pub negate : Decimal → Decimal
unfolding value_or_zero
negate d = of_value (pos 0 -ℤ value_or_zero d) d.scale

unfoldable pub abs : Decimal → Decimal
unfolding value_or_zero
abs d =
    if is_neg (value_or_zero d)
    then of_value (pos (mag (value_or_zero d))) d.scale
    else elim d.value [ none ↦ of_value (pos 0) d.scale | some v ↦ d ]

unfoldable pub rescale : ℤ → Decimal → Decimal
unfolding value_or_zero
rescale (negsuc new_scale) d = d
rescale (pos new_scale) d =
    if new_scale == d.scale
    then d
    else if ltb d.scale new_scale
    then of_value (value_or_zero d *ℤ pos (10 ^ (new_scale - d.scale))) new_scale
    else of_value (quot (value_or_zero d) (pos (10 ^ (d.scale - new_scale)))) new_scale

-- `strings.SplitN(s, ".", 2)`: what is before the first point, and what is after it
unfoldable pub split_point : List ℕ → List ℕ × List ℕ
split_point [] = ([], [])
split_point (b ∷ bs) =
    let (whole, frac) = split_point bs in if b == 46 then ([], bs) else (b ∷ whole, frac)

-- the loop that pads with zeros, with so many rounds at most
unfoldable pub pad : ℕ → ℕ → List ℕ → List ℕ
pad zero scale str = str
pad (suc fuel) scale str = if leb (length str) scale then pad fuel scale (48 ∷ str) else str

unfoldable pub is_sign : ℕ → Bool
is_sign b = b == 43 || b == 45

-- the sign that `Parse` cuts off, and the rest
unfoldable pub cut_sign : List ℕ → Bool × List ℕ
cut_sign [] = (false, [])
cut_sign (b ∷ bs) = if b == 45 then (true, bs) else if b == 43 then (false, bs) else (false, b ∷ bs)

unfoldable pub bad_start : List ℕ → Bool
unfolding is_sign
bad_start [] = true
bad_start (b ∷ bs) = is_sign b

-- the digits of the absolute value with the point in them
unfoldable pub point : ℕ → List ℕ → List ℕ
unfolding pad
point scale str =
    let str' = pad (suc scale) scale str in
    let cut = length str' - scale in
    if scale == 0 then str else take cut str' ++ (46 ∷ drop cut str')

-- `big.Int.String` of a number and `big.Int.SetString` in base 10
module _ (digits : ℕ → List ℕ) (set_string : List ℕ → Option ℤ) where
  unfoldable pub parse_unsigned : Bool → ℕ → List ℕ → Decimal ⊎ DecimalError
  unfolding split_point bad_start
  parse_unsigned neg scale s =
      let (whole, frac) = split_point s in
      if bad_start s || ltb scale (length frac)
      then inr DecimalError.parse_error
      else elim (set_string (whole ++ (frac ++ replicate (scale - length frac) 48))) [
        | none ↦ inr DecimalError.parse_error
        | some v ↦ inl (of_value (if neg then pos 0 -ℤ v else v) scale)
      ]

  unfoldable pub parse : List ℕ → ℤ → Decimal ⊎ DecimalError
  unfolding parse_unsigned cut_sign
  parse s (negsuc scale) = inr DecimalError.negative_scale
  parse [] (pos scale) = inr DecimalError.parse_error
  parse (b ∷ bs) (pos scale) = let (neg, s) = cut_sign (b ∷ bs) in parse_unsigned neg scale s

  unfoldable pub to_string : Decimal → List ℕ
  unfolding point
  to_string d = elim d.value [
    | none ↦ 48 ∷ []
    | some v ↦ let str = point d.scale (digits (mag v)) in if is_neg v then 45 ∷ str else str
  ]
