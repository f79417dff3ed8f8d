-- ===== src/Decimal/Tests.antt =====
-- Runs of decimal/decimal.go, and its theorems at concrete inputs.
use kit4go.Decimal.{
  Decimal, DecimalError, of_value, value_or_zero, sign, add, sub, cmp, rescale, parse,
  parse_unsigned, split_point, cut_sign, bad_start, is_sign, to_string, point, pad,
}
use kit4go.Decimal.Digits.{digits, read_digits, low_digits, flip, count_up, weigh, big_text}
use kit4go.Decimal.Text.{parse-to_string}
use kit4go.Decimal.Laws.{add-sub-cmp, rescale_back}
use kit4go.Common.Int.{pos, negsuc}
use kit4go.Common.{ℕ, ◌≡◌, refl, ◌≢◌, ◌⊎◌, inl, inr, List, [], ◌∷◌}

-- -0.05, and its text
abbrev minus_five : Decimal
minus_five = of_value (negsuc 4) 2

abbrev minus_five_text : List ℕ
minus_five_text = 45 ∷ 48 ∷ 46 ∷ 48 ∷ 53 ∷ []

to_string_five : to_string digits read_digits minus_five ≡ minus_five_text
unfolding to_string point pad digits low_digits flip count_up
to_string_five = refl

-- "1.5" with three places
parse_padded : parse digits read_digits (49 ∷ 46 ∷ 53 ∷ []) (pos 3) ≡ inl (of_value (pos 1500) 3)
unfolding parse parse_unsigned split_point cut_sign bad_start is_sign read_digits weigh flip
parse_padded = refl

-- a doubled sign
parse_doubled : parse digits read_digits (43 ∷ 45 ∷ 53 ∷ []) (pos 2) ≡ inr DecimalError.parse_error
unfolding parse parse_unsigned split_point cut_sign bad_start is_sign read_digits weigh flip
parse_doubled = refl

parse-to_string_example :
    parse digits read_digits (to_string digits read_digits minus_five) (pos 2) ≡ inl minus_five
parse-to_string_example = parse-to_string digits read_digits big_text (negsuc 4) 2

rescale_back_example : rescale (pos 2) (rescale (pos 5) minus_five) ≡ minus_five
rescale_back_example = rescale_back (negsuc 4) 2 3

add-sub-cmp_example :
    ((minus_five.scale ≡ minus_five.scale)
      × ((s : Decimal) × (add minus_five minus_five ≡ inl s) × (sub s minus_five ≡ inl minus_five))
      × ((m : Decimal) × (sub minus_five minus_five ≡ inl m)
          × (cmp minus_five minus_five ≡ inl (sign m))))
    ⊎ ((minus_five.scale ≢ minus_five.scale)
        × (add minus_five minus_five ≡ inr DecimalError.scale_mismatch)
        × (sub minus_five minus_five ≡ inr DecimalError.scale_mismatch)
        × (cmp minus_five minus_five ≡ inr DecimalError.scale_mismatch))
unfolding value_or_zero
add-sub-cmp_example = add-sub-cmp minus_five minus_five
