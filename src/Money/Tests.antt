-- ===== src/Money/Tests.antt =====
-- Tests of money.
use kit4go.Money.{
  eq_ℤ, mul_checked, abs_i64, Currency, Money, MoneyError, Rounding, same_currency, eq_bytes,
  in_currency, add_checked, add, sub, div,
}
use kit4go.Money.Arithmetic.{sub-add}
use kit4go.Money.Division.{Rounds, div_lem}
use kit4go.Money.Major.{digits, frac_digits, scale_up, join_parts, from_major}
use kit4go.Money.Shares.{total}
use kit4go.Money.Allocate.{
  sum_ratios, split, best_from, best_of, lower_at, distribute, fracs_of, hand_out, allocate,
}
use kit4go.Money.Remainder.{allocate_lem}
use kit4go.Common.Int.{ℤ, quot, pos, negsuc, wrap_int64, ◌+ℤ◌, ◌-ℤ◌, ◌*ℤ◌, signed, ltb_ℤ}
use kit4go.Common.{
  ℕ, ◌-◌, ◌*◌, ◌^◌, ◌≤◌, ◌≡◌, refl, ◌⊎◌, inl, inr, Bool, true, some, List, [], ◌∷◌, map, arith,
  length,
}

abbrev usd : Currency
usd = record { code = 85 ∷ 83 ∷ 68 ∷ []; numeric = 56 ∷ 52 ∷ 48 ∷ []; decimals = 2 }

abbrev dollars : ℤ → Money
dollars n = record { amount = n; cur = usd }

sum_of_two : add (dollars (pos 250)) (dollars (negsuc 299)) ≡ inl (dollars (negsuc 49))
unfolding add same_currency eq_bytes in_currency add_checked wrap_int64 ◌+ℤ◌
sum_of_two = refl

sub-add_example : sub (dollars (negsuc 49)) (dollars (negsuc 299)) ≡ inl (dollars (pos 250))
sub-add_example =
    sub-add (dollars (pos 250)) (dollars (negsuc 299)) (dollars (negsuc 49)) (omega arith)
      (omega arith) sum_of_two

div_lem_example :
    (q : ℕ) × Rounds Rounding.half_even 25 10 q
    × (div (dollars (negsuc 24)) (pos 10) Rounding.half_even ≡ inl (dollars (signed true q)))
div_lem_example =
    div_lem (dollars (negsuc 24)) (pos 10) Rounding.half_even (omega arith) (omega arith)
      (omega arith)

-- fractions as numerators over the total
abbrev frac : ℤ → ℤ → ℤ → ℤ → ℤ
unfolding ◌*ℤ◌ ◌-ℤ◌
frac amount ratio sum share = amount *ℤ ratio -ℤ share *ℤ sum

abbrev above : ℤ → ℤ → Bool
above a b = ltb_ℤ b a

abbrev less_step : ℤ → ℤ → ℤ
unfolding ◌*ℤ◌ ◌-ℤ◌
less_step a step = a -ℤ step *ℤ pos 4

allocate_lem_example :
    ((allocate frac above less_step (dollars (negsuc 6)) (map pos (1 ∷ 1 ∷ 2 ∷ []))
        ≡ inr MoneyError.overflow)
      × (2 ^ 63 ≤ 7 * total (1 ∷ 1 ∷ 2 ∷ [])))
    ⊎ ((ms : List ℕ) × (length ms ≡ 3)
        × (total ms ≡ 7)
        × (allocate frac above less_step (dollars (negsuc 6)) (map pos (1 ∷ 1 ∷ 2 ∷ []))
            ≡ inl (map (λ n. dollars n) (map (signed true) ms))))
allocate_lem_example =
    allocate_lem frac above less_step (dollars (negsuc 6)) (1 ∷ 1 ∷ 2 ∷ []) (omega arith)
      (omega arith) (omega arith)

-- Three units that a negative amount leaves all go to the first of four equal shares.
piled_up :
    allocate frac above less_step (dollars (negsuc 6)) (map pos (1 ∷ 1 ∷ 1 ∷ 1 ∷ []))
    ≡ inl (map (λ n. dollars n) (negsuc 3 ∷ negsuc 0 ∷ negsuc 0 ∷ negsuc 0 ∷ []))
unfolding allocate frac less_step wrap_int64 ◌+ℤ◌ ◌-ℤ◌ ◌*ℤ◌ sum_ratios eq_ℤ split mul_checked quot
    hand_out distribute abs_i64 best_of fracs_of best_from lower_at
piled_up = refl

-- The cents are added without a test: an amount just above the greatest int64 turns negative.
wrapped_major :
    from_major (λ code. some usd) (pos 92233720368547758) (pos 99) []
    ≡ inl (dollars (negsuc (2 ^ 63 - 92)))
unfolding from_major scale_up join_parts frac_digits digits mul_checked eq_ℤ quot wrap_int64 ◌+ℤ◌
    ◌-ℤ◌ ◌*ℤ◌
wrapped_major = refl
