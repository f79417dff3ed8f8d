-- ===== src/Money/Allocate.antt =====
-- `Money.Allocate` of money/money.go. The fractions are float64s: their type `R`, the fraction of a share
-- of an amount by its ratio and the total, `>`, and the step that is taken off one are parameters.
use kit4go.Money.{Money, MoneyError, eq_ℤ, abs_i64, mul_checked}
use kit4go.Common.Int.{ℤ, pos, negsuc, wrap_int64, ◌+ℤ◌, ◌-ℤ◌, quot, is_neg, pos_part}
use kit4go.Common.{
  ℕ, zero, suc, ◌⊎◌, inl, inr, Bool, true, false, Option, none, some, List, [], ◌∷◌, map,
  if◌then◌else◌, set, get_or,
}

-- the sum of the ratios, from the sum so far
unfoldable pub sum_ratios : ℤ → List ℤ → ℤ ⊎ MoneyError
sum_ratios total [] = inl total
sum_ratios total (r ∷ rs) =
    let rest = sum_ratios (wrap_int64 (total +ℤ r)) rs in
    if is_neg r then inr MoneyError.negative_ratio else rest

-- a share in front of the others
unfoldable pub onto : ℤ → Option (List ℤ × ℤ) → Option (List ℤ × ℤ)
onto share none = none
onto share (some (out, allocated)) = some (share ∷ out, allocated)

-- the truncated shares and what they add up to
unfoldable pub split : ℤ → ℤ → List ℤ → ℤ → Option (List ℤ × ℤ)
unfolding onto
split amount total [] allocated = some ([], allocated)
split amount total (r ∷ rs) allocated = elim (mul_checked amount r) [
  | none ↦ none
  | some product ↦
      let share = wrap_int64 (quot product total) in
      onto share (split amount total rs (wrap_int64 (allocated +ℤ share)))
]

module _ {R : Type 0} (frac_of : ℤ → ℤ → ℤ → ℤ → R) (gt : R → R → Bool) (minus : R → ℤ → R) where
  -- the index of the first largest fraction: `best` with its fraction, and the fractions from `j` on
  unfoldable pub best_from : ℕ → R → ℕ → List R → ℕ
  best_from best top j [] = best
  best_from best top j (f ∷ fs) = elim (gt f top) [
    | true ↦ best_from j f (suc j) fs
    | false ↦ best_from best top (suc j) fs
  ]

  unfoldable pub best_of : List R → ℕ
  best_of [] = 0
  best_of (f ∷ fs) = best_from 0 f 1 fs

  unfoldable pub lower_at : ℕ → ℤ → List R → List R
  lower_at i step [] = []
  lower_at zero step (f ∷ fs) = minus f step ∷ fs
  lower_at (suc i) step (f ∷ fs) = f ∷ lower_at i step fs

  -- the units that remain go out one at a time
  unfoldable pub distribute : ℕ → ℤ → List ℤ → List R → List ℤ
  distribute zero step out fracs = out
  distribute (suc remaining) step out fracs =
      let best = best_of fracs in
      distribute remaining step (set out best (wrap_int64 (get_or out best (pos 0) +ℤ step)))
        (lower_at best step fracs)

  unfoldable pub fracs_of : ℤ → ℤ → List ℤ → List ℤ → List R
  fracs_of amount total [] out = []
  fracs_of amount total (r ∷ rs) [] = []
  fracs_of amount total (r ∷ rs) (o ∷ out) = frac_of amount r total o ∷ fracs_of amount total rs out

  -- the amounts of the parts, in order; the currency is that of the money
  unfoldable pub hand_out : ℤ → ℤ → List ℤ → List ℤ → ℤ → List ℤ
  hand_out amount total ratios out allocated =
      let remainder = wrap_int64 (amount -ℤ allocated) in
      distribute (pos_part (abs_i64 remainder)) (if is_neg remainder then negsuc 0 else pos 1) out
        (fracs_of amount total ratios out)

  unfoldable pub allocate : Money → List ℤ → List Money ⊎ MoneyError
  allocate m [] = inr MoneyError.no_ratios
  allocate m (r ∷ rs) = elim (sum_ratios (pos 0) (r ∷ rs)) [
    | inr e ↦ inr e
    | inl total ↦ elim (eq_ℤ total (pos 0)) [
      | true ↦ inr MoneyError.zero_ratios
      | false ↦ elim (split m.amount total (r ∷ rs) (pos 0)) [
        | none ↦ inr MoneyError.overflow
        | some (out, allocated) ↦ inl (
            map (λ n. record { amount = n; cur = m.cur })
              (hand_out m.amount total (r ∷ rs) out allocated))
      ]
    ]
  ]
