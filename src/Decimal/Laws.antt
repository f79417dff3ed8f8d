-- ===== src/Decimal/Laws.antt =====
-- How the operations of decimal/decimal.go relate: sums and differences, comparison, products and quotients,
-- and changes of the scale.
use kit4go.Decimal.{
  Decimal, DecimalError, of_value, value_or_zero, sign, sign_of, add, sub, mul, div, cmp, cmp_value,
  rescale,
}
use kit4go.Common.Int.{ℤ, pos, ◌+ℤ◌, ◌-ℤ◌, ◌*ℤ◌, quot, mag, differ, +ℤ_cancel}
use kit4go.Common.Signs.{quot_times_any}
use native.Mathlib.Nat.{pow-le-pow_right}
use kit4go.Common.{
  ℕ, zero, suc, ◌+◌, ◌-◌, ◌^◌, ◌<◌, ◌≡◌, refl, ap, ◌∙◌, ◌≢◌, ◌⊎◌, inl, inr, true, false, arith, ltb,
  ◌==◌, if◌then◌else◌, Bool-cases,
}

-- `Cmp` tells the sign of the difference.
cmp_value-sub : (a b : ℤ) → cmp_value a b ≡ sign_of (a -ℤ b)
unfolding cmp_value sign_of ◌-ℤ◌
cmp_value-sub a b = ground arith

-- Two decimals of one scale: `Sub` takes back what `Add` added, and `Cmp` is the sign of what `Sub` gives. Of
-- two scales: all three report the mismatch.
pub add-sub-cmp :
    (d other : Decimal)
    → ((d.scale ≡ other.scale)
        × ((s : Decimal) × (add d other ≡ inl s)
            × (sub s other ≡ inl (of_value (value_or_zero d) d.scale)))
        × ((m : Decimal) × (sub d other ≡ inl m) × (cmp d other ≡ inl (sign m))))
      ⊎ ((d.scale ≢ other.scale)
          × (add d other ≡ inr DecimalError.scale_mismatch)
          × (sub d other ≡ inr DecimalError.scale_mismatch)
          × (cmp d other ≡ inr DecimalError.scale_mismatch))
unfolding add sub cmp value_or_zero sign
add-sub-cmp d other = elim (Bool-cases (d.scale == other.scale)) [
  | inr differ ↦ inr (λ e. ground (arith, e), rw differ refl, rw differ refl, rw differ refl)
  | inl same ↦ inl (
    ground arith,
    (
      of_value (value_or_zero d +ℤ value_or_zero other) d.scale,
      rw same refl,
      rw same (
          ap (λ (v : ℤ). inl (of_value v d.scale))
            (+ℤ_cancel (value_or_zero d) (value_or_zero other))),
    ),
    (
      of_value (value_or_zero d -ℤ value_or_zero other) d.scale,
      rw same refl,
      rw same (ap inl (cmp_value-sub (value_or_zero d) (value_or_zero other))),
    ),
  )
]

-- `Div` takes back a `Mul` by the same factor, other than 0, and by 0 reports the division.
pub div-mul :
    (d : Decimal) (factor : ℤ)
    → (div factor (mul factor d) ≡ (
        if mag factor == 0
        then inr DecimalError.divide_by_zero
        else inl (of_value (value_or_zero d) d.scale)))
unfolding div mul value_or_zero
div-mul d factor = elim (Bool-cases (mag factor == 0)) [
  | inl none_there ↦ rw none_there refl
  | inr some_there ↦
      let some_factor : 0 < mag factor = ground arith in
      rw some_there (
        ap (λ (v : ℤ). inl (of_value v d.scale))
          (quot_times_any (value_or_zero d) factor some_factor))
]

rescale_up :
    (v : ℤ) (s t : ℕ)
    → s < t
    → rescale (pos t) (of_value v s) ≡ of_value (v *ℤ pos (10 ^ (t - s))) t
unfolding rescale value_or_zero
rescale_up v s t h =
    let other : t == s ≡ false = ground arith in
    let up : ltb s t ≡ true = ground arith in rw (other, up) refl

rescale_down :
    (v : ℤ) (s t : ℕ)
    → t < s
    → rescale (pos t) (of_value v s) ≡ of_value (quot v (pos (10 ^ (s - t)))) t
unfolding rescale value_or_zero
rescale_down v s t h =
    let other : t == s ≡ false = ground arith in
    let down : ltb s t ≡ false = ground arith in rw (other, down) refl

rescale_same : (v : ℤ) (s : ℕ) → rescale (pos s) (of_value v s) ≡ of_value v s
unfolding rescale
rescale_same v s = let same : s == s ≡ true = ground arith in rw same refl

-- A decimal that is rescaled to more places and back has its value and its scale again.
pub rescale_back :
    (v : ℤ) (scale more : ℕ)
    → rescale (pos scale) (rescale (pos (scale + more)) (of_value v scale)) ≡ of_value v scale
rescale_back v scale zero =
    let none_more : scale + 0 ≡ scale = omega arith in
    ap (λ (t : ℕ). rescale (pos scale) (rescale (pos t) (of_value v scale))) none_more
    ∙ ap (rescale (pos scale)) (rescale_same v scale)
    ∙ rescale_same v scale
rescale_back v scale (suc more) =
    let top = scale + suc more in
    let places : 0 < 10 ^ (top - scale) =
      pow-le-pow_right {n = 10} (omega arith) {i = 0} (omega arith) in
    ap (rescale (pos scale)) (rescale_up v scale top (omega arith))
    ∙ rescale_down (v *ℤ pos (10 ^ (top - scale))) top scale (omega arith)
    ∙ ap (λ (q : ℤ). of_value q scale) (quot_times_any v (pos (10 ^ (top - scale))) places)
