-- ===== src/Money/Checked.antt =====
-- The overflow tests of money/money.go find exactly the results that an int64 cannot hold.
use kit4go.Money.{eq_ℤ, min_int64, add_checked, sub_checked, mul_checked}
use kit4go.Common.Signs.{quot_times}
use kit4go.Money.Products.{
  zero_signed, eq_ℤ_self, eq_ℤ_same, fits-IsInt64, mag_pos, and_true, or_false_left, or_false_right,
  quot_wrapped,
}
use kit4go.Common.Int.{
  ℤ, pos, negsuc, wrap_int64, wrap_int64_id, IsInt64, ◌+ℤ◌, ◌-ℤ◌, ◌*ℤ◌, quot, mag, is_neg, differ,
  fits, times_signed,
}
use kit4go.Common.{
  ℕ, ◌*◌, ◌≡◌, refl, sym, ap, ap₂, ◌∙◌, inl, inr, true, ◌&&◌, ◌||◌, Option, none, some, arith,
  if◌then◌else◌, Bool-cases,
}

abbrev pub checked : ℤ → Option ℤ
checked z = if fits z then some z else none

pub add_checked_lem : (a b : ℤ) → IsInt64 a → IsInt64 b → add_checked a b ≡ checked (a +ℤ b)
unfolding add_checked wrap_int64 ◌+ℤ◌
add_checked_lem (pos a) (pos b) ha hb = ground arith
add_checked_lem (pos a) (negsuc b) ha hb = ground arith
add_checked_lem (negsuc a) (pos b) ha hb = ground arith
add_checked_lem (negsuc a) (negsuc b) ha hb = ground arith

pub sub_checked_lem : (a b : ℤ) → IsInt64 a → IsInt64 b → sub_checked a b ≡ checked (a -ℤ b)
unfolding sub_checked wrap_int64 ◌-ℤ◌
sub_checked_lem (pos a) (pos b) ha hb = ground arith
sub_checked_lem (pos a) (negsuc b) ha hb = ground arith
sub_checked_lem (negsuc a) (pos b) ha hb = ground arith
sub_checked_lem (negsuc a) (negsuc b) ha hb = ground arith

zero_product : (a b : ℤ) → (eq_ℤ a (pos 0) || eq_ℤ b (pos 0)) ≡ true → a *ℤ b ≡ pos 0
zero_product a b h =
    let zero_left : (n : ℕ) → 0 * n ≡ 0 = λ n. grind arith in
    let zero_right : (n : ℕ) → n * 0 ≡ 0 = λ n. grind arith in
    times_signed a b
    ∙ zero_signed (differ (is_neg a) (is_neg b)) (mag a * mag b)
        (elim (Bool-cases (eq_ℤ a (pos 0))) [
          | inl left ↦ ap (λ z. mag z * mag b) (eq_ℤ_same a (pos 0) left) ∙ zero_left (mag b)
          | inr nonzero ↦
              let right : eq_ℤ b (pos 0) ≡ true = sym (rw nonzero refl) ∙ h in
              ap (λ z. mag a * mag z) (eq_ℤ_same b (pos 0) right) ∙ zero_right (mag a)
        ])

largest_negated :
    (a b : ℤ) → (eq_ℤ a min_int64 && eq_ℤ b (negsuc 0)) ≡ true → checked (a *ℤ b) ≡ none
unfolding ◌*ℤ◌
largest_negated a b h =
    let (left, right) = and_true _ _ h in
    ap₂ (λ x y. checked (x *ℤ y)) (eq_ℤ_same a min_int64 left) (eq_ℤ_same b (negsuc 0) right) ∙ refl

-- `mulChecked` returns the product if an int64 holds it, and otherwise an overflow.
pub mul_checked_lem : (a b : ℤ) → IsInt64 a → IsInt64 b → mul_checked a b ≡ checked (a *ℤ b)
unfolding mul_checked
mul_checked_lem a b ha hb = elim (Bool-cases (eq_ℤ a (pos 0) || eq_ℤ b (pos 0))) [
  | inl zero_factor ↦ rw zero_factor (sym (ap checked (zero_product a b zero_factor)))
  | inr nonzero ↦
      let some_a = mag_pos a (or_false_left _ _ nonzero) in
      let some_b = mag_pos b (or_false_right _ _ nonzero) in
      rw nonzero (elim (Bool-cases (eq_ℤ a min_int64 && eq_ℤ b (negsuc 0))) [
        | inl excluded ↦ rw excluded (sym (largest_negated a b excluded))
        | inr guarded ↦ rw guarded (elim (Bool-cases (fits (a *ℤ b))) [
          | inl fit ↦
              let id = wrap_int64_id (a *ℤ b) (fits-IsInt64 (a *ℤ b) fit) in
              let back : wrap_int64 (quot (wrap_int64 (a *ℤ b)) b) ≡ a =
                ap (λ p. wrap_int64 (quot p b)) id
                ∙ ap wrap_int64 (quot_times a b some_a some_b)
                ∙ wrap_int64_id a ha in
              rw (fit, back, eq_ℤ_self a, id) refl
          | inr wide ↦ elim (Bool-cases (eq_ℤ (wrap_int64 (quot (wrap_int64 (a *ℤ b)) b)) a)) [
            | inl back ↦
                absurd (quot_wrapped a b ha hb some_a some_b wide guarded (eq_ℤ_same _ a back))
            | inr other ↦ rw (other, wide) refl
          ]
        ])
      ])
]
