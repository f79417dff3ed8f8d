-- ===== src/Money/Arithmetic.antt =====
-- `Add`, `Sub`, `Mul` and `Cmp` of money/money.go against the integers without a bound.
use kit4go.Money.{
  Currency, Money, eq_bytes, same_currency, in_currency, add_checked, sub_checked, add, sub,
}
use kit4go.Money.Checked.{checked, add_checked_lem, sub_checked_lem}
use kit4go.Common.Int.{ℤ, pos, negsuc, IsInt64, ◌+ℤ◌, fits, +ℤ_cancel}
use kit4go.Common.{
  ℕ, ◌≡◌, refl, ap, ◌∙◌, inl, inr, true, none, some, List, [], ◌∷◌, arith, Bool-cases, subst,
}

eq_bytes_self : (bs : List ℕ) → eq_bytes bs bs ≡ true
unfolding eq_bytes
eq_bytes_self [] = refl
eq_bytes_self (b ∷ bs) = ground (arith, eq_bytes_self bs)

pub same_currency_self : (c : Currency) → same_currency c c ≡ true
unfolding same_currency
same_currency_self c = ground (arith, eq_bytes_self c.code, eq_bytes_self c.numeric)

checked_fits : (z : ℤ) → IsInt64 z → checked z ≡ some z
checked_fits (pos n) h = ground arith
checked_fits (negsuc n) h = ground arith

fits-IsInt64 : (z : ℤ) → fits z ≡ true → IsInt64 z
fits-IsInt64 (pos n) h = ground arith
fits-IsInt64 (negsuc n) h = ground arith

-- the difference of a sum that fits
sub-sum :
    (m other : Money)
    → IsInt64 m.amount
    → IsInt64 other.amount
    → fits (m.amount +ℤ other.amount) ≡ true
    → same_currency m.cur other.cur ≡ true
    → sub (record { amount = m.amount +ℤ other.amount; cur = m.cur }) other ≡ inl m
unfolding sub in_currency
sub-sum m other hm ho fit same =
    let sum = m.amount +ℤ other.amount in
    let exact : sub_checked sum other.amount ≡ some m.amount =
      sub_checked_lem sum other.amount (fits-IsInt64 sum fit) ho
      ∙ ap checked (+ℤ_cancel m.amount other.amount)
      ∙ checked_fits m.amount hm in
    rw (same, exact) refl

-- If `Add` gives a sum of two int64 amounts, then `Sub` of the second one gives the first money back.
pub sub-add :
    (m other s : Money)
    → IsInt64 m.amount
    → IsInt64 other.amount
    → add m other ≡ inl s
    → sub s other ≡ inl m
unfolding add in_currency
sub-add m other s hm ho added = elim (Bool-cases (same_currency m.cur other.cur)) [
  | inr differs ↦ absurd (ground arith)
  | inl same ↦ elim (Bool-cases (fits (m.amount +ℤ other.amount))) [
    | inr wide ↦
        let stuck : add_checked m.amount other.amount ≡ none =
          add_checked_lem m.amount other.amount hm ho ∙ (rw wide refl) in
        absurd (ground arith)
    | inl fit ↦
        let sum : add_checked m.amount other.amount ≡ some (m.amount +ℤ other.amount) =
          add_checked_lem m.amount other.amount hm ho ∙ (rw fit refl) in
        let made : record { amount = m.amount +ℤ other.amount; cur = m.cur } ≡ s = ground arith in
        subst (λ x. sub x other ≡ inl m) made (sub-sum m other hm ho fit same)
  ]
]
