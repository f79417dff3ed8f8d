-- ===== src/Money/Products.antt =====
-- Products of int64s that wrap, and what Go's division makes of them, for `mulChecked` of money/money.go.
use native.Mathlib.Nat.{div-mul-le_self, mul-le-mul_left}
use kit4go.Money.{eq_ℤ, min_int64}
use kit4go.Common.Signs.{mag-signed, neg_signed}
use kit4go.Common.Int.{
  ℤ, pos, negsuc, wrap_int64, wrap_int64_id, IsInt64, ◌*ℤ◌, quot, mag, is_neg, differ, fits, signed,
  times_signed,
}
use kit4go.Common.{
  ℕ, ◌*◌, ◌/◌, ◌^◌, ◌≤◌, ◌<◌, ◌≡◌, refl, sym, ap, ap₂, ◌∙◌, inl, inr, Bool, true, false, ◌&&◌, ◌||◌,
  arith, leb, Bool-cases,
}

pub eq_ℤ_self : (a : ℤ) → eq_ℤ a a ≡ true
unfolding eq_ℤ
eq_ℤ_self (pos a) = ground arith
eq_ℤ_self (negsuc a) = ground arith

pub eq_ℤ_same : (a b : ℤ) → eq_ℤ a b ≡ true → a ≡ b
unfolding eq_ℤ
eq_ℤ_same (pos a) (pos b) h = ap pos (ground arith)
eq_ℤ_same (pos a) (negsuc b) h = absurd (ground arith)
eq_ℤ_same (negsuc a) (pos b) h = absurd (ground arith)
eq_ℤ_same (negsuc a) (negsuc b) h = ap negsuc (ground arith)

pub fits-IsInt64 : (z : ℤ) → fits z ≡ true → IsInt64 z
fits-IsInt64 (pos n) h = ground arith
fits-IsInt64 (negsuc n) h = ground arith

-- A product that does not fit wraps to less than its magnitude, but for 2^63.
pub wrap_shrinks :
    (s : Bool) (n : ℕ)
    → fits (signed s n) ≡ false
    → n ≤ mag (wrap_int64 (signed s n))
    → (s ≡ false) × (n ≡ 2 ^ 63) × (is_neg (wrap_int64 (signed s n)) ≡ true)
unfolding wrap_int64
wrap_shrinks true n h le = absurd (ground arith)
wrap_shrinks false n h le = (refl, ground arith, ground arith)

pub mag_wrap : (z : ℤ) → mag (wrap_int64 z) ≤ 2 ^ 63
unfolding wrap_int64
mag_wrap (pos n) = ground arith
mag_wrap (negsuc n) = ground arith

pub no_fit :
    (s : Bool) (n : ℕ)
    → fits (signed s n) ≡ false
    → n ≤ 2 ^ 63
    → (n ≡ 2 ^ 63) × (wrap_int64 (signed s n) ≡ min_int64)
unfolding wrap_int64
no_fit true n h le = absurd (ground arith)
no_fit false n h le =
    let exact : n ≡ 2 ^ 63 = ground arith in (exact, ap (λ m. wrap_int64 (pos m)) exact)

-- what Go's quotient of two int64s is if it does not fit
pub quot_wraps :
    (w b : ℤ)
    → mag w ≤ 2 ^ 63
    → 0 < mag b
    → fits (quot w b) ≡ false
    → (wrap_int64 (quot w b) ≡ min_int64) × (mag b ≡ 1)
unfolding quot
quot_wraps w b small some_b h =
    let x = mag w / mag b in
    let held : x * mag b ≤ mag w = div-mul-le_self (mag w) (mag b) in
    let least : x * 1 ≤ x * mag b = mul-le-mul_left x some_b in
    let (exact, wraps) = no_fit (differ (is_neg w) (is_neg b)) x h (omega (arith, held, least)) in
    let double : mag b ≡ 1 = elim (Bool-cases (leb (mag b) 1)) [
      | inl one ↦ ground arith
      | inr more ↦
          let twice : x * 2 ≤ x * mag b = mul-le-mul_left x (ground arith) in
          absurd (omega (arith, held, twice, exact))
    ] in
    (wraps, double)

pub mag-quot : (w b : ℤ) → mag (quot w b) ≡ mag w / mag b
unfolding quot
mag-quot w b = mag-signed (differ (is_neg w) (is_neg b)) (mag w / mag b)

pub opposed : (x y w : Bool) → differ x y ≡ false → w ≡ true → differ w y ≡ x → ⊥
opposed true true w plus minus h = ground arith
opposed true false w plus minus h = ground arith
opposed false true w plus minus h = ground arith
opposed false false w plus minus h = ground arith

pub unit_divisor :
    (a b : ℤ)
    → a ≡ min_int64
    → mag b ≡ 1
    → (eq_ℤ a min_int64 && eq_ℤ b (negsuc 0)) ≡ false
    → fits (a *ℤ b) ≡ false
    → ⊥
unfolding ◌*ℤ◌ eq_ℤ
unit_divisor a (pos b) least one guarded wide =
    let fit : fits (a *ℤ pos b) ≡ true = ap₂ (λ x n. fits (x *ℤ pos n)) least one ∙ refl in
    absurd (ground arith)
unit_divisor a (negsuc b) least one guarded wide =
    let zero_more : b ≡ 0 = omega arith in
    let caught : (eq_ℤ a min_int64 && eq_ℤ (negsuc b) (negsuc 0)) ≡ true =
      ap₂ (λ x n. eq_ℤ x min_int64 && eq_ℤ (negsuc n) (negsuc 0)) least zero_more ∙ refl in
    absurd (ground arith)

pub mag_pos : (a : ℤ) → eq_ℤ a (pos 0) ≡ false → 0 < mag a
unfolding eq_ℤ
mag_pos (pos a) h = ground arith
mag_pos (negsuc a) h = omega arith

pub and_true : (x y : Bool) → (x && y) ≡ true → (x ≡ true) × (y ≡ true)
and_true true y h = (refl, h)
and_true false y h = absurd (ground arith)

pub or_false_left : (x y : Bool) → (x || y) ≡ false → x ≡ false
or_false_left x y h = elim (Bool-cases x) [ inl e ↦ ground arith | inr e ↦ e ]

pub or_false_right : (x y : Bool) → (x || y) ≡ false → y ≡ false
or_false_right x y h = elim (Bool-cases x) [ inl e ↦ ground arith | inr e ↦ ground arith ]

-- A product that wraps does not divide back.
pub quot_wrapped :
    (a b : ℤ)
    → IsInt64 a
    → IsInt64 b
    → 0 < mag a
    → 0 < mag b
    → fits (a *ℤ b) ≡ false
    → (eq_ℤ a min_int64 && eq_ℤ b (negsuc 0)) ≡ false
    → wrap_int64 (quot (wrap_int64 (a *ℤ b)) b) ≡ a
    → ⊥
unfolding quot
quot_wrapped a b ha hb some_a some_b wide guarded back =
    let w = wrap_int64 (a *ℤ b) in
    let n = mag a * mag b in
    let s = differ (is_neg a) (is_neg b) in
    elim (Bool-cases (fits (quot w b))) [
      | inr unfit ↦
          let (wraps, one) = quot_wraps w b (mag_wrap (a *ℤ b)) some_b unfit in
          unit_divisor a b (sym back ∙ wraps) one guarded wide
      | inl fit ↦
          let same : quot w b ≡ a =
            sym (wrap_int64_id (quot w b) (fits-IsInt64 (quot w b) fit)) ∙ back in
          let held : mag w / mag b * mag b ≤ mag w = div-mul-le_self (mag w) (mag b) in
          let ratio : mag w / mag b ≡ mag a = sym (mag-quot w b) ∙ ap (λ z. mag z) same in
          let big : mag w / mag b * mag b ≡ n = ap (λ x. x * mag b) ratio in
          let (plus, exact, minus) =
            wrap_shrinks s n (ap (λ z. fits z) (sym (times_signed a b)) ∙ wide)
              (omega (arith, held, big, ap (λ z. mag (wrap_int64 z)) (times_signed a b))) in
          opposed (is_neg a) (is_neg b) (is_neg w) plus
            (ap (λ z. is_neg (wrap_int64 z)) (times_signed a b) ∙ minus)
            (sym (
                neg_signed (differ (is_neg w) (is_neg b)) (mag w / mag b)
                  (omega (arith, ratio, some_a)))
              ∙ ap (λ z. is_neg z) same)
    ]

pub zero_signed : (s : Bool) (n : ℕ) → n ≡ 0 → signed s n ≡ pos 0
zero_signed true n h = ground arith
zero_signed false n h = ap pos h

pub signed-IsInt64 : (s : Bool) (n : ℕ) → n < 2 ^ 63 → IsInt64 (signed s n)
signed-IsInt64 true n h = ground arith
signed-IsInt64 false n h = h
