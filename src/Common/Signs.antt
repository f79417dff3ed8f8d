-- ===== src/Common/Signs.antt =====
-- The sign and the magnitude of an integer, and quotients of products.
use native.Mathlib.Nat.{mul-div_cancel, mul-pos, zero-div}
use kit4go.Common.Int.{ℤ, pos, negsuc, ◌*ℤ◌, quot, mag, is_neg, differ, signed, times_signed}
use kit4go.Common.{ℕ, zero, suc, ◌*◌, ◌/◌, ◌<◌, ◌≡◌, refl, ap, ap₂, ◌∙◌, Bool, true, false, arith}

pub mag-signed : (s : Bool) (n : ℕ) → mag (signed s n) ≡ n
mag-signed true n = ground arith
mag-signed false n = refl

pub neg_signed : (s : Bool) (n : ℕ) → 0 < n → is_neg (signed s n) ≡ s
neg_signed true n h = ground arith
neg_signed false n h = refl

pub signed_self : (a : ℤ) → signed (is_neg a) (mag a) ≡ a
signed_self (pos a) = refl
signed_self (negsuc a) = ground arith

pub differ_cancel : (x y : Bool) → differ (differ x y) y ≡ x
differ_cancel true true = refl
differ_cancel true false = refl
differ_cancel false true = refl
differ_cancel false false = refl

-- an exact product, divided by a factor
pub quot_times : (a b : ℤ) → 0 < mag a → 0 < mag b → quot (a *ℤ b) b ≡ a
unfolding quot
quot_times a b some_a some_b =
    let s = differ (is_neg a) (is_neg b) in
    let n = mag a * mag b in
    ap (λ z. quot z b) (times_signed a b)
    ∙ ap₂ signed
        (ap (λ t. differ t (is_neg b)) (neg_signed s n (mul-pos some_a some_b))
          ∙ differ_cancel (is_neg a) (is_neg b))
        (ap (λ m. m / mag b) (mag-signed s n) ∙ mul-div_cancel (mag a) some_b)
    ∙ signed_self a

signed-none : (s : Bool) → signed s 0 ≡ pos 0
signed-none true = refl
signed-none false = refl

-- also where the other factor is 0
pub quot_times_any : (a b : ℤ) → 0 < mag b → quot (a *ℤ b) b ≡ a
unfolding quot
quot_times_any (pos zero) b some_b =
    let none_left : 0 * mag b ≡ 0 = omega arith in
    let product : pos 0 *ℤ b ≡ pos 0 =
      times_signed (pos 0) b
      ∙ ap (signed (differ false (is_neg b))) none_left
      ∙ signed-none (differ false (is_neg b)) in
    ap (λ z. quot z b) product
    ∙ ap (signed (differ false (is_neg b))) (zero-div (mag b))
    ∙ signed-none (differ false (is_neg b))
quot_times_any (pos (suc a)) b some_b = quot_times (pos (suc a)) b (omega arith) some_b
quot_times_any (negsuc a) b some_b = quot_times (negsuc a) b (omega arith) some_b
