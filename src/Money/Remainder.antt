-- ===== src/Money/Remainder.antt =====
-- The units that `Allocate` of money/money.go hands out after the truncated shares.
use kit4go.Money.{Money, MoneyError, eq_ℤ, abs_i64}
use kit4go.Common.Signs.{signed_self}
use kit4go.Money.Products.{zero_signed}
use kit4go.Money.Allocate.{
  sum_ratios, split, best_from, best_of, lower_at, distribute, fracs_of, hand_out, allocate,
}
use kit4go.Common.Int.{ℤ, pos, negsuc, wrap_int64, ◌+ℤ◌, ◌-ℤ◌, mag, is_neg, signed, pos_part}
use kit4go.Common.{
  ℕ, zero, suc, ◌+◌, ◌-◌, ◌*◌, ◌^◌, ◌≤◌, ◌<◌, ◌≡◌, refl, sym, ap, ap₂, ◌∙◌, ◌⊎◌, inl, inr, Bool,
  true, false, some, List, [], ◌∷◌, map, arith, if◌then◌else◌, Bool-cases, length, set, length-set,
  get_or, length-map,
}
use kit4go.Money.Shares.{total, add_signed, sub_signed, sum_ratios_lem, split-Splits}
use kit4go.Money.Division.{abs_signed, not_zero}

set-map :
    {A B : Type 0} (f : A → B) (xs : List A) (i : ℕ) (x : A)
    → set (map f xs) i (f x) ≡ map f (set xs i x)
set-map f [] i x = refl
set-map f (y ∷ ys) zero x = refl
set-map f (y ∷ ys) (suc i) x = ap (λ zs. f y ∷ zs) (set-map f ys i x)

get_or-map :
    {A B : Type 0} (f : A → B) (xs : List A) (i : ℕ) (b : B) (a : A)
    → i < length xs
    → get_or (map f xs) i b ≡ f (get_or xs i a)
get_or-map f [] i b a h = absurd (omega arith)
get_or-map f (y ∷ ys) zero b a h = refl
get_or-map f (y ∷ ys) (suc i) b a h = get_or-map f ys i b a (omega arith)

total-set :
    (ms : List ℕ) (i : ℕ) → i < length ms → total (set ms i (suc (get_or ms i 0))) ≡ suc (total ms)
total-set [] i h = absurd (omega arith)
total-set (m ∷ ms) zero h = omega arith
total-set (m ∷ ms) (suc i) h = omega (arith, total-set ms i (omega arith))

total-get_or : (ms : List ℕ) (i : ℕ) → get_or ms i 0 ≤ total ms
total-get_or [] i = omega arith
total-get_or (m ∷ ms) zero = omega arith
total-get_or (m ∷ ms) (suc i) = omega (arith, total-get_or ms i)

module _ {R : Type 0} (frac_of : ℤ → ℤ → ℤ → ℤ → R) (gt : R → R → Bool) (minus : R → ℤ → R) where
  best_from-lt :
      (best : ℕ) (top : R) (j : ℕ) (fs : List R)
      → best < j
      → best_from frac_of gt minus best top j fs < j + length fs
  unfolding best_from
  best_from-lt best top j [] h = omega arith
  best_from-lt best top j (f ∷ fs) h = elim (Bool-cases (gt f top)) [
    | inl more ↦ rw (more, best_from) (omega (arith, best_from-lt j f (suc j) fs (omega arith)))
    | inr less ↦
        rw (less, best_from) (omega (arith, best_from-lt best top (suc j) fs (omega arith)))
  ]

  best_of-lt : (fs : List R) → 0 < length fs → best_of frac_of gt minus fs < length fs
  unfolding best_of
  best_of-lt [] h = h
  best_of-lt (f ∷ fs) h = omega (arith, best_from-lt 0 f 1 fs (omega arith))

  length-lower_at :
      (i : ℕ) (step : ℤ) (fs : List R) → length (lower_at frac_of gt minus i step fs) ≡ length fs
  unfolding lower_at
  length-lower_at i step [] = refl
  length-lower_at zero step (f ∷ fs) = refl
  length-lower_at (suc i) step (f ∷ fs) = ap suc (length-lower_at i step fs)

  distribute_lem :
      (s : Bool) (left : ℕ) (ms : List ℕ) (fs : List R)
      → length fs ≡ length ms
      → 0 < length ms
      → total ms + left < 2 ^ 63
      → (ms' : List ℕ) × (length ms' ≡ length ms)
        × (total ms' ≡ total ms + left)
        × (distribute frac_of gt minus left (signed s 1) (map (signed s) ms) fs
            ≡ map (signed s) ms')
  unfolding distribute
  distribute_lem s zero ms fs same some_share small = (ms, refl, omega arith, refl)
  distribute_lem s (suc left) ms fs same some_share small =
      let i = best_of frac_of gt minus fs in
      let within : i < length ms = omega (arith, best_of-lt fs) in
      let m = get_or ms i 0 in
      let sum = total-set ms i within in
      let bumped : set (map (signed s) ms) i
            (wrap_int64 (get_or (map (signed s) ms) i (pos 0) +ℤ signed s 1))
          ≡ map (signed s) (set ms i (suc m)) =
        ap (set (map (signed s) ms) i) (
          ap (λ z. wrap_int64 (z +ℤ signed s 1)) (get_or-map (signed s) ms i (pos 0) 0 within)
          ∙ add_signed s m 1 (omega (arith, total-get_or ms i))
          ∙ ap (signed s) (omega arith))
        ∙ set-map (signed s) ms i (suc m) in
      let (ms', length', sum', done) =
        distribute_lem s left (set ms i (suc m)) (lower_at frac_of gt minus i (signed s 1) fs)
          (omega (arith, length-lower_at i (signed s 1) fs, length-set ms i (suc m), same))
          (omega (arith, length-set ms i (suc m))) (omega (arith, sum)) in
      (
        ms',
        omega (arith, length', length-set ms i (suc m)),
        omega (arith, sum', sum),
        ap
              (λ out.
                distribute frac_of gt minus left (signed s 1) out
                  (lower_at frac_of gt minus i (signed s 1) fs))
              bumped
            ∙ done,
      )

  length-fracs_of :
      (amount t : ℤ) (rs out : List ℤ)
      → length rs ≡ length out
      → length (fracs_of frac_of gt minus amount t rs out) ≡ length out
  unfolding fracs_of
  length-fracs_of amount t [] out same = same
  length-fracs_of amount t (r ∷ rs) [] same = absurd (omega arith)
  length-fracs_of amount t (r ∷ rs) (o ∷ out) same =
      ap suc (length-fracs_of amount t rs out (omega arith))

  unit_step :
      (s : Bool) (d : ℕ) → 0 < d → (if is_neg (signed s d) then negsuc 0 else pos 1) ≡ signed s 1
  unit_step true d h = ground arith
  unit_step false d h = refl

  -- the units that remain, and the direction of a step
  remainder_parts :
      (s : Bool) (n a : ℕ)
      → a ≤ n
      → n < 2 ^ 63
      → let remainder = wrap_int64 (signed s n -ℤ signed s a) in
        (pos_part (abs_i64 remainder) ≡ n - a)
        × (a < n → (if is_neg remainder then negsuc 0 else pos 1) ≡ signed s 1)
  remainder_parts s n a le small =
      let exact = sub_signed s n a le small in
      (
        ap (λ z. pos_part (abs_i64 z)) exact ∙ ap pos_part (abs_signed s (n - a) (omega arith)),
        λ more.
            ap (λ z. if is_neg z then negsuc 0 else pos 1) exact
            ∙ unit_step s (n - a) (omega arith),
      )

  same_step :
      (c : ℕ) (step step' : ℤ) (out : List ℤ) (fs : List R)
      → (0 < c → step ≡ step')
      → distribute frac_of gt minus c step out fs ≡ distribute frac_of gt minus c step' out fs
  unfolding distribute
  same_step zero step step' out fs h = refl
  same_step (suc c) step step' out fs h =
      ap (λ z. distribute frac_of gt minus (suc c) z out fs) (h (omega arith))

  hand_out_lem :
      (s : Bool) (n a : ℕ) (t : ℤ) (rs : List ℤ) (ms : List ℕ)
      → total ms ≡ a
      → a ≤ n
      → n < 2 ^ 63
      → length rs ≡ length ms
      → 0 < length ms
      → (ms' : List ℕ) × (length ms' ≡ length ms)
        × (total ms' ≡ n)
        × (hand_out frac_of gt minus (signed s n) t rs (map (signed s) ms) (signed s a)
            ≡ map (signed s) ms')
  unfolding hand_out
  hand_out_lem s n a t rs ms sum le small same some_share =
      let fs = fracs_of frac_of gt minus (signed s n) t rs (map (signed s) ms) in
      let (count, step) = remainder_parts s n a le small in
      let (ms', length', sum', done) =
        distribute_lem s (n - a) ms fs
          (length-fracs_of (signed s n) t rs (map (signed s) ms)
              (same ∙ sym (length-map ms (signed s)))
            ∙ length-map ms (signed s))
          some_share (omega arith) in
      (
        ms',
        length',
        omega (arith, sum'),
        ap
              (λ c.
                distribute frac_of gt minus c
                  (if is_neg (wrap_int64 (signed s n -ℤ signed s a)) then negsuc 0 else pos 1)
                  (map (signed s) ms) fs)
              count
            ∙ same_step (n - a) _ (signed s 1) (map (signed s) ms) fs (λ more. step (omega arith))
            ∙ done,
      )

  -- Whatever the fractions and their comparison are: for an amount other than the least int64, and ratios
  -- that are not negative and have a positive sum that an int64 holds, `Allocate` reports an overflow, and
  -- that only if the magnitude of the amount times the sum is at least 2^63, or gives one part for each
  -- ratio, each in the currency and with the sign of the amount, whose magnitudes sum to that of the amount.
  pub allocate_lem :
      (m : Money) (ks : List ℕ)
      → mag m.amount < 2 ^ 63
      → 0 < total ks
      → total ks < 2 ^ 63
      → ((allocate frac_of gt minus m (map pos ks) ≡ inr MoneyError.overflow)
          × (2 ^ 63 ≤ mag m.amount * total ks))
        ⊎ ((ms : List ℕ) × (length ms ≡ length ks)
            × (total ms ≡ mag m.amount)
            × (allocate frac_of gt minus m (map pos ks)
                ≡ inl (
                    map
                      (λ n. record { amount = n; cur = m.cur })
                      (map (signed (is_neg m.amount)) ms))))
  unfolding allocate
  allocate_lem m [] small some_total few = absurd (omega arith)
  allocate_lem m (k ∷ ks) small some_total few =
      let s = is_neg m.amount in
      let n = mag m.amount in
      let t = total (k ∷ ks) in
      let rs : List ℤ = map pos (k ∷ ks) in
      let amount : signed s n ≡ m.amount = signed_self m.amount in
      let ratios : sum_ratios (pos 0) rs ≡ inl (pos t) =
        sum_ratios_lem 0 (k ∷ ks) (omega arith) ∙ ap (λ x. inl (pos x)) (omega arith) in
      let nonzero : eq_ℤ (pos t) (pos 0) ≡ false = not_zero (pos t) some_total in
      let start : signed s 0 ≡ pos 0 = zero_signed s 0 refl in
      let here : split (signed s n) (pos t) rs (signed s 0) ≡ split m.amount (pos t) rs (pos 0) =
        ap₂ (λ x y. split x (pos t) rs y) amount start in
      elim (split-Splits s n t 0 0 (k ∷ ks) small few some_total (omega arith) (grind arith)) [
        | inl (stuck, large) ↦ inl (rw (ratios, nonzero, (sym here ∙ stuck), allocate) refl, large)
        | inr (ms, same, room, done) ↦
            let split_done : split m.amount (pos t) rs (pos 0)
                ≡ some (map (signed s) ms, signed s (0 + total ms)) =
              sym here ∙ done in
            let (ms', length', sum', out) =
              hand_out_lem s n (0 + total ms) (pos t) rs ms (omega arith) room small
                (length-map (k ∷ ks) pos ∙ sym same) (omega (arith, same)) in
            let handed =
              ap
                (λ x.
                  hand_out frac_of gt minus x (pos t) rs (map (signed s) ms)
                    (signed s (0 + total ms)))
                (sym amount)
              ∙ out in
            inr (
              ms',
              omega (arith, length', same),
              sum',
              rw (ratios, nonzero, split_done, allocate)
                  (ap (λ x. inl (map (λ n. record { amount = n; cur = m.cur }) x)) handed),
            )
      ]
