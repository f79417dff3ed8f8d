-- ===== src/Money/Shares.antt =====
-- `Allocate` of money/money.go loses no minor unit.
use native.Mathlib.Nat.{div-mul-le_self, zero-div, mul-le-mul_left}
use kit4go.Money.{mul_checked}
use kit4go.Money.Checked.{checked, mul_checked_lem}
use kit4go.Common.Signs.{mag-signed, neg_signed}
use kit4go.Money.Products.{zero_signed, signed-IsInt64}
use kit4go.Money.Allocate.{sum_ratios, onto, split}
use kit4go.Common.Int.{
  ℤ, pos, wrap_int64, wrap_int64_id, ◌+ℤ◌, ◌-ℤ◌, ◌*ℤ◌, quot, differ, fits, signed, times_signed,
}
use kit4go.Common.{
  ℕ, zero, suc, ◌+◌, ◌-◌, ◌*◌, ◌/◌, ◌^◌, ◌≤◌, ◌<◌, ◌≡◌, refl, sym, ap, ap₂, ◌∙◌, ◌⊎◌, inl, inr,
  Bool, true, false, Option, none, some, List, [], ◌∷◌, map, arith, leb, Bool-cases, length,
}

abbrev pub total : List ℕ → ℕ
total [] = 0
total (n ∷ ns) = n + total ns

differ-false : (s : Bool) → differ s false ≡ s
differ-false true = refl
differ-false false = refl

quot-signed : (s : Bool) (n t : ℕ) → quot (signed s n) (pos t) ≡ signed s (n / t)
unfolding quot
quot-signed s zero t =
    ap (λ z. quot z (pos t)) (zero_signed s 0 refl)
    ∙ ap pos (zero-div t)
    ∙ sym (zero_signed s (0 / t) (zero-div t))
quot-signed s (suc n) t =
    ap₂ signed (ap (λ b. differ b false) (neg_signed s (suc n) (omega arith)) ∙ differ-false s)
      (ap (λ m. m / t) (mag-signed s (suc n)))

pub add_signed :
    (s : Bool) (a b : ℕ) → a + b < 2 ^ 63 → wrap_int64 (signed s a +ℤ signed s b) ≡ signed s (a + b)
unfolding wrap_int64 ◌+ℤ◌
add_signed true a b h = ground arith
add_signed false a b h = ground arith

pub sub_signed :
    (s : Bool) (a b : ℕ)
    → b ≤ a
    → a < 2 ^ 63
    → wrap_int64 (signed s a -ℤ signed s b) ≡ signed s (a - b)
unfolding wrap_int64 ◌-ℤ◌
sub_signed true a b le h = ground arith
sub_signed false a b le h = ground arith

pub sum_ratios_lem :
    (t : ℕ) (ks : List ℕ)
    → t + total ks < 2 ^ 63
    → sum_ratios (pos t) (map pos ks) ≡ inl (pos (t + total ks))
unfolding sum_ratios ◌+ℤ◌
sum_ratios_lem t [] h = ap (λ n. inl (pos n)) (omega arith)
sum_ratios_lem t (k ∷ ks) h =
    let exact : wrap_int64 (pos t +ℤ pos k) ≡ pos (t + k) = add_signed false t k (omega arith) in
    ap (λ z. sum_ratios z (map pos ks)) exact
    ∙ sum_ratios_lem (t + k) ks (omega arith)
    ∙ ap (λ n. inl (pos n)) (omega arith)

share_signed :
    (s : Bool) (n k t : ℕ)
    → n * k / t < 2 ^ 63
    → wrap_int64 (quot (signed s (n * k)) (pos t)) ≡ signed s (n * k / t)
share_signed s n k t h =
    ap wrap_int64 (quot-signed s (n * k) t)
    ∙ wrap_int64_id (signed s (n * k / t)) (signed-IsInt64 s (n * k / t) h)

-- The truncated shares of `n` in the ratios: what is out stays below the part that the ratios so far deserve.
part_bound : (n t r k a : ℕ) → a * t ≤ n * r → (a + n * k / t) * t ≤ n * (r + k)
part_bound n t r k a le =
    let held : n * k / t * t ≤ n * k = div-mul-le_self (n * k) t in
    let left : (a + n * k / t) * t ≡ a * t + n * k / t * t = grind arith in
    let right : n * (r + k) ≡ n * r + n * k = grind arith in omega arith

part_total : (n t r a : ℕ) → a * t ≤ n * r → r ≤ t → 0 < t → a ≤ n
part_total n t r a le part some_t = elim (Bool-cases (leb a n)) [
  | inl e ↦ ground arith
  | inr more ↦
      let up : t * suc n ≤ t * a = mul-le-mul_left t (ground arith) in
      let down : n * r ≤ n * t = mul-le-mul_left n part in
      let next : t * suc n ≡ n * t + t = grind arith in
      let swap : t * a ≡ a * t = grind arith in
      absurd (omega (arith, up, down, next, swap, le, some_t))
]

times_pos : (s : Bool) (n k : ℕ) → signed s n *ℤ pos k ≡ signed s (n * k)
times_pos s zero k =
    let none_left : 0 * k ≡ 0 = grind arith in
    times_signed (signed s 0) (pos k)
    ∙ zero_signed _ _ (ap (λ m. m * k) (mag-signed s 0) ∙ none_left)
    ∙ sym (zero_signed s (0 * k) none_left)
times_pos s (suc n) k =
    times_signed (signed s (suc n)) (pos k)
    ∙ ap₂ signed (ap (λ b. differ b false) (neg_signed s (suc n) (omega arith)) ∙ differ-false s)
        (ap (λ m. m * k) (mag-signed s (suc n)))

-- what `split` returns, from an allocated magnitude `a` on
abbrev pub Splits : Bool → ℕ → List ℕ → ℕ → Option (List ℤ × ℤ) → Type 0
Splits s n ks a o =
    ((o ≡ none) × (2 ^ 63 ≤ n * total ks))
    ⊎ ((ms : List ℕ) × (length ms ≡ length ks)
        × (a + total ms ≤ n)
        × (o ≡ some (map (signed s) ms, signed s (a + total ms))))

wide_product : (s : Bool) (p : ℕ) → fits (signed s p) ≡ false → 2 ^ 63 ≤ p
wide_product true p h = ground arith
wide_product false p h = ground arith

distributes : (n k t : ℕ) → n * (k + t) ≡ n * k + n * t
distributes n k t = grind arith

split-cons :
    (amount r t allocated : ℤ) (rs : List ℤ) {p : ℤ}
    → mul_checked amount r ≡ some p
    → split amount t (r ∷ rs) allocated
      ≡ onto
          (wrap_int64 (quot p t))
          (split amount t rs (wrap_int64 (allocated +ℤ wrap_int64 (quot p t))))
unfolding split
split-cons amount r t allocated rs product = rw (product, split) refl

pub split-Splits :
    (s : Bool) (n t r a : ℕ) (ks : List ℕ)
    → n < 2 ^ 63
    → t < 2 ^ 63
    → 0 < t
    → r + total ks ≡ t
    → a * t ≤ n * r
    → Splits s n ks a (split (signed s n) (pos t) (map pos ks) (signed s a))
unfolding split onto
split-Splits s n t r a [] small few some_t whole part = inr (
  [],
  refl,
  omega (arith, part_total n t r a part (omega arith) some_t),
  ap (λ z. some ([], z)) (ap (signed s) (omega arith)),
)
split-Splits s n t r a (k ∷ ks) small few some_t whole part =
    let product : mul_checked (signed s n) (pos k) ≡ checked (signed s (n * k)) =
      mul_checked_lem (signed s n) (pos k) (signed-IsInt64 s n small) (omega arith)
      ∙ ap checked (times_pos s n k) in
    elim (Bool-cases (fits (signed s (n * k)))) [
      | inr wide ↦
          let large : 2 ^ 63 ≤ n * k = wide_product s (n * k) wide in
          inl (rw (product, wide, split) refl, omega (arith, large, distributes n k (total ks)))
      | inl fit ↦
          let next = part_bound n t r k a part in
          let within = part_total n t (r + k) (a + n * k / t) next (omega arith) some_t in
          let share = share_signed s n k t (omega arith) in
          let sum : wrap_int64 (signed s a +ℤ wrap_int64 (quot (signed s (n * k)) (pos t)))
              ≡ signed s (a + n * k / t) =
            ap (λ z. wrap_int64 (signed s a +ℤ z)) share
            ∙ add_signed s a (n * k / t) (omega arith) in
          let exact : checked (signed s (n * k)) ≡ some (signed s (n * k)) = rw fit refl in
          let step : split (signed s n) (pos t) (pos k ∷ map pos ks) (signed s a)
              ≡ onto (signed s (n * k / t))
                  (split (signed s n) (pos t) (map pos ks) (signed s (a + n * k / t))) =
            split-cons (signed s n) (pos k) (pos t) (signed s a) (map pos ks) (product ∙ exact)
            ∙ ap₂ (λ x y. onto x (split (signed s n) (pos t) (map pos ks) y)) share sum in
          elim (split-Splits s n t (r + k) (a + n * k / t) ks small few some_t (omega arith) next) [
            | inl (stuck, large) ↦ inl (
              step ∙ ap (onto (signed s (n * k / t))) stuck,
              omega (arith, large, distributes n k (total ks)),
            )
            | inr (ms, same, room, done) ↦ inr (
              n * k / t ∷ ms,
              ap suc same,
              omega arith,
              step
                  ∙ ap (onto (signed s (n * k / t))) done
                  ∙ ap (λ m. some (signed s (n * k / t) ∷ map (signed s) ms, signed s m))
                      (omega arith),
            )
          ]
    ]
