-- ===== src/Decimal/Digits.antt =====
-- Digits of numbers as decimal/decimal.go takes them from math/big, made by counting up, the least digit first,
-- and read back by their weights.
use kit4go.Decimal.Text.{AreDigits, BigText}
use kit4go.Common.Int.{ℤ, pos}
use kit4go.Common.{
  ℕ, zero, suc, ◌+◌, ◌-◌, ◌*◌, ◌<◌, ◌≡◌, refl, sym, ap, ◌∙◌, inl, inr, Option, some, List, [], ◌∷◌,
  ◌++◌, arith, ◌==◌, if◌then◌else◌, Bool-cases, length, replicate,
}

-- the digits of a number, and one more
unfoldable pub count_up : List ℕ → List ℕ
count_up [] = 49 ∷ []
count_up (b ∷ bs) = if b == 57 then 48 ∷ count_up bs else suc b ∷ bs

unfoldable pub low_digits : ℕ → List ℕ
unfolding count_up
low_digits zero = 48 ∷ []
low_digits (suc n) = count_up (low_digits n)

unfoldable pub weigh : List ℕ → ℕ
weigh [] = 0
weigh (b ∷ bs) = b - 48 + 10 * weigh bs

unfoldable pub flip : List ℕ → List ℕ → List ℕ
flip [] done = done
flip (b ∷ bs) done = flip bs (b ∷ done)

unfoldable pub digits : ℕ → List ℕ
unfolding low_digits flip
digits n = flip (low_digits n) []

-- of bytes that are digits, since `Parse` passes no others here
unfoldable pub read_digits : List ℕ → Option ℤ
unfolding weigh flip
read_digits bs = some (pos (weigh (flip bs [])))

flip-append : (as' bs : List ℕ) (done : List ℕ) → flip (as' ++ bs) done ≡ flip bs (flip as' done)
unfolding flip
flip-append [] bs done = refl
flip-append (a ∷ as') bs done = flip-append as' bs (a ∷ done)

flip_onto : (bs done : List ℕ) → flip bs done ≡ flip bs [] ++ done
unfolding flip
flip_onto [] done = refl
flip_onto (b ∷ bs) done =
    flip_onto bs (b ∷ done)
    ∙ append_assoc_back (flip bs []) b done
    ∙ ap (λ cs. cs ++ done) (sym (flip_onto bs (b ∷ [])))
  where
    append_assoc_back :
        (cs : List ℕ) (b : ℕ) (ds : List ℕ) → cs ++ (b ∷ ds) ≡ (cs ++ (b ∷ [])) ++ ds
    append_assoc_back [] b ds = refl
    append_assoc_back (c ∷ cs) b ds = ap (λ es. c ∷ es) (append_assoc_back cs b ds)

flip_twice : (bs done : List ℕ) → flip (flip bs done) [] ≡ flip done bs
unfolding flip
flip_twice [] done = refl
flip_twice (b ∷ bs) done = flip_twice bs (b ∷ done)

weigh_zeros : (k : ℕ) (done : List ℕ) → weigh done ≡ 0 → weigh (flip (replicate k 48) done) ≡ 0
unfolding weigh flip
weigh_zeros zero done h = h
weigh_zeros (suc k) done h = weigh_zeros k (48 ∷ done) (omega (arith, h))

weigh_onto : (bs done : List ℕ) → weigh done ≡ 0 → weigh (bs ++ done) ≡ weigh bs
unfolding weigh
weigh_onto [] done h = h
weigh_onto (b ∷ bs) done h = omega (arith, weigh_onto bs done h)

weigh-count_up : (bs : List ℕ) → AreDigits bs → weigh (count_up bs) ≡ suc (weigh bs)
unfolding weigh count_up AreDigits
weigh-count_up [] h = omega arith
weigh-count_up (b ∷ bs) h = elim (Bool-cases (b == 57)) [
  | inl nine ↦ rw nine (ground (arith, weigh-count_up bs h.2))
  | inr less ↦ rw less (ground arith)
]

AreDigits-count_up : (bs : List ℕ) → AreDigits bs → AreDigits (count_up bs)
unfolding count_up AreDigits
AreDigits-count_up [] h = (omega arith, omega arith, tt)
AreDigits-count_up (b ∷ bs) h = elim (Bool-cases (b == 57)) [
  | inl nine ↦ rw nine (omega arith, omega arith, AreDigits-count_up bs h.2)
  | inr less ↦ rw less (ground arith, ground arith, h.2)
]

AreDigits-low : (n : ℕ) → AreDigits (low_digits n)
unfolding low_digits AreDigits
AreDigits-low zero = (omega arith, omega arith, tt)
AreDigits-low (suc n) = AreDigits-count_up (low_digits n) (AreDigits-low n)

weigh-low_digits : (n : ℕ) → weigh (low_digits n) ≡ n
unfolding low_digits weigh
weigh-low_digits zero = refl
weigh-low_digits (suc n) =
    weigh-count_up (low_digits n) (AreDigits-low n) ∙ ap suc (weigh-low_digits n)

AreDigits-flip : (bs done : List ℕ) → AreDigits bs → AreDigits done → AreDigits (flip bs done)
unfolding flip AreDigits
AreDigits-flip [] done h k = k
AreDigits-flip (b ∷ bs) done h k = AreDigits-flip bs (b ∷ done) h.2 (h.0, h.1, k)

length-flip : (bs done : List ℕ) → length (flip bs done) ≡ length bs + length done
unfolding flip
length-flip [] done = omega arith
length-flip (b ∷ bs) done = omega (arith, length-flip bs (b ∷ done))

count_up_not_empty : (bs : List ℕ) → 0 < length (count_up bs)
unfolding count_up
count_up_not_empty [] = omega arith
count_up_not_empty (b ∷ bs) = elim (Bool-cases (b == 57)) [
  | inl nine ↦ rw nine (omega arith)
  | inr less ↦ rw less (omega arith)
]

low_not_empty : (n : ℕ) → 0 < length (low_digits n)
unfolding low_digits
low_not_empty zero = omega arith
low_not_empty (suc n) = count_up_not_empty (low_digits n)

read_back : (zeros n : ℕ) → read_digits (replicate zeros 48 ++ digits n) ≡ some (pos n)
unfolding read_digits digits weigh
read_back zeros n =
    ap (λ bs. some (pos (weigh bs)))
      (flip-append (replicate zeros 48) (flip (low_digits n) []) []
        ∙ flip_onto (flip (low_digits n) []) (flip (replicate zeros 48) []))
    ∙ ap (λ w. some (pos w))
        (weigh_onto (flip (flip (low_digits n) []) []) (flip (replicate zeros 48) [])
            (weigh_zeros zeros [] refl)
          ∙ ap weigh (flip_twice (low_digits n) [])
          ∙ weigh-low_digits n)

pub big_text : BigText digits read_digits
unfolding digits AreDigits
big_text = record {
  are_digits = λ n. AreDigits-flip (low_digits n) [] (AreDigits-low n) tt;
  not_empty = λ n. omega (arith, length-flip (low_digits n) [], low_not_empty n);
  read_back = read_back;
}
