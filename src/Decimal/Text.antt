-- ===== src/Decimal/Text.antt =====
-- `Parse` and `String` of decimal/decimal.go undo each other.
use kit4go.Decimal.{
  of_value, split_point, pad, is_sign, cut_sign, bad_start, parse_unsigned, parse, point, to_string,
}
use kit4go.Common.Int.{ℤ, pos, negsuc, ◌-ℤ◌}
use kit4go.Common.{
  ℕ, zero, suc, ◌+◌, ◌-◌, ◌≤◌, ◌<◌, ◌≡◌, refl, sym, ap, ◌∙◌, inl, inr, Bool, true, false, Option,
  some, List, [], ◌∷◌, ◌++◌, append-nil, arith, ltb, leb, ◌==◌, if◌then◌else◌, Bool-cases, length,
  take, drop, replicate, take-append-drop, length-take, length-drop, subst,
}

unfoldable pub AreDigits : List ℕ → Type 0
AreDigits [] = Unit
AreDigits (b ∷ bs) = (48 ≤ b) × (b ≤ 57) × AreDigits bs

-- what math/big documents of `String` and of `SetString` in base 10
pub record BigText (digits : ℕ → List ℕ) (set_string : List ℕ → Option ℤ) : Type 0 where
  pub are_digits : (n : ℕ) → AreDigits (digits n)
  pub not_empty : (n : ℕ) → 0 < length (digits n)
  pub read_back : (zeros n : ℕ) → set_string (replicate zeros 48 ++ digits n) ≡ some (pos n)

replicate-suc : (k : ℕ) (str : List ℕ) → replicate k 48 ++ (48 ∷ str) ≡ replicate (suc k) 48 ++ str
replicate-suc zero str = refl
replicate-suc (suc k) str = ap (λ bs. 48 ∷ bs) (replicate-suc k str)

pad_lem :
    (fuel scale : ℕ) (str : List ℕ)
    → scale < length str + fuel
    → (k : ℕ) × (pad fuel scale str ≡ replicate k 48 ++ str) × (scale < length (pad fuel scale str))
unfolding pad
pad_lem zero scale str h = (0, refl, omega (arith, h))
pad_lem (suc fuel) scale str h = elim (Bool-cases (leb (length str) scale)) [
  | inl short ↦
      let (k, e, long) = pad_lem fuel scale (48 ∷ str) (omega (arith, h)) in
      (suc k, rw short (e ∙ replicate-suc k str), rw short long)
  | inr long ↦ (0, rw long refl, rw long (ground arith))
]

AreDigits-zeros : (k : ℕ) (str : List ℕ) → AreDigits str → AreDigits (replicate k 48 ++ str)
unfolding AreDigits
AreDigits-zeros zero str h = h
AreDigits-zeros (suc k) str h = (omega arith, omega arith, AreDigits-zeros k str h)

AreDigits-take : (n : ℕ) (str : List ℕ) → AreDigits str → AreDigits (take n str)
unfolding AreDigits
AreDigits-take zero str h = tt
AreDigits-take (suc n) [] h = tt
AreDigits-take (suc n) (b ∷ bs) h = (h.0, h.1, AreDigits-take n bs h.2)

split_point-digits : (str : List ℕ) → AreDigits str → split_point str ≡ (str, [])
unfolding split_point AreDigits
split_point-digits [] h = refl
split_point-digits (b ∷ bs) h =
    let no_point : b == 46 ≡ false = ground (arith, h.0) in
    rw no_point (ap (λ (p : List ℕ × List ℕ). (b ∷ p.0, p.1)) (split_point-digits bs h.2))

split_point-append :
    (whole frac : List ℕ) → AreDigits whole → split_point (whole ++ (46 ∷ frac)) ≡ (whole, frac)
unfolding split_point AreDigits
split_point-append [] frac h = refl
split_point-append (b ∷ bs) frac h =
    let no_point : b == 46 ≡ false = ground (arith, h.0) in
    rw no_point (ap (λ (p : List ℕ × List ℕ). (b ∷ p.0, p.1)) (split_point-append bs frac h.2))

-- a text that starts with a digit has no sign to cut off
digit_start :
    (b : ℕ) (bs : List ℕ)
    → 48 ≤ b
    → (bad_start (b ∷ bs) ≡ false) × (cut_sign (b ∷ bs) ≡ (false, b ∷ bs))
unfolding bad_start is_sign cut_sign
digit_start b bs h = (ground arith, ground arith)

digits_start :
    (str rest : List ℕ)
    → AreDigits str
    → 0 < length str
    → (bad_start (str ++ rest) ≡ false) × (cut_sign (str ++ rest) ≡ (false, str ++ rest))
unfolding AreDigits
digits_start [] rest h pos_len = absurd (omega (arith, pos_len))
digits_start (b ∷ bs) rest h pos_len = digit_start b (bs ++ rest) h.0

-- What `Parse` makes of a text: the two parts, which together are the digits padded with zeros.
IsCut : ℕ → List ℕ → List ℕ → Type 0
IsCut scale str text =
    (whole frac : List ℕ) × (k : ℕ) × (split_point text ≡ (whole, frac))
    × (length frac ≤ scale)
    × (whole ++ (frac ++ replicate (scale - length frac) 48) ≡ replicate k 48 ++ str)
    × (bad_start text ≡ false)
    × (cut_sign text ≡ (false, text))

point_lem :
    (scale : ℕ) (str : List ℕ) → AreDigits str → 0 < length str → IsCut scale str (point scale str)
unfolding IsCut point
point_lem scale str h pos_len = elim (Bool-cases (scale == 0)) [
  | inl whole_number ↦
      let start = digits_start str [] h pos_len in
      let same = append-nil str in
      let no_scale : scale - 0 ≡ 0 = ground arith in
      let is_cut : IsCut scale str str = (
        str,
        [],
        0,
        split_point-digits str h,
        omega arith,
        ap (λ (n : ℕ). str ++ replicate n 48) no_scale ∙ same,
        subst (λ s. bad_start s ≡ false) same start.0,
        subst (λ s. cut_sign s ≡ (false, s)) same start.1,
      ) in
      subst (IsCut scale str) (rw whole_number refl) is_cut
  | inr fraction ↦
      let (k, padded, long) = pad_lem (suc scale) scale str (omega arith) in
      let str' = pad (suc scale) scale str in
      let cut = length str' - scale in
      let are : AreDigits str' = subst AreDigits (sym padded) (AreDigits-zeros k str h) in
      let frac_len : length (drop cut str') ≡ scale = omega (arith, length-drop cut str', long) in
      let no_zeros : scale - length (drop cut str') ≡ 0 = omega (arith, frac_len) in
      let whole_are = AreDigits-take cut str' are in
      let whole_len : 0 < length (take cut str') = omega (arith, length-take cut str', long) in
      let start = digits_start (take cut str') (46 ∷ drop cut str') whole_are whole_len in
      let is_cut : IsCut scale str (take cut str' ++ (46 ∷ drop cut str')) = (
        take cut str',
        drop cut str',
        k,
        split_point-append (take cut str') (drop cut str') whole_are,
        omega (arith, frac_len),
        ap (λ (n : ℕ). take cut str' ++ (drop cut str' ++ replicate n 48)) no_zeros
            ∙ ap (λ bs. take cut str' ++ bs) (append-nil (drop cut str'))
            ∙ take-append-drop cut str'
            ∙ padded,
        start.0,
        start.1,
      ) in
      subst (IsCut scale str) (rw fraction refl) is_cut
]

module _ (digits : ℕ → List ℕ) (set_string : List ℕ → Option ℤ)
    (text : BigText digits set_string) where
  parse_unsigned-parts :
      (neg : Bool) (scale n : ℕ) (s whole frac : List ℕ)
      → split_point s ≡ (whole, frac)
      → bad_start s ≡ false
      → ltb scale (length frac) ≡ false
      → set_string (whole ++ (frac ++ replicate (scale - length frac) 48)) ≡ some (pos n)
      → parse_unsigned digits set_string neg scale s
        ≡ inl (of_value (if neg then pos 0 -ℤ pos n else pos n) scale)
  unfolding parse_unsigned
  parse_unsigned-parts neg scale n s whole frac cut start fits read =
      rw cut (rw (start, fits) (rw read refl))

  parse_unsigned-point :
      (neg : Bool) (scale n : ℕ)
      → parse_unsigned digits set_string neg scale (point scale (digits n))
        ≡ inl (of_value (if neg then pos 0 -ℤ pos n else pos n) scale)
  unfolding IsCut
  parse_unsigned-point neg scale n =
      let (whole, frac, k, cut, le, joined, start, no_sign) =
        point_lem scale (digits n) (text.are_digits n) (text.not_empty n) in
      let fits : ltb scale (length frac) ≡ false = ground (arith, le) in
      let read : set_string (whole ++ (frac ++ replicate (scale - length frac) 48)) ≡ some (pos n) =
        ap set_string joined ∙ text.read_back k n in
      parse_unsigned-parts neg scale n (point scale (digits n)) whole frac cut start fits read

  parse_plain :
      (scale : ℕ) (s : List ℕ)
      → bad_start s ≡ false
      → cut_sign s ≡ (false, s)
      → parse digits set_string s (pos scale) ≡ parse_unsigned digits set_string false scale s
  unfolding parse bad_start
  parse_plain scale [] start no_sign = ground arith
  parse_plain scale (b ∷ bs) start no_sign =
      ap (λ (p : Bool × List ℕ). parse_unsigned digits set_string p.0 scale p.1) no_sign

  -- With the digits and the reading that math/big documents: `Parse` of the `String` of a number with its scale
  -- gives the number back.
  pub parse-to_string :
      (v : ℤ) (scale : ℕ)
      → parse digits set_string (to_string digits set_string (of_value v scale)) (pos scale)
        ≡ inl (of_value v scale)
  unfolding parse to_string cut_sign IsCut ◌-ℤ◌
  parse-to_string (pos n) scale =
      let (whole, frac, k, cut, le, joined, start, no_sign) =
        point_lem scale (digits n) (text.are_digits n) (text.not_empty n) in
      parse_plain scale (point scale (digits n)) start no_sign ∙ parse_unsigned-point false scale n
  parse-to_string (negsuc n) scale =
      parse_unsigned-point true scale (suc n)
      ∙ ap (λ (v : ℤ). inl (of_value v scale)) {y = negsuc n} (ground arith)
