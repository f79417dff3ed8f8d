-- ===== src/Shortlink/Values.antt =====
-- The numbers that the codes of shortlink/shortlink.go stand for: decoding reads them, and refuses one that no
-- uint64 holds.
use mathlib.Core.Option.{some-injective}
use native.Mathlib.Nat.{le-div_iff_mul-le, div-lt_iff_lt-mul}
use kit4go.Shortlink.{DecodeError, index_from, decode_loop, decode_base_n}
use kit4go.Common.Words.{u64_mod, add64, mul64}
use kit4go.Common.{
  ℕ, zero, suc, ◌+◌, ◌-◌, ◌*◌, ◌/◌, ◌≤◌, ◌<◌, ◌≡◌, refl, ap, ◌∙◌, inl, inr, true, false, Option,
  none, some, List, [], ◌∷◌, arith, ltb, if◌then◌else◌, ltb→lt, Bool-cases, Option-cases, length,
  subst,
}

-- The number that a code stands for, after one that stands for `r`; none for a byte out of the alphabet.
unfoldable pub value_from : List ℕ → ℕ → List ℕ → Option ℕ
value_from alphabet r [] = some r
value_from alphabet r (b ∷ bs) = elim (index_from 0 alphabet b) [
  | none ↦ none
  | some val ↦ value_from alphabet (r * length alphabet + val) bs
]

index_lt :
    (i : ℕ) (alphabet : List ℕ) (b j : ℕ)
    → index_from i alphabet b ≡ some j
    → j < i + length alphabet
unfolding index_from
index_lt i [] b j e = ground arith
index_lt i (a ∷ alphabet) b j e = elim (Option-cases (index_from (suc i) alphabet b)) [
  | inl absent ↦ ground arith
  | inr (k, found) ↦
      let below = index_lt (suc i) alphabet b k found in
      let same : k ≡ j = ground arith in omega (arith, below, same)
]

grows : (r n val : ℕ) → 0 < n → r ≤ r * n + val
grows r zero val h = absurd (omega (arith, h))
grows r (suc n) val h = grind arith

value_from_le :
    (alphabet : List ℕ) (r v : ℕ) (code : List ℕ)
    → 0 < length alphabet
    → value_from alphabet r code ≡ some v
    → r ≤ v
unfolding value_from
value_from_le alphabet r v [] some_letter e = ground arith
value_from_le alphabet r v (b ∷ bs) some_letter e = elim (Option-cases (index_from 0 alphabet b)) [
  | inl absent ↦ ground arith
  | inr (val, found) ↦
      let rest : value_from alphabet (r * length alphabet + val) bs ≡ some v =
        subst
          (λ (o : Option ℕ).
            elim o [ none ↦ none | some val ↦ value_from alphabet (r * length alphabet + val) bs ]
            ≡ some v)
          found e in
      let below = value_from_le alphabet (r * length alphabet + val) v bs some_letter rest in
      omega (arith, below, grows r (length alphabet) val some_letter)
]

-- the test before the product, and the sum when it passes
no_wrap :
    (r n val : ℕ)
    → 0 < n
    → val < u64_mod
    → ltb ((u64_mod - 1 - val) / n) r ≡ false
    → (r * n + val < u64_mod) × (add64 (mul64 r n) val ≡ r * n + val)
no_wrap r n val some_n small h =
    let fits : r ≤ (u64_mod - 1 - val) / n = ground arith in
    let below : r * n ≤ u64_mod - 1 - val = (le-div_iff_mul-le some_n).0 fits in
    (omega (arith, below, small), omega (arith, below, small))

would_wrap : (r n val : ℕ) → 0 < n → ltb ((u64_mod - 1 - val) / n) r ≡ true → u64_mod ≤ r * n + val
would_wrap r n val some_n h =
    let above : (u64_mod - 1 - val) / n < r = ltb→lt ((u64_mod - 1 - val) / n) r h in
    omega (arith, (div-lt_iff_lt-mul some_n).0 above)

decode_loop_lem :
    (alphabet : List ℕ) (r v : ℕ) (code : List ℕ)
    → 0 < length alphabet
    → length alphabet < u64_mod
    → r < u64_mod
    → value_from alphabet r code ≡ some v
    → decode_loop alphabet r code ≡ (if ltb v u64_mod then inl v else inr DecodeError.overflows)
unfolding decode_loop value_from
decode_loop_lem alphabet r v [] some_letter small r_small e =
    let same : r ≡ v = some-injective _ _ e in
    let fits : ltb v u64_mod ≡ true = ground (arith, same, r_small) in rw fits (ap inl same)
decode_loop_lem alphabet r v (b ∷ bs) some_letter small r_small e =
    elim (Option-cases (index_from 0 alphabet b)) [
      | inl absent ↦ ground arith
      | inr (val, found) ↦
          let n = length alphabet in
          let rest : value_from alphabet (r * n + val) bs ≡ some v =
            subst
              (λ (o : Option ℕ).
                elim o [ none ↦ none | some val ↦ value_from alphabet (r * n + val) bs ] ≡ some v)
              found e in
          let val_small : val < u64_mod = omega (arith, index_lt 0 alphabet b val found, small) in
          elim (Bool-cases (ltb ((u64_mod - 1 - val) / n) r)) [
            | inl over ↦
                let large : ltb v u64_mod ≡ false = ground (
                  arith,
                  would_wrap r n val some_letter over,
                  value_from_le alphabet (r * n + val) v bs some_letter rest,
                ) in
                rw (found, decode_loop) (rw (over, large) refl)
            | inr under ↦
                let exact = no_wrap r n val some_letter val_small under in
                rw (found, decode_loop)
                  (rw under (
                    ap (λ (r' : ℕ). decode_loop alphabet r' bs) exact.1
                    ∙ decode_loop_lem alphabet (r * n + val) v bs some_letter small exact.0 rest))
          ]
    ]

-- Over an alphabet that is not empty: a code of its letters decodes to the number that it stands for, if that is
-- below 2^64, and is reported to overflow otherwise.
pub decode_lem :
    (alphabet : List ℕ) (v : ℕ) (code : List ℕ)
    → 0 < length alphabet
    → length alphabet < u64_mod
    → value_from alphabet 0 code ≡ some v
    → decode_base_n code alphabet ≡ (if ltb v u64_mod then inl v else inr DecodeError.overflows)
unfolding decode_base_n
decode_lem alphabet v code some_letter small e =
    decode_loop_lem alphabet 0 v code some_letter small (omega arith) e
