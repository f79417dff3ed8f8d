-- ===== src/Shortlink/Codes.antt =====
-- The codes of shortlink/shortlink.go over an alphabet without repetitions: what is encoded decodes to the same
-- number.
use native.Mathlib.Nat.{mul-le-mul_left, mod-lt, div-add-mod', div-lt_iff_lt-mul}
use kit4go.Shortlink.{
  seen_before, unique_from, unique_chars, DecodeError, encode_loop, encode_base_n, index_from,
  decode_base_n,
}
use kit4go.Shortlink.Values.{value_from, decode_lem}
use kit4go.Common.Words.{string_of, u64_mod}
use kit4go.Common.{
  ℕ, zero, suc, ◌+◌, ◌/◌, ◌%◌, ◌^◌, ◌<◌, ◌≡◌, refl, sym, ap, ◌∙◌, inl, inr, Bool, true, false, none,
  some, List, [], ◌∷◌, arith, ltb, ◌==◌, if◌then◌else◌, ==_iff, Bool-cases, length, get_or,
}

apart :
    (x b : ℕ) (seen : List ℕ)
    → seen_before x seen ≡ false
    → seen_before b seen ≡ true
    → x == b ≡ false
apart x b seen fresh was = elim (Bool-cases (x == b)) [
  | inr differ ↦ differ
  | inl same ↦
      let moved : seen_before x seen ≡ seen_before b seen =
        ap (λ (c : ℕ). seen_before c seen) ((==_iff x b).0 same) in
      let clash : true ≡ false = sym was ∙ sym moved ∙ fresh in ground arith
]

-- a byte that was seen does not come again
index_from-seen :
    (i : ℕ) (seen bs : List ℕ) (b : ℕ)
    → unique_from seen bs ≡ true
    → seen_before b seen ≡ true
    → index_from i bs b ≡ none
unfolding unique_from index_from seen_before
index_from-seen i seen [] b unique was = refl
index_from-seen i seen (x ∷ bs) b unique was = elim (Bool-cases (seen_before x seen)) [
  | inl again ↦ ground arith
  | inr fresh ↦
      let rest : unique_from (x ∷ seen) bs ≡ true = ground arith in
      let still : seen_before b (x ∷ seen) ≡ true = ground arith in
      let differ : x == b ≡ false = apart x b seen fresh was in
      rw (index_from-seen (suc i) (x ∷ seen) bs b rest still, index_from) (rw differ refl)
]

index_from-get_or :
    (i k : ℕ) (seen bs : List ℕ)
    → unique_from seen bs ≡ true
    → k < length bs
    → index_from i bs (get_or bs k 0) ≡ some (i + k)
unfolding unique_from index_from seen_before
index_from-get_or i k seen [] unique lt = absurd (omega (arith, lt))
index_from-get_or i zero seen (x ∷ bs) unique lt =
    let rest : unique_from (x ∷ seen) bs ≡ true = ground arith in
    let seen_x : seen_before x (x ∷ seen) ≡ true = ground arith in
    let same : x == x ≡ true = ground arith in
    rw (index_from-seen (suc i) (x ∷ seen) bs x rest seen_x, index_from)
      (rw same (ap some (omega arith)))
index_from-get_or i (suc k) seen (x ∷ bs) unique lt =
    let rest : unique_from (x ∷ seen) bs ≡ true = ground arith in
    rw (index_from-get_or (suc i) k (x ∷ seen) bs rest (omega (arith, lt)), index_from)
      (ap some (omega arith))

value_from-digit :
    (alphabet : List ℕ) (id : ℕ) (out : List ℕ)
    → 1 < length alphabet
    → unique_chars alphabet ≡ true
    → value_from alphabet (id / length alphabet) (get_or alphabet (id % length alphabet) 0 ∷ out)
      ≡ value_from alphabet id out
unfolding value_from unique_chars
value_from-digit alphabet id out two unique =
    let n = length alphabet in
    let some_letter : 0 < n = omega (arith, two) in
    let digit = index_from-get_or 0 (id % n) [] alphabet unique (mod-lt id some_letter) in
    rw (digit, value_from)
      (ap (λ (r : ℕ). value_from alphabet r out) {y = id} (omega (arith, div-add-mod' id n)))

halves : (id n room : ℕ) → 1 < n → id < 2 ^ suc room → id / n < 2 ^ room
halves id n room two small =
    (div-lt_iff_lt-mul (omega (arith, two))).1
      (omega (arith, mul-le-mul_left (2 ^ room) two, small))

-- Room for the binary digits is enough: the code stands for the number, and what was written before follows.
encode_loop_lem :
    (alphabet : List ℕ) (room id : ℕ) (out : List ℕ)
    → 1 < length alphabet
    → unique_chars alphabet ≡ true
    → id < 2 ^ room
    → (code : List ℕ) × (encode_loop alphabet room id out ≡ some code)
      × (value_from alphabet 0 code ≡ value_from alphabet id out)
unfolding encode_loop
encode_loop_lem alphabet zero id out two unique small =
    let none_left : id ≡ 0 = ground (arith, small) in
    let done : id == 0 ≡ true = ground (arith, none_left) in
    (out, rw done refl, ap (λ (r : ℕ). value_from alphabet r out) (sym none_left))
encode_loop_lem alphabet (suc room) id out two unique small = elim (Bool-cases (id == 0)) [
  | inl done ↦
      let none_left : id ≡ 0 = ground arith in
      (out, rw done refl, ap (λ (r : ℕ). value_from alphabet r out) (sym none_left))
  | inr more ↦
      let n = length alphabet in
      let (code, written, stands) =
        encode_loop_lem alphabet room (id / n) (get_or alphabet (id % n) 0 ∷ out) two unique
          (halves id n room two small) in
      (code, rw more written, stands ∙ value_from-digit alphabet id out two unique)
]

one_digit :
    (alphabet : List ℕ)
    → 0 < length alphabet
    → unique_chars alphabet ≡ true
    → value_from alphabet 0 (get_or alphabet 0 0 ∷ []) ≡ some 0
unfolding value_from unique_chars
one_digit alphabet some_letter unique =
    rw (index_from-get_or 0 0 [] alphabet unique some_letter, value_from) (ap some (omega arith))

no_digits : (alphabet : List ℕ) (id : ℕ) → value_from alphabet id [] ≡ some id
unfolding value_from
no_digits alphabet id = refl

encode_zero :
    (alphabet : List ℕ) (id : ℕ)
    → id == 0 ≡ true
    → get_or alphabet 0 0 < 128
    → encode_base_n id alphabet ≡ some (get_or alphabet 0 0 ∷ [])
unfolding encode_base_n string_of
encode_zero alphabet id h ascii =
    let one_byte : ltb (get_or alphabet 0 0) 128 ≡ true = ground (arith, ascii) in
    ap
      (λ (t : Bool).
        if t then some (string_of (get_or alphabet 0 0)) else encode_loop alphabet 64 id [])
      h
    ∙ rw one_byte refl

encode_more :
    (alphabet : List ℕ) (id : ℕ)
    → id == 0 ≡ false
    → encode_base_n id alphabet ≡ encode_loop alphabet 64 id []
unfolding encode_base_n
encode_more alphabet id h =
    ap
      (λ (t : Bool).
        if t then some (string_of (get_or alphabet 0 0)) else encode_loop alphabet 64 id [])
      h

-- Over an alphabet of at least two bytes, fewer than 2^64, with none twice and the first below 128: every uint64 is encoded without a panic,
-- and its code decodes to it.
pub round_trip :
    (alphabet : List ℕ) (id : ℕ)
    → 1 < length alphabet
    → length alphabet < u64_mod
    → unique_chars alphabet ≡ true
    → get_or alphabet 0 0 < 128
    → id < u64_mod
    → (code : List ℕ) × (encode_base_n id alphabet ≡ some code)
      × (decode_base_n code alphabet ≡ inl id)
round_trip alphabet id two small unique ascii id_small =
    let some_letter : 0 < length alphabet = omega (arith, two) in
    let fits : ltb id u64_mod ≡ true = ground (arith, id_small) in
    let read : (if ltb id u64_mod then inl id else inr DecodeError.overflows) ≡ inl id =
      rw fits refl in
    elim (Bool-cases (id == 0)) [
      | inl none_left ↦
          let zero_id : 0 ≡ id = ground arith in
          (
            get_or alphabet 0 0 ∷ [],
            encode_zero alphabet id none_left ascii,
            decode_lem alphabet id (get_or alphabet 0 0 ∷ []) some_letter small
                  (one_digit alphabet some_letter unique ∙ ap some zero_id)
                ∙ read,
          )
      | inr more ↦
          let (code, written, stands) = encode_loop_lem alphabet 64 id [] two unique id_small in
          (
            code,
            encode_more alphabet id more ∙ written,
            decode_lem alphabet id code some_letter small (stands ∙ no_digits alphabet id) ∙ read,
          )
    ]
