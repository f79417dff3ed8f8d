-- ===== src/Base62/RoundTrip.antt =====
-- What base62/base62.go encodes it decodes to the same number.
use kit4go.Common.Words.{string_of, add64, mul64}
use kit4go.Base62.{
  default_alphabet, build_decode_table, encode, decode, value, Table, encode_loop,
  encode_with_alphabet, set_index, fill_table, build_decode_table_err, decode_loop,
  decode_with_table, decode_with_alphabet,
}
use kit4go.Common.{
  ℕ, zero, suc, ◌+◌, ◌/◌, ◌%◌, ◌^◌, ◌<◌, ◌≡◌, refl, sym, ap, ◌∙◌, ◌⊎◌, inl, inr, none, some, List,
  [], ◌∷◌, arith, ◌==◌, ==_iff, Bool-cases, length, get_elem?,
}

fill_table-cons :
    (c : ℕ) (cs : List ℕ) (i : ℕ) (idx idx' : Table)
    → fill_table (c ∷ cs) i idx ≡ some idx'
    → (idx c ≡ none) × (fill_table cs (suc i) (set_index c i idx) ≡ some idx')
unfolding fill_table
fill_table-cons c cs i idx idx' e = ground arith

set_index-keeps :
    (c i : ℕ) (idx : Table) (b j : ℕ) → idx c ≡ none → idx b ≡ some j → set_index c i idx b ≡ some j
unfolding set_index
set_index-keeps c i idx b j free h = elim (Bool-cases (b == c)) [
  | inl e ↦ absurd (clash ((==_iff b c).0 e))
  | inr e ↦ rw e h
]
  where
    clash : (b ≡ c) → ⊥
    clash same = let both : none ≡ some j = sym free ∙ sym (ap idx same) ∙ h in ground arith

set_index_self : (b c i : ℕ) (idx : Table) → some b ≡ some c → set_index b i idx c ≡ some (i + 0)
unfolding set_index
set_index_self b c i idx h = ground arith

-- Filling a table without a byte that repeats keeps what the table had.
fill_table-keeps :
    (cs : List ℕ) (i : ℕ) (idx idx' : Table)
    → fill_table cs i idx ≡ some idx'
    → (b j : ℕ) → idx b ≡ some j
    → idx' b ≡ some j
unfolding fill_table
fill_table-keeps [] i idx idx' e b j h = cc
fill_table-keeps (c ∷ cs) i idx idx' e b j h =
    let (free, rest) = fill_table-cons c cs i idx idx' e in
    fill_table-keeps cs (suc i) (set_index c i idx) idx' rest b j
      (set_index-keeps c i idx b j free h)

-- It gives each byte its position.
fill_table-at :
    (cs : List ℕ) (i : ℕ) (idx idx' : Table)
    → fill_table cs i idx ≡ some idx'
    → (k c : ℕ) → get_elem? cs k ≡ some c
    → idx' c ≡ some (i + k)
fill_table-at [] i idx idx' e k c h = absurd (ground arith)
fill_table-at (b ∷ cs) i idx idx' e zero c h =
    let (free, rest) = fill_table-cons b cs i idx idx' e in
    fill_table-keeps cs (suc i) (set_index b i idx) idx' rest c (i + 0) (set_index_self b c i idx h)
fill_table-at (b ∷ cs) i idx idx' e (suc k) c h =
    let (free, rest) = fill_table-cons b cs i idx idx' e in
    fill_table-at cs (suc i) (set_index b i idx) idx' rest k c h ∙ ap some (omega arith)

-- every byte of the alphabet decodes to its position
abbrev Inverts : Table → List ℕ → Type 0
Inverts idx alphabet = (k c : ℕ) → get_elem? alphabet k ≡ some c → idx c ≡ some k

has_byte : (cs : List ℕ) (k : ℕ) → k < length cs → (c : ℕ) × (get_elem? cs k ≡ some c)
has_byte [] k h = absurd (omega arith)
has_byte (c ∷ cs) zero h = (c, refl)
has_byte (c ∷ cs) (suc k) h = has_byte cs k (omega arith)

next_value : (id : ℕ) → id < 2 ^ 64 → add64 (mul64 (id / 62) 62) (id % 62) ≡ id
next_value id small = omega arith

decode_loop-cons :
    (idx : Table) (id c : ℕ) (out : List ℕ)
    → idx c ≡ some (id % 62)
    → id < 2 ^ 64
    → decode_loop idx (id / 62) (c ∷ out) ≡ decode_loop idx id out
unfolding decode_loop
decode_loop-cons idx id c out h small =
    rw (h, decode_loop) (ap (λ m. decode_loop idx m out) (next_value id small))

string_of-ascii : (b : ℕ) → b < 128 → string_of b ≡ b ∷ []
unfolding string_of
string_of-ascii b h = ground arith

decode_one : (idx : Table) (c : ℕ) → idx c ≡ some 0 → decode_with_table (c ∷ []) idx ≡ value 0
unfolding decode_with_table decode_loop
decode_one idx c h = rw (h, decode_loop) refl

module _ (alphabet : List ℕ) (idx : Table) (size : length alphabet ≡ 62)
    (inverts : Inverts idx alphabet) where
  -- The loop writes its digits in front of `out`, and they decode to `id`.
  encode_loop_lem :
      (n id : ℕ) (out : List ℕ)
      → id < 62 ^ n
      → id < 2 ^ 64
      → (s : List ℕ) × (encode_loop alphabet n id out ≡ some s)
        × (decode_loop idx 0 s ≡ decode_loop idx id out)
        × ((0 < length out) ⊎ (0 < id) → 0 < length s)
  unfolding encode_loop
  encode_loop_lem zero id out h small =
      let e : id ≡ 0 = omega arith in rw e (out, refl, refl, λ some_left. ground arith)
  encode_loop_lem (suc n) id out h small = elim (Bool-cases (id == 0)) [
    | inl e ↦
        let zero_id : 0 ≡ id = ground arith in
        rw (e, encode_loop)
          (out, refl, ap (λ m. decode_loop idx m out) zero_id, λ some_left. ground arith)
    | inr e ↦
        let (c, at) = has_byte alphabet (id % 62) (omega arith) in
        let (s, done, decodes, long) =
          encode_loop_lem n (id / 62) (c ∷ out) (omega arith) (omega arith) in
        rw (e, at, encode_loop)
          (
            s,
            done,
            decodes ∙ decode_loop-cons idx id c out (inverts (id % 62) c at) small,
            λ some_left. long (inl (omega arith)),
          )
  ]

  decode_with_table-long :
      (s : List ℕ) → 0 < length s → decode_with_table s idx ≡ decode_loop idx 0 s
  unfolding decode_with_table
  decode_with_table-long [] h = absurd (omega arith)
  decode_with_table-long (b ∷ s) h = refl

  table_round_trip :
      (id c : ℕ)
      → get_elem? alphabet 0 ≡ some c
      → c < 128
      → id < 2 ^ 64
      → (s : List ℕ) × (encode_with_alphabet id alphabet ≡ some s)
        × (decode_with_table s idx ≡ value id)
  unfolding encode_with_alphabet string_of decode_loop
  table_round_trip id c first ascii small = elim (Bool-cases (id == 0)) [
    | inl e ↦
        let zero_id : 0 ≡ id = ground arith in
        rw (e, encode_with_alphabet)
          (rw first (
            c ∷ [],
            ap some (string_of-ascii c ascii),
            decode_one idx c (inverts 0 c first) ∙ ap value zero_id,
          ))
    | inr e ↦
        let (s, done, decodes, long) = encode_loop_lem 12 id [] (omega arith) small in
        rw (e, encode_with_alphabet)
          (s, done, decode_with_table-long s (long (inr (ground arith))) ∙ decodes)
  ]

-- For an alphabet of 62 different bytes, the first of them ASCII: every uint64 is encoded, and the
-- string decodes to it.
pub decode-encode :
    (alphabet : List ℕ) (c id : ℕ) (idx : Table)
    → length alphabet ≡ 62
    → build_decode_table_err alphabet ≡ some idx
    → get_elem? alphabet 0 ≡ some c
    → c < 128
    → id < 2 ^ 64
    → (s : List ℕ) × (encode_with_alphabet id alphabet ≡ some s)
      × (decode_with_alphabet s alphabet ≡ value id)
unfolding decode_with_alphabet build_decode_table_err
decode-encode alphabet c id idx size built first ascii small =
    let inverts : Inverts idx alphabet =
      λ k b h. fill_table-at alphabet 0 _ idx built k b h ∙ ap some (omega arith) in
    let (s, done, decodes) = table_round_trip alphabet idx size inverts id c first ascii small in
    (s, done, rw (size, decode_with_alphabet) (rw (built, build_decode_table_err) decodes))

default_built : build_decode_table_err default_alphabet ≡ some (build_decode_table default_alphabet)
unfolding build_decode_table_err build_decode_table
default_built = refl

-- `Encode` encodes every uint64, and `Decode` takes the string back to it.
pub default_round_trip :
    (id : ℕ) → id < 2 ^ 64 → (s : List ℕ) × (encode id ≡ some s) × (decode s ≡ value id)
unfolding encode decode build_decode_table_err
default_round_trip id small =
    let idx = build_decode_table default_alphabet in
    let inverts : Inverts idx default_alphabet = λ k b h.
      fill_table-at default_alphabet 0 (λ x. none) idx default_built k b h
      ∙ ap some (omega arith) in
    table_round_trip default_alphabet idx refl inverts id 48 refl (omega arith) small
