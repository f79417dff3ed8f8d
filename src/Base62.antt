-- ===== src/Base62.antt =====
-- base62/base62.go. A byte is a number, a string a list of bytes, and the table `[256]int8` a function
-- from bytes in which `none` is -1. A panic for an index out of range is `none`.
use kit4go.Common.Words.{string_of, add64, mul64}
use kit4go.Common.{
  ℕ, zero, suc, ◌/◌, ◌%◌, true, false, Option, none, some, List, [], ◌∷◌, ◌==◌, if◌then◌else◌,
  length, get_elem?,
}
pub mod RoundTrip
mod Tests

-- `n` bytes in a row, in front of others
abbrev pub byte_range : ℕ → ℕ → List ℕ → List ℕ
byte_range start zero rest = rest
byte_range start (suc n) rest = start ∷ byte_range (suc start) n rest

-- `Alphabet`: the digits, the upper-case letters, the lower-case letters
abbrev pub default_alphabet : List ℕ
default_alphabet = byte_range 48 10 (byte_range 65 26 (byte_range 97 26 []))

-- what a decoder returns: a number, `ErrInvalid` or `ErrAlphabet`
pub data Decoded : Type 0 where
  value : ℕ → Decoded
  invalid bad_alphabet : Decoded

abbrev pub Table : Type 0
Table = ℕ → Option ℕ

-- the loop of `EncodeWithAlphabet`, with the room left in front of the bytes written so far
unfoldable pub encode_loop : List ℕ → ℕ → ℕ → List ℕ → Option (List ℕ)
encode_loop alphabet zero id out = if id == 0 then some out else none
encode_loop alphabet (suc n) id out = elim (id == 0) [
  | true ↦ some out
  | false ↦ elim (get_elem? alphabet (id % 62)) [
    | none ↦ none
    | some c ↦ encode_loop alphabet n (id / 62) (c ∷ out)
  ]
]

unfoldable pub encode_with_alphabet : ℕ → List ℕ → Option (List ℕ)
unfolding encode_loop string_of
encode_with_alphabet id alphabet =
    if id == 0
    then (elim (get_elem? alphabet 0) [ none ↦ none | some c ↦ some (string_of c) ])
    else encode_loop alphabet 12 id []

unfoldable pub set_index : ℕ → ℕ → Table → Table
set_index c i idx = λ b. if b == c then some i else idx b

-- the loop of `buildDecodeTableErr` from index `i` on: `none` is a byte that repeats
unfoldable pub fill_table : List ℕ → ℕ → Table → Option Table
unfolding set_index
fill_table [] i idx = some idx
fill_table (c ∷ cs) i idx =
    let rest = fill_table cs (suc i) (set_index c i idx) in
    elim (idx c) [ some j ↦ none | none ↦ rest ]

unfoldable pub build_decode_table_err : List ℕ → Option Table
unfolding fill_table
build_decode_table_err alphabet = fill_table alphabet 0 (λ b. none)

-- the loop of `buildDecodeTable`, where a later byte overwrites an earlier one
unfoldable pub overwrite_table : List ℕ → ℕ → Table → Table
unfolding set_index
overwrite_table [] i idx = idx
overwrite_table (c ∷ cs) i idx = overwrite_table cs (suc i) (set_index c i idx)

unfoldable pub build_decode_table : List ℕ → Table
unfolding overwrite_table
build_decode_table alphabet = overwrite_table alphabet 0 (λ b. none)

-- the loop of `decodeWithTable`, on uint64
unfoldable pub decode_loop : Table → ℕ → List ℕ → Decoded
decode_loop idx val [] = value val
decode_loop idx val (b ∷ s) = elim (idx b) [
  | none ↦ invalid
  | some d ↦ decode_loop idx (add64 (mul64 val 62) d) s
]

unfoldable pub decode_with_table : List ℕ → Table → Decoded
unfolding decode_loop
decode_with_table [] idx = invalid
decode_with_table (b ∷ s) idx = decode_loop idx 0 (b ∷ s)

unfoldable pub decode_with_alphabet : List ℕ → List ℕ → Decoded
unfolding decode_with_table build_decode_table_err
decode_with_alphabet s alphabet =
    if length alphabet == 62
    then (elim (build_decode_table_err alphabet) [
      | none ↦ bad_alphabet
      | some idx ↦ decode_with_table s idx
    ])
    else bad_alphabet

unfoldable pub encode : ℕ → Option (List ℕ)
unfolding encode_with_alphabet
encode id = encode_with_alphabet id default_alphabet

unfoldable pub decode : List ℕ → Decoded
unfolding decode_with_table build_decode_table
decode s = decode_with_table s (build_decode_table default_alphabet)
