-- ===== src/Base62/Tests.antt =====
-- The default alphabet of base62/base62.go: a number and back.
use kit4go.Base62.{
  default_alphabet, encode, decode, value, Table, encode_with_alphabet, build_decode_table_err,
}
use kit4go.Base62.RoundTrip.{default_round_trip}
use kit4go.Common.{ℕ, ◌≡◌, refl, Option, none, some, List, [], ◌∷◌, arith}

abbrev table_of : Option Table → Table
table_of none = λ b. none
table_of (some idx) = idx

alphabet_table :
    build_decode_table_err default_alphabet
    ≡ some (table_of (build_decode_table_err default_alphabet))
unfolding build_decode_table_err
alphabet_table = refl

encoded_twelve_thousand : encode_with_alphabet 12_345 default_alphabet ≡ some (51 ∷ 68 ∷ 55 ∷ [])
unfolding encode_with_alphabet
encoded_twelve_thousand = refl

default_round_trip_example : (s : List ℕ) × (encode 12_345 ≡ some s) × (decode s ≡ value 12_345)
default_round_trip_example = default_round_trip 12_345 (omega arith)
