-- ===== src/Shortlink/Tests.antt =====
-- Runs of shortlink/shortlink.go, and its theorems at concrete inputs.
use mathlib.Core.List.{List-discrete}
use kit4go.Common.Words.{u64_mod}
use kit4go.Common.Int.{pos}
use kit4go.Shortlink.{
  apply_options, Config, new, with_retries, defaults, default_alphabet, unique_chars, unique_from,
  seen_before, DecodeError, encode_base_n, encode_loop, decode_base_n, decode_loop, index_from,
  generate, save,
}
use kit4go.Shortlink.Codes.{round_trip}
use kit4go.Shortlink.Values.{value_from, decode_lem}
use kit4go.Shortlink.Saved.{IsOutcome, generate_lem}
use kit4go.Common.{
  ℕ, ◌≡◌, refl, inl, inr, true, Option, some, List, [], ◌∷◌, arith, ℕ_discrete, ltb, if◌then◌else◌,
}

-- "01"
abbrev bits : List ℕ
bits = 48 ∷ 49 ∷ []

default_unique : unique_chars default_alphabet ≡ true
unfolding unique_chars unique_from seen_before
default_unique = refl

bits_unique : unique_chars bits ≡ true
unfolding unique_chars unique_from seen_before
bits_unique = refl

-- `WithRetries(0)` is the default of three.
no_retries : (new (with_retries (pos 0) ∷ [])).retries ≡ 3
unfolding new apply_options with_retries defaults
no_retries = refl

encode_six : encode_base_n 6 bits ≡ some (49 ∷ 49 ∷ 48 ∷ [])
unfolding encode_base_n encode_loop
encode_six = refl

-- leading zeros, and no letter at all, are read too
decode_padded : decode_base_n (48 ∷ 49 ∷ 49 ∷ 48 ∷ []) bits ≡ inl 6
unfolding decode_base_n decode_loop index_from
decode_padded = refl

decode_empty : decode_base_n [] bits ≡ inl 0
unfolding decode_base_n decode_loop
decode_empty = refl

padded_value : value_from bits 0 (48 ∷ 49 ∷ 49 ∷ 48 ∷ []) ≡ some 6
unfolding value_from index_from
padded_value = refl

decode_lem_example :
    decode_base_n (48 ∷ 49 ∷ 49 ∷ 48 ∷ []) bits
    ≡ (if ltb 6 u64_mod then inl 6 else inr DecodeError.overflows)
decode_lem_example =
    decode_lem bits 6 (48 ∷ 49 ∷ 49 ∷ 48 ∷ []) (omega arith) (omega arith) padded_value

round_trip_example :
    (code : List ℕ) × (encode_base_n 1000000 default_alphabet ≡ some code)
    × (decode_base_n code default_alphabet ≡ inl 1000000)
round_trip_example =
    round_trip default_alphabet 1000000 (omega arith) (omega arith) default_unique (omega arith)
      (omega arith)

-- every second draw fails to be new
abbrev draws : ℕ → Option ℕ
draws k = some (if ltb k 1 then 0 else 1)

abbrev dec : Discrete (List ℕ)
dec = List-discrete ℕ_discrete

abbrev one_letter : Config
one_letter = record { code_len = 1; alphabet = bits; retries = 3 }

abbrev url : List ℕ
url = 104 ∷ []

abbrev one_taken : List (List ℕ × List ℕ)
one_taken = (48 ∷ [], 120 ∷ []) ∷ []

generate_lem_example :
    IsOutcome dec draws one_letter url 4 0 one_taken
      (generate (save dec) draws one_letter url 0 one_taken)
generate_lem_example = generate_lem dec draws one_letter url 0 one_taken (omega arith)
