-- ===== src/Shortlink.antt =====
-- shortlink/shortlink.go: the numbers of `IDShortener` as codes over an alphabet, and the random codes of
-- `Shortener` in a store. A string is the list of its bytes, the map of `MemoryStore` an association list. The
-- draws of crypto/rand are a parameter, by the number of the draw; none is its error. The options are
-- functions on the configuration, whose store is a parameter.
use kit4go.Common.Assoc.{lookup, put}
use kit4go.Common.Int.{ℤ, pos, pos_part}
use kit4go.Common.Words.{string_of, u64_mod, add64, mul64}
use kit4go.Common.{
  ℕ, zero, suc, ◌+◌, ◌-◌, ◌/◌, ◌%◌, ◌⊎◌, inl, inr, Bool, true, false, ◌&&◌, ◌||◌, not, Option, none,
  some, List, [], ◌∷◌, ltb, leb, ◌==◌, if◌then◌else◌, length, get_or,
}
pub mod Values
pub mod Codes
pub mod Saved
mod Tests

abbrev pub default_alphabet : List ℕ
default_alphabet =
    48 ∷ 49 ∷ 50 ∷ 51 ∷ 52 ∷ 53 ∷ 54 ∷ 55 ∷ 56 ∷ 57 ∷ 65 ∷ 66 ∷ 67 ∷ 68 ∷ 69 ∷ 70 ∷ 71 ∷ 72 ∷ 73
    ∷ 74 ∷ 75 ∷ 76 ∷ 77 ∷ 78 ∷ 79 ∷ 80 ∷ 81 ∷ 82 ∷ 83 ∷ 84 ∷ 85 ∷ 86 ∷ 87 ∷ 88 ∷ 89 ∷ 90 ∷ 97 ∷ 98
    ∷ 99 ∷ 100 ∷ 101 ∷ 102 ∷ 103 ∷ 104 ∷ 105 ∷ 106 ∷ 107 ∷ 108 ∷ 109 ∷ 110 ∷ 111 ∷ 112 ∷ 113 ∷ 114
    ∷ 115 ∷ 116 ∷ 117 ∷ 118 ∷ 119 ∷ 120 ∷ 121 ∷ 122 ∷ []

unfoldable pub seen_before : ℕ → List ℕ → Bool
seen_before b [] = false
seen_before b (x ∷ seen) = let rest = seen_before b seen in b == x || rest

-- the loop of `uniqueChars`
unfoldable pub unique_from : List ℕ → List ℕ → Bool
unfolding seen_before
unique_from seen [] = true
unique_from seen (b ∷ bs) =
    let rest = unique_from (b ∷ seen) bs in if seen_before b seen then false else rest

unfoldable pub unique_chars : List ℕ → Bool
unfolding unique_from
unique_chars s = unique_from [] s

pub record Config : Type 0 where
  pub code_len : ℕ
  pub alphabet : List ℕ
  pub retries : ℕ

unfoldable pub with_code_length : ℤ → Config → Config
with_code_length n c = if pos_part n == 0 then c else record c { code_len = pos_part n }

unfoldable pub with_alphabet : List ℕ → Config → Config
unfolding unique_chars
with_alphabet s c = if ltb 1 (length s) && unique_chars s then record c { alphabet = s } else c

unfoldable pub with_retries : ℤ → Config → Config
with_retries (pos n) c = record c { retries = n }
with_retries n c = c

unfoldable pub defaults : Config → Config
defaults c = record {
  code_len = if c.code_len == 0 then 6 else c.code_len;
  alphabet = if length c.alphabet == 0 then default_alphabet else c.alphabet;
  retries = if c.retries == 0 then 3 else c.retries;
}

unfoldable pub apply_options : List (Config → Config) → Config → Config
apply_options [] c = c
apply_options (opt ∷ opts) c = apply_options opts (opt c)

unfoldable pub new : List (Config → Config) → Config
unfolding apply_options defaults
new opts = defaults (apply_options opts (record { code_len = 0; alphabet = []; retries = 0 }))

pub data DecodeError : Type 0 where
  invalid_character overflows : DecodeError

-- the loop of `encodeBaseN`, with the room that is left in the buffer; none is the panic for a full one
unfoldable pub encode_loop : List ℕ → ℕ → ℕ → List ℕ → Option (List ℕ)
encode_loop alphabet zero id out = if id == 0 then some out else none
encode_loop alphabet (suc room) id out =
    let n = length alphabet in
    let rest = encode_loop alphabet room (id / n) (get_or alphabet (id % n) 0 ∷ out) in
    if id == 0 then some out else rest

-- the alphabet has two bytes at least, as the constructors see to
unfoldable pub encode_base_n : ℕ → List ℕ → Option (List ℕ)
unfolding encode_loop string_of
encode_base_n id alphabet =
    if id == 0 then some (string_of (get_or alphabet 0 0)) else encode_loop alphabet 64 id []

-- the map from bytes to indices, in which a later byte overwrites an equal one
unfoldable pub index_from : ℕ → List ℕ → ℕ → Option ℕ
index_from i [] b = none
index_from i (a ∷ alphabet) b = elim (index_from (suc i) alphabet b) [
  | none ↦ if a == b then some i else none
  | some j ↦ some j
]

unfoldable pub decode_loop : List ℕ → ℕ → List ℕ → ℕ ⊎ DecodeError
unfolding index_from
decode_loop alphabet result [] = inl result
decode_loop alphabet result (b ∷ bs) = elim (index_from 0 alphabet b) [
  | none ↦ inr DecodeError.invalid_character
  | some val ↦
      let n = length alphabet in
      let rest = decode_loop alphabet (add64 (mul64 result n) val) bs in
      if ltb ((u64_mod - 1 - val) / n) result then inr DecodeError.overflows else rest
]

unfoldable pub decode_base_n : List ℕ → List ℕ → ℕ ⊎ DecodeError
unfolding decode_loop
decode_base_n code alphabet = decode_loop alphabet 0 code

pub record IdShortener : Type 0 where
  pub alphabet : List ℕ
  pub counter : ℕ

unfoldable pub new_id_shortener : List ℕ → ℕ → IdShortener
unfolding unique_chars
new_id_shortener alphabet start_id = record {
  alphabet =
      if leb (length alphabet) 1 || not (unique_chars alphabet) then default_alphabet else alphabet;
  counter = start_id;
}

unfoldable pub encode : ℕ → IdShortener → Option (List ℕ)
unfolding encode_base_n
encode id s = encode_base_n id s.alphabet

unfoldable pub decode : List ℕ → IdShortener → ℕ ⊎ DecodeError
unfolding decode_base_n
decode code s = decode_base_n code s.alphabet

unfoldable pub next : IdShortener → Option (List ℕ) × IdShortener
unfolding encode
next s = let counter = add64 s.counter 1 in (encode counter s, record s { counter = counter })

pub data SaveError : Type 0 where
  collision store_failure : SaveError

pub data Generated : Type 0 where
  empty_url rand_failed failed exhausted : Generated
  generated : List ℕ → Generated

-- `randomCode` from the `k`-th draw on
unfoldable pub random_code : (ℕ → Option ℕ) → List ℕ → ℕ → ℕ → Option (List ℕ)
random_code draw alphabet k zero = some []
random_code draw alphabet k (suc len) = elim (draw k) [
  | none ↦ none
  | some idx ↦ elim (random_code draw alphabet (suc k) len) [
    | none ↦ none
    | some code ↦ some (get_or alphabet idx 0 ∷ code)
  ]
]

-- `Generate` on any store, from the `k`-th draw on
module _ {S : Type 0} (save : List ℕ → List ℕ → S → S × Option SaveError)
    (draw : ℕ → Option ℕ) where
  unfoldable pub generate_loop : Config → List ℕ → ℕ → ℕ → S → S × Generated
  unfolding random_code
  generate_loop c url zero k s = (s, Generated.exhausted)
  generate_loop c url (suc attempts) k s = elim (random_code draw c.alphabet k c.code_len) [
    | none ↦ (s, Generated.rand_failed)
    | some code ↦
        let rest = generate_loop c url attempts (k + c.code_len) (save code url s).0 in
        elim (save code url s).1 [
          | none ↦ ((save code url s).0, Generated.generated code)
          | some SaveError.collision ↦ rest
          | some SaveError.store_failure ↦ ((save code url s).0, Generated.failed)
        ]
  ]

  unfoldable pub generate : Config → List ℕ → ℕ → S → S × Generated
  unfolding generate_loop
  generate c url k s =
      if length url == 0 then (s, Generated.empty_url) else generate_loop c url (suc c.retries) k s

-- `MemoryStore`
module _ (dec : Discrete (List ℕ)) where
  unfoldable pub load : List ℕ → List (List ℕ × List ℕ) → Option (List ℕ)
  load code m = lookup dec code m

  unfoldable pub save :
      List ℕ → List ℕ → List (List ℕ × List ℕ) → List (List ℕ × List ℕ) × Option SaveError
  save code url m = elim (lookup dec code m) [
    | some old ↦ (m, some SaveError.collision)
    | none ↦ (put dec code url m, none)
  ]

  -- `Resolve`; none is `ErrNotFound`
  unfoldable pub resolve : List ℕ → List (List ℕ × List ℕ) → Option (List ℕ)
  unfolding load
  resolve code m = load code m
