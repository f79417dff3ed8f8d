-- ===== src/Common/Words.antt =====
-- Go's fixed-width integers as native numbers: unsigned addition and multiplication wrap. Strings of bytes.
use Prim.Native.Nat.{ℕ, ◌+◌, ◌*◌, ◌/◌, ◌%◌, ◌^◌}
use mathlib.Core.Bool.{Bool, true, false, ◌&&◌}
use mathlib.Core.List.{List, [], ◌∷◌}
use mathlib.Core.Path.{◌≡◌, refl, ap₂}
use native.Mathlib.Omega.{arith}
use kit4go.Common.Tests.{if◌then◌else◌, ltb, ◌==◌}

abbrev pub u64_mod : ℕ
u64_mod = 2 ^ 64

abbrev pub add64 : ℕ → ℕ → ℕ
add64 a b = (a + b) % u64_mod

abbrev pub mul64 : ℕ → ℕ → ℕ
mul64 a b = a * b % u64_mod

abbrev pub u32_mod : ℕ
u32_mod = 2 ^ 32

abbrev pub add32 : ℕ → ℕ → ℕ
add32 a b = (a + b) % u32_mod

-- An int32 is its bit pattern; `a < b` of the integers that two patterns stand for.
abbrev pub ltb_int32 : ℕ → ℕ → Bool
ltb_int32 a b = ltb ((a + 2 ^ 31) % u32_mod) ((b + 2 ^ 31) % u32_mod)

-- `string(b)` of a byte: the code point `b` in UTF-8
unfoldable pub string_of : ℕ → List ℕ
string_of b = if ltb b 128 then b ∷ [] else (192 + b / 64) ∷ (128 + b % 64) ∷ []

-- the equality of two strings
unfoldable pub same_bytes : List ℕ → List ℕ → Bool
same_bytes [] [] = true
same_bytes [] (b ∷ bs) = false
same_bytes (a ∷ cs) [] = false
same_bytes (a ∷ cs) (b ∷ bs) = let rest = same_bytes cs bs in a == b && rest

pub same_bytes→eq : (a b : List ℕ) → same_bytes a b ≡ true → a ≡ b
unfolding same_bytes
same_bytes→eq [] [] h = refl
same_bytes→eq [] (y ∷ b) h = ground arith
same_bytes→eq (x ∷ a) [] h = ground arith
same_bytes→eq (x ∷ a) (y ∷ b) h =
    let head : x ≡ y = ground arith in
    let rest : same_bytes a b ≡ true = ground arith in ap₂ ◌∷◌ head (same_bytes→eq a b rest)
