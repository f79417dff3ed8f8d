-- ===== src/Bloom.antt =====
-- `bloom.Filter` of bloom/bloom.go. A word of the packed array is the list of its 64 bits, the least first. The FNV
-- hashes of the standard library are parameters; the sizes from an error rate are computed in floating point
-- and left out, and so is the pool of index slices, which only saves allocations. Each method holds the lock, so
-- that a call is one step.
use kit4go.Common.Words.{u64_mod, add64, mul64}
use kit4go.Common.{
  ℕ, zero, suc, ◌+◌, ◌/◌, ◌%◌, Bool, true, false, ◌||◌, not, Option, none, some, List, [], ◌∷◌, map,
  ◌==◌, if◌then◌else◌, length, set, get_or, replicate,
}
pub mod Members
mod Unions
pub mod Answers
mod Tests

pub record Filter : Type 0 where
  pub bits : List (List Bool)
  pub m : ℕ
  pub k : ℕ
  pub n : ℕ

unfoldable pub blank : ℕ → ℕ → Filter
blank m k = record { bits = replicate ((m + 63) / 64) (replicate 64 false); m = m; k = k; n = 0 }

-- `NewFromParams`; none is the panic
unfoldable pub new_from_params : ℕ → ℕ → Option Filter
unfolding blank
new_from_params m k = if m == 0 then none else some (blank m (if k == 0 then 1 else k))

-- `f.bits[i>>6] |= 1 << (i & 63)`
unfoldable pub set_bit : ℕ → List (List Bool) → List (List Bool)
set_bit i bits = set bits (i / 64) (set (get_or bits (i / 64) []) (i % 64) true)

unfoldable pub test_bit : ℕ → List (List Bool) → Bool
test_bit i bits = get_or (get_or bits (i / 64) []) (i % 64) false

unfoldable pub set_all : List ℕ → List (List Bool) → List (List Bool)
unfolding set_bit
set_all [] bits = bits
set_all (i ∷ idx) bits = set_all idx (set_bit i bits)

unfoldable pub test_all : List ℕ → List (List Bool) → Bool
unfolding test_bit
test_all [] bits = true
test_all (i ∷ idx) bits = let rest = test_all idx bits in if test_bit i bits then rest else false

unfoldable pub add_locked : List ℕ → Filter → Filter
unfolding set_all
add_locked idx f = record f { bits = set_all idx f.bits; n = add64 f.n 1 }

unfoldable pub test_locked : List ℕ → Filter → Bool
unfolding test_all
test_locked idx f = test_all idx f.bits

unfoldable pub indices_from : ℕ × ℕ → ℕ → ℕ → ℕ → List ℕ
indices_from h m i zero = []
indices_from h m i (suc k) = (add64 h.0 (mul64 i h.1) % m) ∷ indices_from h m (suc i) k

unfoldable pub or_word : List Bool → List Bool → List Bool
or_word [] ys = []
or_word (x ∷ xs) [] = x ∷ xs
or_word (x ∷ xs) (y ∷ ys) = (x || y) ∷ or_word xs ys

-- The two arrays have the same length, as the bit counts agree.
unfoldable pub or_words : List (List Bool) → List (List Bool) → List (List Bool)
unfolding or_word
or_words [] others = []
or_words (w ∷ ws) [] = w ∷ ws
or_words (w ∷ ws) (o ∷ others) = or_word w o ∷ or_words ws others

unfoldable pub union : Filter → Filter → Filter
unfolding or_words
union other f = record f { bits = or_words f.bits other.bits; n = add64 f.n other.n }

-- `Merge` of another filter; none is `ErrIncompatible`
unfoldable pub merge : Filter → Filter → Option Filter
unfolding union
merge other f = if not (f.m == other.m) || not (f.k == other.k) then none else some (union other f)

-- `Merge` of a filter with itself
unfoldable pub merge_self : Filter → Option Filter
merge_self f = some f

unfoldable pub reset : Filter → Filter
reset f = record f { bits = map (λ w. replicate (length w) false) f.bits; n = 0 }

module _ (fnv1a fnv1 : List ℕ → ℕ) where
  unfoldable pub indices : List ℕ → Filter → List ℕ
  unfolding indices_from
  indices x f = let h2 = fnv1 x in indices_from (fnv1a x, if h2 == 0 then 1 else h2) f.m 0 f.k

  unfoldable pub add : List ℕ → Filter → Filter
  unfolding indices add_locked
  add x f = add_locked (indices x f) f

  unfoldable pub test : List ℕ → Filter → Bool
  unfolding indices test_locked
  test x f = test_locked (indices x f) f

  unfoldable pub test_and_add : List ℕ → Filter → Bool × Filter
  unfolding indices test_locked add_locked
  test_and_add x f = (test_locked (indices x f) f, add_locked (indices x f) f)
