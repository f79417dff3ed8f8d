-- ===== src/CountMin.antt =====
-- `countmin.CountMinSketch` of countmin/countmin.go. The FNV hashes of the standard library are parameters.
-- A row is a list of counters. An index out of the rows and a division by a width that `uint32` cuts to 0
-- are panics, `none`; the sizes from error bounds are computed in floating point and left out.
use Prim.Native.Nat.{bit_xor}
use kit4go.Common.Words.{u64_mod, u32_mod, add64, mul64}
use kit4go.Common.{
  ℕ, zero, suc, ◌-◌, ◌/◌, ◌%◌, ◌^◌, ◌&&◌, ◌||◌, not, Option, none, some, List, [], ◌∷◌, map, ltb,
  ◌==◌, if◌then◌else◌, length, set, get_or, replicate,
}
pub mod Loads
pub mod Counts
pub mod Estimates
mod Tests

pub record Sketch : Type 0 where
  pub w : ℕ
  pub d : ℕ
  pub counts : List (List ℕ)
  pub total : ℕ

unfoldable pub new : ℕ → ℕ → Sketch
new width depth =
    let width' = if width == 0 then 2048 else width in
    let depth' = if depth == 0 then 5 else depth in
    record {
      w = width' % u32_mod;
      d = depth' % u32_mod;
      counts = replicate depth' (replicate width' 0);
      total = 0;
    }

unfoldable pub splitmix64 : ℕ → ℕ
splitmix64 x =
    let a = add64 x 11400714819323198485 in
    let b = mul64 (bit_xor a (a / 2 ^ 30)) 13787848793156543929 in
    let c = mul64 (bit_xor b (b / 2 ^ 27)) 10723151780598845931 in bit_xor c (c / 2 ^ 31)

unfoldable pub double_hash : (List ℕ → ℕ) → (List ℕ → ℕ) → List ℕ → ℕ × ℕ
unfolding splitmix64
double_hash fnv1a fnv1 bytes =
    let h2 = splitmix64 (fnv1 bytes) in (splitmix64 (fnv1a bytes), if h2 == 0 then 1 else h2)

-- the counter of the `i`-th row
unfoldable pub index : ℕ × ℕ → ℕ → ℕ → ℕ
index h i w = add64 h.0 (mul64 i h.1) % w

-- the loop of `Add` from row `i` on, for so many rows
unfoldable pub add_loop : ℕ × ℕ → ℕ → ℕ → ℕ → ℕ → List (List ℕ) → Option (List (List ℕ))
unfolding index
add_loop h w count zero i rows = some rows
add_loop h w count (suc d) i [] = none
add_loop h w count (suc d) i (row ∷ rows) =
    let at = index h i w in
    let rest = add_loop h w count d (suc i) rows in
    if ltb at (length row)
    then elim rest [
      | none ↦ none
      | some rows' ↦ some (set row at (add64 (get_or row at 0) count) ∷ rows')
    ]
    else none

unfoldable pub estimate_loop : ℕ × ℕ → ℕ → ℕ → ℕ → List (List ℕ) → ℕ → Option ℕ
unfolding index
estimate_loop h w zero i rows least = some least
estimate_loop h w (suc d) i [] least = none
estimate_loop h w (suc d) i (row ∷ rows) least =
    let at = index h i w in
    let v = get_or row at 0 in
    let rest = estimate_loop h w d (suc i) rows (if ltb v least then v else least) in
    if ltb at (length row) then rest else none

-- `c.counts[i][j] += v` along a row
unfoldable pub add_row : List ℕ → List ℕ → Option (List ℕ)
add_row row [] = some row
add_row [] (v ∷ vs) = none
add_row (u ∷ us) (v ∷ vs) = elim (add_row us vs) [ none ↦ none | some us' ↦ some (add64 u v ∷ us') ]

unfoldable pub merge_rows : List (List ℕ) → List (List ℕ) → Option (List (List ℕ))
unfolding add_row
merge_rows rows [] = some rows
merge_rows [] (o ∷ others) = none
merge_rows (row ∷ rows) (o ∷ others) = elim (add_row row o) [
  | none ↦ none
  | some row' ↦ elim (merge_rows rows others) [ none ↦ none | some rows' ↦ some (row' ∷ rows') ]
]

pub data Merged : Type 0 where
  incompatible panicked : Merged
  done : Sketch → Merged

unfoldable pub merge : Sketch → Sketch → Merged
unfolding merge_rows
merge other c =
    if not (c.w == other.w) || not (c.d == other.d)
    then Merged.incompatible
    else elim (merge_rows c.counts other.counts) [
      | none ↦ Merged.panicked
      | some rows ↦ Merged.done (record c { counts = rows; total = add64 c.total other.total })
    ]

unfoldable pub reset : Sketch → Sketch
reset c = record c { counts = map (λ row. replicate (length row) 0) c.counts; total = 0 }

module _ (fnv1a fnv1 : List ℕ → ℕ) where
  unfoldable pub add : List ℕ → ℕ → Sketch → Option Sketch
  unfolding add_loop double_hash
  add bytes count c =
      if c.w == 0 && not (c.d == 0)
      then none
      else elim (add_loop (double_hash fnv1a fnv1 bytes) c.w count c.d 0 c.counts) [
        | none ↦ none
        | some rows ↦ some (record c { counts = rows; total = add64 c.total count })
      ]

  unfoldable pub estimate : List ℕ → Sketch → Option ℕ
  unfolding estimate_loop double_hash
  estimate bytes c =
      if c.w == 0 && not (c.d == 0)
      then none
      else estimate_loop (double_hash fnv1a fnv1 bytes) c.w c.d 0 c.counts (u64_mod - 1)
