-- ===== src/Interval.antt =====
-- `interval.Interval` of interval/interval.go. The ordered type is ℕ, where Go has any ordered type;
-- the comparisons are the same. The panic of `MustNew` is `none`. `slices.SortFunc` promises a list in
-- order of start with the same elements; which of those it gives is left open, so `merge_sorted` is
-- the part of `Merge` after it.
use kit4go.Common.{
  ℕ, min, max, Bool, ◌&&◌, ◌||◌, not, Option, none, some, List, [], ◌∷◌, ltb, leb, ◌==◌,
  if◌then◌else◌,
}
mod Tests
pub mod Points
pub mod Merge

pub record Interval : Type 0 where
  pub start : ℕ
  pub end : ℕ

unfoldable pub new : ℕ → ℕ → Option Interval
new start end = if leb end start then none else some (record { start = start; end = end })

unfoldable pub contains : Interval → ℕ → Bool
contains i v = leb i.start v && ltb v i.end

unfoldable pub contains_inclusive : Interval → ℕ → Bool
contains_inclusive i v = leb i.start v && leb v i.end

unfoldable pub overlaps : Interval → Interval → Bool
overlaps i other = ltb i.start other.end && ltb other.start i.end

unfoldable pub is_before : Interval → Interval → Bool
is_before i other = leb i.end other.start

unfoldable pub is_after : Interval → Interval → Bool
is_after i other = leb other.end i.start

unfoldable pub touches : Interval → Interval → Bool
touches i other = (i.end == other.start) || (other.end == i.start)

unfoldable pub union : Interval → Interval → Option Interval
unfolding overlaps touches
union i other =
    if not (overlaps i other) && not (touches i other)
    then none
    else some (record { start = min i.start other.start; end = max i.end other.end })

unfoldable pub intersect : Interval → Interval → Option Interval
intersect i other =
    let s = max i.start other.start in
    let e = min i.end other.end in if leb e s then none else some (record { start = s; end = e })

-- `last` with its end moved to the end of an interval that overlaps or touches it, if that is later
unfoldable pub grown : Interval → Interval → Interval
grown last cur = record last { end = if ltb last.end cur.end then cur.end else last.end }

-- the loop of `Merge`; `last` is the last element of `merged`, the others are the list in front
unfoldable pub merge_loop : Interval → List Interval → List Interval
unfolding grown
merge_loop last [] = last ∷ []
merge_loop last (cur ∷ rest) =
    let joined = merge_loop (grown last cur) rest in
    let parted = last ∷ merge_loop cur rest in if leb cur.start last.end then joined else parted

unfoldable pub merge_sorted : List Interval → List Interval
unfolding merge_loop
merge_sorted [] = []
merge_sorted (i ∷ rest) = merge_loop i rest
