-- ===== src/Interval/Tests.antt =====
-- Intervals that overlap, touch and stand apart.
use kit4go.Interval.{Interval, union, merge_sorted}
use kit4go.Interval.Merge.{covers, InOrder, Apart, merge_sorted_lem}
use kit4go.Common.{ℕ, ◌≡◌, refl, some, List, [], ◌∷◌, arith}

abbrev span : ℕ → ℕ → Interval
span a b = record { start = a; end = b }

-- the first three become one
abbrev spans : List Interval
spans = span 1 4 ∷ span 3 6 ∷ span 6 7 ∷ span 9 12 ∷ span 10 11 ∷ []

spans-InOrder : InOrder 0 spans
unfolding InOrder
spans-InOrder = omega arith

merge-spans : merge_sorted spans ≡ span 1 7 ∷ span 9 12 ∷ []
unfolding merge_sorted
merge-spans = refl

union_touching : union (span 3 6) (span 6 7) ≡ some (span 3 7)
unfolding union
union_touching = refl

merge_sorted_lem_example :
    ((v : ℕ) → covers (merge_sorted spans) v ≡ covers spans v) × Apart (merge_sorted spans)
merge_sorted_lem_example = merge_sorted_lem spans spans-InOrder
