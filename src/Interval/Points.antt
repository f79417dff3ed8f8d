-- ===== src/Interval/Points.antt =====
-- Which points the intervals that `Union` and `Intersect` of interval/interval.go return hold.
use kit4go.Interval.{Interval, contains, overlaps, touches, union, intersect}
use kit4go.Common.{ℕ, ◌<◌, ◌≡◌, Bool, false, ◌&&◌, ◌||◌, Option, none, some, arith}

-- whether an interval that may be missing holds a point
abbrev pub holds : Option Interval → ℕ → Bool
unfolding contains
holds none v = false
holds (some i) v = contains i v

-- The intersection of two intervals holds the points that both hold; where `Intersect` says that there
-- is none, no point is in both.
pub intersect-contains :
    (i other : Interval) (v : ℕ) → holds (intersect i other) v ≡ (contains i v && contains other v)
unfolding intersect contains
intersect-contains i other v = ground arith

-- The union of two intervals that are not empty holds the points that one of them holds, where `Union`
-- returns one.
pub union-contains :
    {i other u : Interval}
    → i.start < i.end
    → other.start < other.end
    → union i other ≡ some u
    → (v : ℕ) → contains u v ≡ (contains i v || contains other v)
unfolding union contains overlaps touches
union-contains {i} {other} {u} hi ho e v = ground arith
