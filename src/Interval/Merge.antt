-- ===== src/Interval/Merge.antt =====
-- What `Merge` of interval/interval.go makes of intervals in order of start.
use kit4go.Interval.{Interval, contains, grown, merge_loop, merge_sorted}
use kit4go.Common.{
  ℕ, ◌≤◌, ◌<◌, ◌≡◌, refl, ap, ◌∙◌, inl, inr, Bool, false, ◌||◌, List, [], ◌∷◌, arith, leb, leb→le,
  Bool-cases,
}

-- whether an interval of the list holds a point
unfoldable pub covers : List Interval → ℕ → Bool
covers [] v = false
covers (i ∷ is) v = contains i v || covers is v

-- every interval is not empty, and no start comes before `b`, nor before the start in front of it
unfoldable pub InOrder : ℕ → List Interval → Type 0
InOrder b [] = Unit
InOrder b (i ∷ is) = (b ≤ i.start) × (i.start < i.end) × InOrder i.start is

-- the next interval starts after `b`
unfoldable pub After : ℕ → List Interval → Type 0
After b [] = Unit
After b (i ∷ is) = b < i.start

-- between an interval and the next there is a point of neither
unfoldable pub Apart : List Interval → Type 0
unfolding After
Apart [] = Unit
Apart (i ∷ is) = (i.start < i.end) × After i.end is × Apart is

-- the points of `last` and of an interval that overlaps or touches it
grown_lem :
    (last cur : Interval)
    → last.start < last.end
    → last.start ≤ cur.start
    → cur.start < cur.end
    → cur.start ≤ last.end
    → (v : ℕ) (more : Bool)
    → (contains (grown last cur) v || more) ≡ (contains last v || (contains cur v || more))
unfolding contains grown
grown_lem last cur h first h' near v more = ground arith

grown-IsValid :
    (last cur : Interval) → last.start < last.end → (grown last cur).start < (grown last cur).end
unfolding grown
grown-IsValid last cur h = ground arith

InOrder-weaken : (b b' : ℕ) → b' ≤ b → (is : List Interval) → InOrder b is → InOrder b' is
unfolding InOrder
InOrder-weaken b b' le [] h = h
InOrder-weaken b b' le (i ∷ is) (h, h', rest) = (omega arith, h', rest)

merge_loop-covers :
    (last : Interval) (is : List Interval)
    → last.start < last.end
    → InOrder last.start is
    → (v : ℕ) → covers (merge_loop last is) v ≡ (contains last v || covers is v)
unfolding merge_loop covers InOrder
merge_loop-covers last [] h ordered v = refl
merge_loop-covers last (cur ∷ rest) h (first, h', later) v =
    let joined : covers (merge_loop (grown last cur) rest) v
        ≡ (contains (grown last cur) v || covers rest v) =
      merge_loop-covers (grown last cur) rest (grown-IsValid last cur h)
        (InOrder-weaken cur.start last.start first rest later) v in
    let parted = merge_loop-covers cur rest h' later v in
    elim (Bool-cases (leb cur.start last.end)) [
      | inl near ↦ rw near (
          joined ∙ grown_lem last cur h first h' (leb→le cur.start last.end near) v (covers rest v))
      | inr far ↦ rw far (ap (λ c. contains last v || c) parted)
    ]

merge_sorted-covers :
    (is : List Interval) → InOrder 0 is → (v : ℕ) → covers (merge_sorted is) v ≡ covers is v
unfolding merge_sorted covers InOrder
merge_sorted-covers [] ordered v = refl
merge_sorted-covers (i ∷ is) (first, h, later) v = merge_loop-covers i is h later v

merge_loop-After :
    (b : ℕ) (last : Interval) (is : List Interval) → b < last.start → After b (merge_loop last is)
unfolding merge_loop After grown
merge_loop-After b last [] h = h
merge_loop-After b last (cur ∷ rest) h =
    let joined = merge_loop-After b (grown last cur) rest h in
    elim (Bool-cases (leb cur.start last.end)) [ inl near ↦ rw near joined | inr far ↦ rw far h ]

merge_loop-Apart :
    (last : Interval) (is : List Interval)
    → last.start < last.end
    → InOrder last.start is
    → Apart (merge_loop last is)
unfolding merge_loop Apart InOrder
merge_loop-Apart last [] h ordered = (h, tt, tt)
merge_loop-Apart last (cur ∷ rest) h (first, h', later) =
    let joined =
      merge_loop-Apart (grown last cur) rest (grown-IsValid last cur h)
        (InOrder-weaken cur.start last.start first rest later) in
    let parted = merge_loop-Apart cur rest h' later in
    elim (Bool-cases (leb cur.start last.end)) [
      | inl near ↦ rw near joined
      | inr far ↦ rw far (h, merge_loop-After last.end cur rest (ground arith), parted)
    ]

merge_sorted-Apart : (is : List Interval) → InOrder 0 is → Apart (merge_sorted is)
unfolding merge_sorted InOrder Apart
merge_sorted-Apart [] ordered = tt
merge_sorted-Apart (i ∷ is) (first, h, later) = merge_loop-Apart i is h later

-- Of intervals that are not empty and in order of start, `Merge` covers exactly the points that they cover, and
-- returns intervals that are not empty and each end before the next one starts: two that overlap or touch have
-- become one.
pub merge_sorted_lem :
    (is : List Interval)
    → InOrder 0 is
    → ((v : ℕ) → covers (merge_sorted is) v ≡ covers is v) × Apart (merge_sorted is)
merge_sorted_lem is ordered = (merge_sorted-covers is ordered, merge_sorted-Apart is ordered)
