-- ===== src/CountMin/Counts.antt =====
-- What the rows of counters of countmin/countmin.go hold.
use kit4go.CountMin.{index, add_loop, estimate_loop, merge_rows}
use native.Mathlib.Nat.{mod-lt}
use kit4go.CountMin.Loads.{
  load, count_of, total_of, load_le_total, count_le_load, load_hit, load_miss, load-append, wrapped,
  add_row-sums, merge_rows-cons, get_or-zeros,
}
use kit4go.Common.Words.{u64_mod, add64}
use kit4go.Common.{
  ℕ, zero, suc, ◌*◌, ◌%◌, ◌≤◌, ◌<◌, ◌≡◌, refl, sym, ap, ap₂, ◌∙◌, true, some, List, [], ◌∷◌, ◌++◌,
  map, arith, ℕ_discrete, ltb, if◌then◌else◌, lt→ltb, length, set, length-set, get_or, replicate,
  length-replicate, get_or-set_self, get_or-set_ne, subst,
}

module _ (h : List ℕ → ℕ × ℕ) (w : ℕ) where
  abbrev at_row : ℕ → List ℕ → ℕ
  at_row i x = index (h x) i w

  -- the `i`-th row holds the counts, modulo 2^64
  pub IsRow : ℕ → List ℕ → List (List ℕ × ℕ) → Type 0
  IsRow i row es =
      (length row ≡ w) × ((j : ℕ) → j < w → get_or row j 0 ≡ load (at_row i) j es % u64_mod)

  pub AreRows : ℕ → List (List ℕ) → List (List ℕ × ℕ) → Type 0
  unfolding IsRow
  AreRows i [] es = Unit
  AreRows i (row ∷ rows) es = IsRow i row es × AreRows (suc i) rows es

  index_lt : (i : ℕ) (x : List ℕ) → 0 < w → at_row i x < w
  unfolding index
  index_lt i x pos_w = mod-lt (add64 (h x).0 (i * (h x).1 % u64_mod)) pos_w

  IsRow-set :
      (i : ℕ) (row : List ℕ) (es : List (List ℕ × ℕ)) (x : List ℕ) (n : ℕ)
      → 0 < w
      → IsRow i row es
      → IsRow i (set row (at_row i x) (add64 (get_or row (at_row i x) 0) n)) ((x, n) ∷ es)
  unfolding IsRow
  IsRow-set i row es x n pos_w (len, held) =
      let at = at_row i x in
      let inside : at < w = index_lt i x pos_w in
      let room : at < length row = omega (arith, len, inside) in
      let v = add64 (get_or row at 0) n in
      let old = held at inside in
      let all = load (at_row i) at es in
      (
        length-set row at v ∙ len,
        λ j lt. elim (ℕ_discrete at j) [
          | yes here ↦
              subst (λ j. get_or (set row at v) j 0 ≡ load (at_row i) j ((x, n) ∷ es) % u64_mod)
                here
                (get_or-set_self row at v 0 room
                  ∙ wrapped (get_or row at 0) n all old
                  ∙ ap (λ (s : ℕ). s % u64_mod) (sym (load_hit (at_row i) at n x es refl)))
          | no there ↦
              get_or-set_ne row v 0 there
              ∙ held j lt
              ∙ ap (λ (s : ℕ). s % u64_mod) (sym (load_miss (at_row i) j n x es there))
        ],
      )

  pub add_loop-AreRows :
      (d i : ℕ) (rows : List (List ℕ)) (es : List (List ℕ × ℕ)) (x : List ℕ) (n : ℕ)
      → 0 < w
      → length rows ≡ d
      → AreRows i rows es
      → (rows' : List (List ℕ)) × (add_loop (h x) w n d i rows ≡ some rows')
        × (length rows' ≡ d)
        × AreRows i rows' ((x, n) ∷ es)
  unfolding add_loop AreRows IsRow
  add_loop-AreRows zero i [] es x n pos_w len held = ([], refl, refl, tt)
  add_loop-AreRows zero i (row ∷ rows) es x n pos_w len held = absurd (omega (arith, len))
  add_loop-AreRows (suc d) i [] es x n pos_w len held = absurd (omega (arith, len))
  add_loop-AreRows (suc d) i (row ∷ rows) es x n pos_w len held =
      let (rows', added, len', held') =
        add_loop-AreRows d (suc i) rows es x n pos_w (omega (arith, len)) held.1 in
      let inside : ltb (at_row i x) (length row) ≡ true =
        lt→ltb (at_row i x) (length row) (omega (arith, held.0.0, index_lt i x pos_w)) in
      (
        set row (at_row i x) (add64 (get_or row (at_row i x) 0) n) ∷ rows',
        rw (inside, added) refl,
        omega (arith, len'),
        (IsRow-set i row es x n pos_w held.0, held'),
      )

  IsRow-sum :
      (i : ℕ) (row other row' : List ℕ) (es fs : List (List ℕ × ℕ))
      → IsRow i row es
      → IsRow i other fs
      → length row' ≡ length row
      → ((j : ℕ) → j < length row → get_or row' j 0 ≡ add64 (get_or row j 0) (get_or other j 0))
      → IsRow i row' (es ++ fs)
  unfolding IsRow
  IsRow-sum i row other row' es fs (len, held) (len', held') same sums = (
    same ∙ len,
    λ j lt.
        sums j (omega (arith, lt, len))
        ∙ ap₂ add64 (held j lt) (held' j lt)
        ∙ omega (arith, load-append (at_row i) j es fs),
  )

  pub merge_rows-AreRows :
      (i : ℕ) (rows others : List (List ℕ)) (es fs : List (List ℕ × ℕ))
      → length rows ≡ length others
      → AreRows i rows es
      → AreRows i others fs
      → (rows' : List (List ℕ)) × (merge_rows rows others ≡ some rows')
        × (length rows' ≡ length rows)
        × AreRows i rows' (es ++ fs)
  unfolding merge_rows AreRows IsRow
  merge_rows-AreRows i [] [] es fs len held held' = ([], refl, refl, tt)
  merge_rows-AreRows i [] (o ∷ others) es fs len held held' = absurd (omega (arith, len))
  merge_rows-AreRows i (row ∷ rows) [] es fs len held held' = absurd (omega (arith, len))
  merge_rows-AreRows i (row ∷ rows) (o ∷ others) es fs len held held' =
      let (row', added, row_len, sums) = add_row-sums row o (held.0.0 ∙ sym held'.0.0) in
      let (rows', merged, len', are) =
        merge_rows-AreRows (suc i) rows others es fs (omega (arith, len)) held.1 held'.1 in
      (
        row' ∷ rows',
        merge_rows-cons row o row' rows others rows' added merged,
        ap suc len',
        (IsRow-sum i row o row' es fs held.0 held'.0 row_len sums, are),
      )

  -- the least of the counters, when the sum of all counts stays below 2^64
  pub estimate_loop-bounds :
      (d i : ℕ) (rows : List (List ℕ)) (es : List (List ℕ × ℕ)) (x : List ℕ) (least : ℕ)
      → 0 < w
      → total_of es < u64_mod
      → length rows ≡ d
      → AreRows i rows es
      → count_of x es ≤ least
      → (e : ℕ) × (estimate_loop (h x) w d i rows least ≡ some e)
        × (count_of x es ≤ e)
        × (e ≤ least)
        × (0 < d → e ≤ total_of es)
  unfolding estimate_loop AreRows IsRow
  estimate_loop-bounds zero i rows es x least pos_w small len held le =
      (least, refl, le, omega arith, λ h. absurd (omega (arith, h)))
  estimate_loop-bounds (suc d) i [] es x least pos_w small len held le = absurd (omega (arith, len))
  estimate_loop-bounds (suc d) i (row ∷ rows) es x least pos_w small len held le =
      let inside = index_lt i x pos_w in
      let room = lt→ltb (at_row i x) (length row) (omega (arith, held.0.0, inside)) in
      let v = get_or row (at_row i x) 0 in
      let exact : v ≡ load (at_row i) (at_row i x) es =
        omega
          (arith, held.0.1 (at_row i x) inside, load_le_total (at_row i) (at_row i x) es, small) in
      let counted = count_le_load (at_row i) x es in
      let bounded = load_le_total (at_row i) (at_row i x) es in
      let least' = if ltb v least then v else least in
      let le' : count_of x es ≤ least' = ground (arith, exact, counted, le) in
      let down : (least' ≤ least) × (least' ≤ v) = (ground arith, ground arith) in
      let (e, found, above, below, total) =
        estimate_loop-bounds d (suc i) rows es x least' pos_w small (omega (arith, len)) held.1
          le' in
      (
        e,
        rw room found,
        above,
        omega (arith, below, down.0),
        λ h. omega (arith, below, down.1, exact, bounded),
      )

  IsRow-zeros : (i width : ℕ) → width ≡ w → IsRow i (replicate width 0) []
  unfolding IsRow load
  IsRow-zeros i width e = (length-replicate width 0 ∙ e, λ j lt. get_or-zeros width j ∙ omega arith)

  pub AreRows-zeros : (i d width : ℕ) → width ≡ w → AreRows i (replicate d (replicate width 0)) []
  unfolding AreRows
  AreRows-zeros i zero width e = tt
  AreRows-zeros i (suc d) width e = (IsRow-zeros i width e, AreRows-zeros (suc i) d width e)

  pub AreRows-reset :
      (i : ℕ) (rows : List (List ℕ)) (es : List (List ℕ × ℕ))
      → AreRows i rows es
      → AreRows i (map (λ row. replicate (length row) 0) rows) []
  unfolding AreRows IsRow
  AreRows-reset i [] es held = tt
  AreRows-reset i (row ∷ rows) es held =
      (IsRow-zeros i (length row) held.0.0, AreRows-reset (suc i) rows es held.1)
