-- ===== src/CountMin/Estimates.antt =====
-- Every sketch that calls of countmin/countmin.go build holds the counts of its events, so that an estimate is
-- never below the true frequency.
use mathlib.Core.Option.{some-injective}
use kit4go.CountMin.{Sketch, new, double_hash, Merged, merge, reset, add, estimate}
use kit4go.CountMin.Loads.{count_of, count_le_total, total_of, total_of-append}
use kit4go.CountMin.Counts.{
  AreRows, add_loop-AreRows, AreRows-zeros, AreRows-reset, merge_rows-AreRows, estimate_loop-bounds,
}
use kit4go.Common.Words.{u64_mod, u32_mod, add64}
use kit4go.Common.{
  ℕ, ◌-◌, ◌%◌, ◌≤◌, ◌<◌, ◌≡◌, refl, sym, ap, ◌∙◌, inl, inr, false, ◌&&◌, not, some, List, [], ◌∷◌,
  ◌++◌, arith, ◌==◌, if◌then◌else◌, Bool-cases, length, replicate, length-replicate, length-map,
  subst,
}

module _ (fnv1a fnv1 : List ℕ → ℕ) where
  -- a sketch that calls build, with the events that it has counted since its last reset
  pub data Built : Sketch → List (List ℕ × ℕ) → Type 0 where
    made : (width depth : ℕ) → width < u32_mod → depth < u32_mod → Built (new width depth) []
    added :
        {c : Sketch} {es : List (List ℕ × ℕ)} {c' : Sketch} (x : List ℕ) (n : ℕ)
        → Built c es
        → add fnv1a fnv1 x n c ≡ some c'
        → Built c' ((x, n) ∷ es)
    merged :
        {c : Sketch} {es : List (List ℕ × ℕ)} {other : Sketch} {fs : List (List ℕ × ℕ)}
        {c' : Sketch}
        → Built c es
        → Built other fs
        → merge other c ≡ Merged.done c'
        → Built c' (es ++ fs)
    emptied : {c : Sketch} {es : List (List ℕ × ℕ)} → Built c es → Built (reset c) []

  pub Counts : Sketch → List (List ℕ × ℕ) → Type 0
  Counts c es =
      (0 < c.w)
      × (0 < c.d)
      × (length c.counts ≡ c.d)
      × (c.total ≡ total_of es % u64_mod)
      × AreRows (double_hash fnv1a fnv1) c.w 0 c.counts es

  new-Counts : (width depth : ℕ) → width < u32_mod → depth < u32_mod → Counts (new width depth) []
  unfolding Counts new total_of
  new-Counts width depth small_w small_d =
      let width' = if width == 0 then 2048 else width in
      let depth' = if depth == 0 then 5 else depth in
      let fits_w : (0 < width') × (width' < u32_mod) = (ground arith, ground arith) in
      let fits_d : (0 < depth') × (depth' < u32_mod) = (ground arith, ground arith) in
      let kept_w : width' ≡ width' % u32_mod = omega (arith, fits_w.1) in
      (
        omega (arith, kept_w, fits_w.0),
        omega (arith, fits_d.0, fits_d.1),
        length-replicate depth' (replicate width' 0) ∙ omega (arith, fits_d.1),
        refl,
        AreRows-zeros (double_hash fnv1a fnv1) (width' % u32_mod) 0 depth' width' kept_w,
      )

  add-Counts :
      (x : List ℕ) (n : ℕ) (c : Sketch) (es : List (List ℕ × ℕ))
      → Counts c es
      → (c' : Sketch) × (add fnv1a fnv1 x n c ≡ some c') × Counts c' ((x, n) ∷ es)
  unfolding Counts add total_of
  add-Counts x n c es (pos_w, pos_d, len, total, rows) =
      let (rows', sum, len', held) =
        add_loop-AreRows (double_hash fnv1a fnv1) c.w c.d 0 c.counts es x n pos_w len rows in
      let no_zero : (c.w == 0 && not (c.d == 0)) ≡ false = ground arith in
      (
        record c { counts = rows'; total = add64 c.total n },
        rw (no_zero, sum) refl,
        (pos_w, pos_d, len', omega (arith, total), held),
      )

  sketch_of : Sketch → Merged → Sketch
  sketch_of c Merged.incompatible = c
  sketch_of c Merged.panicked = c
  sketch_of c (Merged.done d) = d

  merge-Counts :
      (other c c' : Sketch) (es fs : List (List ℕ × ℕ))
      → Counts c es
      → Counts other fs
      → merge other c ≡ Merged.done c'
      → Counts c' (es ++ fs)
  unfolding Counts merge sketch_of
  merge-Counts other c c' es fs (pos_w, pos_d, len, total, rows)
        (pos_w', pos_d', len', total', rows') e =
      elim (Bool-cases (c.w == other.w)) [
        | inr differ ↦ ground arith
        | inl same_w ↦ elim (Bool-cases (c.d == other.d)) [
          | inr differ ↦ ground arith
          | inl same_d ↦
              let w_eq : other.w ≡ c.w = ground arith in
              let d_eq : c.d ≡ other.d = ground arith in
              let held' =
                subst (λ w. AreRows (double_hash fnv1a fnv1) w 0 other.counts fs) w_eq rows' in
              let (sums, summed, len_sums, held) =
                merge_rows-AreRows (double_hash fnv1a fnv1) c.w 0 c.counts other.counts es fs
                  (len ∙ d_eq ∙ sym len') rows held' in
              let result = record c { counts = sums; total = add64 c.total other.total } in
              let computed : merge other c ≡ Merged.done result =
                rw (same_w, same_d) (rw (summed, merge) refl) in
              subst (λ d. Counts d (es ++ fs)) (ap (sketch_of c) (sym computed ∙ e))
                (
                  pos_w,
                  pos_d,
                  len_sums ∙ len,
                  omega (arith, total, total', total_of-append es fs),
                  held,
                )
        ]
      ]

  reset-Counts : (c : Sketch) (es : List (List ℕ × ℕ)) → Counts c es → Counts (reset c) []
  unfolding Counts reset total_of
  reset-Counts c es (pos_w, pos_d, len, total, rows) = (
    pos_w,
    pos_d,
    length-map c.counts (λ row. replicate (length row) 0) ∙ len,
    refl,
    AreRows-reset (double_hash fnv1a fnv1) c.w 0 c.counts es rows,
  )

  Built-Counts : {c : Sketch} {es : List (List ℕ × ℕ)} → Built c es → Counts c es
  Built-Counts (Built.made width depth small_w small_d) = new-Counts width depth small_w small_d
  Built-Counts (Built.added {c = c} {es = es} {c' = c'} x n b e) =
      let (d, sum, held) = add-Counts x n c es (Built-Counts b) in
      subst (λ d. Counts d ((x, n) ∷ es)) (some-injective _ _ (sym sum ∙ e)) held
  Built-Counts (Built.merged {c = c} {es = es} {other = other} {fs = fs} {c' = c'} b b' e) =
      merge-Counts other c c' es fs (Built-Counts b) (Built-Counts b') e
  Built-Counts (Built.emptied {c = c} {es = es} b) = reset-Counts c es (Built-Counts b)

  -- For every sketch that was made with a width and a depth below 2^32 and then changed only by `Add`, `Merge`
  -- with such a sketch, and `Reset`: while the counts since the last reset sum to less than 2^64, `Estimate` of
  -- any string returns a number that is no less than the true count of the string and no more than the sum, and
  -- a further `Add` does not panic.
  pub estimate_lem :
      {c : Sketch} {es : List (List ℕ × ℕ)}
      → Built c es
      → total_of es < u64_mod
      → (x : List ℕ) (n : ℕ)
      → ((e : ℕ) × (estimate fnv1a fnv1 x c ≡ some e) × (count_of x es ≤ e) × (e ≤ total_of es))
        × ((c' : Sketch) × (add fnv1a fnv1 x n c ≡ some c'))
  unfolding Counts estimate
  estimate_lem {c = c} {es = es} b small x n =
      let h = Built-Counts b in
      let (pos_w, pos_d, len, total, rows) = h in
      let counted : count_of x es ≤ u64_mod - 1 = omega (arith, small, count_le_total x es) in
      let (e, found, above, least, below) =
        estimate_loop-bounds (double_hash fnv1a fnv1) c.w c.d 0 c.counts es x (u64_mod - 1) pos_w
          small len rows counted in
      let no_zero : (c.w == 0 && not (c.d == 0)) ≡ false = ground arith in
      let (c', sum, held) = add-Counts x n c es h in
      ((e, rw no_zero found, above, below pos_d), (c', sum))
