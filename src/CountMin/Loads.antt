-- ===== src/CountMin/Loads.antt =====
-- Counts of events, and sums of rows, for countmin/countmin.go.
use kit4go.CountMin.{add_row, merge_rows}
use kit4go.Common.Words.{u64_mod, add64, same_bytes, same_bytes→eq}
use kit4go.Common.{
  ℕ, zero, suc, ◌+◌, ◌%◌, ◌≤◌, ◌<◌, ◌≡◌, refl, ap, ◌≢◌, inl, inr, true, some, List, [], ◌∷◌, ◌++◌,
  arith, ◌==◌, if◌then◌else◌, Bool-cases, length, get_or, replicate,
}

-- the counts of the events that an index function takes to `j`
unfoldable pub load : (List ℕ → ℕ) → ℕ → List (List ℕ × ℕ) → ℕ
load at j [] = 0
load at j (e ∷ es) = (if at e.0 == j then e.1 else 0) + load at j es

-- the true frequency of a string in the events
unfoldable pub count_of : List ℕ → List (List ℕ × ℕ) → ℕ
count_of x [] = 0
count_of x (e ∷ es) = (if same_bytes x e.0 then e.1 else 0) + count_of x es

unfoldable pub total_of : List (List ℕ × ℕ) → ℕ
total_of [] = 0
total_of (e ∷ es) = e.1 + total_of es

pub load_le_total : (at : List ℕ → ℕ) (j : ℕ) (es : List (List ℕ × ℕ)) → load at j es ≤ total_of es
unfolding load total_of
load_le_total at j [] = omega arith
load_le_total at j (e ∷ es) = ground (arith, load_le_total at j es)

pub count_le_load :
    (at : List ℕ → ℕ) (x : List ℕ) (es : List (List ℕ × ℕ)) → count_of x es ≤ load at (at x) es
unfolding load count_of
count_le_load at x [] = omega arith
count_le_load at x (e ∷ es) = elim (Bool-cases (same_bytes x e.0)) [
  | inl same ↦
      let there : at e.0 == at x ≡ true = ground (arith, ap at (same_bytes→eq x e.0 same)) in
      rw (same, there) (omega (arith, count_le_load at x es))
  | inr other ↦ rw other (omega (arith, count_le_load at x es))
]

pub count_le_total : (x : List ℕ) (es : List (List ℕ × ℕ)) → count_of x es ≤ total_of es
count_le_total x es = omega (arith, count_le_load (λ y. 0) x es, load_le_total (λ y. 0) 0 es)

pub load_hit :
    (at : List ℕ → ℕ) (j n : ℕ) (x : List ℕ) (es : List (List ℕ × ℕ))
    → at x ≡ j
    → load at j ((x, n) ∷ es) ≡ n + load at j es
unfolding load
load_hit at j n x es h = ground (arith, h)

pub load_miss :
    (at : List ℕ → ℕ) (j n : ℕ) (x : List ℕ) (es : List (List ℕ × ℕ))
    → at x ≢ j
    → load at j ((x, n) ∷ es) ≡ load at j es
unfolding load
load_miss at j n x es h = ground (arith, h)

pub load-append :
    (at : List ℕ → ℕ) (j : ℕ) (es fs : List (List ℕ × ℕ))
    → load at j (es ++ fs) ≡ load at j es + load at j fs
unfolding load
load-append at j [] fs = omega arith
load-append at j (e ∷ es) fs = omega (arith, load-append at j es fs)

pub wrapped : (u n l : ℕ) → u ≡ l % u64_mod → add64 u n ≡ (n + l) % u64_mod
wrapped u n l e = omega (arith, e)

cons_sums :
    (u v : ℕ) (us vs us' : List ℕ)
    → ((j : ℕ) → j < length us → get_or us' j 0 ≡ add64 (get_or us j 0) (get_or vs j 0))
    → (j : ℕ) → j < suc (length us)
    → get_or (add64 u v ∷ us') j 0 ≡ add64 (get_or (u ∷ us) j 0) (get_or (v ∷ vs) j 0)
cons_sums u v us vs us' h zero lt = refl
cons_sums u v us vs us' h (suc j) lt = h j (omega (arith, lt))

pub add_row-sums :
    (row other : List ℕ)
    → length row ≡ length other
    → (row' : List ℕ) × (add_row row other ≡ some row')
      × (length row' ≡ length row)
      × ((j : ℕ) → j < length row → get_or row' j 0 ≡ add64 (get_or row j 0) (get_or other j 0))
unfolding add_row
add_row-sums [] [] len = ([], refl, refl, λ j lt. absurd (omega (arith, lt)))
add_row-sums [] (v ∷ vs) len = absurd (omega (arith, len))
add_row-sums (u ∷ us) [] len = absurd (omega (arith, len))
add_row-sums (u ∷ us) (v ∷ vs) len =
    let (us', added, len', sums) = add_row-sums us vs (omega (arith, len)) in
    (add64 u v ∷ us', rw added refl, ap suc len', cons_sums u v us vs us' sums)

pub merge_rows-cons :
    (row o row' : List ℕ) (rows others rows' : List (List ℕ))
    → add_row row o ≡ some row'
    → merge_rows rows others ≡ some rows'
    → merge_rows (row ∷ rows) (o ∷ others) ≡ some (row' ∷ rows')
unfolding merge_rows
merge_rows-cons row o row' rows others rows' e f = rw (e, merge_rows) (rw (f, merge_rows) refl)

pub get_or-zeros : (width j : ℕ) → get_or {A = ℕ} (replicate width 0) j 0 ≡ 0
get_or-zeros zero j = refl
get_or-zeros (suc width) zero = refl
get_or-zeros (suc width) (suc j) = get_or-zeros width j

pub total_of-append : (es fs : List (List ℕ × ℕ)) → total_of (es ++ fs) ≡ total_of es + total_of fs
unfolding total_of
total_of-append [] fs = omega arith
total_of-append (e ∷ es) fs = omega (arith, total_of-append es fs)
