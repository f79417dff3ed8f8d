-- ===== src/ConsistentHash/Selection.antt =====
-- The loop of `GetN` in consistenthash/consistenthash.go that selects the highest scores, beside that of `Get`.
use mathlib.Core.List.{Perm}
use mathlib.Core.List.Perm
use kit4go.ConsistentHash.{better, get_loop, max_from, swap_front, select, scored}
use kit4go.Common.{
  ℕ, zero, suc, ◌+◌, ◌≤◌, max, ◌≡◌, refl, sym, ap, ◌∙◌, ◌⊎◌, inl, inr, some, List, [], ◌∷◌, arith,
  ltb, if◌then◌else◌, ltb→lt, Bool-cases, Option-cases, length, get_elem?, set, length-set, subst,
}

module _ {T : Type 0} where
  -- no score is above `top`
  abbrev pub Below : ℕ → List (T × ℕ) → Type 0
  Below top [] = Unit
  Below top (e ∷ es) = (e.1 ≤ top) × Below top es

  -- each of the first `n` entries has a score that none after it exceeds
  abbrev pub Leads : ℕ → List (T × ℕ) → Type 0
  Leads zero es = Unit
  Leads (suc n) [] = Unit
  Leads (suc n) (e ∷ es) = Below e.1 es × Leads n es

  Below-mono : {a b : ℕ} (es : List (T × ℕ)) → a ≤ b → Below a es → Below b es
  Below-mono [] h k = k
  Below-mono (e ∷ es) h k = (omega (arith, k.0, h), Below-mono es h k.1)

  Below-set :
      (top : ℕ) (es : List (T × ℕ)) (i : ℕ) (x : T × ℕ)
      → x.1 ≤ top
      → Below top es
      → Below top (set es i x)
  Below-set top [] i x h k = k
  Below-set top (e ∷ es) zero x h k = (h, k.1)
  Below-set top (e ∷ es) (suc i) x h k = (k.0, Below-set top es i x h k.1)

  -- the first entry of the highest score, of `b` and those after it
  pub top_of : T × ℕ → List (T × ℕ) → T × ℕ
  top_of b [] = b
  top_of b (e ∷ es) = top_of (if ltb b.1 e.1 then e else b) es

  pub get_loop_lem :
      (score : T → ℕ) (b : T × ℕ) (ns : List T)
      → get_loop score (some b) ns ≡ some (top_of b (scored score ns))
  unfolding get_loop better scored top_of
  get_loop_lem score b [] = refl
  get_loop_lem score b (n ∷ ns) = elim (Bool-cases (ltb b.1 (score n))) [
    | inl up ↦
        ap (λ t. get_loop score (if t then some (n, score n) else some b) ns) up
        ∙ get_loop_lem score (n, score n) ns
        ∙ ap (λ t. some (top_of (if t then (n, score n) else b) (scored score ns))) (sym up)
    | inr lower ↦
        ap (λ t. get_loop score (if t then some (n, score n) else some b) ns) lower
        ∙ get_loop_lem score b ns
        ∙ ap (λ t. some (top_of (if t then (n, score n) else b) (scored score ns))) (sym lower)
  ]

  -- what the inner loop of `GetN` finds: the first entry, or one at an index after it
  max_from_lem :
      (b : T × ℕ) (max j : ℕ) (es : List (T × ℕ)) (t : T × ℕ)
      → t ≡ top_of b es
      → ((max_from max b.1 j es ≡ max) × (t ≡ b) × Below b.1 es)
        ⊎ ((k : ℕ) × (max_from max b.1 j es ≡ j + k)
            × (get_elem? es k ≡ some t)
            × (b.1 ≤ t.1)
            × Below t.1 es)
  unfolding max_from top_of
  max_from_lem b max j [] t h = inl (refl, h, tt)
  max_from_lem b max j (e ∷ es) t h = elim (Bool-cases (ltb b.1 e.1)) [
    | inl up ↦
        let above = ltb→lt b.1 e.1 up in
        let h' = h ∙ ap (λ up. top_of (if up then e else b) es) up in
        elim (max_from_lem e j (suc j) es t h') [
          | inl (same, found, below) ↦
              let at : e.1 ≡ t.1 = ap (λ e. e.1) (sym found) in
              inr (
                0,
                rw up (same ∙ omega arith),
                ap some (sym found),
                omega arith,
                (omega arith, subst (λ s. Below s es) at below),
              )
          | inr (k, next, at, le, below) ↦
              inr (suc k, rw up (next ∙ omega arith), at, omega arith, (le, below))
        ]
    | inr lower ↦
        let under : e.1 ≤ b.1 = ground arith in
        let h' = h ∙ ap (λ up. top_of (if up then e else b) es) lower in
        elim (max_from_lem b max (suc j) es t h') [
          | inl (same, found, below) ↦ inl (rw lower same, found, (under, below))
          | inr (k, next, at, le, below) ↦
              inr (suc k, rw lower (next ∙ omega arith), at, le, (omega arith, below))
        ]
  ]

  swap_perm :
      (x y : T × ℕ) (xs : List (T × ℕ)) (k : ℕ)
      → get_elem? xs k ≡ some y
      → Perm (x ∷ xs) (y ∷ set xs k x)
  swap_perm x y [] k h = ground arith
  swap_perm x y (z ∷ zs) zero h =
      subst (λ u. Perm (x ∷ z ∷ zs) (u ∷ x ∷ zs)) (ground arith) (Perm.swap z x zs)
  swap_perm x y (z ∷ zs) (suc k) h =
      Perm.trans (Perm.swap z x zs)
        (Perm.trans (Perm.cons z (swap_perm x y zs k h)) (Perm.swap y z (set zs k x)))

  swap_front_lem :
      (x : T × ℕ) (xs : List (T × ℕ))
      → (ys : List (T × ℕ)) × (swap_front (x ∷ xs) (max_from 0 x.1 1 xs) ≡ top_of x xs ∷ ys)
        × Perm (x ∷ xs) (top_of x xs ∷ ys)
        × Below (top_of x xs).1 ys
  unfolding swap_front
  swap_front_lem x xs = elim (max_from_lem x 0 1 xs (top_of x xs) refl) [
    | inl (same, found, below) ↦ (
      xs,
      ap (swap_front (x ∷ xs)) same ∙ ap (λ t. t ∷ xs) (sym found),
      subst (λ t. Perm (x ∷ xs) (t ∷ xs)) (sym found) Perm.rfl,
      subst (λ t. Below t.1 xs) (sym found) below,
    )
    | inr (k, next, at, le, below) ↦ (
      set xs k x,
      ap (swap_front (x ∷ xs)) {y = suc k} (next ∙ omega arith) ∙ rw (at, swap_front) refl,
      swap_perm x (top_of x xs) xs k at,
      Below-set (top_of x xs).1 xs k x le below,
    )
  ]

  Below-get :
      (top : ℕ) (es : List (T × ℕ)) (k : ℕ) (e : T × ℕ)
      → get_elem? es k ≡ some e
      → Below top es
      → e.1 ≤ top
  Below-get top [] k e h below = ground arith
  Below-get top (x ∷ es) zero e h below = ground arith
  Below-get top (x ∷ es) (suc k) e h below = Below-get top es k e h below.1

  Below-swap_front :
      (top : ℕ) (x : T × ℕ) (xs : List (T × ℕ)) (k : ℕ)
      → Below top (x ∷ xs)
      → Below top (swap_front (x ∷ xs) k)
  unfolding swap_front
  Below-swap_front top x xs zero below = below
  Below-swap_front top x xs (suc k) below = elim (Option-cases (get_elem? xs k)) [
    | inl e ↦ rw (e, swap_front) below
    | inr (y, e) ↦
        rw (e, swap_front) (Below-get top xs k y e below.1, Below-set top xs k x below.0 below.1)
  ]

  pub select-cons :
      (n : ℕ) (x : T × ℕ) (xs : List (T × ℕ))
      → (ys : List (T × ℕ)) × (swap_front (x ∷ xs) (max_from 0 x.1 1 xs) ≡ top_of x xs ∷ ys)
        × (select (suc n) (x ∷ xs) ≡ top_of x xs ∷ select n ys)
        × Perm (x ∷ xs) (top_of x xs ∷ ys)
        × Below (top_of x xs).1 ys
  unfolding select
  select-cons n x xs =
      let (ys, swapped, perm, below) = swap_front_lem x xs in
      (ys, swapped, rw (swapped, select) refl, perm, below)

  Below-select : (top n : ℕ) (xs : List (T × ℕ)) → Below top xs → Below top (select n xs)
  unfolding select
  Below-select top zero xs below = below
  Below-select top (suc n) [] below = tt
  Below-select top (suc n) (x ∷ xs) below =
      let (ys, swapped, chosen, perm, under) = select-cons n x xs in
      let swapped_below : Below top (top_of x xs ∷ ys) =
        subst (Below top) swapped (Below-swap_front top x xs (max_from 0 x.1 1 xs) below) in
      subst (Below top) (sym chosen) (swapped_below.0, Below-select top n ys swapped_below.1)

  pub select_lem : (n : ℕ) (xs : List (T × ℕ)) → Perm xs (select n xs) × Leads n (select n xs)
  unfolding select
  select_lem zero xs = (Perm.rfl, tt)
  select_lem (suc n) [] = (Perm.rfl, tt)
  select_lem (suc n) (x ∷ xs) =
      let (ys, swapped, chosen, perm, below) = select-cons n x xs in
      let (perm', leads) = select_lem n ys in
      subst (λ zs. Perm (x ∷ xs) zs × Leads (suc n) zs) (sym chosen)
        (
          Perm.trans perm (Perm.cons (top_of x xs) perm'),
          (Below-select (top_of x xs).1 n ys below, leads),
        )

  length-swap_front : (xs : List (T × ℕ)) (k : ℕ) → length (swap_front xs k) ≡ length xs
  unfolding swap_front
  length-swap_front [] k = refl
  length-swap_front (x ∷ xs) zero = refl
  length-swap_front (x ∷ xs) (suc k) = elim (Option-cases (get_elem? xs k)) [
    | inl e ↦ rw (e, swap_front) refl
    | inr (y, e) ↦ rw (e, swap_front) (ap suc (length-set xs k x))
  ]

  pub length-select : (n : ℕ) (xs : List (T × ℕ)) → length (select n xs) ≡ length xs
  unfolding select
  length-select zero xs = refl
  length-select (suc n) [] = refl
  length-select (suc n) (x ∷ xs) =
      let (ys, swapped, chosen, perm, below) = select-cons n x xs in
      let same : suc (length ys) ≡ suc (length xs) =
        sym (ap length swapped) ∙ length-swap_front (x ∷ xs) (max_from 0 x.1 1 xs) in
      ap length chosen ∙ ap suc (length-select n ys) ∙ same
