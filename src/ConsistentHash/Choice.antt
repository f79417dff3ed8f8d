-- ===== src/ConsistentHash/Choice.antt =====
-- What `Get` and `GetN` of consistenthash/consistenthash.go choose.
use mathlib.Core.List.{Perm}
use kit4go.ConsistentHash.{Map, score_node, better, get_loop, node_of, get, select, scored, get_n}
use kit4go.ConsistentHash.Selection.{Leads, get_loop_lem, select-cons, select_lem, length-select}
use kit4go.Common.Int.{ℤ, pos, pos_part}
use kit4go.Common.{
  ℕ, suc, min, ◌≡◌, refl, sym, ap, ◌∙◌, inl, inr, ◌||◌, none, List, [], ◌∷◌, ◌++◌, map, arith, ◌==◌,
  Bool-cases, length, get_elem?, take, drop, take-append-drop, length-take, subst,
}

module _ {T : Type 0} where
  length-scored : (score : T → ℕ) (ns : List T) → length (scored score ns) ≡ length ns
  unfolding scored
  length-scored score [] = refl
  length-scored score (n ∷ ns) = ap suc (length-scored score ns)

  -- the test for nothing asked or no node changes nothing
  get_n-select :
      (key : List ℕ) (n : ℤ) (m : Map T)
      → get_n key n m ≡ (
          let scores = scored (score_node m key) m.nodes in
          let n' = min (pos_part n) (length scores) in
          map (λ (e : T × ℕ). e.0) (take n' (select n' scores)))
  unfolding get_n
  get_n-select key n m =
      let scores = scored (score_node m key) m.nodes in
      let count = length-scored (score_node m key) m.nodes in
      elim (Bool-cases (pos_part n == 0 || length m.nodes == 0)) [
        | inl none_wanted ↦
            let no_count : min (pos_part n) (length scores) ≡ 0 = ground (arith, count) in
            rw none_wanted
              (sym (ap (λ (k : ℕ). map (λ (e : T × ℕ). e.0) (take k (select k scores))) no_count))
        | inr wanted ↦ rw wanted refl
      ]

  -- With their scores: what `GetN` gives and then the nodes that it does not give, as a permutation of all nodes,
  -- in which no chosen node has a lower score than one after it.
  pub Ranked : List ℕ → ℤ → Map T → List (T × ℕ) → List (T × ℕ) → Type 0
  Ranked key n m chosen rest =
      (get_n key n m ≡ map (λ (e : T × ℕ). e.0) chosen)
      × (length chosen ≡ min (pos_part n) (length m.nodes))
      × Perm (scored (score_node m key) m.nodes) (chosen ++ rest)
      × Leads (length chosen) (chosen ++ rest)

  -- `GetN` gives as many nodes as asked for, or all of them where there are fewer: with their scores they are
  -- the first entries of a permutation of all nodes with their scores, in which none of them has a lower score
  -- than any entry after it.
  pub get_n_lem :
      (key : List ℕ) (n : ℤ) (m : Map T) → (chosen rest : List (T × ℕ)) × Ranked key n m chosen rest
  unfolding get_n Ranked
  get_n_lem key n m =
      let scores = scored (score_node m key) m.nodes in
      let count = length-scored (score_node m key) m.nodes in
      let n' = min (pos_part n) (length scores) in
      let all = select n' scores in
      let size : length (take n' all) ≡ n' =
        omega (arith, length-take n' all, length-select n' scores) in
      let (perm, leads) = select_lem n' scores in
      let whole = take-append-drop n' all in
      (
        take n' all,
        drop n' all,
        (
          get_n-select key n m,
          omega (arith, size, count),
          subst (Perm scores) (sym whole) perm,
          subst (λ k. Leads k (take n' all ++ drop n' all)) (sym size)
              (subst (Leads n') (sym whole) leads),
        ),
      )

  get_n-get_at :
      (score : T → ℕ) (k : ℕ) (ns : List T)
      → get_elem?
          (map
            (λ (e : T × ℕ). e.0)
            (take
              (min (suc k) (length (scored score ns)))
              (select (min (suc k) (length (scored score ns))) (scored score ns))))
          0
        ≡ node_of (get_loop score none ns)
  unfolding node_of get_loop scored better select
  get_n-get_at score k [] =
      ap (λ (n : ℕ). get_elem? (map (λ (e : T × ℕ). e.0) (take n (select n []))) 0) {y = 0}
        (omega arith)
  get_n-get_at score k (n ∷ ns) =
      let l = min k (length (scored score ns)) in
      let (ys, swapped, chosen, perm, below) = select-cons l (n, score n) (scored score ns) in
      ap
        (λ (i : ℕ).
          get_elem? (map (λ (e : T × ℕ). e.0) (take i (select i (scored score (n ∷ ns))))) 0)
        {y = suc l} (omega arith)
      ∙ ap (λ (es : List (T × ℕ)). get_elem? (map (λ (e : T × ℕ). e.0) (take (suc l) es)) 0) chosen
      ∙ ap node_of (sym (get_loop_lem score (n, score n) ns))

  -- A positive number of nodes asked of `GetN`: the first one is the node that `Get` gives.
  pub get_n-get :
      (key : List ℕ) (k : ℕ) (m : Map T) → get_elem? (get_n key (pos (suc k)) m) 0 ≡ get key m
  unfolding get
  get_n-get key k m =
      ap (λ (ns : List T). get_elem? ns 0) (get_n-select key (pos (suc k)) m)
      ∙ get_n-get_at (score_node m key) k m.nodes
