-- ===== src/ConsistentHash/Moves.antt =====
-- How little a change of the nodes in consistenthash/consistenthash.go moves a key.
use kit4go.ConsistentHash.{
  Map, contains, append_dedup, add, drop_id, remove, score_node, better, get_loop, node_of, get,
}
use kit4go.Common.Words.{same_bytes, same_bytes→eq}
use kit4go.Common.{
  ℕ, suc, ◌≤◌, ◌≡◌, refl, ap, ◌∙◌, ◌≢◌, ◌⊎◌, inl, inr, true, Option, none, some, List, [], ◌∷◌,
  ◌++◌, arith, ltb, Bool-cases, get_elem?,
}

module _ {T : Type 0} where
  -- the best entry of the loop that skips the target, beside that of the loop over all nodes: the same, or
  -- the latter is the target and the former no better
  data Trails (id : T → List ℕ) (target : List ℕ) : Option (T × ℕ) → Option (T × ℕ) → Type 0 where
    equal : {b : Option (T × ℕ)} → Trails id target b b
    nothing_yet : {t : T} {top : ℕ} → id t ≡ target → Trails id target none (some (t, top))
    behind :
        {a t : T} {low top : ℕ}
        → id t ≡ target
        → low ≤ top
        → Trails id target (some (a, low)) (some (t, top))

  keep_Trails :
      (id : T → List ℕ) (target : List ℕ) {a b : Option (T × ℕ)} (n : T) (score : ℕ)
      → Trails id target a b
      → Trails id target (better a n score) (better b n score)
  unfolding better
  keep_Trails id target n score Trails.equal = Trails.equal
  keep_Trails id target n score (Trails.nothing_yet {t = t} {top = top} e) =
      elim (Bool-cases (ltb top score)) [
        | inl up ↦ rw up Trails.equal
        | inr lower ↦ rw lower (Trails.behind e (ground arith))
      ]
  keep_Trails id target n score (Trails.behind {a = a} {t = t} {low = low} {top = top} e le) =
      elim (Bool-cases (ltb top score)) [
        | inl up ↦ let low_up : ltb low score ≡ true = ground arith in rw (up, low_up) Trails.equal
        | inr lower ↦ elim (Bool-cases (ltb low score)) [
          | inl low_up ↦ rw (lower, low_up) (Trails.behind e (ground arith))
          | inr low_lower ↦ rw (lower, low_lower) (Trails.behind e le)
        ]
      ]

  skip_Trails :
      (id : T → List ℕ) (target : List ℕ) {a b : Option (T × ℕ)} (n : T) (score : ℕ)
      → id n ≡ target
      → Trails id target a b
      → Trails id target a (better b n score)
  unfolding better
  skip_Trails id target n score at (Trails.equal {b = none}) = Trails.nothing_yet at
  skip_Trails id target n score at (Trails.equal {b = some (t, top)}) =
      elim (Bool-cases (ltb top score)) [
        | inl up ↦ rw up (Trails.behind at (ground arith))
        | inr lower ↦ rw lower Trails.equal
      ]
  skip_Trails id target n score at (Trails.nothing_yet {t = t} {top = top} e) =
      elim (Bool-cases (ltb top score)) [
        | inl up ↦ rw up (Trails.nothing_yet at)
        | inr lower ↦ rw lower (Trails.nothing_yet e)
      ]
  skip_Trails id target n score at (Trails.behind {a = a} {t = t} {low = low} {top = top} e le) =
      elim (Bool-cases (ltb top score)) [
        | inl up ↦ rw up (Trails.behind at (ground arith))
        | inr lower ↦ rw lower (Trails.behind e le)
      ]

  get_loop-Trails :
      (id : T → List ℕ) (target : List ℕ) (score : T → ℕ) (ns : List T) {a b : Option (T × ℕ)}
      → Trails id target a b
      → Trails id target (get_loop score a (drop_id id target ns)) (get_loop score b ns)
  unfolding get_loop drop_id
  get_loop-Trails id target score [] h = h
  get_loop-Trails id target score (n ∷ ns) h = elim (Bool-cases (same_bytes (id n) target)) [
    | inl at ↦ rw at (
        get_loop-Trails id target score ns
          (skip_Trails id target n (score n) (same_bytes→eq (id n) target at) h))
    | inr off ↦ rw off (get_loop-Trails id target score ns (keep_Trails id target n (score n) h))
  ]

  Trails-off :
      (id : T → List ℕ) (target : List ℕ) {a b : Option (T × ℕ)} (n : T)
      → Trails id target a b
      → node_of b ≡ some n
      → id n ≢ target
      → node_of a ≡ some n
  unfolding node_of
  Trails-off id target n Trails.equal found off = found
  Trails-off id target n (Trails.nothing_yet e) found off = absurd (off (ap id (ground arith) ∙ e))
  Trails-off id target n (Trails.behind e le) found off = absurd (off (ap id (ground arith) ∙ e))

  get_loop-append :
      (score : T → ℕ) (b : Option (T × ℕ)) (ns : List T) (n : T)
      → get_loop score b (ns ++ (n ∷ [])) ≡ better (get_loop score b ns) n (score n)
  unfolding get_loop
  get_loop-append score b [] n = refl
  get_loop-append score b (x ∷ ns) n = get_loop-append score (better b x (score x)) ns n

  -- one node more is chosen, or changes nothing
  better-either :
      (b : Option (T × ℕ)) (n : T) (score : ℕ)
      → (node_of (better b n score) ≡ node_of b) ⊎ (node_of (better b n score) ≡ some n)
  unfolding better node_of
  better-either none n score = inr refl
  better-either (some (t, top)) n score = elim (Bool-cases (ltb top score)) [
    | inl up ↦ inr (rw up refl)
    | inr lower ↦ inl (rw lower refl)
  ]

  append_dedup-either :
      (id : T → List ℕ) (score : T → ℕ) (ns nodes : List T)
      → (node_of (get_loop score none (append_dedup id ns nodes))
          ≡ node_of (get_loop score none nodes))
        ⊎ ((i : ℕ) × (n : T) × (get_elem? ns i ≡ some n)
            × (node_of (get_loop score none (append_dedup id ns nodes)) ≡ some n))
  unfolding append_dedup
  append_dedup-either id score [] nodes = inl refl
  append_dedup-either id score (n ∷ ns) nodes = elim (Bool-cases (contains id (id n) nodes)) [
    | inl known ↦ rw known (elim (append_dedup-either id score ns nodes) [
      | inl same ↦ inl same
      | inr (i, x, at, chosen) ↦ inr (suc i, x, at, chosen)
    ])
    | inr new ↦ rw new (elim (append_dedup-either id score ns (nodes ++ (n ∷ []))) [
      | inl same ↦
          let grown = same ∙ ap node_of (get_loop-append score none nodes n) in
          elim (better-either (get_loop score none nodes) n (score n)) [
            | inl kept ↦ inl (grown ∙ kept)
            | inr chosen ↦ inr (0, n, refl, grown ∙ chosen)
          ]
      | inr (i, x, at, chosen) ↦ inr (suc i, x, at, chosen)
    ])
  ]

  -- For a key that `Get` gives a node: to remove any node of another identity leaves it there, and after `Add` it
  -- is still there or on one of the nodes that were added.
  pub get-changes_little :
      (key : List ℕ) (n node : T) (ns : List T) (m : Map T)
      → get key m ≡ some n
      → m.id n ≢ m.id node
      → (get key (remove node m) ≡ some n)
        × ((get key (add ns m) ≡ some n)
            ⊎ ((i : ℕ) × (x : T) × (get_elem? ns i ≡ some x) × (get key (add ns m) ≡ some x)))
  unfolding get remove add score_node
  get-changes_little key n node ns m found off =
      let score = score_node m key in
      (
        Trails-off m.id (m.id node) n (get_loop-Trails m.id (m.id node) score m.nodes Trails.equal)
            found off,
        elim (append_dedup-either m.id score ns m.nodes) [
          | inl same ↦ inl (same ∙ found)
          | inr (i, x, at, chosen) ↦ inr (i, x, at, chosen)
        ],
      )
