-- ===== src/Trie/Longest.antt =====
-- `LongestPrefix` of trie/trie.go.
use kit4go.Trie.{
  Node, Trie, value_of, children_of, find_child, descend, get_at, get, longest_loop, longest_prefix,
}
use kit4go.Trie.Lookup.{below, get_at-cons}
use kit4go.Common.{
  ℕ, zero, suc, ◌≤◌, ◌<◌, ◌≡◌, refl, ap, ◌∙◌, inl, inr, Option, none, some, List, [], ◌∷◌, ◌++◌,
  append_assoc, arith, Option-cases, length, take, subst,
}

module _ {S V : Type 0} (dec : Discrete S) where
  -- the longest part of the query, of one segment at least, that has a value below the node
  deepest : List S → Node S V → Option (List S × V)
  deepest [] n = none
  deepest (s ∷ ss) n = elim (find_child dec s (children_of n)) [
    | none ↦ none
    | some m ↦ elim (deepest ss m) [
      | some found ↦ some (s ∷ found.0, found.1)
      | none ↦ elim (value_of m) [ none ↦ none | some v ↦ some (s ∷ [], v) ]
    ]
  ]

  abbrev onto_path : List S → Option (List S × V) → Option (List S × V) → Option (List S × V)
  onto_path path best none = best
  onto_path path best (some found) = some (path ++ found.0, found.1)

  longest_loop-deepest :
      (best : Option (List S × V)) (path query : List S) (n : Node S V)
      → longest_loop dec best path query n ≡ onto_path path best (deepest query n)
  unfolding longest_loop deepest
  longest_loop-deepest best path [] n = refl
  longest_loop-deepest best path (s ∷ ss) n =
      elim (Option-cases (find_child dec s (children_of n))) [
        | inl absent ↦ rw (absent, longest_loop, deepest) refl
        | inr (m, found) ↦
            let path' = path ++ (s ∷ []) in
            let best' : Option (List S × V) = elim (value_of m) [
              | none ↦ best
              | some v ↦ some (path', v)
            ] in
            let rest = longest_loop-deepest best' path' ss m in
            elim (Option-cases (deepest ss m)) [
              | inr (d, deeper) ↦
                  rw (found, deeper, longest_loop, deepest)
                    (rest
                      ∙ ap (onto_path path' best') deeper
                      ∙ ap (λ p. some (p, d.1)) (append_assoc path (s ∷ []) d.0))
              | inl none_deeper ↦ elim (Option-cases (value_of m)) [
                | inl no_value ↦
                    rw (found, none_deeper, no_value, longest_loop, deepest)
                      (longest_loop-deepest best path' ss m ∙ ap (onto_path path' best) none_deeper)
                | inr (v, value) ↦
                    rw (found, none_deeper, value, longest_loop, deepest)
                      (longest_loop-deepest (some (path', v)) path' ss m
                        ∙ ap (onto_path path' (some (path', v))) none_deeper)
              ]
            ]
      ]

  -- the part is `query` up to segment `i`, and no longer one has a value
  abbrev IsDeepest : List S → Node S V → Option (List S × V) → Type 0
  IsDeepest query n none = (j : ℕ) → 0 < j → j ≤ length query → get_at dec (take j query) n ≡ none
  IsDeepest query n (some found) =
      (i : ℕ) × (i ≤ length query)
      × (found.0 ≡ take i query)
      × (get_at dec found.0 n ≡ some found.1)
      × ((j : ℕ) → i < j → j ≤ length query → get_at dec (take j query) n ≡ none)

  through :
      (s : S) (n m : Node S V) (ks : List S)
      → find_child dec s (children_of n) ≡ some m
      → get_at dec (s ∷ ks) n ≡ get_at dec ks m
  unfolding below
  through s n m ks found = get_at-cons dec s ks n ∙ ap (below dec ks) found

  none_below :
      (s : S) (ss : List S) (n m : Node S V) (i : ℕ)
      → find_child dec s (children_of n) ≡ some m
      → ((j : ℕ) → i < j → j ≤ length ss → get_at dec (take j ss) m ≡ none)
      → (j : ℕ) → suc i < j
      → j ≤ suc (length ss)
      → get_at dec (take j (s ∷ ss)) n ≡ none
  none_below s ss n m i found none_longer zero lo hi = absurd (omega arith)
  none_below s ss n m i found none_longer (suc j) lo hi =
      through s n m (take j ss) found ∙ none_longer j (omega arith) (omega arith)

  deepest-IsDeepest : (query : List S) (n : Node S V) → IsDeepest query n (deepest query n)
  unfolding deepest below get_at value_of
  deepest-IsDeepest [] n = λ j lo hi. absurd (omega arith)
  deepest-IsDeepest (s ∷ ss) n = elim (Option-cases (find_child dec s (children_of n))) [
    | inl absent ↦ rw (absent, deepest) (λ j lo hi. nothing absent j lo)
    | inr (m, found) ↦
        let inner = deepest-IsDeepest ss m in
        elim (Option-cases (deepest ss m)) [
          | inr (d, deeper) ↦
              let (i, le, part, held, none_longer) = subst (IsDeepest ss m) deeper inner in
              rw (found, deeper, deepest)
                (
                  suc i,
                  omega arith,
                  ap (λ ks. s ∷ ks) part,
                  through s n m d.0 found ∙ held,
                  none_below s ss n m i found none_longer,
                )
          | inl none_deeper ↦
              let none_longer = subst (IsDeepest ss m) none_deeper inner in
              elim (Option-cases (value_of m)) [
                | inl no_value ↦
                    rw (found, none_deeper, no_value, deepest)
                      (λ j lo hi. first_or_below m found no_value none_longer j lo hi)
                | inr (v, value) ↦
                    rw (found, none_deeper, value, deepest)
                      (
                        1,
                        omega arith,
                        refl,
                        through s n m [] found ∙ value,
                        none_below s ss n m 0 found none_longer,
                      )
              ]
        ]
  ]
    where
      nothing :
          find_child dec s (children_of n) ≡ none
          → (j : ℕ) → 0 < j
          → get_at dec (take j (s ∷ ss)) n ≡ none
      nothing absent zero lo = absurd (omega arith)
      nothing absent (suc j) lo =
          get_at-cons dec s (take j ss) n ∙ ap (below dec (take j ss)) absent

      first_or_below :
          (m : Node S V)
          → find_child dec s (children_of n) ≡ some m
          → value_of m ≡ none
          → ((j : ℕ) → 0 < j → j ≤ length ss → get_at dec (take j ss) m ≡ none)
          → (j : ℕ) → 0 < j
          → j ≤ suc (length ss)
          → get_at dec (take j (s ∷ ss)) n ≡ none
      first_or_below m found no_value none_longer zero lo hi = absurd (omega arith)
      first_or_below m found no_value none_longer (suc zero) lo hi =
          through s n m [] found ∙ no_value
      first_or_below m found no_value none_longer (suc (suc j)) lo hi =
          through s n m (take (suc j) ss) found ∙ none_longer (suc j) (omega arith) (omega arith)

  -- the answer is the query up to segment `i`, with its value, and no longer part has one; without an
  -- answer no part has one, the empty one included
  abbrev pub IsLongest : List S → Trie S V → Option (List S × V) → Type 0
  IsLongest query t none = (j : ℕ) → j ≤ length query → get dec (take j query) t ≡ none
  IsLongest query t (some found) =
      (i : ℕ) × (i ≤ length query)
      × (found.0 ≡ take i query)
      × (get dec found.0 t ≡ some found.1)
      × ((j : ℕ) → i < j → j ≤ length query → get dec (take j query) t ≡ none)

  -- `LongestPrefix` gives the longest part of the query from its first segment on that is a key, with its
  -- value, and nothing exactly if no part is a key.
  pub longest_prefix_lem :
      (query : List S) (t : Trie S V) → IsLongest query t (longest_prefix dec query t)
  unfolding longest_prefix get get_at descend value_of
  longest_prefix_lem query t =
      let spec = deepest-IsDeepest query t.root in
      let loop = longest_loop-deepest none [] query t.root in
      elim (Option-cases (deepest query t.root)) [
        | inr (d, deep) ↦
            let found : longest_loop dec none [] query t.root ≡ some d =
              loop ∙ ap (onto_path [] none) deep in
            rw (found, longest_prefix) (subst (IsDeepest query t.root) deep spec)
        | inl shallow ↦
            let missed : longest_loop dec none [] query t.root ≡ none =
              loop ∙ ap (onto_path [] none) shallow in
            let none_below = subst (IsDeepest query t.root) shallow spec in
            elim (Option-cases (value_of t.root)) [
              | inl no_value ↦
                  rw (missed, no_value, longest_prefix) (λ j hi. at_root no_value none_below j hi)
              | inr (v, value) ↦
                  rw (missed, value, longest_prefix) (0, omega arith, refl, value, none_below)
            ]
      ]
    where
      at_root :
          value_of t.root ≡ none
          → ((j : ℕ) → 0 < j → j ≤ length query → get_at dec (take j query) t.root ≡ none)
          → (j : ℕ) → j ≤ length query
          → get_at dec (take j query) t.root ≡ none
      at_root no_value none_below zero hi = no_value
      at_root no_value none_below (suc j) hi = none_below (suc j) (omega arith) hi
