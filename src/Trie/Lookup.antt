-- ===== src/Trie/Lookup.antt =====
-- `Get` after `Insert` and `Delete` of trie/trie.go.
use mathlib.Core.Logic.{if_pos, if_neg}
use kit4go.Trie.{
  Node, Children, Trie, value_of, children_of, is_bare, find_child, put_child, drop_child, or_new,
  descend, get_at, insert_at, delete_at, insert, get, delete,
}
use kit4go.Common.{
  ◌≡◌, refl, sym, ap, ap₂, ◌∙◌, ◌≢◌, inl, inr, true, false, Option, none, some, List, [], ◌∷◌,
  arith, if◌then◌else◌, Bool-cases, Option-cases, subst,
}

module _ {S V : Type 0} (dec : Discrete S) where
  -- what a key has below a child that may be missing
  unfoldable pub below : List S → Option (Node S V) → Option V
  below ss none = none
  below ss (some m) = get_at dec ss m

  pub get_at-cons :
      (s : S) (ss : List S) (n : Node S V)
      → get_at dec (s ∷ ss) n ≡ below ss (find_child dec s (children_of n))
  unfolding below get_at descend
  get_at-cons s ss n = elim (Option-cases (find_child dec s (children_of n))) [
    | inl e ↦ rw (e, get_at, descend) refl
    | inr (m, e) ↦ rw (e, get_at, descend) refl
  ]

  below-or_new : (ss : List S) (o : Option (Node S V)) → get_at dec ss (or_new dec o) ≡ below ss o
  unfolding below or_new get_at descend find_child value_of children_of
  below-or_new [] none = refl
  below-or_new (s ∷ ss) none = refl
  below-or_new ss (some n) = refl

  find_child-put_self :
      (s : S) (m : Node S V) (cs : Children S V) → find_child dec s (put_child dec s m cs) ≡ some m
  unfolding find_child put_child
  find_child-put_self s m Children.leaf = if_pos (dec s s) refl _ _
  find_child-put_self s m (Children.child t n cs) = ground (arith, find_child-put_self s m cs)

  find_child-put_ne :
      (r s : S) (m : Node S V) (cs : Children S V)
      → r ≢ s
      → find_child dec r (put_child dec s m cs) ≡ find_child dec r cs
  unfolding find_child put_child
  find_child-put_ne r s m Children.leaf ne = if_neg (dec s r) (λ e. ne (sym e)) _ _
  find_child-put_ne r s m (Children.child t n cs) ne = ground (arith, find_child-put_ne r s m cs ne)

  find_child-drop_self : (s : S) (cs : Children S V) → find_child dec s (drop_child dec s cs) ≡ none
  unfolding find_child drop_child
  find_child-drop_self s Children.leaf = refl
  find_child-drop_self s (Children.child t n cs) = ground (arith, find_child-drop_self s cs)

  find_child-drop_ne :
      (r s : S) (cs : Children S V)
      → r ≢ s
      → find_child dec r (drop_child dec s cs) ≡ find_child dec r cs
  unfolding find_child drop_child
  find_child-drop_ne r s Children.leaf ne = refl
  find_child-drop_ne r s (Children.child t n cs) ne = ground (arith, find_child-drop_ne r s cs ne)

  pub get_at-insert_self :
      (js : List S) (v : V) (n : Node S V) → get_at dec js (insert_at dec js v n) ≡ some v
  unfolding insert_at get_at descend value_of children_of below
  get_at-insert_self [] v (Node.node old cs) = refl
  get_at-insert_self (s ∷ ss) v (Node.node old cs) =
      let m = insert_at dec ss v (or_new dec (find_child dec s cs)) in
      get_at-cons s ss (Node.node old (put_child dec s m cs))
      ∙ ap (below ss) (find_child-put_self s m cs)
      ∙ get_at-insert_self ss v (or_new dec (find_child dec s cs))

  pub get_at-insert_ne :
      (js ks : List S) (v : V) (n : Node S V)
      → ks ≢ js
      → get_at dec ks (insert_at dec js v n) ≡ get_at dec ks n
  unfolding insert_at get_at descend value_of children_of below
  get_at-insert_ne [] [] v (Node.node old cs) ne = absurd (ne refl)
  get_at-insert_ne [] (t ∷ ts) v (Node.node old cs) ne = refl
  get_at-insert_ne (s ∷ ss) [] v (Node.node old cs) ne = refl
  get_at-insert_ne (s ∷ ss) (t ∷ ts) v (Node.node old cs) ne =
      let m = insert_at dec ss v (or_new dec (find_child dec s cs)) in
      let here = get_at-cons t ts (Node.node old (put_child dec s m cs)) in
      let there = get_at-cons t ts (Node.node old cs) in
      elim (dec t s) [
        | no other ↦ here ∙ ap (below ts) (find_child-put_ne t s m cs other) ∙ sym there
        | yes same ↦
            let shorter : ts ≢ ss = λ e. ne (ap₂ (λ x xs. x ∷ xs) same e) in
            here
            ∙ ap (λ x. below ts (find_child dec x (put_child dec s m cs))) same
            ∙ ap (below ts) (find_child-put_self s m cs)
            ∙ get_at-insert_ne ss ts v (or_new dec (find_child dec s cs)) shorter
            ∙ below-or_new ts (find_child dec s cs)
            ∙ ap (λ x. below ts (find_child dec x cs)) (sym same)
            ∙ sym there
      ]

  bare-get_at : (ks : List S) (n : Node S V) → is_bare n ≡ true → get_at dec ks n ≡ none
  unfolding is_bare get_at descend value_of children_of find_child
  bare-get_at [] (Node.node none Children.leaf) h = refl
  bare-get_at (k ∷ ks) (Node.node none Children.leaf) h = refl
  bare-get_at ks (Node.node none (Children.child s n cs)) h = absurd (ground arith)
  bare-get_at ks (Node.node (some v) cs) h = absurd (ground arith)

  -- pruning a bare child shows to no key
  below-pruned :
      (s : S) (m : Node S V) (cs : Children S V) (ts : List S)
      → below ts
          (find_child dec s (if is_bare m then drop_child dec s cs else put_child dec s m cs))
        ≡ get_at dec ts m
  unfolding below
  below-pruned s m cs ts = elim (Bool-cases (is_bare m)) [
    | inl bare ↦ rw bare (ap (below ts) (find_child-drop_self s cs) ∙ sym (bare-get_at ts m bare))
    | inr kept ↦ rw kept (ap (below ts) (find_child-put_self s m cs))
  ]

  find_child-pruned :
      (r s : S) (m : Node S V) (cs : Children S V)
      → r ≢ s
      → find_child dec r (if is_bare m then drop_child dec s cs else put_child dec s m cs)
        ≡ find_child dec r cs
  find_child-pruned r s m cs ne = elim (Bool-cases (is_bare m)) [
    | inl bare ↦ rw bare (find_child-drop_ne r s cs ne)
    | inr kept ↦ rw kept (find_child-put_ne r s m cs ne)
  ]

  others_kept :
      (s : S) (ss : List S) (m m' : Node S V) (old : Option V) (cs : Children S V)
      → find_child dec s cs ≡ some m
      → ((ks : List S) → ks ≢ ss → get_at dec ks m' ≡ get_at dec ks m)
      → (ks : List S) → ks ≢ (s ∷ ss)
      → get_at dec ks
          (Node.node old (if is_bare m' then drop_child dec s cs else put_child dec s m' cs))
        ≡ get_at dec ks (Node.node old cs)
  unfolding get_at descend value_of children_of below
  others_kept s ss m m' old cs found others [] ne = refl
  others_kept s ss m m' old cs found others (t ∷ ts) ne =
      let cs' = if is_bare m' then drop_child dec s cs else put_child dec s m' cs in
      let here = get_at-cons t ts (Node.node old cs') in
      let there = get_at-cons t ts (Node.node old cs) in
      elim (dec t s) [
        | no other ↦ here ∙ ap (below ts) (find_child-pruned t s m' cs other) ∙ sym there
        | yes same ↦
            here
            ∙ ap (λ x. below ts (find_child dec x cs')) same
            ∙ below-pruned s m' cs ts
            ∙ others ts (λ e. ne (ap₂ (λ x xs. x ∷ xs) same e))
            ∙ sym (ap (λ x. below ts (find_child dec x cs)) same ∙ ap (below ts) found)
            ∙ sym there
      ]

  -- what `delete_at` returns: no node if the key is absent, and else one without the key
  abbrev Deletes : List S → Node S V → Option (Node S V) → Type 0
  Deletes js n none = get_at dec js n ≡ none
  Deletes js n (some n') =
      ((v : V) × (get_at dec js n ≡ some v))
      × (get_at dec js n' ≡ none)
      × ((ks : List S) → ks ≢ js → get_at dec ks n' ≡ get_at dec ks n)

  delete_at-Deletes : (js : List S) (n : Node S V) → Deletes js n (delete_at dec js n)
  unfolding delete_at get_at descend value_of children_of below
  delete_at-Deletes [] (Node.node none cs) = refl
  delete_at-Deletes [] (Node.node (some v) cs) = ((v, refl), refl, λ ks ne. same_children ks ne)
    where
      same_children :
          (ks : List S)
          → ks ≢ []
          → get_at dec ks (Node.node none cs) ≡ get_at dec ks (Node.node (some v) cs)
      same_children [] ne = absurd (ne refl)
      same_children (k ∷ ks) ne = refl
  delete_at-Deletes (s ∷ ss) (Node.node old cs) =
      let there = get_at-cons s ss (Node.node old cs) in
      elim (Option-cases (find_child dec s cs)) [
        | inl absent ↦ rw (absent, delete_at) (there ∙ ap (below ss) absent)
        | inr (m, found) ↦
            let inner = delete_at-Deletes ss m in
            let at_m : get_at dec (s ∷ ss) (Node.node old cs) ≡ get_at dec ss m =
              there ∙ ap (below ss) found in
            elim (Option-cases (delete_at dec ss m)) [
              | inl stuck ↦ rw (found, stuck, delete_at) (at_m ∙ subst (Deletes ss m) stuck inner)
              | inr (m', done) ↦
                  let ((v, held), gone, others) = subst (Deletes ss m) done inner in
                  let n' =
                    Node.node old
                      (if is_bare m' then drop_child dec s cs else put_child dec s m' cs) in
                  rw (found, done, delete_at)
                    (
                      (v, at_m ∙ held),
                      get_at-cons s ss n' ∙ below-pruned s m' cs ss ∙ gone,
                      others_kept s ss m m' old cs found others,
                    )
            ]
      ]

  -- After `Insert` the key has the value, and after `Delete` it has none, and `Delete` tells whether it had
  -- one; both leave every other key as it was, whatever nodes `Delete` pruned.
  pub update_lem :
      (js : List S) (v : V) (t : Trie S V)
      → (get dec js (insert dec js v t) ≡ some v)
        × ((ks : List S) → ks ≢ js → get dec ks (insert dec js v t) ≡ get dec ks t)
        × (get dec js (delete dec js t).0 ≡ none)
        × ((ks : List S) → ks ≢ js → get dec ks (delete dec js t).0 ≡ get dec ks t)
        × ((delete dec js t).1 ≡ (elim (get dec js t) [ none ↦ false | some w ↦ true ]))
  unfolding insert get delete get_at descend value_of children_of
  update_lem [] v t = (
    get_at-insert_self [] v t.root,
    λ ks ne. get_at-insert_ne [] ks v t.root ne,
    refl,
    λ ks ne. others ks ne,
    refl,
  )
    where
      others : (ks : List S) → ks ≢ [] → get dec ks (delete dec [] t).0 ≡ get dec ks t
      others [] ne = absurd (ne refl)
      others (k ∷ ks) ne = refl
  update_lem (j ∷ js) v t =
      let d = delete_at-Deletes (j ∷ js) t.root in
      let left = get_at-insert_self (j ∷ js) v t.root in
      let kept : (ks : List S)
          → ks ≢ (j ∷ js)
          → get_at dec ks (insert_at dec (j ∷ js) v t.root) ≡ get_at dec ks t.root =
        λ ks ne. get_at-insert_ne (j ∷ js) ks v t.root ne in
      elim (Option-cases (delete_at dec (j ∷ js) t.root)) [
        | inl stuck ↦
            let absent = subst (Deletes (j ∷ js) t.root) stuck d in
            rw (stuck, delete) (left, kept, absent, λ ks ne. refl, sym (rw absent refl))
        | inr (n, done) ↦
            let ((w, held), gone, others) = subst (Deletes (j ∷ js) t.root) done d in
            rw (done, delete) (left, kept, gone, others, sym (rw held refl))
      ]
