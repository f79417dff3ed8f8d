-- ===== src/Lru/Entries.antt =====
-- Lists of entries with distinct keys: lookup, removal, the back element.
use mathlib.Core.Logic.{if_pos, if_neg}
use kit4go.Lru.{Entry, drop_back, split_expired, expired, find, remove}
use kit4go.Common.{
  ℕ, ◌+◌, ◌-◌, ◌≡◌, refl, ap, ◌≢◌, inl, inr, none, some, List, [], ◌∷◌, ◌++◌, arith, Bool-cases,
  length, subst,
}

module _ {K V : Type 0} where
  -- no entry has the key
  abbrev pub NotIn : K → List (Entry K V) → Type 0
  NotIn k [] = Unit
  NotIn k (e ∷ es) = (e.key ≢ k) × NotIn k es

  abbrev pub Distinct : List (Entry K V) → Type 0
  Distinct [] = Unit
  Distinct (e ∷ es) = NotIn e.key es × Distinct es

  pub append-drop_back : (es : List (Entry K V)) → (drop_back es).0 ++ (drop_back es).1 ≡ es
  unfolding drop_back
  append-drop_back [] = refl
  append-drop_back (e ∷ []) = refl
  append-drop_back (e ∷ f ∷ es) = ap (◌∷◌ e) (append-drop_back (f ∷ es))

  pub length-drop_back : (es : List (Entry K V)) → length (drop_back es).0 ≡ length es - 1
  unfolding drop_back
  length-drop_back [] = omega arith
  length-drop_back (e ∷ []) = omega arith
  length-drop_back (e ∷ f ∷ es) = omega (arith, length-drop_back (f ∷ es))

  pub NotIn-drop_back : (k : K) (es : List (Entry K V)) → NotIn k es → NotIn k (drop_back es).0
  unfolding drop_back
  NotIn-drop_back k [] h = tt
  NotIn-drop_back k (e ∷ []) h = tt
  NotIn-drop_back k (e ∷ f ∷ es) h = (h.0, NotIn-drop_back k (f ∷ es) h.1)

  pub Distinct-drop_back : (es : List (Entry K V)) → Distinct es → Distinct (drop_back es).0
  unfolding drop_back
  Distinct-drop_back [] d = tt
  Distinct-drop_back (e ∷ []) d = tt
  Distinct-drop_back (e ∷ f ∷ es) d =
      (NotIn-drop_back e.key (f ∷ es) d.0, Distinct-drop_back (f ∷ es) d.1)

  pub NotIn-split :
      (k : K) (now : ℕ) (es : List (Entry K V)) → NotIn k es → NotIn k (split_expired now es).0
  unfolding split_expired
  NotIn-split k now [] h = tt
  NotIn-split k now (e ∷ es) h = elim (Bool-cases (expired now e)) [
    | inl dead ↦ rw dead (NotIn-split k now es h.1)
    | inr live ↦ rw live (h.0, NotIn-split k now es h.1)
  ]

  pub Distinct-split :
      (now : ℕ) (es : List (Entry K V)) → Distinct es → Distinct (split_expired now es).0
  unfolding split_expired
  Distinct-split now [] d = tt
  Distinct-split now (e ∷ es) d = elim (Bool-cases (expired now e)) [
    | inl dead ↦ rw dead (Distinct-split now es d.1)
    | inr live ↦ rw live (NotIn-split e.key now es d.0, Distinct-split now es d.1)
  ]

  pub length-split :
      (now : ℕ) (es : List (Entry K V))
      → length (split_expired now es).0 + length (split_expired now es).1 ≡ length es
  unfolding split_expired
  length-split now [] = refl
  length-split now (e ∷ es) = elim (Bool-cases (expired now e)) [
    | inl dead ↦ rw dead (omega (arith, length-split now es))
    | inr live ↦ rw live (omega (arith, length-split now es))
  ]

module _ {K V : Type 0} (dec : Discrete K) where
  pub find-none_of_NotIn : (k : K) (es : List (Entry K V)) → NotIn k es → find dec k es ≡ none
  unfolding find
  find-none_of_NotIn k [] h = refl
  find-none_of_NotIn k (e ∷ es) h = rw (if_neg (dec e.key k) h.0) (find-none_of_NotIn k es h.1)

  pub NotIn-find : (k : K) (es : List (Entry K V)) → find dec k es ≡ none → NotIn k es
  unfolding find
  NotIn-find k [] h = tt
  NotIn-find k (e ∷ es) h = elim (dec e.key k) [
    | yes p ↦ absurd (ground arith)
    | no p ↦ (p, NotIn-find k es (ground arith))
  ]

  pub key-find :
      (k : K) (es : List (Entry K V)) (e : Entry K V) → find dec k es ≡ some e → e.key ≡ k
  unfolding find
  key-find k [] e h = cc
  key-find k (f ∷ es) e h = elim (dec f.key k) [
    | yes p ↦ ground arith
    | no p ↦ key-find k es e (ground arith)
  ]

  pub NotIn-remove : (j k : K) (es : List (Entry K V)) → NotIn j es → NotIn j (remove dec k es)
  unfolding remove
  NotIn-remove j k [] h = tt
  NotIn-remove j k (e ∷ es) h = elim (dec e.key k) [
    | yes p ↦ rw (if_pos (dec e.key k) p) h.1
    | no p ↦ rw (if_neg (dec e.key k) p) (h.0, NotIn-remove j k es h.1)
  ]

  -- the removed key is gone
  pub NotIn-remove_self : (k : K) (es : List (Entry K V)) → Distinct es → NotIn k (remove dec k es)
  unfolding remove
  NotIn-remove_self k [] d = tt
  NotIn-remove_self k (e ∷ es) d = elim (dec e.key k) [
    | yes p ↦ rw (if_pos (dec e.key k) p) (subst (λ j. NotIn j es) p d.0)
    | no p ↦ rw (if_neg (dec e.key k) p) (p, NotIn-remove_self k es d.1)
  ]

  pub Distinct-remove : (k : K) (es : List (Entry K V)) → Distinct es → Distinct (remove dec k es)
  unfolding remove
  Distinct-remove k [] d = tt
  Distinct-remove k (e ∷ es) d = elim (dec e.key k) [
    | yes p ↦ rw (if_pos (dec e.key k) p) d.1
    | no p ↦ rw (if_neg (dec e.key k) p) (NotIn-remove e.key k es d.0, Distinct-remove k es d.1)
  ]

  pub length-remove :
      (k : K) (es : List (Entry K V)) (e : Entry K V)
      → find dec k es ≡ some e
      → length (remove dec k es) + 1 ≡ length es
  unfolding find remove
  length-remove k [] e h = cc
  length-remove k (f ∷ es) e h = ground (arith, length-remove k es e)

  pub find-remove_ne :
      (j k : K) (es : List (Entry K V)) → j ≢ k → find dec j (remove dec k es) ≡ find dec j es
  unfolding find remove
  find-remove_ne j k [] h = refl
  find-remove_ne j k (e ∷ es) h = ground (arith, find-remove_ne j k es)
