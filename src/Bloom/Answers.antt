-- ===== src/Bloom/Answers.antt =====
-- What `Test` and `TestAndAdd` of bloom/bloom.go answer.
use mathlib.Core.Option.{some-injective}
use kit4go.Bloom.{
  Filter, blank, union, new_from_params, set_all, test_all, add_locked, test_locked, or_words,
  merge, reset, indices, indices_from, add, test, test_and_add,
}
use kit4go.Bloom.Members.{
  Words64, Words64-blank, Words64-cleared, Holds, set_all-Holds, set_all_keeps_bit, test_all_mono,
  set_all_self, indices_from-AllBelow, length-set_all,
}
use kit4go.Bloom.Unions.{Words64-or_words, or_words_left, or_words_right, length-or_words}
use kit4go.Common.{
  ℕ, ◌+◌, ◌/◌, ◌<◌, ◌≡◌, refl, sym, ap, ap₂, ◌∙◌, ◌⊎◌, inl, inr, true, false, some, List, [], ◌∷◌,
  ◌++◌, arith, ◌==◌, if◌then◌else◌, Bool-cases, length, replicate, length-replicate, length-map,
  subst,
}

-- the strings that were added since the last reset
pub data Among (x : List ℕ) : List (List ℕ) → Type 0 where
  here : {xs : List (List ℕ)} → Among x (x ∷ xs)
  there : {y : List ℕ} {xs : List (List ℕ)} → Among x xs → Among x (y ∷ xs)

Among-append : {x : List ℕ} (xs ys : List (List ℕ)) → Among x (xs ++ ys) → Among x xs ⊎ Among x ys
Among-append [] ys a = inr a
Among-append (x ∷ xs) ys Among.here = inl Among.here
Among-append (y ∷ xs) ys (Among.there a) = elim (Among-append xs ys a) [
  | inl b ↦ inl (Among.there b)
  | inr b ↦ inr b
]

module _ (fnv1a fnv1 : List ℕ → ℕ) where
  -- a filter that calls build, with what was added to it since its last reset
  pub data Built : Filter → List (List ℕ) → Type 0 where
    made : {f : Filter} (m k : ℕ) → new_from_params m k ≡ some f → Built f []
    added :
        {f : Filter} {xs : List (List ℕ)} (x : List ℕ)
        → Built f xs
        → Built (add fnv1a fnv1 x f) (x ∷ xs)
    tested_and_added :
        {f : Filter} {xs : List (List ℕ)} (x : List ℕ)
        → Built f xs
        → Built (test_and_add fnv1a fnv1 x f).1 (x ∷ xs)
    merged :
        {f : Filter} {xs : List (List ℕ)} {other : Filter} {ys : List (List ℕ)} {f' : Filter}
        → Built f xs
        → Built other ys
        → merge other f ≡ some f'
        → Built f' (xs ++ ys)
    emptied : {f : Filter} {xs : List (List ℕ)} → Built f xs → Built (reset f) []

  IsShaped : Filter → Type 0
  IsShaped f = (0 < f.m) × (length f.bits ≡ (f.m + 63) / 64) × Words64 f.bits

  IsShaped-Holds : (f : Filter) → IsShaped f → Holds f.m f.bits
  unfolding IsShaped
  IsShaped-Holds f h = (h.2, omega (arith, h.1))

  add-IsShaped : (x : List ℕ) (f : Filter) → IsShaped f → IsShaped (add fnv1a fnv1 x f)
  unfolding add add_locked IsShaped indices
  add-IsShaped x f h =
      let below =
        indices_from-AllBelow (fnv1a x, if fnv1 x == 0 then 1 else fnv1 x) f.m 0 f.k h.0 in
      (
        h.0,
        length-set_all (indices fnv1a fnv1 x f) f.bits ∙ h.1,
        (set_all-Holds f.m (indices fnv1a fnv1 x f) f.bits below (IsShaped-Holds f h)).0,
      )

  test-add_self :
      (x : List ℕ) (f : Filter) → IsShaped f → test fnv1a fnv1 x (add fnv1a fnv1 x f) ≡ true
  unfolding test test_locked add add_locked IsShaped indices
  test-add_self x f h =
      let below =
        indices_from-AllBelow (fnv1a x, if fnv1 x == 0 then 1 else fnv1 x) f.m 0 f.k h.0 in
      set_all_self f.m (indices fnv1a fnv1 x f) f.bits below (IsShaped-Holds f h)

  test-add_keeps :
      (x y : List ℕ) (f : Filter)
      → test fnv1a fnv1 y f ≡ true
      → test fnv1a fnv1 y (add fnv1a fnv1 x f) ≡ true
  unfolding test test_locked add add_locked indices
  test-add_keeps x y f h =
      test_all_mono (indices fnv1a fnv1 y f) f.bits (set_all (indices fnv1a fnv1 x f) f.bits)
        (λ j e. set_all_keeps_bit (indices fnv1a fnv1 x f) j f.bits e) h

  Answers : Filter → List (List ℕ) → Type 0
  Answers f xs = IsShaped f × ((x : List ℕ) → Among x xs → test fnv1a fnv1 x f ≡ true)

  add-Answers :
      (x : List ℕ) (f : Filter) (xs : List (List ℕ))
      → Answers f xs
      → Answers (add fnv1a fnv1 x f) (x ∷ xs)
  unfolding Answers
  add-Answers x f xs h = (add-IsShaped x f h.0, answered)
    where
      answered : (y : List ℕ) → Among y (x ∷ xs) → test fnv1a fnv1 y (add fnv1a fnv1 x f) ≡ true
      answered y Among.here = test-add_self y f h.0
      answered y (Among.there a) = test-add_keeps x y f (h.1 y a)

  new-IsShaped : (m k : ℕ) (f : Filter) → new_from_params m k ≡ some f → IsShaped f
  unfolding new_from_params blank IsShaped
  new-IsShaped m k f e = elim (Bool-cases (m == 0)) [
    | inl refused ↦ ground arith
    | inr given ↦
        let size = if k == 0 then 1 else k in
        let fresh : new_from_params m k ≡ some (blank m size) = rw given refl in
        subst IsShaped (some-injective _ _ (sym fresh ∙ e)) (
          ground arith,
          length-replicate ((m + 63) / 64) (replicate 64 false),
          Words64-blank ((m + 63) / 64),
        )
  ]

  reset-IsShaped : (f : Filter) → IsShaped f → IsShaped (reset f)
  unfolding reset IsShaped
  reset-IsShaped f h =
      (h.0, length-map f.bits (λ w. replicate (length w) false) ∙ h.1, Words64-cleared f.bits h.2)

  same_indices :
      (x : List ℕ) (f other : Filter)
      → f.m ≡ other.m
      → f.k ≡ other.k
      → indices fnv1a fnv1 x other ≡ indices fnv1a fnv1 x f
  unfolding indices
  same_indices x f other e d =
      ap₂ (λ (m k : ℕ). indices_from (fnv1a x, if fnv1 x == 0 then 1 else fnv1 x) m 0 k) (sym e)
        (sym d)

  union-IsShaped : (other f : Filter) → IsShaped f → IsShaped (union other f)
  unfolding union IsShaped
  union-IsShaped other f h =
      (h.0, length-or_words f.bits other.bits ∙ h.1, Words64-or_words f.bits other.bits h.2)

  test-union_left :
      (x : List ℕ) (other f : Filter)
      → test fnv1a fnv1 x f ≡ true
      → test fnv1a fnv1 x (union other f) ≡ true
  unfolding test test_locked union indices
  test-union_left x other f h =
      test_all_mono (indices fnv1a fnv1 x f) f.bits (or_words f.bits other.bits)
        (or_words_left f.bits other.bits) h

  test-union_right :
      (x : List ℕ) (other f : Filter)
      → IsShaped f
      → IsShaped other
      → f.m ≡ other.m
      → f.k ≡ other.k
      → test fnv1a fnv1 x other ≡ true
      → test fnv1a fnv1 x (union other f) ≡ true
  unfolding test test_locked union IsShaped indices
  test-union_right x other f h k e d t =
      let sizes = h.1 ∙ ap (λ (m : ℕ). (m + 63) / 64) e ∙ sym k.1 in
      test_all_mono (indices fnv1a fnv1 x f) other.bits (or_words f.bits other.bits)
        (λ j b. or_words_right f.bits other.bits j sizes h.2 k.2 b)
        (subst (λ (idx : List ℕ). test_all idx other.bits ≡ true) (same_indices x f other e d) t)

  merge-Answers :
      (other f f' : Filter) (xs ys : List (List ℕ))
      → Answers f xs
      → Answers other ys
      → merge other f ≡ some f'
      → Answers f' (xs ++ ys)
  unfolding Answers merge
  merge-Answers other f f' xs ys h k e = elim (Bool-cases (f.m == other.m)) [
    | inr differ ↦ ground arith
    | inl same_m ↦ elim (Bool-cases (f.k == other.k)) [
      | inr differ ↦ ground arith
      | inl same_k ↦
          let e_m : f.m ≡ other.m = ground arith in
          let e_k : f.k ≡ other.k = ground arith in
          let computed : merge other f ≡ some (union other f) = rw (same_m, same_k) refl in
          subst (λ (g : Filter). Answers g (xs ++ ys)) (some-injective _ _ (sym computed ∙ e))
            (
              union-IsShaped other f h.0,
              λ x a. elim (Among-append xs ys a) [
                | inl b ↦ test-union_left x other f (h.1 x b)
                | inr b ↦ test-union_right x other f h.0 k.0 e_m e_k (k.1 x b)
              ],
            )
    ]
  ]

  Built-Answers : {f : Filter} {xs : List (List ℕ)} → Built f xs → Answers f xs
  unfolding Answers test_and_add add
  Built-Answers (Built.made {f = f} m k e) = (new-IsShaped m k f e, λ x a. elim a [ ])
  Built-Answers (Built.added {f = f} {xs = xs} x b) = add-Answers x f xs (Built-Answers b)
  Built-Answers (Built.tested_and_added {f = f} {xs = xs} x b) =
      add-Answers x f xs (Built-Answers b)
  Built-Answers (Built.merged {f = f} {xs = xs} {other = other} {ys = ys} {f' = f'} b c e) =
      merge-Answers other f f' xs ys (Built-Answers b) (Built-Answers c) e
  Built-Answers (Built.emptied {f = f} {xs = xs} b) =
      (reset-IsShaped f (Built-Answers b).0, λ x a. elim a [ ])

  -- For every filter that `NewFromParams` made and that was changed only by `Add`, `TestAndAdd`, `Reset`, and `Merge`
  -- of another such filter: a string that was added since the last reset passes `Test`, and `TestAndAdd` answers
  -- that it may be there, whatever the hashes.
  pub no_false_negatives :
      {f : Filter} {xs : List (List ℕ)}
      → Built f xs
      → (x : List ℕ) → Among x xs
      → (test fnv1a fnv1 x f ≡ true) × ((test_and_add fnv1a fnv1 x f).0 ≡ true)
  unfolding Answers test test_and_add
  no_false_negatives b x a = let t = (Built-Answers b).1 x a in (t, t)
