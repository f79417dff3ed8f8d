-- ===== src/Common/Assoc.antt =====
-- A Go map as an association list whose keys have decidable equality. Go ranges over a map in any
-- order; what is defined here on the whole list is where the order does not show.
use mathlib.Core.Logic.{ite, if_pos, if_neg}
use kit4go.Common.{
  suc, ◌≤◌, ◌≡◌, refl, sym, ap, ◌≢◌, Bool, Option, none, some, List, [], ◌∷◌, arith, if◌then◌else◌,
  length,
}

module _ {K V : Type 0} where
  -- no pair has the key
  abbrev pub NoKey : K → List (K × V) → Type 0
  NoKey k [] = Unit
  NoKey k (e ∷ es) = (e.0 ≢ k) × NoKey k es

  abbrev pub DistinctKeys : List (K × V) → Type 0
  DistinctKeys [] = Unit
  DistinctKeys (e ∷ es) = NoKey e.0 es × DistinctKeys es

  -- `for k, v := range m { if p(v) { delete(m, k) } }`
  unfoldable pub erase_if : (V → Bool) → List (K × V) → List (K × V)
  erase_if p [] = []
  erase_if p (e ∷ es) = let rest = erase_if p es in if p e.1 then rest else e ∷ rest

  pub NoKey-erase_if :
      (p : V → Bool) (k : K) (es : List (K × V)) → NoKey k es → NoKey k (erase_if p es)
  unfolding erase_if
  NoKey-erase_if p k [] h = tt
  NoKey-erase_if p k (e ∷ es) (ne, h) = ground (arith, NoKey-erase_if p k es h)

  pub DistinctKeys-erase_if :
      (p : V → Bool) (es : List (K × V)) → DistinctKeys es → DistinctKeys (erase_if p es)
  unfolding erase_if
  DistinctKeys-erase_if p [] d = tt
  DistinctKeys-erase_if p (e ∷ es) (n, d) =
      ground (arith, NoKey-erase_if p e.0 es n, DistinctKeys-erase_if p es d)

  pub length-erase_if : (p : V → Bool) (es : List (K × V)) → length (erase_if p es) ≤ length es
  unfolding erase_if
  length-erase_if p [] = omega arith
  length-erase_if p (e ∷ es) = ground (arith, length-erase_if p es)

  -- a loop that changes every value in place
  unfoldable pub map_values : (V → V) → List (K × V) → List (K × V)
  map_values f [] = []
  map_values f (e ∷ es) = (e.0, f e.1) ∷ map_values f es

  pub NoKey-map_values :
      (f : V → V) (k : K) (es : List (K × V)) → NoKey k es → NoKey k (map_values f es)
  unfolding map_values
  NoKey-map_values f k [] h = tt
  NoKey-map_values f k (e ∷ es) (ne, h) = (ne, NoKey-map_values f k es h)

  pub DistinctKeys-map_values :
      (f : V → V) (es : List (K × V)) → DistinctKeys es → DistinctKeys (map_values f es)
  unfolding map_values
  DistinctKeys-map_values f [] d = tt
  DistinctKeys-map_values f (e ∷ es) (n, d) =
      (NoKey-map_values f e.0 es n, DistinctKeys-map_values f es d)

  pub length-map_values : (f : V → V) (es : List (K × V)) → length (map_values f es) ≡ length es
  unfolding map_values
  length-map_values f [] = refl
  length-map_values f (e ∷ es) = ap suc (length-map_values f es)

module _ {K V : Type 0} (dec : Discrete K) where
  -- `m[k]`
  unfoldable pub lookup : K → List (K × V) → Option V
  lookup k [] = none
  lookup k (e ∷ es) = ite (dec e.0 k) (some e.1) (lookup k es)

  -- `m[k] = v`
  unfoldable pub put : K → V → List (K × V) → List (K × V)
  put k v [] = (k, v) ∷ []
  put k v (e ∷ es) = let rest = put k v es in ite (dec e.0 k) ((k, v) ∷ es) (e ∷ rest)

  -- `delete(m, k)`
  unfoldable pub erase : K → List (K × V) → List (K × V)
  erase k [] = []
  erase k (e ∷ es) = let rest = erase k es in ite (dec e.0 k) rest (e ∷ rest)

  pub lookup-put_self : (k : K) (v : V) (es : List (K × V)) → lookup k (put k v es) ≡ some v
  unfolding lookup put
  lookup-put_self k v [] = if_pos (dec k k) refl _ _
  lookup-put_self k v (e ∷ es) = ground (arith, lookup-put_self k v es)

  pub lookup-put_ne :
      (j k : K) (v : V) (es : List (K × V)) → j ≢ k → lookup j (put k v es) ≡ lookup j es
  unfolding lookup put
  lookup-put_ne j k v [] ne = if_neg (dec k j) (λ e. ne (sym e)) _ _
  lookup-put_ne j k v (e ∷ es) ne = ground (arith, lookup-put_ne j k v es ne)

  pub lookup-erase_self : (k : K) (es : List (K × V)) → lookup k (erase k es) ≡ none
  unfolding lookup erase
  lookup-erase_self k [] = refl
  lookup-erase_self k (e ∷ es) = ground (arith, lookup-erase_self k es)

  pub lookup-erase_ne : (j k : K) (es : List (K × V)) → j ≢ k → lookup j (erase k es) ≡ lookup j es
  unfolding lookup erase
  lookup-erase_ne j k [] ne = refl
  lookup-erase_ne j k (e ∷ es) ne = ground (arith, lookup-erase_ne j k es ne)

  pub lookup-NoKey : (k : K) (es : List (K × V)) → NoKey k es → lookup k es ≡ none
  unfolding lookup
  lookup-NoKey k [] h = refl
  lookup-NoKey k (e ∷ es) (ne, h) = ground (arith, lookup-NoKey k es h)

  pub NoKey-lookup : (k : K) (es : List (K × V)) → lookup k es ≡ none → NoKey k es
  unfolding lookup
  NoKey-lookup k [] h = tt
  NoKey-lookup k (e ∷ es) h = ground (arith, NoKey-lookup k es)

  pub NoKey-put : (j k : K) (v : V) (es : List (K × V)) → j ≢ k → NoKey j es → NoKey j (put k v es)
  unfolding put
  NoKey-put j k v [] ne h = (λ e. ne (sym e), tt)
  NoKey-put j k v (e ∷ es) ne (ne', h) = ground (arith, NoKey-put j k v es ne h)

  pub DistinctKeys-put :
      (k : K) (v : V) (es : List (K × V)) → DistinctKeys es → DistinctKeys (put k v es)
  unfolding put
  DistinctKeys-put k v [] d = (tt, tt)
  DistinctKeys-put k v (e ∷ es) (n, d) =
      ground (arith, NoKey-put e.0 k v es, DistinctKeys-put k v es d)

  pub NoKey-erase : (j k : K) (es : List (K × V)) → NoKey j es → NoKey j (erase k es)
  unfolding erase
  NoKey-erase j k [] h = tt
  NoKey-erase j k (e ∷ es) (ne, h) = ground (arith, NoKey-erase j k es h)

  pub DistinctKeys-erase : (k : K) (es : List (K × V)) → DistinctKeys es → DistinctKeys (erase k es)
  unfolding erase
  DistinctKeys-erase k [] d = tt
  DistinctKeys-erase k (e ∷ es) (n, d) =
      ground (arith, NoKey-erase e.0 k es n, DistinctKeys-erase k es d)

  pub length-put :
      (k : K) (v : V) (es : List (K × V))
      → length (put k v es) ≡ (elim (lookup k es) [ none ↦ suc (length es) | some w ↦ length es ])
  unfolding put lookup
  length-put k v [] = refl
  length-put k v (e ∷ es) = ground (arith, length-put k v es)

  pub length-erase : (k : K) (es : List (K × V)) → length (erase k es) ≤ length es
  unfolding erase
  length-erase k [] = omega arith
  length-erase k (e ∷ es) = ground (arith, length-erase k es)

  pub lookup-erase_if :
      (p : V → Bool) (k : K) (es : List (K × V))
      → DistinctKeys es
      → lookup k (erase_if p es)
        ≡ (elim (lookup k es) [ none ↦ none | some v ↦ if p v then none else some v ])
  unfolding lookup erase_if
  lookup-erase_if p k [] d = refl
  lookup-erase_if p k (e ∷ es) (n, d) = ground (
    arith,
    lookup-erase_if p k es d,
    lookup-NoKey k (erase_if p es),
    NoKey-erase_if p k es,
    lookup-NoKey k es,
  )

  pub lookup-map_values :
      (f : V → V) (k : K) (es : List (K × V))
      → lookup k (map_values f es) ≡ (elim (lookup k es) [ none ↦ none | some v ↦ some (f v) ])
  unfolding lookup map_values
  lookup-map_values f k [] = refl
  lookup-map_values f k (e ∷ es) = ground (arith, lookup-map_values f k es)
