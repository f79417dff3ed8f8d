-- ===== src/BiMap/Runs.antt =====
-- Sequences of the operations of bimap/bimap.go, and an insertion that is taken back.
use kit4go.BiMap.{BiMap, InsertError, new, get, get_key, clear}
use kit4go.BiMap.Pairing.{
  IsPairing, insert-IsPairing, delete-IsPairing, delete_value-IsPairing, new-IsPairing,
}
use kit4go.Common.Assoc.{
  lookup, put, erase, lookup-put_self, lookup-put_ne, lookup-erase_self, lookup-erase_ne,
}
use kit4go.Common.{
  ◌≡◌, refl, sym, ◌∙◌, inl, inr, Bool, true, none, some, List, [], ◌∷◌, arith, Option-cases, subst,
}

-- the operations that write
pub data Op (K V : Type 0) : Type 0 where
  insert : K → V → Op K V
  delete : K → Op K V
  delete_value : V → Op K V
  clear_all : Op K V

module _ {K V : Type 0} (dec_key : Discrete K) (dec_value : Discrete V) where
  unfoldable pub apply : Op K V → BiMap K V → BiMap K V
  apply (Op.insert k v) b = (kit4go.BiMap.insert dec_key dec_value k v b).0
  apply (Op.delete k) b = (kit4go.BiMap.delete dec_key dec_value k b).0
  apply (Op.delete_value v) b = (kit4go.BiMap.delete_value dec_key dec_value v b).0
  apply Op.clear_all b = clear b

  unfoldable pub run : List (Op K V) → BiMap K V → BiMap K V
  unfolding apply
  run [] b = b
  run (x ∷ xs) b = run xs (apply x b)

  apply-IsPairing :
      (x : Op K V) (b : BiMap K V)
      → IsPairing dec_key dec_value b
      → IsPairing dec_key dec_value (apply x b)
  unfolding apply clear new
  apply-IsPairing (Op.insert k v) b p = insert-IsPairing dec_key dec_value k v b p
  apply-IsPairing (Op.delete k) b p = delete-IsPairing dec_key dec_value k b p
  apply-IsPairing (Op.delete_value v) b p = delete_value-IsPairing dec_key dec_value v b p
  apply-IsPairing Op.clear_all b p = new-IsPairing dec_key dec_value

  -- Any insertions, deletions by key or by value, and clearings, from a map whose two sides are each
  -- other's inverse, the new one for instance, leave such a map: a key has a value exactly if the value has
  -- the key.
  pub run-IsPairing :
      (xs : List (Op K V)) (b : BiMap K V)
      → IsPairing dec_key dec_value b
      → IsPairing dec_key dec_value (run xs b)
  unfolding run
  run-IsPairing [] b p = p
  run-IsPairing (x ∷ xs) b p = run-IsPairing xs (apply x b) (apply-IsPairing x b p)

  erase-put :
      {A B : Type 0} (dec : Discrete A) (a : A) (v : B) (es : List (A × B))
      → lookup dec a es ≡ none
      → (j : A) → lookup dec j (erase dec a (put dec a v es)) ≡ lookup dec j es
  erase-put dec a v es free j = elim (dec j a) [
    | yes e ↦ ground (arith, lookup-erase_self dec a (put dec a v es))
    | no ne ↦ lookup-erase_ne dec j a (put dec a v es) ne ∙ lookup-put_ne dec j a v es ne
  ]

  -- `b'` has the pair, and deleting it by either side gives the answers of `b`
  abbrev pub Undoes : K → V → BiMap K V → BiMap K V → BiMap K V × Bool → Type 0
  Undoes k v b b' d =
      (get dec_key dec_value k b' ≡ some v)
      × (get_key dec_key dec_value v b' ≡ some k)
      × (kit4go.BiMap.delete_value dec_key dec_value v b' ≡ d)
      × (d.1 ≡ true)
      × ((j : K) → get dec_key dec_value j d.0 ≡ get dec_key dec_value j b)
      × ((w : V) → get_key dec_key dec_value w d.0 ≡ get_key dec_key dec_value w b)

  put_both : K → V → BiMap K V → BiMap K V
  put_both k v b = record {
    forward = put dec_key k v b.forward;
    reverse = put dec_value v k b.reverse;
  }

  erase_both : K → V → BiMap K V → BiMap K V
  erase_both k v b = record {
    forward = erase dec_key k b.forward;
    reverse = erase dec_value v b.reverse;
  }

  put_both-Undoes :
      (k : K) (v : V) (b : BiMap K V)
      → lookup dec_key k b.forward ≡ none
      → lookup dec_value v b.reverse ≡ none
      → Undoes k v b (put_both k v b) (erase_both k v (put_both k v b), true)
  unfolding put_both erase_both kit4go.BiMap.delete_value get get_key
  put_both-Undoes k v b no_key no_value = (
    lookup-put_self dec_key k v b.forward,
    lookup-put_self dec_value v k b.reverse,
    rw (lookup-put_self dec_value v k b.reverse, kit4go.BiMap.delete_value) refl,
    refl,
    erase-put dec_key k v b.forward no_key,
    erase-put dec_value v k b.reverse no_value,
  )

  delete-put_both :
      (k : K) (v : V) (b : BiMap K V)
      → kit4go.BiMap.delete dec_key dec_value k (put_both k v b)
        ≡ (erase_both k v (put_both k v b), true)
  unfolding put_both erase_both kit4go.BiMap.delete
  delete-put_both k v b = rw (lookup-put_self dec_key k v b.forward, kit4go.BiMap.delete) refl

  -- An insertion that reports no error put the pair into both maps; deleting the key, or the value,
  -- reports that it was there, and gives every key and every value the answer that it had before.
  pub delete-insert :
      (k : K) (v : V) (b : BiMap K V)
      → (kit4go.BiMap.insert dec_key dec_value k v b).1 ≡ none
      → let b' = (kit4go.BiMap.insert dec_key dec_value k v b).0 in
        Undoes k v b b' (kit4go.BiMap.delete dec_key dec_value k b')
  unfolding kit4go.BiMap.insert put_both
  delete-insert k v b ok = elim (Option-cases (lookup dec_key k b.forward)) [
    | inr (old, known) ↦ absurd (ground arith)
    | inl no_key ↦ elim (Option-cases (lookup dec_value v b.reverse)) [
      | inr (old, known) ↦ absurd (ground arith)
      | inl no_value ↦
          let into : (kit4go.BiMap.insert dec_key dec_value k v b).0 ≡ put_both k v b =
            rw (no_key, no_value, kit4go.BiMap.insert) refl in
          subst (λ b'. Undoes k v b b' (kit4go.BiMap.delete dec_key dec_value k b')) (sym into)
            (subst (Undoes k v b (put_both k v b)) (sym (delete-put_both k v b))
              (put_both-Undoes k v b no_key no_value))
    ]
  ]
