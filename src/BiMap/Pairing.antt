-- ===== src/BiMap/Pairing.antt =====
-- The two maps of bimap/bimap.go stay each other's inverse.
use kit4go.BiMap.{BiMap, new, get, get_key, insert, delete, delete_value}
use kit4go.Common.Assoc.{
  lookup, put, erase, lookup-put_self, lookup-put_ne, lookup-erase_self, lookup-erase_ne,
}
use kit4go.Common.{◌≡◌, sym, ◌∙◌, inl, inr, none, some, List, arith, Option-cases}

-- One map answers what the other one holds.
module _ {A B : Type 0} (dec_a : Discrete A) (dec_b : Discrete B) where
  abbrev Mirrors : List (A × B) → List (B × A) → Type 0
  Mirrors es fs = (a : A) (b : B) → lookup dec_a a es ≡ some b → lookup dec_b b fs ≡ some a

  put-Mirrors :
      (a : A) (b : B) (es : List (A × B)) (fs : List (B × A))
      → Mirrors es fs
      → lookup dec_b b fs ≡ none
      → Mirrors (put dec_a a b es) (put dec_b b a fs)
  put-Mirrors a b es fs m free j w h = elim (dec_a j a) [
    | yes e ↦ ground (arith, lookup-put_self dec_a a b es, lookup-put_self dec_b b a fs)
    | no ne ↦
        let held : lookup dec_b w fs ≡ some j = m j w (sym (lookup-put_ne dec_a j a b es ne) ∙ h) in
        elim (dec_b w b) [
          | yes e ↦ absurd (ground arith)
          | no ne' ↦ lookup-put_ne dec_b w b a fs ne' ∙ held
        ]
  ]

  erase-Mirrors :
      (a : A) (b : B) (es : List (A × B)) (fs : List (B × A))
      → Mirrors es fs
      → lookup dec_a a es ≡ some b
      → Mirrors (erase dec_a a es) (erase dec_b b fs)
  erase-Mirrors a b es fs m held j w h = elim (dec_a j a) [
    | yes e ↦ absurd (ground (arith, lookup-erase_self dec_a a es))
    | no ne ↦
        let kept : lookup dec_b w fs ≡ some j = m j w (sym (lookup-erase_ne dec_a j a es ne) ∙ h) in
        elim (dec_b w b) [
          | yes e ↦ absurd (ground (arith, m a b held))
          | no ne' ↦ lookup-erase_ne dec_b w b fs ne' ∙ kept
        ]
  ]

module _ {K V : Type 0} (dec_key : Discrete K) (dec_value : Discrete V) where
  -- a key has a value exactly if the value has the key
  pub record IsPairing (b : BiMap K V) : Type 0 where
    pub to_reverse :
        (k : K) (v : V)
        → get dec_key dec_value k b ≡ some v
        → get_key dec_key dec_value v b ≡ some k
    pub to_forward :
        (v : V) (k : K)
        → get_key dec_key dec_value v b ≡ some k
        → get dec_key dec_value k b ≡ some v

  pub insert-IsPairing :
      (k : K) (v : V) (b : BiMap K V) → IsPairing b → IsPairing (insert dec_key dec_value k v b).0
  unfolding insert get get_key
  insert-IsPairing k v b p = elim (Option-cases (lookup dec_key k b.forward)) [
    | inr (old, known) ↦ rw (known, insert) p
    | inl no_key ↦ elim (Option-cases (lookup dec_value v b.reverse)) [
      | inr (old, known) ↦ rw (no_key, known, insert) p
      | inl no_value ↦
          rw (no_key, no_value, insert)
            (record {
              to_reverse =
                  put-Mirrors dec_key dec_value k v b.forward b.reverse p.to_reverse no_value;
              to_forward =
                  put-Mirrors dec_value dec_key v k b.reverse b.forward p.to_forward no_key;
            })
    ]
  ]

  pub delete-IsPairing :
      (k : K) (b : BiMap K V) → IsPairing b → IsPairing (delete dec_key dec_value k b).0
  unfolding delete get get_key
  delete-IsPairing k b p = elim (Option-cases (lookup dec_key k b.forward)) [
    | inl absent ↦ rw (absent, delete) p
    | inr (v, known) ↦
        rw (known, delete)
          (record {
            to_reverse = erase-Mirrors dec_key dec_value k v b.forward b.reverse p.to_reverse known;
            to_forward =
                erase-Mirrors dec_value dec_key v k b.reverse b.forward p.to_forward
                  (p.to_reverse k v known);
          })
  ]

  pub delete_value-IsPairing :
      (v : V) (b : BiMap K V) → IsPairing b → IsPairing (delete_value dec_key dec_value v b).0
  unfolding delete_value get get_key
  delete_value-IsPairing v b p = elim (Option-cases (lookup dec_value v b.reverse)) [
    | inl absent ↦ rw (absent, delete_value) p
    | inr (k, known) ↦
        rw (known, delete_value)
          (record {
            to_reverse =
                erase-Mirrors dec_key dec_value k v b.forward b.reverse p.to_reverse
                  (p.to_forward v k known);
            to_forward = erase-Mirrors dec_value dec_key v k b.reverse b.forward p.to_forward known;
          })
  ]

  pub new-IsPairing : IsPairing new
  unfolding new get get_key lookup
  new-IsPairing = record {
    to_reverse = λ k v h. absurd (ground arith);
    to_forward = λ v k h. absurd (ground arith);
  }
