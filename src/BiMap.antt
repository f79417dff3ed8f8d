-- ===== src/BiMap.antt =====
-- `bimap.BiMap` of bimap/bimap.go. Both maps are association lists. `FromMap` ranges over a Go map, in an
-- order that is the order of the list here.
use kit4go.Common.Assoc.{lookup, put, erase}
use kit4go.Common.{
  ℕ, ◌⊎◌, inl, inr, Bool, true, false, Option, none, some, List, [], ◌∷◌, map, length,
}
pub mod Pairing
pub mod Runs
mod Tests

pub record BiMap (K V : Type 0) : Type 0 where
  pub forward : List (K × V)
  pub reverse : List (V × K)

pub data InsertError : Type 0 where
  duplicate_key duplicate_value : InsertError

unfoldable pub new : {K V : Type 0} → BiMap K V
new = record { forward = []; reverse = [] }

module _ {K V : Type 0} where
  unfoldable pub len : BiMap K V → ℕ
  len b = length b.forward

  unfoldable pub keys : BiMap K V → List K
  keys b = map (λ e. e.0) b.forward

  unfoldable pub values : BiMap K V → List V
  values b = map (λ e. e.0) b.reverse

  unfoldable pub clear : BiMap K V → BiMap K V
  clear b = record { forward = []; reverse = [] }

module _ {K V : Type 0} (dec_key : Discrete K) (dec_value : Discrete V) where
  unfoldable pub get : K → BiMap K V → Option V
  get k b = lookup dec_key k b.forward

  unfoldable pub get_key : V → BiMap K V → Option K
  get_key v b = lookup dec_value v b.reverse

  -- the map as it is left, and the error
  unfoldable pub insert : K → V → BiMap K V → BiMap K V × Option InsertError
  insert k v b = elim (lookup dec_key k b.forward) [
    | some old ↦ (b, some InsertError.duplicate_key)
    | none ↦ elim (lookup dec_value v b.reverse) [
      | some old ↦ (b, some InsertError.duplicate_value)
      | none ↦ (
        record { forward = put dec_key k v b.forward; reverse = put dec_value v k b.reverse },
        none,
      )
    ]
  ]

  -- `FromMap` on the pairs in the order of the range, into the map built so far
  unfoldable pub insert_all : List (K × V) → BiMap K V → BiMap K V ⊎ InsertError
  unfolding insert
  insert_all [] b = inl b
  insert_all (e ∷ es) b =
      let (b', err) = insert e.0 e.1 b in elim err [ none ↦ insert_all es b' | some err ↦ inr err ]

  unfoldable pub from_map : List (K × V) → BiMap K V ⊎ InsertError
  unfolding insert_all new
  from_map es = insert_all es new

  unfoldable pub delete : K → BiMap K V → BiMap K V × Bool
  delete k b = elim (lookup dec_key k b.forward) [
    | none ↦ (b, false)
    | some v ↦ (
      record { forward = erase dec_key k b.forward; reverse = erase dec_value v b.reverse },
      true,
    )
  ]

  unfoldable pub delete_value : V → BiMap K V → BiMap K V × Bool
  delete_value v b = elim (lookup dec_value v b.reverse) [
    | none ↦ (b, false)
    | some k ↦ (
      record { forward = erase dec_key k b.forward; reverse = erase dec_value v b.reverse },
      true,
    )
  ]
