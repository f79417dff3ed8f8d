-- ===== src/MultiMap.antt =====
-- `multimap.MultiMap` of multimap/multimap.go. The map is an association list; `Keys`, `Len` and `Each` range over it
-- in an order that is the order of the list here.
use mathlib.Core.Logic.{ite}
use kit4go.Common.Assoc.{lookup, put, erase}
use kit4go.Common.{
  ℕ, ◌+◌, Bool, true, false, Option, none, some, List, [], ◌∷◌, ◌++◌, ltb, ◌==◌, if◌then◌else◌,
  length,
}
pub mod Buckets
mod Tests

pub record MultiMap (K V : Type 0) : Type 0 where
  pub m : List (K × List V)

unfoldable pub new : {K V : Type 0} → MultiMap K V
new = record { m = [] }

-- the values of an entry, none for a key that is absent
unfoldable pub bucket_of : {V : Type 0} → Option (List V) → List V
bucket_of none = []
bucket_of (some bucket) = bucket

unfoldable pub behind : {V : Type 0} → V → Option (List V) → Option (List V)
behind x none = none
behind x (some ys) = some (x ∷ ys)

-- the loop of `DeleteValue`: the bucket without the first occurrence, if there is one
unfoldable pub drop_first : {V : Type 0} → Discrete V → V → List V → Option (List V)
unfolding behind
drop_first dec v [] = none
drop_first dec v (x ∷ xs) =
    let rest = drop_first dec v xs in ite (dec x v) (some xs) (behind x rest)

module _ {K V : Type 0} (dec : Discrete K) where
  unfoldable pub get : K → MultiMap K V → List V
  unfolding bucket_of
  get k mm = bucket_of (lookup dec k mm.m)

  unfoldable pub add : K → V → MultiMap K V → MultiMap K V
  unfolding get
  add k v mm = record mm { m = put dec k (get k mm ++ (v ∷ [])) mm.m }

  unfoldable pub add_all : K → List V → MultiMap K V → MultiMap K V
  unfolding get
  add_all k vs mm = record mm { m = put dec k (get k mm ++ vs) mm.m }

  unfoldable pub set : K → List V → MultiMap K V → MultiMap K V
  set k vs mm = record mm { m = if length vs == 0 then erase dec k mm.m else put dec k vs mm.m }

  unfoldable pub has : K → MultiMap K V → Bool
  has k mm = elim (lookup dec k mm.m) [ none ↦ false | some bucket ↦ ltb 0 (length bucket) ]

  unfoldable pub count : K → MultiMap K V → ℕ
  unfolding get
  count k mm = length (get k mm)

  unfoldable pub delete : K → MultiMap K V → MultiMap K V
  delete k mm = record mm { m = erase dec k mm.m }

  unfoldable pub delete_value : Discrete V → K → V → MultiMap K V → MultiMap K V × Bool
  unfolding drop_first
  delete_value dec_value k v mm = elim (lookup dec k mm.m) [
    | none ↦ (mm, false)
    | some bucket ↦ elim (drop_first dec_value v bucket) [
      | none ↦ (mm, false)
      | some rest ↦ (
        record mm { m = if length rest == 0 then erase dec k mm.m else put dec k rest mm.m },
        true,
      )
    ]
  ]

module _ {K V : Type 0} where
  unfoldable pub keys_of : List (K × List V) → List K
  keys_of [] = []
  keys_of (e ∷ es) = let rest = keys_of es in if ltb 0 (length e.1) then e.0 ∷ rest else rest

  unfoldable pub keys : MultiMap K V → List K
  unfolding keys_of
  keys mm = keys_of mm.m

  unfoldable pub len_of : List (K × List V) → ℕ
  len_of [] = 0
  len_of (e ∷ es) = (if ltb 0 (length e.1) then 1 else 0) + len_of es

  unfoldable pub len : MultiMap K V → ℕ
  unfolding len_of
  len mm = len_of mm.m

  unfoldable pub clear : MultiMap K V → MultiMap K V
  clear mm = record mm { m = [] }
