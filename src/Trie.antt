-- ===== src/Trie.antt =====
-- `trie.Trie` of trie/trie.go, on keys that are cut into segments. A node's map of children is a list of
-- segments and nodes. The value that a node keeps after `Delete` shows nowhere and is dropped here.
use mathlib.Core.Logic.{ite}
use kit4go.Common.{
  ℕ, suc, ◌-◌, Bool, true, false, Option, none, some, List, [], ◌∷◌, ◌++◌, if◌then◌else◌,
}
pub mod Lookup
pub mod Longest
mod Tests

mutual
  pub data Node (S V : Type 0) : Type 0 where
    node : Option V → Children S V → Node S V

  pub data Children (S V : Type 0) : Type 0 where
    leaf : Children S V
    child : S → Node S V → Children S V → Children S V

pub record Trie (S V : Type 0) : Type 0 where
  pub root : Node S V
  pub count : ℕ

unfoldable pub new : {S V : Type 0} → Trie S V
new = record { root = Node.node none Children.leaf; count = 0 }

unfoldable pub value_of : {S V : Type 0} → Node S V → Option V
value_of (Node.node v cs) = v

unfoldable pub children_of : {S V : Type 0} → Node S V → Children S V
children_of (Node.node v cs) = cs

-- a node with neither a value nor a child
unfoldable pub is_bare : {S V : Type 0} → Node S V → Bool
is_bare (Node.node none Children.leaf) = true
is_bare (Node.node none (Children.child s n cs)) = false
is_bare (Node.node (some v) cs) = false

module _ {S V : Type 0} (dec : Discrete S) where
  unfoldable pub find_child : S → Children S V → Option (Node S V)
  find_child s Children.leaf = none
  find_child s (Children.child t n cs) = ite (dec t s) (some n) (find_child s cs)

  unfoldable pub put_child : S → Node S V → Children S V → Children S V
  put_child s m Children.leaf = Children.child s m Children.leaf
  put_child s m (Children.child t n cs) =
      let rest = put_child s m cs in ite (dec t s) (Children.child s m cs) (Children.child t n rest)

  unfoldable pub drop_child : S → Children S V → Children S V
  drop_child s Children.leaf = Children.leaf
  drop_child s (Children.child t n cs) =
      let rest = drop_child s cs in ite (dec t s) rest (Children.child t n rest)

  -- the node that a missing child starts as
  unfoldable pub or_new : Option (Node S V) → Node S V
  or_new none = Node.node none Children.leaf
  or_new (some n) = n

  unfoldable pub descend : List S → Node S V → Option (Node S V)
  descend [] n = some n
  descend (s ∷ ss) n = elim (find_child s (children_of n)) [ none ↦ none | some m ↦ descend ss m ]

  unfoldable pub get_at : List S → Node S V → Option V
  unfolding descend
  get_at segs n = elim (descend segs n) [ none ↦ none | some m ↦ value_of m ]

  unfoldable pub insert_at : List S → V → Node S V → Node S V
  insert_at [] v (Node.node old cs) = Node.node (some v) cs
  insert_at (s ∷ ss) v (Node.node old cs) =
      Node.node old (put_child s (insert_at ss v (or_new (find_child s cs))) cs)

  -- `none` is that the key is absent
  unfoldable pub delete_at : List S → Node S V → Option (Node S V)
  delete_at [] (Node.node none cs) = none
  delete_at [] (Node.node (some v) cs) = some (Node.node none cs)
  delete_at (s ∷ ss) (Node.node old cs) = elim (find_child s cs) [
    | none ↦ none
    | some m ↦ elim (delete_at ss m) [
      | none ↦ none
      | some m' ↦ some (Node.node old (if is_bare m' then drop_child s cs else put_child s m' cs))
    ]
  ]

  unfoldable pub insert : List S → V → Trie S V → Trie S V
  insert segs v t = record {
    root = insert_at segs v t.root;
    count = elim (get_at segs t.root) [ none ↦ suc t.count | some old ↦ t.count ];
  }

  unfoldable pub get : List S → Trie S V → Option V
  get segs t = get_at segs t.root

  unfoldable pub delete : List S → Trie S V → Trie S V × Bool
  delete [] t =
      let root = Node.node none (children_of t.root) in
      (record t { root = root }, elim (value_of t.root) [ none ↦ false | some v ↦ true ])
  delete (s ∷ ss) t = elim (delete_at (s ∷ ss) t.root) [
    | none ↦ (t, false)
    | some root ↦ (record { root = root; count = t.count - 1 }, true)
  ]

  -- the walk of `LongestPrefix`, with the best key so far and the path to the node
  unfoldable pub longest_loop :
      Option (List S × V) → List S → List S → Node S V → Option (List S × V)
  longest_loop best path [] n = best
  longest_loop best path (s ∷ ss) n = elim (find_child s (children_of n)) [
    | none ↦ best
    | some m ↦
        let path' = path ++ (s ∷ []) in
        longest_loop (elim (value_of m) [ none ↦ best | some v ↦ some (path', v) ]) path' ss m
  ]

  -- the key, as segments, with its value
  unfoldable pub longest_prefix : List S → Trie S V → Option (List S × V)
  longest_prefix query t = elim (longest_loop none [] query t.root) [
    | some found ↦ some found
    | none ↦ elim (value_of t.root) [ none ↦ none | some v ↦ some ([], v) ]
  ]
