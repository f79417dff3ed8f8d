-- ===== src/Trie/Tests.antt =====
-- Tests of the trie.
use kit4go.Trie.{
  Node, Children, Trie, new, value_of, children_of, is_bare, find_child, put_child, drop_child,
  or_new, descend, get_at, insert_at, delete_at, longest_loop, longest_prefix, insert, get, delete,
}
use kit4go.Trie.Lookup.{update_lem}
use kit4go.Trie.Longest.{IsLongest, longest_prefix_lem}
use kit4go.Common.{ℕ, ◌≡◌, refl, ◌≢◌, true, false, none, some, List, [], ◌∷◌, ℕ_discrete}

-- 1/2 and 1/2/3
abbrev two_keys : Trie ℕ ℕ
unfolding insert new
two_keys = insert ℕ_discrete (1 ∷ 2 ∷ 3 ∷ []) 30 (insert ℕ_discrete (1 ∷ 2 ∷ []) 20 new)

update_lem_example :
    (get ℕ_discrete (1 ∷ 4 ∷ []) (insert ℕ_discrete (1 ∷ 4 ∷ []) 40 two_keys) ≡ some 40)
    × ((ks : List ℕ)
        → ks ≢ (1 ∷ 4 ∷ [])
        → get ℕ_discrete ks (insert ℕ_discrete (1 ∷ 4 ∷ []) 40 two_keys)
          ≡ get ℕ_discrete ks two_keys)
    × (get ℕ_discrete (1 ∷ 4 ∷ []) (delete ℕ_discrete (1 ∷ 4 ∷ []) two_keys).0 ≡ none)
    × ((ks : List ℕ)
        → ks ≢ (1 ∷ 4 ∷ [])
        → get ℕ_discrete ks (delete ℕ_discrete (1 ∷ 4 ∷ []) two_keys).0
          ≡ get ℕ_discrete ks two_keys)
    × ((delete ℕ_discrete (1 ∷ 4 ∷ []) two_keys).1
        ≡ (elim (get ℕ_discrete (1 ∷ 4 ∷ []) two_keys) [ none ↦ false | some w ↦ true ]))
update_lem_example = update_lem ℕ_discrete (1 ∷ 4 ∷ []) 40 two_keys

-- deleting the longer key prunes its node and keeps the shorter one
pruned : (delete ℕ_discrete (1 ∷ 2 ∷ 3 ∷ []) two_keys).0 ≡ record {
  root = Node.node none (
      Children.child 1
        (Node.node none (Children.child 2 (Node.node (some 20) Children.leaf) Children.leaf))
        Children.leaf);
  count = 1;
}
unfolding two_keys insert new delete delete_at insert_at get_at descend find_child put_child
    drop_child or_new is_bare value_of children_of ℕ_discrete
pruned = refl

-- Deleting the empty key, which was there, leaves the count at 1.
abbrev emptied : Trie ℕ ℕ
unfolding delete insert new
emptied = (delete ℕ_discrete [] (insert ℕ_discrete [] 5 new)).0

count_kept : emptied.count ≡ 1
unfolding emptied delete insert new get_at descend value_of
count_kept = refl

longest_found : longest_prefix ℕ_discrete (1 ∷ 2 ∷ 4 ∷ []) two_keys ≡ some (1 ∷ 2 ∷ [], 20)
unfolding two_keys insert new insert_at get_at descend find_child put_child or_new value_of
    children_of longest_prefix longest_loop ℕ_discrete
longest_found = refl

longest_prefix_lem_example :
    IsLongest ℕ_discrete
      (1 ∷ 2 ∷ 4 ∷ [])
      two_keys
      (longest_prefix ℕ_discrete (1 ∷ 2 ∷ 4 ∷ []) two_keys)
longest_prefix_lem_example = longest_prefix_lem ℕ_discrete (1 ∷ 2 ∷ 4 ∷ []) two_keys
