-- ===== src/Bloom/Tests.antt =====
-- Runs of bloom/bloom.go, and its theorem at a concrete input.
use kit4go.Bloom.{
  Filter, blank, new_from_params, set_bit, test_bit, set_all, test_all, add_locked, test_locked,
  indices_from, indices, add, test, test_and_add,
}
use kit4go.Bloom.Answers.{Among, Built, no_false_negatives}
use kit4go.Common.{ℕ, ◌*◌, ◌≡◌, refl, true, false, some, List, [], ◌∷◌, get_or, replicate}

abbrev hash_a : List ℕ → ℕ
hash_a x = 40503 * get_or x 0 7

abbrev hash_b : List ℕ → ℕ
hash_b x = 31 * get_or x 0 7

abbrev word : List ℕ
word = 97 ∷ []

abbrev small : Filter
small = record { bits = replicate 2 (replicate 64 false); m = 100; k = 3; n = 0 }

made : new_from_params 100 3 ≡ some small
unfolding new_from_params blank
made = refl

not_there : test hash_a hash_b word small ≡ false
unfolding test test_locked test_all test_bit indices indices_from
not_there = refl

other_not_there : test hash_a hash_b (98 ∷ []) (add hash_a hash_b word small) ≡ false
unfolding test test_locked test_all test_bit indices indices_from add add_locked set_all set_bit
other_not_there = refl

no_false_negatives_example :
    (test hash_a hash_b word (add hash_a hash_b word small) ≡ true)
    × ((test_and_add hash_a hash_b word (add hash_a hash_b word small)).0 ≡ true)
no_false_negatives_example =
    no_false_negatives hash_a hash_b (Built.added word (Built.made 100 3 made)) word Among.here
