-- ===== src/CountMin/Tests.antt =====
-- Runs of countmin/countmin.go, and its theorem at a concrete input.
use kit4go.CountMin.{Sketch, new, splitmix64, double_hash, index, add_loop, add, estimate}
use kit4go.CountMin.Loads.{count_of, total_of}
use kit4go.CountMin.Estimates.{Built, estimate_lem}
use kit4go.Common.Words.{u64_mod, u32_mod}
use kit4go.Common.{ℕ, ◌*◌, ◌≤◌, ◌<◌, ◌≡◌, refl, some, List, [], ◌∷◌, arith, get_or}

abbrev hash_a : List ℕ → ℕ
hash_a bs = get_or bs 0 7

abbrev hash_b : List ℕ → ℕ
hash_b bs = 31 * get_or bs 0 7

abbrev word : List ℕ
word = 97 ∷ []

splitmix64_one : splitmix64 1 ≡ 10451216379200822465
unfolding splitmix64
splitmix64_one = refl

abbrev counted : Sketch
counted = record { w = 3; d = 2; counts = (4 ∷ 0 ∷ 0 ∷ []) ∷ (0 ∷ 4 ∷ 0 ∷ []) ∷ []; total = 4 }

counted_once : add hash_a hash_b word 4 (new 3 2) ≡ some counted
unfolding add new add_loop double_hash splitmix64 index
counted_once = refl

small : total_of ((word, 4) ∷ []) < u64_mod
unfolding total_of
small = omega arith

width_small : 3 < u32_mod
width_small = omega arith

depth_small : 2 < u32_mod
depth_small = omega arith

estimate_lem_example :
    ((e : ℕ) × (estimate hash_a hash_b word counted ≡ some e)
      × (count_of word ((word, 4) ∷ []) ≤ e)
      × (e ≤ total_of ((word, 4) ∷ [])))
    × ((c' : Sketch) × (add hash_a hash_b word 1 counted ≡ some c'))
estimate_lem_example =
    estimate_lem hash_a hash_b
      (Built.added word 4 (Built.made 3 2 width_small depth_small) counted_once) small word 1
