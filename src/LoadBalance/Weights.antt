-- ===== src/LoadBalance/Weights.antt =====
-- The weights of a balancer: `totalWeight` is their sum, and none is zero.
use kit4go.LoadBalance.{
  Entry, Balancer, Strategy, clamp_weight, reweigh, add, add_all, new, remove_loop, remove,
}
use kit4go.Common.Int.{ℤ, pos, negsuc}
use kit4go.Common.{
  ℕ, zero, suc, ◌+◌, ◌-◌, ◌≤◌, ◌<◌, ◌≡◌, refl, Option, none, some, List, [], ◌∷◌, ◌++◌, arith,
}

clamp_weight_pos : (w : ℤ) → 0 < clamp_weight w
unfolding clamp_weight
clamp_weight_pos (pos zero) = omega arith
clamp_weight_pos (pos (suc w)) = omega arith
clamp_weight_pos (negsuc w) = omega arith

module _ {V : Type 0} where
  abbrev pub weights : List (Entry V) → ℕ
  weights [] = 0
  weights (e ∷ es) = e.weight + weights es

  abbrev pub Positive : List (Entry V) → Type 0
  Positive [] = Unit
  Positive (e ∷ es) = (0 < e.weight) × Positive es

  pub record IsValid (b : Balancer V) : Type 0 where
    pub totalled : b.total_weight ≡ weights b.entries
    pub positive : Positive b.entries

  weights-append : (es fs : List (Entry V)) → weights (es ++ fs) ≡ weights es + weights fs
  weights-append [] fs = omega arith
  weights-append (e ∷ es) fs = omega (arith, weights-append es fs)

  Positive-append : (es fs : List (Entry V)) → Positive es → Positive fs → Positive (es ++ fs)
  Positive-append [] fs h k = k
  Positive-append (e ∷ es) fs (p, h) k = (p, Positive-append es fs h k)

module _ {V I : Type 0} (id : V → I) (dec : Discrete I) where
  -- what a new weight `w` does to the entries
  abbrev Reweighed : ℕ → List (Entry V) → Option (ℕ × List (Entry V)) → Type 0
  Reweighed w es none = Unit
  Reweighed w es (some (old, es')) =
      (weights es' + old ≡ weights es + w) × (old ≤ weights es) × Positive es'

  reweigh_lem :
      (v : V) (w : ℕ) (es : List (Entry V))
      → 0 < w
      → Positive es
      → Reweighed w es (reweigh id dec v w es)
  unfolding reweigh
  reweigh_lem v w [] more h = tt
  reweigh_lem v w (x ∷ es) more (p, h) = ground (arith, reweigh_lem v w es more h)

  add_found :
      (w : ℕ) {b : Balancer V} (found : Option (ℕ × List (Entry V))) (fresh : Entry V)
      → IsValid b
      → 0 < w
      → fresh.weight ≡ w
      → Reweighed w b.entries found
      → IsValid (elim found [
        | some (old, es) ↦ record b { entries = es; total_weight = b.total_weight - old + w }
        | none ↦ record b { entries = b.entries ++ (fresh ∷ []); total_weight = b.total_weight + w }
      ])
  add_found w {b} none fresh valid more e h = record {
    totalled = omega (arith, weights-append b.entries (fresh ∷ []), valid.totalled);
    positive = Positive-append b.entries (fresh ∷ []) valid.positive (omega arith, tt);
  }
  add_found w {b} (some (old, es)) fresh valid more e (sum, le, positive) = record {
    totalled = omega arith;
    positive = positive;
  }

  pub add-IsValid : (v : V) (w : ℤ) {b : Balancer V} → IsValid b → IsValid (add id dec v w b)
  unfolding add
  add-IsValid v w {b} valid =
      let more = clamp_weight_pos w in
      add_found (clamp_weight w) (reweigh id dec v (clamp_weight w) b.entries)
        (record { value = v; weight = clamp_weight w; current_weight = pos 0 }) valid more refl
        (reweigh_lem v (clamp_weight w) b.entries more valid.positive)

  remove_loop_lem :
      (target : I) (es : List (Entry V)) (total rest : ℕ)
      → total ≡ weights es + rest
      → Positive es
      → ((remove_loop id dec target es total).1
          ≡ weights (remove_loop id dec target es total).0 + rest)
        × Positive (remove_loop id dec target es total).0
  unfolding remove_loop
  remove_loop_lem target [] total rest e h = (e, tt)
  remove_loop_lem target (x ∷ es) total rest e (p, h) =
      let dropped = remove_loop_lem target es (total - x.weight) rest (omega arith) h in
      let kept = remove_loop_lem target es total (x.weight + rest) (omega arith) h in ground arith

  -- `Remove` keeps `totalWeight` the sum of the weights.
  pub remove-IsValid : (v : V) {b : Balancer V} → IsValid b → IsValid (remove id dec v b)
  unfolding remove
  remove-IsValid v {b} valid =
      let left =
        remove_loop_lem (id v) b.entries b.total_weight 0 (omega (arith, valid.totalled))
          valid.positive in
      record { totalled = omega (arith, left.0); positive = left.1 }

  add_all-IsValid : (vs : List (V × ℤ)) {b : Balancer V} → IsValid b → IsValid (add_all id dec vs b)
  unfolding add_all
  add_all-IsValid [] valid = valid
  add_all-IsValid ((v, w) ∷ vs) {b} valid = add_all-IsValid vs (add-IsValid v w valid)

  pub new-IsValid : (strategy : Strategy) (vs : List (V × ℤ)) → IsValid (new id dec strategy vs)
  unfolding new
  new-IsValid strategy vs = add_all-IsValid vs (record { totalled = refl; positive = tt })
