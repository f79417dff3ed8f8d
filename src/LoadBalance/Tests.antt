-- ===== src/LoadBalance/Tests.antt =====
-- Three backends with weights 5, 1 and 1.
use kit4go.LoadBalance.{smooth_weighted_rr, Balancer, remove}
use kit4go.LoadBalance.Weights.{IsValid, remove-IsValid}
use kit4go.LoadBalance.Picks.{Matches, WithinQuota, tally}
use kit4go.LoadBalance.Fair.{fair_lem}
use kit4go.Common.Int.{pos}
use kit4go.Common.{ℕ, refl, [], ◌∷◌, arith, ℕ_discrete}

abbrev backends : Balancer ℕ
backends = record {
  entries =
      record { value = 10; weight = 5; current_weight = pos 0 }
      ∷ record { value = 11; weight = 1; current_weight = pos 0 }
      ∷ record { value = 12; weight = 1; current_weight = pos 0 }
      ∷ [];
  total_weight = 7;
  rr_idx = 0;
  strategy = smooth_weighted_rr;
}

backends-IsValid : IsValid backends
backends-IsValid = record { totalled = refl; positive = omega arith }

fair_lem_example :
    Matches (tally 7 backends (λ j. 0)) 0 (5 ∷ 1 ∷ 1 ∷ [])
    × WithinQuota 3 7 (tally 3 backends (λ j. 0)) 0 (5 ∷ 1 ∷ 1 ∷ [])
fair_lem_example =
    fair_lem 3 backends backends-IsValid (omega arith) (refl, (refl, (refl, tt))) (omega arith)
      (omega arith)

remove-IsValid_example : IsValid (remove (λ (v : ℕ). v) ℕ_discrete 11 backends)
remove-IsValid_example = remove-IsValid (λ (v : ℕ). v) ℕ_discrete 11 backends-IsValid
