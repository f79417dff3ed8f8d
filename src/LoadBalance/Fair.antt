-- ===== src/LoadBalance/Fair.antt =====
-- Smooth weighted round robin of loadbalance/loadbalance.go picks each entry as often as its weight says.
use kit4go.LoadBalance.{Entry, Balancer}
use kit4go.LoadBalance.Weights.{weights, Positive, IsValid}
use kit4go.Common.Int.{pos}
use kit4go.Common.{
  ℕ, suc, ◌+◌, ◌*◌, ◌^◌, ◌≤◌, ◌<◌, ◌≡◌, refl, sym, ◌∙◌, List, [], ◌∷◌, arith, length, subst,
}
use kit4go.LoadBalance.Picks.{
  tally, weights_of, Matches, WithinQuota, nothing_due, quota_le, Holds, picked,
}
use kit4go.LoadBalance.Rounds.{Fair, tally-Fair, weights-congr}

module _ {V : Type 0} where
  -- every entry is as it was when it was added
  abbrev pub AtRest : List (Entry V) → Type 0
  AtRest [] = Unit
  AtRest (e ∷ es) = (e.current_weight ≡ pos 0) × AtRest es

  AtRest-Holds :
      (total i : ℕ) (es : List (Entry V)) → 0 < total → AtRest es → Holds 0 total (λ j. 0) i es
  AtRest-Holds total i [] h rest = tt
  AtRest-Holds total i (e ∷ es) h (zero_current, rest) =
      (zero_current ∙ nothing_due e.weight total, omega arith, AtRest-Holds total (suc i) es h rest)

  none_picked : (i : ℕ) (es : List (Entry V)) → picked (λ j. 0) i es ≡ 0
  none_picked i [] = refl
  none_picked i (e ∷ es) = omega (arith, none_picked (suc i) es)

  Holds-WithinQuota :
      (n total : ℕ) (picks : ℕ → ℕ) (i : ℕ) (es : List (Entry V))
      → Holds n total picks i es
      → WithinQuota n total picks i (weights_of es)
  Holds-WithinQuota n total picks i [] h = tt
  Holds-WithinQuota n total picks i (e ∷ es) (current, quota, h) =
      (quota, Holds-WithinQuota n total picks (suc i) es h)

  weights_pos : (es : List (Entry V)) → 0 < length es → Positive es → 0 < weights es
  weights_pos [] h positive = absurd (omega arith)
  weights_pos (e ∷ es) h (here, positive) = omega arith

  -- what a run leaves: the balancer's weights are those it had
  same_total :
      (n : ℕ) (picks : ℕ → ℕ) (b b' : Balancer V)
      → IsValid b
      → Fair n (weights_of b.entries) picks b'
      → b'.total_weight ≡ b.total_weight
  same_total n picks b b' valid f =
      f.totalled ∙ weights-congr b'.entries b.entries f.same_weights ∙ sym valid.totalled

  AtRest-Fair :
      (b : Balancer V)
      → IsValid b
      → 0 < length b.entries
      → AtRest b.entries
      → Fair 0 (weights_of b.entries) (λ j. 0) b
  AtRest-Fair b valid some_entry rest =
      let running : 0 < b.total_weight =
        subst (λ n. 0 < n) (sym valid.totalled) (weights_pos b.entries some_entry valid.positive) in
      record {
        holds = AtRest-Holds b.total_weight 0 b.entries running rest;
        rounds = none_picked 0 b.entries;
        same_weights = refl;
        totalled = valid.totalled;
        running = running;
      }

  quota_picked :
      (total : ℕ) (picks : ℕ → ℕ) (i : ℕ) (es : List (Entry V))
      → Holds total total picks i es
      → picked picks i es ≤ weights es
  quota_picked total picks i [] h = omega arith
  quota_picked total picks i (e ∷ es) (current, quota, h) =
      omega (arith, quota_le e.weight total (picks i) quota, quota_picked total picks (suc i) es h)

  picked-Matches :
      (total : ℕ) (picks : ℕ → ℕ) (i : ℕ) (es : List (Entry V))
      → Holds total total picks i es
      → picked picks i es ≡ weights es
      → Matches picks i (weights_of es)
  picked-Matches total picks i [] h sum = tt
  picked-Matches total picks i (e ∷ es) (current, quota, h) sum =
      let here = quota_le e.weight total (picks i) quota in
      let later = quota_picked total picks (suc i) es h in
      (omega arith, picked-Matches total picks (suc i) es h (omega arith))

  full_cycle :
      (b : Balancer V)
      → b.total_weight * b.total_weight + b.total_weight < 2 ^ 63
      → IsValid b
      → 0 < length b.entries
      → AtRest b.entries
      → Matches (tally b.total_weight b (λ j. 0)) 0 (weights_of b.entries)
  full_cycle b small valid some_entry rest =
      let (b', f) =
        tally-Fair b.total_weight 0 (weights_of b.entries) (λ j. 0) b
          (subst (λ m. m * b.total_weight + b.total_weight < 2 ^ 63) (omega arith) small)
          (AtRest-Fair b valid some_entry rest) in
      let total = same_total (0 + b.total_weight) (tally b.total_weight b (λ j. 0)) b b' valid f in
      let rounds : 0 + b.total_weight ≡ b'.total_weight = omega arith in
      let holds =
        subst (λ n. Holds n b'.total_weight (tally b.total_weight b (λ j. 0)) 0 b'.entries) rounds
          f.holds in
      subst (λ ws. Matches (tally b.total_weight b (λ j. 0)) 0 ws) f.same_weights
        (picked-Matches b'.total_weight (tally b.total_weight b (λ j. 0)) 0 b'.entries holds
          (f.rounds ∙ rounds ∙ f.totalled))

  quota_lem :
      (n : ℕ) (b : Balancer V)
      → n * b.total_weight + b.total_weight < 2 ^ 63
      → IsValid b
      → 0 < length b.entries
      → AtRest b.entries
      → WithinQuota n b.total_weight (tally n b (λ j. 0)) 0 (weights_of b.entries)
  quota_lem n b small valid some_entry rest =
      let (b', f) =
        tally-Fair n 0 (weights_of b.entries) (λ j. 0) b
          (subst (λ m. m * b.total_weight + b.total_weight < 2 ^ 63) (omega arith) small)
          (AtRest-Fair b valid some_entry rest) in
      let total = same_total (0 + n) (tally n b (λ j. 0)) b b' valid f in
      let rounds : 0 + n ≡ n = omega arith in
      let within =
        Holds-WithinQuota (0 + n) b'.total_weight (tally n b (λ j. 0)) 0 b'.entries f.holds in
      subst (λ ws. WithinQuota n b.total_weight (tally n b (λ j. 0)) 0 ws) f.same_weights
        (subst (λ t. WithinQuota n t (tally n b (λ j. 0)) 0 (weights_of b'.entries)) total
          (subst (λ m. WithinQuota m b'.total_weight (tally n b (λ j. 0)) 0 (weights_of b'.entries))
            rounds within))

  -- From a balancer with entries that all are at rest: if the square of `totalWeight` and `totalWeight` make less
  -- than 2^63, `totalWeight` calls of `Next` pick each entry exactly as often as its weight says; and if
  -- `n * totalWeight + totalWeight` is below 2^63, in `n` calls an entry of weight `w` is picked less than
  -- `n * w / totalWeight + 1` times.
  pub fair_lem :
      (n : ℕ) (b : Balancer V)
      → IsValid b
      → 0 < length b.entries
      → AtRest b.entries
      → b.total_weight * b.total_weight + b.total_weight < 2 ^ 63
      → n * b.total_weight + b.total_weight < 2 ^ 63
      → Matches (tally b.total_weight b (λ j. 0)) 0 (weights_of b.entries)
        × WithinQuota n b.total_weight (tally n b (λ j. 0)) 0 (weights_of b.entries)
  fair_lem n b valid some_entry rest cycle_small small =
      (full_cycle b cycle_small valid some_entry rest, quota_lem n b small valid some_entry rest)
