-- ===== src/LoadBalance/Rounds.antt =====
-- A round of smooth weighted round robin: the entry that is picked had fewer picks than its share.
use native.Mathlib.Nat.{mul-le-mul_right}
use kit4go.LoadBalance.{Entry, Balancer, better, raise_loop, lower, next_swrr}
use kit4go.LoadBalance.Weights.{weights}
use kit4go.Common.Int.{ℤ, pos, sub_ℕ, ◌+ℤ◌, ◌-ℤ◌, ◌≤ℤ◌, wrap_int64, wrap_int64_id}
use kit4go.Common.{
  ℕ, zero, suc, ◌+◌, ◌*◌, ◌^◌, ◌≤◌, ◌<◌, ◌≡◌, refl, sym, ap, ap₂, ◌∙◌, inl, inr, Option, none, some,
  List, [], ◌∷◌, arith, length, subst,
}
use kit4go.LoadBalance.Picks.{
  note_pick, tally, weights_of, times_add, times_suc, due-le-paid, paid-lt-due, lower_current,
  no_slack, note_pick_self, note_pick_other, Holds, picked, AllAtMost, HasCurrent, raise_loop-Holds,
  raise_loop-IsBest, due_small, sub_ℕ-IsInt64,
}

module _ {V : Type 0} where
  -- If no current weight is above zero, the entries were picked too often.
  pub overpicked :
      (k total : ℕ) (picks : ℕ → ℕ) (i : ℕ) (es : List (Entry V)) (top : ℤ)
      → Holds k total picks i es
      → AllAtMost top es
      → top ≤ℤ pos 0
      → k * weights es ≤ total * picked picks i es
  overpicked k total picks i [] top h all le = omega arith
  overpicked k total picks i (e ∷ es) top (current, quota, h) (le', all) le =
      let rest = overpicked k total picks (suc i) es top h all le in
      let here : k * e.weight ≤ total * picks i =
        due-le-paid _ _ (subst (λ c. c ≤ℤ pos 0) current (omega arith)) in
      omega (
        arith,
        times_add k e.weight (weights es),
        times_add total (picks i) (picked picks (suc i) es),
      )

  pub Holds-congr :
      (k total : ℕ) (picks picks' : ℕ → ℕ) (i : ℕ) (es : List (Entry V))
      → ((m : ℕ) → i ≤ m → picks' m ≡ picks m)
      → Holds k total picks i es
      → Holds k total picks' i es
  Holds-congr k total picks picks' i [] same h = tt
  Holds-congr k total picks picks' i (e ∷ es) same (current, quota, h) = (
    current ∙ ap (λ c. sub_ℕ (k * e.weight) (total * c)) (sym (same i (omega arith))),
    subst (λ c. total * c < k * e.weight + total) (sym (same i (omega arith))) quota,
    Holds-congr k total picks picks' (suc i) es (λ m le. same m (omega arith)) h,
  )

  pub picked-congr :
      (picks picks' : ℕ → ℕ) (i : ℕ) (es : List (Entry V))
      → ((m : ℕ) → i ≤ m → picks' m ≡ picks m)
      → picked picks' i es ≡ picked picks i es
  picked-congr picks picks' i [] same = refl
  picked-congr picks picks' i (e ∷ es) same =
      ap₂ (λ a b. a + b) (same i (omega arith))
        (picked-congr picks picks' (suc i) es (λ m le. same m (omega arith)))

  -- The entry with a current weight above zero had fewer picks than its share.
  pub lower-Holds :
      (k total : ℕ) (picks : ℕ → ℕ) (i d : ℕ) (es : List (Entry V)) (top : ℤ)
      → k * total + total < 2 ^ 63
      → weights es ≤ total
      → Holds k total picks i es
      → HasCurrent d top es
      → (top ≤ℤ pos 0 → ⊥)
      → Holds k total (note_pick (some (i + d)) picks) i (lower total d es)
  unfolding lower
  lower-Holds k total picks i d [] top small share h at more = absurd at
  lower-Holds k total picks i zero (e ∷ es) top small share (current, quota, h) at more =
      let due : total * picks i < k * e.weight =
        paid-lt-due _ _ (subst (λ c. c ≤ℤ pos 0 → ⊥) (sym at ∙ current) more) in
      let pick = note_pick_self picks i in
      let paid = times_suc total (picks i) in
      (
        ap wrap_int64 (ap (λ c. c -ℤ pos total) current ∙ lower_current _ _ total)
            ∙ wrap_int64_id (sub_ℕ (k * e.weight) (total * picks i + total)) (
                sub_ℕ-IsInt64 (k * e.weight) (total * picks i + total) total
                  (due_small k e.weight total (omega arith) small) (omega (arith, due)))
            ∙ ap (λ c. sub_ℕ (k * e.weight) c) (sym paid ∙ ap (λ c. total * c) (sym pick)),
        subst (λ c. total * c < k * e.weight + total) (sym pick) (omega arith),
        Holds-congr k total picks (note_pick (some (i + 0)) picks) (suc i) es
            (λ m le. note_pick_other picks m (i + 0) (omega arith)) h,
      )
  lower-Holds k total picks i (suc d) (e ∷ es) top small share (current, quota, h) at more =
      let same = note_pick_other picks i (i + suc d) (omega arith) in
      let shifted : i + suc d ≡ suc i + d = omega arith in
      (
        current ∙ ap (λ c. sub_ℕ (k * e.weight) (total * c)) (sym same),
        subst (λ c. total * c < k * e.weight + total) (sym same) quota,
        subst (λ j. Holds k total (note_pick (some j) picks) (suc i) (lower total d es))
            (sym shifted)
            (lower-Holds k total picks (suc i) d es top small (omega arith) h at more),
      )

  pub picked-note_pick :
      (picks : ℕ → ℕ) (i d : ℕ) (es : List (Entry V))
      → d < length es
      → picked (note_pick (some (i + d)) picks) i es ≡ suc (picked picks i es)
  picked-note_pick picks i d [] h = absurd (omega arith)
  picked-note_pick picks i zero (e ∷ es) h =
      ap₂ (λ a b. a + b) (note_pick_self picks i)
        (picked-congr picks (note_pick (some (i + 0)) picks) (suc i) es
          (λ m le. note_pick_other picks m (i + 0) (omega arith)))
      ∙ omega arith
  picked-note_pick picks i (suc d) (e ∷ es) h =
      let shifted : i + suc d ≡ suc i + d = omega arith in
      subst (λ j. picked (note_pick (some j) picks) i (e ∷ es) ≡ suc (picked picks i (e ∷ es)))
        (sym shifted)
        (ap₂ (λ a b. a + b) (note_pick_other picks i (suc i + d) (omega arith))
            (picked-note_pick picks (suc i) d es (omega arith))
          ∙ omega arith)

  pub weights_of-raise_loop :
      (best : Option (ℕ × ℤ)) (i : ℕ) (es : List (Entry V))
      → weights_of (raise_loop best i es).0 ≡ weights_of es
  unfolding raise_loop
  weights_of-raise_loop best i [] = refl
  weights_of-raise_loop best i (e ∷ es) =
      ap (λ ws. e.weight ∷ ws)
        (weights_of-raise_loop (better best i (wrap_int64 (e.current_weight +ℤ pos e.weight)))
          (suc i) es)

  pub weights_of-lower :
      (total i : ℕ) (es : List (Entry V)) → weights_of (lower total i es) ≡ weights_of es
  unfolding lower
  weights_of-lower total i [] = refl
  weights_of-lower total zero (e ∷ es) = refl
  weights_of-lower total (suc i) (e ∷ es) = ap (λ ws. e.weight ∷ ws) (weights_of-lower total i es)

  pub weights-congr :
      (es fs : List (Entry V)) → weights_of es ≡ weights_of fs → weights es ≡ weights fs
  weights-congr [] [] e = refl
  weights-congr [] (f ∷ fs) e = absurd (ground arith)
  weights-congr (e ∷ es) [] h = absurd (ground arith)
  weights-congr (e ∷ es) (f ∷ fs) h =
      ap₂ (λ a b. a + b) (ground arith) (weights-congr es fs (ground arith))

  pub picked-length :
      (picks : ℕ → ℕ) (i : ℕ) (es fs : List (Entry V))
      → weights_of es ≡ weights_of fs
      → picked picks i es ≡ picked picks i fs
  picked-length picks i [] [] e = refl
  picked-length picks i [] (f ∷ fs) e = absurd (ground arith)
  picked-length picks i (e ∷ es) [] h = absurd (ground arith)
  picked-length picks i (e ∷ es) (f ∷ fs) h =
      ap (λ n. picks i + n) (picked-length picks (suc i) es fs (ground arith))

  pub length-HasCurrent :
      (d : ℕ) (top : ℤ) (es : List (Entry V)) → HasCurrent d top es → d < length es
  length-HasCurrent d top [] at = absurd at
  length-HasCurrent zero top (e ∷ es) at = omega arith
  length-HasCurrent (suc d) top (e ∷ es) at = omega (arith, length-HasCurrent d top es at)

  -- After `k` rounds: `k` picks, shared out as the weights say, which are those of `ws`.
  pub record Fair (k : ℕ) (ws : List ℕ) (picks : ℕ → ℕ) (b : Balancer V) : Type 0 where
    pub holds : Holds k b.total_weight picks 0 b.entries
    pub rounds : picked picks 0 b.entries ≡ k
    pub same_weights : weights_of b.entries ≡ ws
    pub totalled : b.total_weight ≡ weights b.entries
    pub running : 0 < b.total_weight

  -- the best of the entries, whatever the first one is
  pub raise_loop-first :
      (e : Entry V) (es : List (Entry V))
      → (d : ℕ) × (top : ℤ) × ((raise_loop none 0 (e ∷ es)).1 ≡ some (d, top))
        × AllAtMost top (raise_loop none 0 (e ∷ es)).0
        × HasCurrent d top (raise_loop none 0 (e ∷ es)).0
  unfolding raise_loop better
  raise_loop-first e es =
      let raised = wrap_int64 (e.current_weight +ℤ pos e.weight) in
      let (j', top', found, le, all, at) = raise_loop-IsBest 0 raised 1 es in
      (
        j',
        top',
        found,
        (le, all),
        elim at [
          | inl (zero_index, level) ↦
              subst (λ n. HasCurrent n top' (raise_loop none 0 (e ∷ es)).0) (sym zero_index)
                (sym level)
          | inr (d, later, current) ↦
              let next_one : j' ≡ suc d = omega arith in
              subst (λ n. HasCurrent n top' (raise_loop none 0 (e ∷ es)).0) (sym next_one) current
        ],
      )

  pub next_swrr-found :
      (b : Balancer V) (d : ℕ) (top : ℤ)
      → (raise_loop none 0 b.entries).1 ≡ some (d, top)
      → next_swrr b
        ≡ (some d, record b { entries = lower b.total_weight d (raise_loop none 0 b.entries).0 })
  unfolding next_swrr
  next_swrr-found b d top found = rw (found, next_swrr) refl

  pub next_swrr-Fair_at :
      (k : ℕ) (ws : List ℕ) (picks : ℕ → ℕ) (es : List (Entry V)) (b : Balancer V)
      → let c = record b { entries = es } in
        suc k * c.total_weight + c.total_weight < 2 ^ 63
        → Fair k ws picks c
        → Fair (suc k) ws (note_pick (next_swrr c).0 picks) (next_swrr c).1
  next_swrr-Fair_at k ws picks [] b small f = absurd (omega (arith, f.running, f.totalled))
  next_swrr-Fair_at k ws picks (e ∷ es) b small f =
      let (d, top, found, all, at) = raise_loop-first e es in
      let raised = (raise_loop none 0 (e ∷ es)).0 in
      let holds =
        raise_loop-Holds k b.total_weight picks none 0 (e ∷ es) small (omega (arith, f.totalled))
          f.holds in
      let same = weights_of-raise_loop none 0 (e ∷ es) in
      let rounds = picked-length picks 0 raised (e ∷ es) same in
      let sum = weights-congr raised (e ∷ es) same in
      let more : top ≤ℤ pos 0 → ⊥ = λ le.
        let over = overpicked (suc k) b.total_weight picks 0 raised top holds all le in
        no_slack k b.total_weight f.running (
          omega (
            arith,
            over,
            ap (λ n. suc k * n) (sum ∙ sym f.totalled),
            ap (λ n. b.total_weight * n) (rounds ∙ f.rounds),
          )) in
      let lowered =
        lower-Holds (suc k) b.total_weight picks 0 d raised top small
          (omega (arith, f.totalled, sum)) holds at more in
      let same' = weights_of-lower b.total_weight d raised in
      let at_d : 0 + d ≡ d = omega arith in
      let length_kept = length-HasCurrent d top raised at in
      subst (λ r. Fair (suc k) ws (note_pick r.0 picks) r.1)
        (sym (next_swrr-found (record b { entries = e ∷ es }) d top found))
        (record {
          holds =
              subst
                (λ j.
                  Holds (suc k) b.total_weight (note_pick (some j) picks) 0
                    (lower b.total_weight d raised))
                at_d lowered;
          rounds =
              picked-length (note_pick (some d) picks) 0 (lower b.total_weight d raised) raised
                same'
              ∙ subst
                  (λ j. picked (note_pick (some j) picks) 0 raised ≡ suc (picked picks 0 raised))
                  at_d (picked-note_pick picks 0 d raised length_kept)
              ∙ ap suc (rounds ∙ f.rounds);
          same_weights = same' ∙ same ∙ f.same_weights;
          totalled =
              f.totalled
              ∙ sym (weights-congr (lower b.total_weight d raised) (e ∷ es) (same' ∙ same));
          running = f.running;
        })

  pub next_swrr-Fair :
      (k : ℕ) (ws : List ℕ) (picks : ℕ → ℕ) (b : Balancer V)
      → suc k * b.total_weight + b.total_weight < 2 ^ 63
      → Fair k ws picks b
      → Fair (suc k) ws (note_pick (next_swrr b).0 picks) (next_swrr b).1
  next_swrr-Fair k ws picks b small f = next_swrr-Fair_at k ws picks b.entries b small f

  -- The weights stay, and so does their sum.
  pub Fair-total :
      {k k' : ℕ} {ws : List ℕ} {picks picks' : ℕ → ℕ} {b b' : Balancer V}
      → Fair k ws picks b
      → Fair k' ws picks' b'
      → b'.total_weight ≡ b.total_weight
  Fair-total {b = b} {b' = b'} f f' =
      f'.totalled
      ∙ weights-congr b'.entries b.entries (f'.same_weights ∙ sym f.same_weights)
      ∙ sym f.totalled

  pub tally-Fair :
      (n k : ℕ) (ws : List ℕ) (picks : ℕ → ℕ) (b : Balancer V)
      → (k + n) * b.total_weight + b.total_weight < 2 ^ 63
      → Fair k ws picks b
      → (b' : Balancer V) × Fair (k + n) ws (tally n b picks) b'
  unfolding tally
  tally-Fair zero k ws picks b small f = (b, subst (λ m. Fair m ws picks b) (omega arith) f)
  tally-Fair (suc n) k ws picks b small f =
      let most : suc k * b.total_weight ≤ (k + suc n) * b.total_weight =
        mul-le-mul_right b.total_weight (omega arith) in
      let next = next_swrr-Fair k ws picks b (omega (arith, most, small)) f in
      let small' : (suc k + n) * (next_swrr b).1.total_weight + (next_swrr b).1.total_weight
          < 2 ^ 63 =
        subst (λ t. (suc k + n) * t + t < 2 ^ 63) (sym (Fair-total f next))
          (subst (λ m. m * b.total_weight + b.total_weight < 2 ^ 63) (omega arith) small) in
      let (b', f') =
        tally-Fair n (suc k) ws (note_pick (next_swrr b).0 picks) (next_swrr b).1 small' next in
      (
        b',
        subst (λ m. Fair m ws (tally n (next_swrr b).1 (note_pick (next_swrr b).0 picks)) b')
            (omega arith) f',
      )
