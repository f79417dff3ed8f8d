-- ===== src/LoadBalance/Picks.antt =====
-- The picks of smooth weighted round robin of loadbalance/loadbalance.go, and the entry that it finds best.
use kit4go.LoadBalance.{Entry, Balancer, better, raise_loop, next_swrr}
use native.Mathlib.Nat.{mul-le-mul_left}
use kit4go.LoadBalance.Weights.{weights}
use kit4go.Common.Int.{ℤ, pos, sub_ℕ, wrap_int64, wrap_int64_id, IsInt64, ◌+ℤ◌, ◌-ℤ◌, ◌≤ℤ◌}
use kit4go.Common.{
  ℕ, zero, suc, ◌+◌, ◌*◌, ◌^◌, ◌≤◌, ◌<◌, ◌≡◌, refl, sym, ap, ◌∙◌, ◌≢◌, ◌⊎◌, inl, inr, Option, none,
  some, List, [], ◌∷◌, map, arith, ltb, ◌==◌, if◌then◌else◌, ltb→lt, Bool-cases, subst,
}

-- one more pick of an entry, where there was one
unfoldable pub note_pick : Option ℕ → (ℕ → ℕ) → ℕ → ℕ
note_pick none picks i = picks i
note_pick (some j) picks i = if i == j then suc (picks i) else picks i

-- from index `i` on, the picks of an entry are below its share of `n` rounds and one more
abbrev pub WithinQuota : ℕ → ℕ → (ℕ → ℕ) → ℕ → List ℕ → Type 0
WithinQuota n total picks i [] = Unit
WithinQuota n total picks i (w ∷ ws) =
    (total * picks i < n * w + total) × WithinQuota n total picks (suc i) ws

-- from index `i` on, each entry was picked as often as its weight says
abbrev pub Matches : (ℕ → ℕ) → ℕ → List ℕ → Type 0
Matches picks i [] = Unit
Matches picks i (w ∷ ws) = (picks i ≡ w) × Matches picks (suc i) ws

pub raise_current : (a b w : ℕ) → sub_ℕ a b +ℤ pos w ≡ sub_ℕ (a + w) b
unfolding ◌+ℤ◌
raise_current a b w = ground arith

pub suc_times : (k w : ℕ) → suc k * w ≡ k * w + w
suc_times k w = omega arith

pub times_add : (a b c : ℕ) → a * (b + c) ≡ a * b + a * c
times_add a b c = grind arith

pub times_suc : (a b : ℕ) → a * suc b ≡ a * b + a
times_suc a b = grind arith

pub due-le-paid : (a b : ℕ) → sub_ℕ a b ≤ℤ pos 0 → a ≤ b
due-le-paid a b h = ground arith

pub paid-lt-due : (a b : ℕ) → (sub_ℕ a b ≤ℤ pos 0 → ⊥) → b < a
paid-lt-due a b h = elim (Bool-cases (ltb b a)) [
  | inl e ↦ ltb→lt b a e
  | inr e ↦ absurd (h (ground arith))
]

pub nothing_due : (w total : ℕ) → pos 0 ≡ sub_ℕ (0 * w) (total * 0)
nothing_due w total = ground arith

pub quota_le : (w total c : ℕ) → total * c < total * w + total → c ≤ w
quota_le w total c h = grind arith

pub no_slack : (k w : ℕ) → 0 < w → suc k * w ≤ w * k → ⊥
no_slack k w h le = grind arith

pub lower_current : (a b w : ℕ) → sub_ℕ a b -ℤ pos w ≡ sub_ℕ a (b + w)
unfolding ◌-ℤ◌
lower_current a b w = ground arith

-- What is due after `k` rounds, and a round more, is an int.
pub due_small : (k w total : ℕ) → w ≤ total → k * total + total < 2 ^ 63 → k * w + total < 2 ^ 63
due_small k w total h small =
    let most : k * w ≤ k * total = mul-le-mul_left k h in omega (arith, most)

pub sub_ℕ-IsInt64 : (a b t : ℕ) → a + t < 2 ^ 63 → b < a + t → IsInt64 (sub_ℕ a b)
sub_ℕ-IsInt64 a b t h le = ground arith

pub note_pick_self : (picks : ℕ → ℕ) (i : ℕ) → note_pick (some (i + 0)) picks i ≡ suc (picks i)
unfolding note_pick
note_pick_self picks i = ground arith

pub note_pick_other : (picks : ℕ → ℕ) (i j : ℕ) → i ≢ j → note_pick (some j) picks i ≡ picks i
unfolding note_pick
note_pick_other picks i j ne = ground arith

pub better_lem :
    (j : ℕ) (top : ℤ) (i : ℕ) (raised : ℤ)
    → ((better (some (j, top)) i raised ≡ some (i, raised)) × (top ≤ℤ raised))
      ⊎ ((better (some (j, top)) i raised ≡ some (j, top)) × (raised ≤ℤ top))
unfolding better
better_lem j top i raised = ground arith

module _ {V : Type 0} where
  -- how often each index is picked by `n` calls of `Next`, after the picks before
  unfoldable pub tally : ℕ → Balancer V → (ℕ → ℕ) → ℕ → ℕ
  unfolding note_pick
  tally zero b picks = picks
  tally (suc n) b picks = let (found, b') = next_swrr b in tally n b' (note_pick found picks)

  abbrev pub weights_of : List (Entry V) → List ℕ
  weights_of es = map (λ e. e.weight) es

  -- After `k` rounds an entry's current weight is what it was due less what its picks cost, and its
  -- picks are below its share and one more.
  abbrev pub Holds : ℕ → ℕ → (ℕ → ℕ) → ℕ → List (Entry V) → Type 0
  Holds k total picks i [] = Unit
  Holds k total picks i (e ∷ es) =
      (e.current_weight ≡ sub_ℕ (k * e.weight) (total * picks i))
      × (total * picks i < k * e.weight + total)
      × Holds k total picks (suc i) es

  -- the picks of the entries from index `i` on
  abbrev pub picked : (ℕ → ℕ) → ℕ → List (Entry V) → ℕ
  picked picks i [] = 0
  picked picks i (e ∷ es) = picks i + picked picks (suc i) es

  abbrev pub AllAtMost : ℤ → List (Entry V) → Type 0
  AllAtMost top [] = Unit
  AllAtMost top (e ∷ es) = (e.current_weight ≤ℤ top) × AllAtMost top es

  -- the entry at a place has this current weight
  abbrev pub HasCurrent : ℕ → ℤ → List (Entry V) → Type 0
  HasCurrent d top [] = ⊥
  HasCurrent zero top (e ∷ es) = e.current_weight ≡ top
  HasCurrent (suc d) top (e ∷ es) = HasCurrent d top es

  pub raise_loop-Holds :
      (k total : ℕ) (picks : ℕ → ℕ) (best : Option (ℕ × ℤ)) (i : ℕ) (es : List (Entry V))
      → suc k * total + total < 2 ^ 63
      → weights es ≤ total
      → Holds k total picks i es
      → Holds (suc k) total picks i (raise_loop best i es).0
  unfolding raise_loop
  raise_loop-Holds k total picks best i [] small share h = tt
  raise_loop-Holds k total picks best i (e ∷ es) small share (current, quota, h) = (
    ap wrap_int64 (
          ap (λ c. c +ℤ pos e.weight) current
          ∙ raise_current (k * e.weight) (total * picks i) e.weight
          ∙ ap (λ a. sub_ℕ a (total * picks i)) (sym (suc_times k e.weight)))
        ∙ wrap_int64_id _ (
            sub_ℕ-IsInt64 (suc k * e.weight) (total * picks i) total
              (due_small (suc k) e.weight total (omega arith) small)
              (omega (arith, suc_times k e.weight))),
    omega (arith, suc_times k e.weight),
    raise_loop-Holds k total picks (better best i (wrap_int64 (e.current_weight +ℤ pos e.weight)))
        (suc i) es small (omega arith) h,
  )

  -- what the loop returns from index `i` on when the best so far is `(j, top)`
  abbrev pub IsBest : ℕ → ℤ → ℕ → List (Entry V) × Option (ℕ × ℤ) → Type 0
  IsBest j top i r =
      (j' : ℕ) × (top' : ℤ) × (r.1 ≡ some (j', top'))
      × (top ≤ℤ top')
      × AllAtMost top' r.0
      × (((j' ≡ j) × (top' ≡ top)) ⊎ ((d : ℕ) × (j' ≡ i + d) × HasCurrent d top' r.0))

  -- The best entry has the highest current weight.
  pub raise_loop-IsBest :
      (j : ℕ) (top : ℤ) (i : ℕ) (es : List (Entry V))
      → IsBest j top i (raise_loop (some (j, top)) i es)
  unfolding raise_loop
  raise_loop-IsBest j top i [] = (j, top, refl, omega arith, tt, inl (refl, refl))
  raise_loop-IsBest j top i (e ∷ es) =
      let raised = wrap_int64 (e.current_weight +ℤ pos e.weight) in
      let from : Option (ℕ × ℤ) → List (Entry V) × Option (ℕ × ℤ) = λ best. (
        record e { current_weight = raised } ∷ (raise_loop best (suc i) es).0,
        (raise_loop best (suc i) es).1,
      ) in
      elim (better_lem j top i raised) [
        | inl (higher, le) ↦
            let (j', top', found, le', all, at) = raise_loop-IsBest i raised (suc i) es in
            subst (λ best. IsBest j top i (from best)) (sym higher)
              (
                j',
                top',
                found,
                omega arith,
                (le', all),
                inr (elim at [
                  | inl (same, level) ↦ (0, omega arith, sym level)
                  | inr (d, later, current) ↦ (suc d, omega arith, current)
                ]),
              )
        | inr (stays, le) ↦
            let (j', top', found, le', all, at) = raise_loop-IsBest j top (suc i) es in
            subst (λ best. IsBest j top i (from best)) (sym stays)
              (
                j',
                top',
                found,
                le',
                (omega arith, all),
                elim at [
                  | inl same ↦ inl same
                  | inr (d, later, current) ↦ inr (suc d, omega arith, current)
                ],
              )
      ]
