-- ===== src/Backpressure/Bound.antt =====
-- No interleaving of backpressure/backpressure.go takes more than the maximum in flight.
use mathlib.Core.Option.{some-injective}
use kit4go.Backpressure.{Pc, Gate, new, set_max, go_to, resume, Event, begin, act, run}
use kit4go.Common.Words.{add64}
use kit4go.Common.Int.{ℤ, pos_part}
use kit4go.Common.{
  ℕ, zero, suc, ◌+◌, ◌≤◌, ◌<◌, max, ◌≡◌, refl, sym, inl, inr, Option, none, some, List, [], ◌∷◌,
  arith, leb, ◌==◌, Bool-cases, Option-cases, get_elem?, set, subst,
}

-- a goroutine about to swap has read a number that leaves room below `top`, or one to give back
Fits : ℕ → Pc → Type 0
Fits top (Pc.swap_up cur) = cur < top
Fits top (Pc.swap_down cur) = 0 < cur
Fits top pc = Unit

AllFit : ℕ → List Pc → Type 0
AllFit top [] = Unit
AllFit top (pc ∷ pcs) = Fits top pc × AllFit top pcs

AllFit-set :
    (top : ℕ) (pcs : List Pc) (i : ℕ) (pc : Pc)
    → Fits top pc
    → AllFit top pcs
    → AllFit top (set pcs i pc)
unfolding AllFit
AllFit-set top [] i pc h all = tt
AllFit-set top (x ∷ pcs) zero pc h all = (h, all.1)
AllFit-set top (x ∷ pcs) (suc i) pc h all = (all.0, AllFit-set top pcs i pc h all.1)

AllFit-get :
    (top : ℕ) (pcs : List Pc) (i : ℕ) (pc : Pc)
    → AllFit top pcs
    → get_elem? pcs i ≡ some pc
    → Fits top pc
unfolding AllFit
AllFit-get top [] i pc all e = ground arith
AllFit-get top (x ∷ pcs) zero pc all e = subst (Fits top) (some-injective _ _ e) all.0
AllFit-get top (x ∷ pcs) (suc i) pc all e = AllFit-get top pcs i pc all.1 e

-- What holds of a gate whose maxima stay at most `top`.
record IsBounded (top : ℕ) (g : Gate) : Type 0 where
  pub max_le : g.max ≤ top
  pub current_le : g.current ≤ top
  pub balanced : g.current + g.released ≡ g.accepted
  pub fit : AllFit top g.goroutines

unfoldable pub AllIdle : List Pc → Type 0
AllIdle [] = Unit
AllIdle (pc ∷ pcs) = (pc ≡ Pc.idle) × AllIdle pcs

AllIdle-AllFit : (top : ℕ) (pcs : List Pc) → AllIdle pcs → AllFit top pcs
unfolding AllIdle AllFit Fits
AllIdle-AllFit top [] h = tt
AllIdle-AllFit top (pc ∷ pcs) h = (subst (Fits top) (sym h.0) tt, AllIdle-AllFit top pcs h.1)

move-IsBounded :
    (top i : ℕ) (pc : Pc) (g : Gate) → Fits top pc → IsBounded top g → IsBounded top (go_to i pc g)
unfolding go_to
move-IsBounded top i pc g h b = record {
  max_le = b.max_le;
  current_le = b.current_le;
  balanced = b.balanced;
  fit = AllFit-set top g.goroutines i pc h b.fit;
}

resume-IsBounded :
    (top i : ℕ) (pc : Pc) (g : Gate) → Fits top pc → IsBounded top g → IsBounded top (resume i pc g)
unfolding resume go_to Fits
resume-IsBounded top i Pc.idle g h b = b
resume-IsBounded top i Pc.load_current g h b = move-IsBounded top i (Pc.load_max g.current) g tt b
resume-IsBounded top i (Pc.load_max cur) g h b = elim (Bool-cases (leb g.max cur)) [
  | inl full ↦ rw full (move-IsBounded top i Pc.reject g tt b)
  | inr room ↦
      let below : cur < top = ground (arith, b.max_le) in
      rw room (move-IsBounded top i (Pc.swap_up cur) g below b)
]
resume-IsBounded top i Pc.reject g h b =
    move-IsBounded top i Pc.idle (record g { rejected = add64 g.rejected 1 }) tt
      (record { max_le = b.max_le; current_le = b.current_le; balanced = b.balanced; fit = b.fit })
resume-IsBounded top i (Pc.swap_up cur) g h b = elim (Bool-cases (g.current == cur)) [
  | inl same ↦ rw same (record {
    max_le = b.max_le;
    current_le = omega (arith, h);
    balanced = ground (arith, b.balanced);
    fit = AllFit-set top g.goroutines i Pc.idle tt b.fit;
  })
  | inr moved ↦ rw moved (move-IsBounded top i Pc.load_current g tt b)
]
resume-IsBounded top i Pc.load_release g h b = elim (Bool-cases (g.current == 0)) [
  | inl none_there ↦ rw none_there (move-IsBounded top i Pc.idle g tt b)
  | inr some_there ↦
      let above : 0 < g.current = ground arith in
      rw some_there (move-IsBounded top i (Pc.swap_down g.current) g above b)
]
resume-IsBounded top i (Pc.swap_down cur) g h b = elim (Bool-cases (g.current == cur)) [
  | inl same ↦ rw same (record {
    max_le = b.max_le;
    current_le = ground (arith, b.current_le);
    balanced = ground (arith, b.balanced, h);
    fit = AllFit-set top g.goroutines i Pc.idle tt b.fit;
  })
  | inr moved ↦ rw moved (move-IsBounded top i Pc.load_release g tt b)
]

-- the maxima that a schedule sets stay at most `top`
unfoldable pub MaximaWithin : ℕ → List Event → Type 0
MaximaWithin top [] = Unit
MaximaWithin top (Event.set_maximum max ∷ es) = (pos_part max ≤ top) × MaximaWithin top es
MaximaWithin top (e ∷ es) = MaximaWithin top es

begin-IsBounded :
    (top i : ℕ) (pc : Pc) (at : Option Pc) (g : Gate)
    → Fits top pc
    → IsBounded top g
    → IsBounded top (begin i pc at g)
unfolding begin go_to
begin-IsBounded top i pc none g h b = b
begin-IsBounded top i pc (some Pc.idle) g h b = move-IsBounded top i pc g h b
begin-IsBounded top i pc (some Pc.load_current) g h b = b
begin-IsBounded top i pc (some Pc.reject) g h b = b
begin-IsBounded top i pc (some Pc.load_release) g h b = b
begin-IsBounded top i pc (some (Pc.load_max cur)) g h b = b
begin-IsBounded top i pc (some (Pc.swap_up cur)) g h b = b
begin-IsBounded top i pc (some (Pc.swap_down cur)) g h b = b

step-IsBounded : (top i : ℕ) (g : Gate) → IsBounded top g → IsBounded top (act (Event.step i) g)
unfolding act
step-IsBounded top i g b = elim (Option-cases (get_elem? g.goroutines i)) [
  | inl e ↦ rw (e, act) b
  | inr (pc, e) ↦
      rw (e, act) (resume-IsBounded top i pc g (AllFit-get top g.goroutines i pc b.fit e) b)
]

run-IsBounded :
    (top : ℕ) (es : List Event) (g : Gate)
    → MaximaWithin top es
    → IsBounded top g
    → IsBounded top (run es g)
unfolding run act MaximaWithin Fits set_max
run-IsBounded top [] g within b = b
run-IsBounded top (Event.try_acquire i ∷ es) g within b =
    run-IsBounded top es (act (Event.try_acquire i) g) within
      (begin-IsBounded top i Pc.load_current (get_elem? g.goroutines i) g tt b)
run-IsBounded top (Event.release i ∷ es) g within b =
    run-IsBounded top es (act (Event.release i) g) within
      (begin-IsBounded top i Pc.load_release (get_elem? g.goroutines i) g tt b)
run-IsBounded top (Event.step i ∷ es) g within b =
    run-IsBounded top es (act (Event.step i) g) within (step-IsBounded top i g b)
run-IsBounded top (Event.set_maximum max ∷ es) g within b =
    run-IsBounded top es (set_max max g) within.1
      (record { max_le = within.0; current_le = b.current_le; balanced = b.balanced; fit = b.fit })

-- From a new gate with idle goroutines, under every interleaving of the atomic operations of `TryAcquire` and
-- `Release`, with calls of `SetMax` that stay at most `top`: the number in flight is the number of accepted
-- calls less the releases that returned true, and at most `top`.
pub in_flight_le :
    (top : ℕ) (max_concurrent : ℤ) (gs : List Pc) (es : List Event)
    → pos_part max_concurrent ≤ top
    → AllIdle gs
    → MaximaWithin top es
    → ((run es (new max_concurrent gs)).current + (run es (new max_concurrent gs)).released
        ≡ (run es (new max_concurrent gs)).accepted)
      × ((run es (new max_concurrent gs)).current ≤ top)
unfolding new
in_flight_le top max_concurrent gs es small all_idle within =
    let b = run-IsBounded top es (new max_concurrent gs) within (record {
      max_le = small;
      current_le = omega arith;
      balanced = refl;
      fit = AllIdle-AllFit top gs all_idle;
    }) in
    (b.balanced, b.current_le)
