-- ===== src/Breaker/Window/History.antt =====
-- The breaker's window against a history: its two rings are those of Buckets, and their sums are the
-- calls and the failures of the last `n` seconds.
use kit4go.Buckets
use kit4go.Buckets.{Ring, charge}
use kit4go.Buckets.Tracks.{base-advance}
use kit4go.Buckets.History.{Charge, Logs, Logs-new, advance-Logs, charge-Logs}
use kit4go.Breaker.Window.{
  Window, round, roll, clear_both, advance, record_at, record_window, fresh,
}
use kit4go.Common.{
  ℕ, zero, suc, ◌+◌, ◌-◌, ◌%◌, ◌≤◌, ◌<◌, max, ◌≡◌, refl, sym, ap, ap₂, ◌∙◌, inl, inr, Bool, true,
  false, List, [], ◌∷◌, arith, ltb, leb, if◌then◌else◌, Bool-cases, length, subst,
}

abbrev pub calls : Window → Ring
calls w = record { counts = w.counts; base = w.base; sum = w.sum_total }

abbrev pub failed_calls : Window → Ring
failed_calls w = record { counts = w.fails; base = w.base; sum = w.sum_fail }

roll-rings :
    (n k : ℕ) (w : Window)
    → (calls (roll n k w) ≡ Buckets.roll n k (calls w))
      × (failed_calls (roll n k w) ≡ Buckets.roll n k (failed_calls w))
unfolding roll Buckets.roll
roll-rings n zero w = (refl, refl)
roll-rings n (suc k) w = roll-rings n k (round n w)

clear_both-rings :
    (cs fs : List ℕ) (total fail : ℕ)
    → length fs ≡ length cs
    → let (cs', fs', total', fail') = clear_both cs fs total fail in
      ((cs', total') ≡ Buckets.clear_all cs total) × ((fs', fail') ≡ Buckets.clear_all fs fail)
unfolding clear_both Buckets.clear_all
clear_both-rings [] [] total fail e = (refl, refl)
clear_both-rings [] (f ∷ fs) total fail e = absurd (omega arith)
clear_both-rings (c ∷ cs) [] total fail e = absurd (omega arith)
clear_both-rings (c ∷ cs) (f ∷ fs) total fail e =
    let (l, r) = clear_both-rings cs fs (total - c) (fail - f) (omega arith) in
    (ap (λ p. (0 ∷ p.0, p.1)) l, ap (λ p. (0 ∷ p.0, p.1)) r)

advance-rings :
    (sec : ℕ) (w : Window)
    → length w.fails ≡ length w.counts
    → (calls (advance sec w) ≡ Buckets.advance (length w.counts) sec (calls w))
      × (failed_calls (advance sec w) ≡ Buckets.advance (length w.counts) sec (failed_calls w))
unfolding advance Buckets.advance
advance-rings sec w e = elim (Bool-cases (leb sec w.base)) [
  | inl old ↦ rw old (refl, refl)
  | inr new ↦ elim (Bool-cases (leb (length w.counts) (sec - w.base))) [
    | inl far ↦
        let (l, r) = clear_both-rings w.counts w.fails w.sum_total w.sum_fail e in
        rw (new, far)
          (
            λ i. record { counts = (l i).0; base = sec; sum = (l i).1 },
            λ i. record { counts = (r i).0; base = sec; sum = (r i).1 },
          )
    | inr near ↦ rw (new, near) (roll-rings (length w.counts) (sec - w.base) w)
  ]
]

-- The window holds the log of all calls and the log of those that failed.
pub record Holds (n : ℕ) (all bad : List Charge) (w : Window) : Type 0 where
  pub calls_held : Logs n all (calls w)
  pub fails_held : Logs n bad (failed_calls w)

pub fresh-Holds : (n now_sec : ℕ) → 0 < n → n ≤ now_sec + 1 → Holds n [] [] (fresh n now_sec)
unfolding fresh
fresh-Holds n now_sec h s = record {
  calls_held = Logs-new n now_sec h s;
  fails_held = Logs-new n now_sec h s;
}

module _ {n : ℕ} {all bad : List Charge} {w : Window} (h : Holds n all bad w) where
  pub advance-Holds : (sec : ℕ) → Holds n all bad (advance sec w)
  advance-Holds sec = record {
    calls_held =
        subst (Logs n all)
          (sym (rings.0 ∙ ap (λ m. Buckets.advance m sec (calls w)) h.calls_held.tracks.size))
          (advance-Logs sec h.calls_held);
    fails_held =
        subst (Logs n bad)
          (sym
            (rings.1 ∙ ap (λ m. Buckets.advance m sec (failed_calls w)) h.calls_held.tracks.size))
          (advance-Logs sec h.fails_held);
  }
    where
      rings :
          (calls (advance sec w) ≡ Buckets.advance (length w.counts) sec (calls w))
          × (failed_calls (advance sec w) ≡ Buckets.advance (length w.counts) sec (failed_calls w))
      rings = advance-rings sec w (h.fails_held.tracks.size ∙ sym h.calls_held.tracks.size)

  pub base-advance_window : (sec : ℕ) → (advance sec w).base ≡ max w.base sec
  base-advance_window sec =
      ap (λ (r : Ring). r.base)
        (advance-rings sec w (h.fails_held.tracks.size ∙ sym h.calls_held.tracks.size)).0
      ∙ base-advance (length w.counts) sec (calls w)

  record_at-Holds :
      (success : Bool)
      → Holds n
          ((w.base, 1) ∷ all)
          (if success then bad else (w.base, 1) ∷ bad)
          (record_at (w.base % n) success w)
  unfolding record_at charge
  record_at-Holds true = record {
    calls_held = charge-Logs 1 h.calls_held;
    fails_held = h.fails_held;
  }
  record_at-Holds false = record {
    calls_held = charge-Logs 1 h.calls_held;
    fails_held = charge-Logs 1 h.fails_held;
  }

module _ {n : ℕ} {all bad : List Charge} {w : Window} (h : Holds n all bad w) where
  -- `recordWindow` adds one call at the newest second, and one failure unless it succeeded.
  pub record_window-Holds :
      (success : Bool) (sec : ℕ)
      → let w' = record_window success sec w in
        Holds n ((w'.base, 1) ∷ all) (if success then bad else (w'.base, 1) ∷ bad) w'
  unfolding record_window record_at
  record_window-Holds success sec =
      subst
        (λ i.
          Holds n ((v.base, 1) ∷ all) (if success then bad else (v.base, 1) ∷ bad)
            (record_at i success v))
        (sym slot) (record_at-Holds hv success)
    where
      v : Window
      v = advance sec w

      hv : Holds n all bad v
      hv = advance-Holds h sec

      slot : (if ltb sec v.base then v.base else sec) % length v.counts ≡ v.base % n
      slot =
          ap₂ (λ a b. a % b) (ground (arith, base-advance_window h sec)) hv.calls_held.tracks.size
