-- ===== src/Buckets/Tracks.antt =====
-- A ring that tracks a history: `hits s` is what was charged to second `s`.
use kit4go.Buckets.{Ring, round, roll, clear_all, advance, charge}
use kit4go.Buckets.Span.{
  span, span_zero, bump, span-bump, span_slide, list_sum, list_sum-set, list_sum-replicate,
  get_or-replicate,
}
use native.Mathlib.Nat.{mod-lt, add-mod_right}
use kit4go.Common.{
  ℕ, zero, suc, ◌+◌, ◌-◌, ◌%◌, ◌≤◌, ◌<◌, max, ◌≡◌, sym, ap, ◌∙◌, inl, inr, List, [], ◌∷◌, arith,
  ℕ_discrete, leb, Bool-cases, length, set, length-set, get_or, replicate, length-replicate,
  get_or-set_self, get_or-set_ne, mod-ne,
}

-- The slots hold the last `n` seconds up to `base`, and `sum` is their total. `started` says that
-- the clock is at least `n - 1` seconds past the epoch.
pub record Tracks (n : ℕ) (hits : ℕ → ℕ) (r : Ring) : Type 0 where
  pub size : length r.counts ≡ n
  pub positive : 0 < n
  pub started : n ≤ r.base + 1
  pub slots : (s : ℕ) → s ≤ r.base → r.base < s + n → get_or r.counts (s % n) 0 ≡ hits s
  pub future : (s : ℕ) → r.base < s → hits s ≡ 0
  pub total : r.sum ≡ list_sum r.counts
  pub recent : r.sum ≡ span hits (r.base + 1 - n) n

module _ {n : ℕ} {hits : ℕ → ℕ} where
  -- the slot that one round clears held the second that leaves the window
  oldest-slot :
      {r : Ring} → Tracks n hits r → get_or r.counts ((r.base + 1) % n) 0 ≡ hits (r.base + 1 - n)
  oldest-slot {r} t =
      ap (λ i. get_or r.counts i 0) same ∙ t.slots (r.base + 1 - n) (omega arith) (omega arith)
    where
      same : (r.base + 1) % n ≡ (r.base + 1 - n) % n
      same =
          let e : r.base + 1 ≡ r.base + 1 - n + n = omega arith in
          ap (λ m. m % n) e ∙ add-mod_right (r.base + 1 - n) n

  round-Tracks : {r : Ring} → Tracks n hits r → Tracks n hits (round n r)
  unfolding round
  round-Tracks {r} t = record {
    size = length-set r.counts ((r.base + 1) % n) 0 ∙ t.size;
    positive = t.positive;
    started = omega (arith, t.started);
    slots = λ s le lt. elim (ℕ_discrete s (r.base + 1)) [
      | yes e ↦
          ap (λ m. get_or (set r.counts ((r.base + 1) % n) 0) (m % n) 0) e
          ∙ get_or-set_self r.counts ((r.base + 1) % n) 0 0 slot-lt
          ∙ sym (t.future s (omega arith))
      | no ne ↦
          get_or-set_ne r.counts 0 0
            (λ e. mod-ne s (r.base + 1) n (omega arith) (omega arith) (sym e))
          ∙ t.slots s (omega arith) (omega arith)
    ];
    future = λ s h. t.future s (omega arith);
    total = omega (arith, t.total, list_sum-set r.counts ((r.base + 1) % n) 0 slot-lt);
    recent =
        let e : r.base + 1 + 1 - n ≡ suc (r.base + 1 - n) = omega (arith, t.started) in
        rw e (omega (arith, t.recent, oldest-slot t, slide));
  }
    where
      slot-lt : (r.base + 1) % n < length r.counts
      slot-lt = omega (arith, mod-lt (r.base + 1) t.positive, t.size)

      slide :
          span hits (r.base + 1 - n) n ≡ hits (r.base + 1 - n) + span hits (suc (r.base + 1 - n)) n
      slide = span_slide hits (r.base + 1 - n) n t.positive (t.future _ (omega (arith, t.started)))

  roll-Tracks : (k : ℕ) {r : Ring} → Tracks n hits r → Tracks n hits (roll n k r)
  unfolding roll
  roll-Tracks zero t = t
  roll-Tracks (suc k) t = roll-Tracks k (round-Tracks t)

clear_all-eq :
    (cs : List ℕ) (sum : ℕ) → clear_all cs sum ≡ (replicate (length cs) 0, sum - list_sum cs)
unfolding clear_all list_sum
clear_all-eq [] sum = ap (λ k. ([], k)) (omega arith)
clear_all-eq (c ∷ cs) sum =
    rw (clear_all-eq cs (sum - c)) (ap (λ k. (0 ∷ replicate (length cs) 0, k)) (omega arith))

base-roll : (n k : ℕ) (r : Ring) → (roll n k r).base ≡ r.base + k
unfolding roll
base-roll n zero r = omega arith
base-roll n (suc k) r = omega (arith, base-roll n k (round n r))

module _ {n : ℕ} {hits : ℕ → ℕ} where
  -- A full window has elapsed.
  cleared-Tracks :
      (sec : ℕ) {r : Ring}
      → Tracks n hits r
      → r.base + n ≤ sec
      → Tracks n hits (record { counts = replicate n 0; base = sec; sum = 0 })
  cleared-Tracks sec {r} t h = record {
    size = length-replicate n 0;
    positive = t.positive;
    started = omega (arith, t.started);
    slots = λ s le lt. get_or-replicate n (s % n) ∙ sym (t.future s (omega arith));
    future = λ s lt. t.future s (omega (arith, t.positive));
    total = sym (list_sum-replicate n);
    recent = sym (span_zero hits (sec + 1 - n) n (λ s le. t.future s (omega arith)));
  }

  -- `advance` keeps the history.
  pub advance-Tracks : (sec : ℕ) {r : Ring} → Tracks n hits r → Tracks n hits (advance n sec r)
  unfolding advance
  advance-Tracks sec {r} t = elim (Bool-cases (leb sec r.base)) [
    | inl old ↦ rw old t
    | inr new ↦ elim (Bool-cases (leb n (sec - r.base))) [
      | inl far ↦
          rw (new, far, clear_all-eq r.counts r.sum, t.size, t.total, nothing_left)
            (cleared-Tracks sec t (ground (arith, t.positive)))
      | inr near ↦ rw (new, near) (roll-Tracks (sec - r.base) t)
    ]
  ]
    where
      nothing_left : list_sum r.counts - list_sum r.counts ≡ 0
      nothing_left = omega arith

  -- a charge to the newest second
  pub charge-Tracks :
      (k : ℕ) {r : Ring} → Tracks n hits r → Tracks n (bump hits r.base k) (charge n r.base k r)
  unfolding charge
  charge-Tracks k {r} t = record {
    size = length-set r.counts (r.base % n) _ ∙ t.size;
    positive = t.positive;
    started = t.started;
    slots = λ s le lt. elim (ℕ_discrete s r.base) [
      | yes e ↦
          ap (λ m. get_or (set r.counts (r.base % n) v) (m % n) 0) e
          ∙ get_or-set_self r.counts (r.base % n) v 0 slot-lt
          ∙ ground (arith, t.slots r.base, t.positive)
      | no ne ↦
          get_or-set_ne r.counts v 0 (λ e. mod-ne s r.base n (omega arith) (omega arith) (sym e))
          ∙ ground (arith, t.slots s le lt)
    ];
    future = λ s lt. ground (arith, t.future s);
    total = omega (
      arith,
      t.total,
      list_sum-set r.counts (r.base % n) (get_or r.counts (r.base % n) 0 + k) slot-lt,
    );
    recent =
        omega (arith, t.recent, span-bump hits r.base k (r.base + 1 - n) n, t.positive, t.started);
  }
    where
      v : ℕ
      v = get_or r.counts (r.base % n) 0 + k

      slot-lt : r.base % n < length r.counts
      slot-lt = omega (arith, mod-lt r.base t.positive, t.size)

-- `base` never goes back.
pub base-advance : (n sec : ℕ) (r : Ring) → (advance n sec r).base ≡ max r.base sec
unfolding advance
base-advance n sec r = ground (arith, base-roll n (sec - r.base) r)
