-- ===== src/Buckets/History.antt =====
-- A history as a list of charges, newest first: what a ring's running sum stands for.
use kit4go.Buckets.{Ring, advance, charge}
use kit4go.Buckets.Span.{
  span, span_zero, bump, span-bump, span-bump_outside, list_sum-replicate, get_or-replicate,
}
use kit4go.Buckets.Tracks.{Tracks, advance-Tracks, charge-Tracks, base-advance}
use kit4go.Common.{
  ℕ, ◌+◌, ◌-◌, ◌%◌, ◌≤◌, ◌<◌, ◌≡◌, refl, sym, ◌∙◌, inl, inr, List, [], ◌∷◌, arith, ltb,
  if◌then◌else◌, ltb→lt, Bool-cases, replicate, length-replicate,
}

-- a charge: the second that it went to, and its size
abbrev pub Charge : Type 0
Charge = ℕ × ℕ

abbrev pub hits_of : List Charge → ℕ → ℕ
hits_of [] s = 0
hits_of ((t, k) ∷ log) s = bump (hits_of log) t k s

-- what was charged less than `n` seconds before `base`, or later
pub recent_total : ℕ → ℕ → List Charge → ℕ
recent_total n base [] = 0
recent_total n base ((t, k) ∷ log) = (if ltb base (t + n) then k else 0) + recent_total n base log

-- no charge lies after `base`
abbrev pub AllBy : ℕ → List Charge → Type 0
AllBy base [] = Unit
AllBy base ((t, k) ∷ log) = (t ≤ base) × AllBy base log

pub AllBy-mono : (a b : ℕ) (log : List Charge) → a ≤ b → AllBy a log → AllBy b log
AllBy-mono a b [] h l = tt
AllBy-mono a b ((t, k) ∷ log) h l = (omega (arith, l.0), AllBy-mono a b log h l.1)

pub span-recent_total :
    (n base : ℕ) (log : List Charge)
    → n ≤ base + 1
    → AllBy base log
    → span (hits_of log) (base + 1 - n) n ≡ recent_total n base log
unfolding recent_total
span-recent_total n base [] h l = span_zero (λ s. 0) (base + 1 - n) n (λ s le. refl)
span-recent_total n base ((t, k) ∷ log) h l = elim (Bool-cases (ltb base (t + n))) [
  | inl live ↦ rw live (
      omega (
        arith,
        span-bump (hits_of log) t k (base + 1 - n) n,
        ltb→lt base (t + n) live,
        l.0,
        span-recent_total n base log h l.1,
      ))
  | inr old ↦ rw old (
      omega (
        arith,
        span-bump_outside (hits_of log) t k (base + 1 - n) n (ground arith),
        span-recent_total n base log h l.1,
      ))
]

-- A ring that tracks a log: its sum is what was charged in the last `n` seconds.
pub record Logs (n : ℕ) (log : List Charge) (r : Ring) : Type 0 where
  pub tracks : Tracks n (hits_of log) r
  pub by_base : AllBy r.base log

pub Logs-sum :
    {n : ℕ} {log : List Charge} {r : Ring} → Logs n log r → r.sum ≡ recent_total n r.base log
Logs-sum {n} {log} {r} l =
    l.tracks.recent ∙ span-recent_total n r.base log l.tracks.started l.by_base

pub Logs-new :
    (n now : ℕ)
    → 0 < n
    → n ≤ now + 1
    → Logs n [] (record { counts = replicate n 0; base = now; sum = 0 })
Logs-new n now h s = record {
  tracks = record {
    size = length-replicate n 0;
    positive = h;
    started = s;
    slots = λ t le lt. get_or-replicate n (t % n);
    future = λ t lt. refl;
    total = sym (list_sum-replicate n);
    recent = sym (span_zero (λ t. 0) (now + 1 - n) n (λ t le. refl));
  };
  by_base = tt;
}

module _ {n : ℕ} {log : List Charge} {r : Ring} where
  pub advance-Logs : (sec : ℕ) → Logs n log r → Logs n log (advance n sec r)
  advance-Logs sec l = record {
    tracks = advance-Tracks sec l.tracks;
    by_base = AllBy-mono r.base _ log (omega (arith, base-advance n sec r)) l.by_base;
  }

  pub charge-Logs : (k : ℕ) → Logs n log r → Logs n ((r.base, k) ∷ log) (charge n r.base k r)
  unfolding charge
  charge-Logs k l = record { tracks = charge-Tracks k l.tracks; by_base = (omega arith, l.by_base) }

-- A later second sees no more of the same log.
pub recent_total-anti :
    (n a b : ℕ) (log : List Charge) → a ≤ b → recent_total n b log ≤ recent_total n a log
unfolding recent_total
recent_total-anti n a b [] h = omega arith
recent_total-anti n a b ((t, k) ∷ log) h = ground (arith, recent_total-anti n a b log h)

-- Rolling the ring forward never raises the sum.
pub sum-advance-le :
    {n : ℕ} {log : List Charge} {r : Ring} (sec : ℕ) → Logs n log r → (advance n sec r).sum ≤ r.sum
sum-advance-le {n} {log} {r} sec l = omega (
  arith,
  Logs-sum l,
  Logs-sum (advance-Logs sec l),
  recent_total-anti n r.base (advance n sec r).base log (omega (arith, base-advance n sec r)),
)
