-- ===== src/Buckets/Span.antt =====
-- Sums over a run of seconds, and sums of a list of counters.
use native.Mathlib.Nat.{add-suc, suc-add}
use kit4go.Common.{
  ℕ, zero, suc, ◌+◌, ◌≤◌, ◌<◌, ◌≡◌, refl, ap, List, [], ◌∷◌, arith, ℕ_discrete, ◌==◌, if◌then◌else◌,
  length, set, get_or, replicate,
}

-- the hits in the `n` seconds from `lo` on
abbrev pub span : (ℕ → ℕ) → ℕ → ℕ → ℕ
span hits lo zero = 0
span hits lo (suc n) = hits lo + span hits (suc lo) n

pub span_snoc : (hits : ℕ → ℕ) (lo n : ℕ) → span hits lo (suc n) ≡ span hits lo n + hits (lo + n)
span_snoc hits lo zero = let e : lo + 0 ≡ lo = omega arith in rw e (omega arith)
span_snoc hits lo (suc n) = rw (add-suc, ← suc-add) (omega (arith, span_snoc hits (suc lo) n))

-- The run one second later, where the second that it gains had no hits.
pub span_slide :
    (hits : ℕ → ℕ) (lo n : ℕ)
    → 0 < n
    → hits (lo + n) ≡ 0
    → span hits lo n ≡ hits lo + span hits (suc lo) n
span_slide hits lo zero h e = elim h [ ]
span_slide hits lo (suc n) h e =
    let last : suc lo + n ≡ lo + suc n = omega arith in
    omega (arith, span_snoc hits (suc lo) n, ap hits last, e)

pub span_zero : (hits : ℕ → ℕ) (lo n : ℕ) → ((s : ℕ) → lo ≤ s → hits s ≡ 0) → span hits lo n ≡ 0
span_zero hits lo zero h = refl
span_zero hits lo (suc n) h =
    omega (arith, h lo (omega arith), span_zero hits (suc lo) n (λ s p. h s (omega arith)))

-- `hits` with `k` more at second `t`
abbrev pub bump : (ℕ → ℕ) → ℕ → ℕ → ℕ → ℕ
bump hits t k s = if s == t then hits s + k else hits s

pub span-bump_outside :
    (hits : ℕ → ℕ) (t k lo n : ℕ) → t < lo → span (bump hits t k) lo n ≡ span hits lo n
span-bump_outside hits t k lo zero h = refl
span-bump_outside hits t k lo (suc n) h = ground (arith, span-bump_outside hits t k (suc lo) n)

pub span-bump :
    (hits : ℕ → ℕ) (t k lo n : ℕ)
    → lo ≤ t
    → t < lo + n
    → span (bump hits t k) lo n ≡ span hits lo n + k
span-bump hits t k lo zero h l = absurd (omega arith)
span-bump hits t k lo (suc n) h l = elim (ℕ_discrete lo t) [
  | yes e ↦ ground (arith, span-bump_outside hits t k (suc lo) n)
  | no ne ↦ ground (arith, span-bump hits t k (suc lo) n)
]

unfoldable pub list_sum : List ℕ → ℕ
list_sum [] = 0
list_sum (x ∷ xs) = x + list_sum xs

pub list_sum-set :
    (xs : List ℕ) (i v : ℕ)
    → i < length xs
    → list_sum (set xs i v) + get_or xs i 0 ≡ list_sum xs + v
unfolding list_sum
list_sum-set [] i v h = elim h [ ]
list_sum-set (x ∷ xs) zero v h = omega arith
list_sum-set (x ∷ xs) (suc i) v h = omega (arith, list_sum-set xs i v)

pub list_sum-replicate : (n : ℕ) → list_sum (replicate n 0) ≡ 0
unfolding list_sum
list_sum-replicate zero = refl
list_sum-replicate (suc n) = omega (arith, list_sum-replicate n)

pub get_or-replicate : (n i : ℕ) → get_or {A = ℕ} (replicate n 0) i 0 ≡ 0
get_or-replicate zero i = refl
get_or-replicate (suc n) zero = refl
get_or-replicate (suc n) (suc i) = get_or-replicate n i
