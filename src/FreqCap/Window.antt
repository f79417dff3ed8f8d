-- ===== src/FreqCap/Window.antt =====
-- Trimming loses no event that a later window can hold.
use kit4go.FreqCap.{trim_before, trim_in_place, is_idle}
use kit4go.Common.{
  ℕ, suc, ◌+◌, ◌≤◌, ◌≡◌, refl, true, List, [], ◌∷◌, ◌++◌, arith, ltb, if◌then◌else◌, length,
  length-append, drop, length-drop,
}

-- how many of the events lie in the window that ends now
unfoldable pub recent : ℕ → ℕ → List ℕ → ℕ
recent window now [] = 0
recent window now (t ∷ ts) =
    let rest = recent window now ts in if ltb (t + window) now then rest else suc rest

pub recent-le-length : (window now : ℕ) (ts : List ℕ) → recent window now ts ≤ length ts
unfolding recent
recent-le-length window now [] = omega arith
recent-le-length window now (t ∷ ts) = ground (arith, recent-le-length window now ts)

pub recent-trim_before :
    (window now later : ℕ) (ts : List ℕ)
    → now ≤ later
    → recent window later (trim_before window now ts) ≡ recent window later ts
unfolding recent trim_before
recent-trim_before window now later [] le = refl
recent-trim_before window now later (t ∷ ts) le =
    ground (arith, recent-trim_before window now later ts le)

pub length-trim_before :
    (window now : ℕ) (ts : List ℕ) → length (trim_before window now ts) ≤ length ts
unfolding trim_before
length-trim_before window now [] = omega arith
length-trim_before window now (t ∷ ts) = ground (arith, length-trim_before window now ts)

pub recent-append :
    (window now : ℕ) (ts us : List ℕ)
    → recent window now (ts ++ us) ≡ recent window now ts + recent window now us
unfolding recent
recent-append window now [] us = omega arith
recent-append window now (t ∷ ts) us = ground (arith, recent-append window now ts us)

pub recent-cons :
    (window now t : ℕ) (ts : List ℕ)
    → recent window now (t ∷ ts) ≡ recent window now (t ∷ []) + recent window now ts
unfolding recent
recent-cons window now t ts = ground arith

-- A key that is idle holds nothing that a later window can hold.
pub recent-is_idle :
    (window now later : ℕ) (ts : List ℕ)
    → now ≤ later
    → is_idle window now ts ≡ true
    → recent window later ts ≡ 0
unfolding is_idle
recent-is_idle window now later ts le idle =
    let kept = recent-trim_before window now later ts le in
    let few = recent-le-length window later (trim_before window now ts) in
    let none_left : length (trim_before window now ts) ≡ 0 = ground arith in omega arith

-- Trimming in place loses nothing of a later window, and keeps the length.
pub recent-trim_in_place :
    (window now later : ℕ) (ts : List ℕ)
    → now ≤ later
    → recent window later ts ≤ recent window later (trim_in_place window now ts)
unfolding trim_in_place
recent-trim_in_place window now later ts le =
    let kept = trim_before window now ts in
    omega (
      arith,
      recent-trim_before window now later ts le,
      recent-append window later kept (drop (length kept) ts),
    )

pub length-trim_in_place :
    (window now : ℕ) (ts : List ℕ) → length (trim_in_place window now ts) ≡ length ts
unfolding trim_in_place
length-trim_in_place window now ts =
    let kept = trim_before window now ts in
    omega (
      arith,
      length-append kept (drop (length kept) ts),
      length-drop (length kept) ts,
      length-trim_before window now ts,
    )
