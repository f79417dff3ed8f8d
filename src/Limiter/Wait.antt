-- ===== src/Limiter/Wait.antt =====
-- The polling loop of `Wait`, for any limiter.
use kit4go.Limiter.{Ops, Poll, acquired, polling, wait_loop, wait}
use kit4go.Common.{ℕ, ◌≡◌, ◌≢◌, inl, inr, Bool, true, List, [], ◌∷◌, ◌++◌, arith, Bool-cases}

module _ {S : Type 0} (ops : Ops S) where
  open ops use {allow, is_closed}

  -- A poll that finds the limiter closed, whatever came before it, ends the wait.
  loop-ne-polling :
      (ps : List (Poll S)) (p : Poll S) (qs : List (Poll S))
      → ((s : S) → is_closed (p.before s) ≡ true)
      → (s : S) → (wait_loop ops (ps ++ p ∷ qs) s).0 ≢ polling
  unfolding wait_loop
  loop-ne-polling [] p qs h s = ground (arith, h s)
  loop-ne-polling (q ∷ ps) p qs h s =
      ground (arith, loop-ne-polling ps p qs h (allow q.now (q.during (q.before s))).1)

  -- A `Wait` that meets a closed limiter at one of its polls returns, whatever happened before.
  pub wait_wakes_on_close :
      (ctx_done : Bool) (now : ℕ) (ps : List (Poll S)) (p : Poll S) (qs : List (Poll S))
      → ((s : S) → is_closed (p.before s) ≡ true)
      → (s : S) → (wait ops ctx_done now (ps ++ p ∷ qs) s).0 ≢ polling
  unfolding wait
  wait_wakes_on_close ctx_done now ps p qs h s =
      ground (arith, loop-ne-polling ps p qs h (allow now s).1)

  -- a call of `Allow` that granted a token and left `s'`, from a state where `P` holds
  abbrev pub Granted : (S → Type 0) → S → Type 0
  Granted P s' = (now : ℕ) × (s : S) × P s × (allow now s ≡ (true, s'))

  module _ (P : S → Type 0) (keeps : (now : ℕ) (s : S) → P s → P (allow now s).1) where
    -- What the other goroutines do keeps `P` too.
    abbrev pub Keep : List (Poll S) → Type 0
    Keep [] = Unit
    Keep (p ∷ ps) = ((s : S) → P s → P (p.before s)) × ((s : S) → P s → P (p.during s)) × Keep ps

    loop-Granted :
        (ps : List (Poll S)) (s s' : S)
        → Keep ps
        → P s
        → wait_loop ops ps s ≡ (acquired, s')
        → Granted P s'
    unfolding wait_loop
    loop-Granted [] s s' k h e = ground arith
    loop-Granted (p ∷ ps) s s' k h e =
        let t = p.during (p.before s) in
        let ht : P t = k.1 (p.before s) (k.0 s h) in
        elim (Bool-cases (allow p.now t).0) [
          | inl ok ↦ (p.now, t, ht, ground arith)
          | inr refused ↦ loop-Granted ps (allow p.now t).1 s' k.2 (keeps p.now t ht) (ground arith)
        ]

    -- A `Wait` that returns nil ends with a call of `Allow` that granted its token, from a state where
    -- `P` holds, if it holds at first and other goroutines and the calls of `Allow` keep it.
    pub wait-Granted :
        (ctx_done : Bool) (now : ℕ) (ps : List (Poll S)) (s s' : S)
        → Keep ps
        → P s
        → wait ops ctx_done now ps s ≡ (acquired, s')
        → Granted P s'
    unfolding wait
    wait-Granted ctx_done now ps s s' k h e = elim (Bool-cases (allow now s).0) [
      | inl ok ↦ (now, s, h, ground arith)
      | inr refused ↦ loop-Granted ps (allow now s).1 s' k (keeps now s h) (ground arith)
    ]
