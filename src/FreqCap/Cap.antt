-- ===== src/FreqCap/Cap.antt =====
-- The cap of freqcap/freqcap.go: no window of a key holds more than `maxEvents` events that were allowed.
use kit4go.FreqCap
use kit4go.FreqCap.{Counter, or_nil, trim_before, is_idle, evict_idle, events, grant}
use kit4go.FreqCap.Window.{recent, recent-le-length, length-trim_before}
use kit4go.FreqCap.Keys.{events-known, put_known-IsValid, evict_idle-IsValid, grant-IsValid}
use kit4go.Common.Assoc.{lookup}
use kit4go.Common.{
  ℕ, ◌≤◌, ◌<◌, ◌≡◌, refl, ap, inl, inr, true, ◌&&◌, List, [], ◌∷◌, ◌++◌, arith, ltb, leb, ◌==◌,
  if◌then◌else◌, Bool-cases, Option-cases, length,
}
use kit4go.FreqCap.Tracks.{
  empty_counter, logged, Tracks, empty-Tracks, advance-Tracks, evict-Tracks, put-Tracks,
  erase-Tracks, grant-Tracks, trimmed_kept,
}

-- a call, with the clock that it reads
pub data Call (K : Type 0) : Type 0 where
  allow count : K → ℕ → Call K

abbrev pub clock_of : {K : Type 0} → Call K → ℕ
clock_of (Call.allow k now) = now
clock_of (Call.count k now) = now

-- clocks that do not go back, from `start` on
abbrev pub Ordered : {K : Type 0} → ℕ → List (Call K) → Type 0
Ordered start [] = Unit
Ordered start (c ∷ cs) = (start ≤ clock_of c) × Ordered (clock_of c) cs

-- the clock of the last call
abbrev pub last_clock : {K : Type 0} → ℕ → List (Call K) → ℕ
last_clock start [] = start
last_clock start (c ∷ cs) = last_clock (clock_of c) cs

is_zero : {n : ℕ} → (n == 0) ≡ true → n ≡ 0
is_zero e = ground arith

module _ {K : Type 0} (dec : Discrete K) where
  -- a call, and the log with the event if it was allowed
  unfoldable pub step : Call K → Counter K × List (K × ℕ) → Counter K × List (K × ℕ)
  step (Call.allow k now) (c, log) =
      let (ok, c') = FreqCap.allow dec k now c in (c', if ok then (k, now) ∷ log else log)
  step (Call.count k now) (c, log) = ((FreqCap.count dec k now c).1, log)

  unfoldable pub run : List (Call K) → Counter K × List (K × ℕ) → Counter K × List (K × ℕ)
  run [] s = s
  run (c ∷ cs) s = run cs (step c s)

  step-Tracks :
      (window most now : ℕ) (log : List (K × ℕ)) (c : Counter K) (x : Call K)
      → 0 < most
      → now ≤ clock_of x
      → Tracks dec window most now log c
      → Tracks dec window most (clock_of x) (step x (c, log)).1 (step x (c, log)).0
  unfolding step FreqCap.allow FreqCap.count
  step-Tracks window most now log c (Call.allow k now') some_event le t₀ =
      let t = advance-Tracks dec window most now now' log c le t₀ in
      let trimmed = trim_before c.window now' (events dec k c) in
      let c' = evict_idle now' c in
      let here : (later : ℕ)
          → now' ≤ later
          → recent window later (logged dec k log) ≤ recent window later trimmed =
        λ later le'. trimmed_kept dec window most now' later log c k le' t in
      elim (Bool-cases (leb c.max_events (length trimmed))) [
        | inl full ↦ rw full (
            put-Tracks dec window most now' log log c k trimmed
              (put_known-IsValid dec k c.window now' trimmed t.valid (ground (arith, t.same_most)))
              here (omega (arith, length-trim_before c.window now' (events dec k c), t.few k))
              (λ j ne. refl) t)
        | inr more ↦
            let short : length trimmed < most = ground (arith, t.same_most) in
            rw more (elim (Bool-cases (length trimmed == 0)) [
              | inr known ↦ rw known (
                  grant-Tracks dec window most now' log c k trimmed
                    (put_known-IsValid dec k c.window now' (trimmed ++ (now' ∷ [])) t.valid
                      (ground arith))
                    here short t)
              | inl idle ↦
                  let evicted =
                    evict-Tracks dec window most now' log c (evict_idle-IsValid dec now' t.valid)
                      t in
                  rw idle (elim (Bool-cases (ltb 0 c.max_keys && leb c.max_keys (length c'.keys))) [
                    | inl no_room ↦ rw no_room evicted
                    | inr room ↦ rw room (
                        grant-Tracks dec window most now' log c' k trimmed
                          (grant-IsValid dec k now' trimmed evicted.valid room) here short evicted)
                  ])
            ])
      ]
  step-Tracks window most now log c (Call.count k now') some_event le t₀ =
      let t = advance-Tracks dec window most now now' log c le t₀ in
      elim (Option-cases (lookup dec k c.keys)) [
        | inl absent ↦ rw (absent, FreqCap.count) t
        | inr (ts, known) ↦
            let trimmed = trim_before c.window now' ts in
            let here : (later : ℕ)
                → now' ≤ later
                → recent window later (logged dec k log) ≤ recent window later trimmed =
              λ later le'. omega (
                arith,
                ap (λ us. recent window later (trim_before c.window now' us))
                    (events-known dec k c known),
                trimmed_kept dec window most now' later log c k le' t,
              ) in
            rw (known, FreqCap.count)
              (elim (Bool-cases (length trimmed == 0)) [
                | inl idle ↦ rw idle (
                    erase-Tracks dec window most now' log c k
                      (λ later le'. omega (
                        arith,
                        here later le',
                        recent-le-length window later trimmed,
                        is_zero idle,
                      ))
                      t)
                | inr live ↦ rw live (
                    put-Tracks dec window most now' log log c k trimmed
                      (put_known-IsValid dec k c.window now' trimmed t.valid
                        (rw (events-known dec k c known) (ground arith)))
                      here
                      (omega (
                        arith,
                        length-trim_before c.window now' ts,
                        ap (λ l. length l) (events-known dec k c known),
                        t.few k,
                      ))
                      (λ j ne. refl) t)
              ])
      ]

  run-Tracks :
      (window most now : ℕ) (xs : List (Call K)) (log : List (K × ℕ)) (c : Counter K)
      → 0 < most
      → Ordered now xs
      → Tracks dec window most now log c
      → Tracks dec window most (last_clock now xs) (run xs (c, log)).1 (run xs (c, log)).0
  unfolding run
  run-Tracks window most now [] log c some_event o t = t
  run-Tracks window most now (x ∷ xs) log c some_event o t =
      let s = step x (c, log) in
      run-Tracks window most (clock_of x) xs s.1 s.0 some_event o.1
        (step-Tracks window most now log c x some_event o.0 t)

  -- Start from the counter that `New` makes of a window, a positive maximum and a bound on the keys, and
  -- make any calls of `Allow` and `Count` with clocks that do not go back: for every key, the events that were
  -- allowed and lie in the window of the last clock, or of any later one, are at most the maximum.
  pub cap_lem :
      (window most max_keys start : ℕ) (xs : List (Call K)) (k : K) (later : ℕ)
      → 0 < most
      → Ordered start xs
      → last_clock start xs ≤ later
      → recent window later (logged dec k (run xs (empty_counter window most max_keys, [])).1)
        ≤ most
  cap_lem window most max_keys start xs k later some_event o le =
      let s = run xs (empty_counter window most max_keys, []) in
      let t =
        run-Tracks window most start xs [] (empty_counter window most max_keys) some_event o
          (empty-Tracks dec window most max_keys start) in
      omega (arith, t.kept k later le, recent-le-length window later (events dec k s.0), t.few k)
