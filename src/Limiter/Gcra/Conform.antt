-- ===== src/Limiter/Gcra/Conform.antt =====
-- What the generic cell rate algorithm promises, under every interleaving.
use kit4go.Limiter.{count_allowed}
use kit4go.Limiter.Gcra.{
  Gcra, Pc, idle, top, swapping, answered, Event, new, set_pc, new_tat, is_over, decide, swap,
  begin, act_at, step, run,
}
use kit4go.Common.Int.{
  ℤ, pos, negsuc, pos_part, ltb_ℤ, same_ℤ, same_ℤ-eq, wrap_int64, wrap_int64_id, ◌+ℤ◌, ◌-ℤ◌,
}
use kit4go.Common.{
  ℕ, zero, suc, ◌+◌, ◌-◌, ◌^◌, ◌≤◌, ◌<◌, ◌≡◌, refl, sym, ap, ◌∙◌, inl, inr, Bool, true, false, List,
  [], ◌∷◌, ◌++◌, arith, ltb, ◌==◌, if◌then◌else◌, Bool-cases, subst,
}

-- the nanoseconds that grants stand for
pub cost_of : (ℕ → ℕ) → List (ℕ × ℕ) → ℕ
cost_of cost_ns [] = 0
cost_of cost_ns ((t, n) ∷ gs) = cost_ns n + cost_of cost_ns gs

-- Clocks below 2^62 and calls whose cost is below 2^61.
abbrev pub SmallEvents : (ℕ → ℕ) → List Event → Type 0
SmallEvents cost_ns [] = Unit
SmallEvents cost_ns (Event.call i n ∷ es) = (cost_ns (pos_part n) < 2 ^ 61) × SmallEvents cost_ns es
SmallEvents cost_ns (Event.act i now ∷ es) = (now < 2 ^ 62) × SmallEvents cost_ns es
SmallEvents cost_ns (Event.close ∷ es) = SmallEvents cost_ns es

-- the same sum and difference on numbers
exact_tat : (ℕ → ℕ) → ℕ → ℕ → ℕ → ℕ
exact_tat cost_ns n now loaded = (if ltb loaded now then now else loaded) + cost_ns n

-- Below these bounds the sums of the code do not wrap.
new_tat-exact :
    (cost_ns : ℕ → ℕ) (n now : ℕ) (loaded : ℤ)
    → loaded ≡ pos (pos_part loaded)
    → pos_part loaded < 2 ^ 62 + 2 ^ 61
    → now < 2 ^ 62
    → cost_ns n < 2 ^ 61
    → new_tat cost_ns n now loaded ≡ pos (exact_tat cost_ns n now (pos_part loaded))
unfolding new_tat exact_tat ◌+ℤ◌
new_tat-exact cost_ns n now (pos t) whole small early few =
    let later = if ltb t now then now else t in
    let same : (if ltb_ℤ (pos t) (pos now) then pos now else pos t) ≡ pos later = ground arith in
    let sum : pos later +ℤ pos (cost_ns n) ≡ pos (later + cost_ns n) = ground arith in
    ap (λ z. wrap_int64 (z +ℤ pos (cost_ns n))) same
    ∙ ap wrap_int64 sum
    ∙ wrap_int64_id (pos (later + cost_ns n)) (ground arith)
new_tat-exact cost_ns n now (negsuc t) whole small early few = absurd (ground arith)

not_over-le :
    (burst now tat : ℕ)
    → now ≤ tat
    → tat < 2 ^ 63
    → is_over burst now (pos tat) ≡ false
    → tat ≤ now + burst
unfolding ◌-ℤ◌
not_over-le burst now tat later small room =
    let exact : wrap_int64 (pos tat -ℤ pos now) ≡ pos (tat - now) =
      wrap_int64_id _ (ground arith) ∙ ground arith in
    ground (arith, subst (λ z. ltb_ℤ (pos burst) z ≡ false) exact room)

exact_tat-bounds :
    (cost_ns : ℕ → ℕ) (n now t : ℕ)
    → t < 2 ^ 62 + 2 ^ 61
    → now < 2 ^ 62
    → cost_ns n < 2 ^ 61
    → (now ≤ exact_tat cost_ns n now t) × (exact_tat cost_ns n now t < 2 ^ 63)
unfolding exact_tat
exact_tat-bounds cost_ns n now t small early few = ground arith

module _ (cost_ns : ℕ → ℕ) where
  -- `tat` is at least every grant's clock and all that was granted from it on.
  abbrev Chain : ℕ → List (ℕ × ℕ) → Type 0
  Chain tat [] = Unit
  Chain tat ((t, n) ∷ gs) = (t + cost_ns n ≤ tat) × Chain (tat - cost_ns n) gs

  Chain-mono : (a b : ℕ) (gs : List (ℕ × ℕ)) → a ≤ b → Chain a gs → Chain b gs
  Chain-mono a b [] h c = tt
  Chain-mono a b ((t, n) ∷ gs) h c =
      (omega (arith, c.0), Chain-mono (a - cost_ns n) (b - cost_ns n) gs (omega arith) c.1)

  Chain-append :
      (tat t n : ℕ) (newer older : List (ℕ × ℕ))
      → Chain tat (newer ++ (t, n) ∷ older)
      → t + cost_ns n + cost_of cost_ns newer ≤ tat
  unfolding cost_of
  Chain-append tat t n [] older c = omega (arith, c.0)
  Chain-append tat t n ((s, m) ∷ newer) older c =
      omega (arith, c.0, Chain-append (tat - cost_ns m) t n newer older c.1)

  Chain-grant :
      (tat t n : ℕ) (gs : List (ℕ × ℕ))
      → Chain tat gs
      → Chain (exact_tat cost_ns n t tat) ((t, n) ∷ gs)
  unfolding exact_tat
  Chain-grant tat t n gs c = (ground arith, Chain-mono tat _ gs (ground arith) c)

module _ (cost_ns : ℕ → ℕ) (burst : ℕ) where
  -- the newest grant's clock plus the burst bounds `tat`
  abbrev Below : ℕ → List (ℕ × ℕ) → Type 0
  Below tat [] = Unit
  Below tat ((t, n) ∷ gs) = tat ≤ t + burst

  -- A goroutine before its swap has found room.
  abbrev PcIsOk : Pc → Type 0
  PcIsOk idle = Unit
  PcIsOk (top attempt n) = cost_ns n < 2 ^ 61
  PcIsOk (swapping attempt n now loaded) =
      (cost_ns n < 2 ^ 61)
      × (now < 2 ^ 62)
      × (new_tat cost_ns n now loaded ≡ pos (exact_tat cost_ns n now (pos_part loaded)))
      × (exact_tat cost_ns n now (pos_part loaded) ≤ now + burst)
  PcIsOk (answered ok) = Unit

  record IsSound (g : Gcra) : Type 0 where
    whole : g.tat ≡ pos (pos_part g.tat)
    small : pos_part g.tat < 2 ^ 62 + 2 ^ 61
    above : Chain cost_ns (pos_part g.tat) g.grants
    below : Below (pos_part g.tat) g.grants
    pcs_ok : (i : ℕ) → PcIsOk (g.pcs i)

  set_pc-IsSound : (i : ℕ) (pc : Pc) {g : Gcra} → PcIsOk pc → IsSound g → IsSound (set_pc i pc g)
  unfolding set_pc
  set_pc-IsSound i pc {g} ok s = record {
    whole = s.whole;
    small = s.small;
    above = s.above;
    below = s.below;
    pcs_ok = λ j. elim (Bool-cases (j == i)) [ inl e ↦ rw e ok | inr e ↦ rw e (s.pcs_ok j) ];
  }

  decide-IsSound :
      (i n now attempt : ℕ) {g : Gcra}
      → now < 2 ^ 62
      → cost_ns n < 2 ^ 61
      → IsSound g
      → IsSound (decide cost_ns burst i n now attempt g)
  unfolding decide
  decide-IsSound i n now attempt {g} early few s =
      elim (Bool-cases (is_over burst now (new_tat cost_ns n now g.tat))) [
        | inl over ↦ rw over (
            set_pc-IsSound i (answered false) tt (record {
              whole = s.whole;
              small = s.small;
              above = s.above;
              below = s.below;
              pcs_ok = s.pcs_ok;
            }))
        | inr room ↦
            let exact = new_tat-exact cost_ns n now g.tat s.whole s.small early few in
            let (later, fits) = exact_tat-bounds cost_ns n now (pos_part g.tat) s.small early few in
            let conforms =
              not_over-le burst now _ later fits
                (subst (λ z. is_over burst now z ≡ false) exact room) in
            rw room (set_pc-IsSound i _ (few, early, exact, conforms) s)
      ]

  -- the machine after a swap that found what it had loaded
  swapped-IsSound :
      (i attempt n now : ℕ) {g : Gcra}
      → PcIsOk (swapping attempt n now g.tat)
      → burst < 2 ^ 61
      → IsSound g
      → IsSound (
          set_pc i (answered true) (record g {
            tat = new_tat cost_ns n now g.tat;
            metrics = count_allowed n g.metrics;
            grants = (now, n) ∷ g.grants;
          }))
  swapped-IsSound i attempt n now {g} (few, early, exact, fits) short s =
      set_pc-IsSound i (answered true) tt (record {
        whole = exact ∙ ap (λ z. pos (pos_part z)) (sym exact);
        small = subst (λ z. pos_part z < 2 ^ 62 + 2 ^ 61) (sym exact) (omega arith);
        above =
            subst (λ z. Chain cost_ns (pos_part z) ((now, n) ∷ g.grants)) (sym exact)
              (Chain-grant cost_ns (pos_part g.tat) now n g.grants s.above);
        below = subst (λ z. pos_part z ≤ now + burst) (sym exact) fits;
        pcs_ok = s.pcs_ok;
      })

  swap-IsSound :
      (i attempt n now : ℕ) (loaded : ℤ) {g : Gcra}
      → PcIsOk (swapping attempt n now loaded)
      → burst < 2 ^ 61
      → IsSound g
      → IsSound (swap cost_ns burst i attempt n now loaded g)
  unfolding swap
  swap-IsSound i attempt n now loaded {g} ok short s = elim (Bool-cases (same_ℤ g.tat loaded)) [
    | inl same ↦
        let eq = same_ℤ-eq g.tat loaded same in
        rw same (
          subst
            (λ l. IsSound (
              set_pc i (answered true) (record g {
                tat = new_tat cost_ns n now l;
                metrics = count_allowed n g.metrics;
                grants = (now, n) ∷ g.grants;
              })))
            eq
            (swapped-IsSound i attempt n now
              (subst (λ l. PcIsOk (swapping attempt n now l)) (sym eq) ok) short s))
    | inr lost ↦ elim (Bool-cases (attempt == 0)) [
      | inl last ↦
          rw (lost, last)
            (set_pc-IsSound i (answered false) tt (record {
              whole = s.whole;
              small = s.small;
              above = s.above;
              below = s.below;
              pcs_ok = s.pcs_ok;
            }))
      | inr more ↦ rw (lost, more) (set_pc-IsSound i (top (attempt - 1) n) ok.0 s)
    ]
  ]

  PcIsOk-if :
      (b : Bool) (n : ℕ) → cost_ns n < 2 ^ 61 → PcIsOk (if b then answered false else top 1 n)
  PcIsOk-if true n few = tt
  PcIsOk-if false n few = few

  begin-IsSound :
      (i : ℕ) (n : ℤ) {g : Gcra}
      → cost_ns (pos_part n) < 2 ^ 61
      → IsSound g
      → IsSound (begin cost_ns burst i n g)
  unfolding begin
  begin-IsSound i (pos zero) few s = set_pc-IsSound i (answered true) tt s
  begin-IsSound i (negsuc n) few s = set_pc-IsSound i (answered true) tt s
  begin-IsSound i (pos (suc n)) {g} few s = set_pc-IsSound i _ (PcIsOk-if g.closed (suc n) few) s

  act_at-IsSound :
      (pc : Pc) (i now : ℕ) {g : Gcra}
      → PcIsOk pc
      → now < 2 ^ 62
      → burst < 2 ^ 61
      → IsSound g
      → IsSound (act_at cost_ns burst pc i now g)
  unfolding act_at
  act_at-IsSound idle i now ok early short s = s
  act_at-IsSound (top attempt n) i now ok early short s = decide-IsSound i n now attempt early ok s
  act_at-IsSound (swapping attempt n t loaded) i now ok early short s =
      swap-IsSound i attempt n t loaded ok short s
  act_at-IsSound (answered b) i now ok early short s = s

  run-IsSound :
      (es : List Event) {g : Gcra}
      → SmallEvents cost_ns es
      → burst < 2 ^ 61
      → IsSound g
      → IsSound (run cost_ns burst es g)
  unfolding run step
  run-IsSound [] small short s = s
  run-IsSound (Event.call i n ∷ es) small short s =
      run-IsSound es small.1 short (begin-IsSound i n small.0 s)
  run-IsSound (Event.act i now ∷ es) {g} small short s =
      run-IsSound es small.1 short (act_at-IsSound (g.pcs i) i now (s.pcs_ok i) small.0 short s)
  run-IsSound (Event.close ∷ es) small short s = run-IsSound es small short (record {
    whole = s.whole;
    small = s.small;
    above = s.above;
    below = s.below;
    pcs_ok = s.pcs_ok;
  })

  new-IsSound : IsSound new
  unfolding new
  new-IsSound = record {
    whole = refl;
    small = omega arith;
    above = tt;
    below = tt;
    pcs_ok = λ i. tt;
  }

  -- With a burst allowance below 2^61 nanoseconds, under every interleaving of goroutines, CompareAndSwaps lost and
  -- retried included, with clocks below 2^62 and calls that cost less than 2^61: from the clock of any grant to the
  -- clock of the newest one, that grant and all later ones cost no more than the time between the two clocks and the
  -- burst allowance. (A call that costs more may make the sums of `acquire` wrap.)
  pub grants_conform :
      (es : List Event) (t n s m : ℕ) (newer older : List (ℕ × ℕ))
      → burst < 2 ^ 61
      → SmallEvents cost_ns es
      → (run cost_ns burst es new).grants ≡ (s, m) ∷ newer ++ ((t, n) ∷ older)
      → t + cost_ns n + cost_of cost_ns ((s, m) ∷ newer) ≤ s + burst
  grants_conform es t n s m newer older short small e = omega (
    arith,
    Chain-append cost_ns (pos_part g.tat) t n ((s, m) ∷ newer) older
        (subst (Chain cost_ns (pos_part g.tat)) e sound.above),
    newest,
  )
    where
      g : Gcra
      g = run cost_ns burst es new

      sound : IsSound g
      sound = run-IsSound es small short new-IsSound

      newest : pos_part g.tat ≤ s + burst
      newest = subst (Below (pos_part g.tat)) e sound.below
