-- ===== src/Idempotency/Flight.antt =====
-- idempotency/idempotency.go runs `fn` for a key in one goroutine at a time, while no key is forgotten.
use mathlib.Core.Logic.{if_pos, if_neg}
use kit4go.Idempotency.{
  Entry, Cache, Start, empty_entry, is_completed, expired, evict, become_leader, keeps,
}
use kit4go.Idempotency.Trims.{Trims, Trims-refl, erase-Trims, evict-Trims}
use kit4go.Common.Assoc.{
  DistinctKeys, lookup, put, erase_if, lookup-put_self, lookup-put_ne, lookup-NoKey, NoKey-lookup,
  DistinctKeys-put, DistinctKeys-erase_if, lookup-erase_if,
}
use kit4go.Common.{
  ℕ, zero, suc, ◌<◌, ◌≡◌, refl, sym, ap, ◌∙◌, ◌≢◌, ◌⊎◌, inl, inr, true, false, none, some, List, [],
  ◌∷◌, ◌++◌, arith, ◌==◌, Bool-cases, Option-cases, length, get_elem?, set, length-append,
  length-set, get_or, get_or-set_self, get_or-set_ne, subst,
}

-- a step of a goroutine: the start of a `Do`, or the end of the `i`-th leader in flight
pub data Action (K V E : Type 0) : Type 0 where
  start : K → ℕ → Action K V E
  finish : ℕ → V ⊎ E → ℕ → Action K V E

module _ {K : Type 0} (dec : Discrete K) where
  first_or_rest :
      (key : K) (id : ℕ) (es : List (K × ℕ)) (k : K) (i : ℕ)
      → lookup dec k ((key, id) ∷ es) ≡ some i
      → ((k ≡ key) × (i ≡ id)) ⊎ ((k ≢ key) × (lookup dec k es ≡ some i))
  unfolding lookup
  first_or_rest key id es k i h = elim (dec key k) [
    | yes e ↦ inl (sym e, ground (arith, if_pos (dec key k) e (some id) (lookup dec k es)))
    | no ne ↦ inr (λ e. ne (sym e), sym (if_neg (dec key k) ne (some id) (lookup dec k es)) ∙ h)
  ]

  lookup-get_elem? :
      (es : List (K × ℕ)) (i : ℕ) (e : K × ℕ)
      → DistinctKeys es
      → get_elem? es i ≡ some e
      → lookup dec e.0 es ≡ some e.1
  unfolding lookup
  lookup-get_elem? [] i e d h = absurd (ground arith)
  lookup-get_elem? (x ∷ xs) zero e d h =
      let same : x ≡ e = ground arith in
      subst (λ y. lookup dec y.0 (x ∷ xs) ≡ some y.1) same
        (if_pos (dec x.0 x.0) refl (some x.1) (lookup dec x.0 xs))
  lookup-get_elem? (x ∷ xs) (suc i) e (n, d) h =
      let later = lookup-get_elem? xs i e d h in
      if_neg (dec x.0 e.0)
        (λ same. absurd (ground (arith, lookup-NoKey dec x.0 xs n, ap (λ k. lookup dec k xs) same)))
        (some x.1) (lookup dec e.0 xs)
      ∙ later

  -- a flight that is not the one that ends
  other_flight :
      (id : ℕ) (k : K) (i : ℕ) (es : List (K × ℕ))
      → DistinctKeys es
      → lookup dec k (erase_if (λ i. i == id) es) ≡ some i
      → (lookup dec k es ≡ some i) × (id ≢ i)
  other_flight id k i es d h =
      let e = lookup-erase_if dec (λ i. i == id) k es d in
      elim (Option-cases (lookup dec k es)) [
        | inl absent ↦ absurd (ground arith)
        | inr (j, held) ↦ elim (Bool-cases (j == id)) [
          | inl gone ↦
              let left : lookup dec k (erase_if (λ i. i == id) es) ≡ none =
                e ∙ (rw (held, gone) refl) in
              absurd (ground arith)
          | inr stays ↦
              let left : lookup dec k (erase_if (λ i. i == id) es) ≡ some j =
                e ∙ (rw (held, stays) refl) in
              let same : j ≡ i = ground arith in (held ∙ ap some same, λ own. ground arith)
        ]
      ]

module _ {K V E : Type 0} (dec : Discrete K) where
  unfoldable pub act : Action K V E → Cache K V E → Cache K V E
  act (Action.start key now) c = (kit4go.Idempotency.start dec key now c).1
  act (Action.finish i result now) c = elim (get_elem? c.flights i) [
    | none ↦ c
    | some e ↦ kit4go.Idempotency.finish dec e.0 e.1 result now c
  ]

  unfoldable pub run : List (Action K V E) → Cache K V E → Cache K V E
  unfolding act
  run [] c = c
  run (x ∷ xs) c = run xs (act x c)

  -- every leader in flight owns the entry of its key, and no key has two
  pub record IsValid (c : Cache K V E) : Type 0 where
    pub distinct : DistinctKeys c.entries
    pub inside : (k : K) (id : ℕ) → lookup dec k c.entries ≡ some id → id < length c.heap
    pub aloft :
        (k : K) (id : ℕ)
        → lookup dec k c.flights ≡ some id
        → (lookup dec k c.entries ≡ some id) × (is_completed c.heap id ≡ false)
    pub single : DistinctKeys c.flights

  live_append :
      (heap : List (Entry V E)) (id : ℕ)
      → id < length heap
      → is_completed heap id ≡ false
      → is_completed (heap ++ (empty_entry ∷ [])) id ≡ false
  unfolding is_completed
  live_append [] id less live = absurd (omega arith)
  live_append (e ∷ es) zero less live = live
  live_append (e ∷ es) (suc id) less live = live_append es id (omega arith) live

  live_new :
      (heap : List (Entry V E)) → is_completed (heap ++ (empty_entry ∷ [])) (length heap) ≡ false
  unfolding is_completed empty_entry
  live_new [] = refl
  live_new (e ∷ es) = live_new es

  become_leader-IsValid :
      (key : K) (now : ℕ) (c : Cache K V E)
      → IsValid c
      → lookup dec key c.flights ≡ none
      → IsValid (become_leader dec key now c).1
  unfolding become_leader lookup
  become_leader-IsValid key now c v free =
      let id = length c.heap in
      let heap = c.heap ++ (empty_entry ∷ []) in
      let es = put dec key id c.entries in
      let t =
        evict-Trims dec heap now c.max_entries es
          (DistinctKeys-put dec key id c.entries v.distinct) in
      record {
        distinct = t.distinct;
        inside = λ k i h. elim (dec k key) [
          | yes e ↦ ground (
            arith,
            t.fewer k i h,
            lookup-put_self dec key id c.entries,
            length-append c.heap (empty_entry ∷ []),
          )
          | no ne ↦ omega (
            arith,
            v.inside k i (sym (lookup-put_ne dec k key id c.entries ne) ∙ t.fewer k i h),
            length-append c.heap (empty_entry ∷ []),
          )
        ];
        aloft = λ k i h. elim (first_or_rest dec key id c.flights k i h) [
          | inl (e, own) ↦
              let here : lookup dec k es ≡ some i =
                subst (λ j. lookup dec j es ≡ some i) (sym e)
                  (lookup-put_self dec key id c.entries ∙ ap some (sym own)) in
              let live : is_completed heap i ≡ false =
                subst (λ j. is_completed heap j ≡ false) (sym own) (live_new c.heap) in
              (t.keeps_live k i here live, live)
          | inr (ne, rest) ↦
              let (held, live) = v.aloft k i rest in
              let live' = live_append c.heap i (v.inside k i held) live in
              (t.keeps_live k i (lookup-put_ne dec k key id c.entries ne ∙ held) live', live')
        ];
        single = (NoKey-lookup dec key c.flights free, v.single);
      }

  grounded :
      (key : K) (c : Cache K V E)
      → IsValid c
      → lookup dec key c.entries ≡ none
      → lookup dec key c.flights ≡ none
  grounded key c v absent = elim (Option-cases (lookup dec key c.flights)) [
    | inl e ↦ e
    | inr (id, flying) ↦ let (held, live) = v.aloft key id flying in absurd (ground arith)
  ]

  done_grounded :
      (key : K) (c : Cache K V E) {id : ℕ}
      → IsValid c
      → lookup dec key c.entries ≡ some id
      → is_completed c.heap id ≡ true
      → lookup dec key c.flights ≡ none
  done_grounded key c {id} v held done = elim (Option-cases (lookup dec key c.flights)) [
    | inl e ↦ e
    | inr (j, flying) ↦
        let (held', live) = v.aloft key j flying in
        let same : j ≡ id = ground arith in absurd (ground (arith, ap (is_completed c.heap) same))
  ]

  start-IsValid :
      (key : K) (now : ℕ) (c : Cache K V E)
      → IsValid c
      → IsValid (kit4go.Idempotency.start dec key now c).1
  unfolding kit4go.Idempotency.start is_completed
  start-IsValid key now c v = elim (Option-cases (lookup dec key c.entries)) [
    | inl absent ↦
        rw (absent, kit4go.Idempotency.start)
          (become_leader-IsValid key now c v (grounded key c v absent))
    | inr (id, held) ↦
        let e = get_or c.heap id empty_entry in
        rw (held, kit4go.Idempotency.start)
          (elim (Bool-cases e.completed) [
            | inr live ↦ rw live v
            | inl done ↦ rw done (elim (Bool-cases (expired now e)) [
              | inl old ↦
                  rw old (become_leader-IsValid key now c v (done_grounded key c v held done))
              | inr fresh ↦ rw fresh v
            ])
          ])
  ]

  done_set :
      (heap : List (Entry V E)) (id : ℕ) (e : Entry V E)
      → id < length heap
      → e.completed ≡ true
      → is_completed (set heap id e) id ≡ true
  unfolding is_completed
  done_set heap id e less done =
      ap (λ e. e.completed) (get_or-set_self heap id e empty_entry less) ∙ done

  live_set :
      (heap : List (Entry V E)) (id j : ℕ) (e : Entry V E)
      → id ≢ j
      → is_completed heap j ≡ false
      → is_completed (set heap id e) j ≡ false
  unfolding is_completed
  live_set heap id j e ne live = ap (λ e. e.completed) (get_or-set_ne heap e empty_entry ne) ∙ live

  finish-IsValid :
      (key : K) (id : ℕ) (result : V ⊎ E) (now : ℕ) (c : Cache K V E)
      → IsValid c
      → lookup dec key c.flights ≡ some id
      → IsValid (kit4go.Idempotency.finish dec key id result now c)
  unfolding kit4go.Idempotency.finish
  finish-IsValid key id result now c v flying =
      let c' = kit4go.Idempotency.finish dec key id result now c in
      let held : lookup dec key c.entries ≡ some id = (v.aloft key id flying).0 in
      let less = v.inside key id held in
      let done : is_completed c'.heap id ≡ true = done_set c.heap id _ less refl in
      let t : Trims dec c'.heap c.entries c'.entries =
        elim (Bool-cases (keeps c.cache_errors result)) [
          | inl keep ↦ rw keep (Trims-refl dec _ c.entries v.distinct)
          | inr dropped ↦
              rw dropped (
                erase-Trims dec _ key id c.entries v.distinct held (done_set c.heap id _ less refl))
        ] in
      record {
        distinct = t.distinct;
        inside = λ k i h. omega (arith, v.inside k i (t.fewer k i h), length-set c.heap id _);
        aloft = λ k i h.
            let (flying', ne) = other_flight dec id k i c.flights v.single h in
            let (held', live) = v.aloft k i flying' in
            let live' = live_set c.heap id i _ ne live in (t.keeps_live k i held' live', live');
        single = DistinctKeys-erase_if (λ i. i == id) c.flights v.single;
      }

  act-IsValid : (a : Action K V E) (c : Cache K V E) → IsValid c → IsValid (act a c)
  unfolding act
  act-IsValid (Action.start key now) c v = start-IsValid key now c v
  act-IsValid (Action.finish i result now) c v = elim (Option-cases (get_elem? c.flights i)) [
    | inl none_left ↦ rw (none_left, act) v
    | inr (e, flying) ↦
        rw (flying, act)
          (finish-IsValid e.0 e.1 result now c v
            (lookup-get_elem? dec c.flights i e v.single flying))
  ]

  pub run-IsValid : (xs : List (Action K V E)) (c : Cache K V E) → IsValid c → IsValid (run xs c)
  unfolding run
  run-IsValid [] c v = v
  run-IsValid (x ∷ xs) c v = run-IsValid xs (act x c) (act-IsValid x c v)

  -- From a valid cache, the empty one for instance, under every interleaving of the starts of calls of `Do`,
  -- with any clocks, and of the ends of their leaders, with any results, while `Forget` and `Clear` are not
  -- called: no key has two leaders that run `fn`, and every one of them owns the entry of its key, which is
  -- in the map and not completed, so that eviction has not dropped it.
  pub single_flight :
      (xs : List (Action K V E)) (c : Cache K V E)
      → IsValid c
      → DistinctKeys (run xs c).flights
        × ((k : K) (id : ℕ)
            → lookup dec k (run xs c).flights ≡ some id
            → (lookup dec k (run xs c).entries ≡ some id)
              × (is_completed (run xs c).heap id ≡ false))
  single_flight xs c v = let w = run-IsValid xs c v in (w.single, w.aloft)
