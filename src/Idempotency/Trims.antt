-- ===== src/Idempotency/Trims.antt =====
-- `evictLocked` of idempotency/idempotency.go drops no entry of a leader in flight.
use kit4go.Idempotency.{Entry, empty_entry, is_completed, is_stale, oldest, drop_oldest, evict}
use mathlib.Core.Logic.{if_pos, if_neg}
use kit4go.Common.Assoc.{
  NoKey, DistinctKeys, lookup, erase, erase_if, DistinctKeys-erase, DistinctKeys-erase_if,
  lookup-erase_self, lookup-erase_ne, lookup-erase_if,
}
use kit4go.Common.{
  ℕ, zero, suc, ◌≡◌, refl, sym, ◌∙◌, inl, inr, Bool, true, false, ◌&&◌, ◌||◌, Option, none, some,
  List, [], ◌∷◌, arith, ltb, leb, ◌==◌, if◌then◌else◌, Bool-cases, Option-cases, length, get_or,
  subst,
}

and_left : (x y : Bool) → (x && y) ≡ true → x ≡ true
and_left true y h = refl
and_left false y h = absurd (ground arith)

module _ {K V E : Type 0} (dec : Discrete K) (heap : List (Entry V E)) where
  -- `es'` has no other entry than `es`, all that are in flight, and no key twice
  pub record Trims (es es' : List (K × ℕ)) : Type 0 where
    pub fewer : (k : K) (id : ℕ) → lookup dec k es' ≡ some id → lookup dec k es ≡ some id
    pub keeps_live :
        (k : K) (id : ℕ)
        → lookup dec k es ≡ some id
        → is_completed heap id ≡ false
        → lookup dec k es' ≡ some id
    pub distinct : DistinctKeys es'

  pub Trims-refl : (es : List (K × ℕ)) → DistinctKeys es → Trims es es
  Trims-refl es d = record { fewer = λ k id h. h; keeps_live = λ k id h live. h; distinct = d }

  Trims-trans : (es fs gs : List (K × ℕ)) → Trims es fs → Trims fs gs → Trims es gs
  Trims-trans es fs gs p q = record {
    fewer = λ k id h. p.fewer k id (q.fewer k id h);
    keeps_live = λ k id h live. q.keeps_live k id (p.keeps_live k id h live) live;
    distinct = q.distinct;
  }

  pub erase-Trims :
      (j : K) (i : ℕ) (es : List (K × ℕ))
      → DistinctKeys es
      → lookup dec j es ≡ some i
      → is_completed heap i ≡ true
      → Trims es (erase dec j es)
  erase-Trims j i es d held done = record {
    fewer = λ k id h. elim (dec k j) [
      | yes e ↦ absurd (ground (arith, lookup-erase_self dec j es))
      | no ne ↦ sym (lookup-erase_ne dec k j es ne) ∙ h
    ];
    keeps_live = λ k id h live. elim (dec k j) [
      | yes e ↦ absurd (ground arith)
      | no ne ↦ lookup-erase_ne dec k j es ne ∙ h
    ];
    distinct = DistinctKeys-erase dec j es d;
  }

  elim_kept :
      (p : ℕ → Bool) (k : K) (id : ℕ) (es : List (K × ℕ))
      → ◌≡◌ {A = Option ℕ}
          (elim (lookup dec k es) [ none ↦ none | some v ↦ if p v then none else some v ])
          (some id)
      → lookup dec k es ≡ some id
  elim_kept p k id es h = ground arith

  kept_live :
      (p : ℕ → Bool) (k : K) (id : ℕ) (es : List (K × ℕ))
      → ((id : ℕ) → p id ≡ true → is_completed heap id ≡ true)
      → lookup dec k es ≡ some id
      → is_completed heap id ≡ false
      → ◌≡◌ {A = Option ℕ}
          (elim (lookup dec k es) [ none ↦ none | some v ↦ if p v then none else some v ])
          (some id)
  kept_live p k id es only h live = elim (Bool-cases (p id)) [
    | inl drops ↦ absurd (ground (arith, only id drops))
    | inr stays ↦ rw (h, stays) refl
  ]

  erase_if-Trims :
      (p : ℕ → Bool) (es : List (K × ℕ))
      → DistinctKeys es
      → ((id : ℕ) → p id ≡ true → is_completed heap id ≡ true)
      → Trims es (erase_if p es)
  erase_if-Trims p es d only = record {
    fewer = λ k id h. elim_kept p k id es (sym (lookup-erase_if dec p k es d) ∙ h);
    keeps_live = λ k id h live. lookup-erase_if dec p k es d ∙ kept_live p k id es only h live;
    distinct = DistinctKeys-erase_if p es d;
  }

  -- the entry that `oldest` names is in the list and completed
  abbrev IsHeld : Option (K × ℕ) → List (K × ℕ) → Type 0
  IsHeld none es = Unit
  IsHeld (some b) es = (i : ℕ) × (lookup dec b.0 es ≡ some i) × (is_completed heap i ≡ true)

  -- all of the pairs are in the list
  abbrev Inside : List (K × ℕ) → List (K × ℕ) → Type 0
  Inside full [] = Unit
  Inside full (e ∷ es) = (lookup dec e.0 full ≡ some e.1) × Inside full es

  Inside-cons :
      (e : K × ℕ) (full es : List (K × ℕ)) → NoKey e.0 es → Inside full es → Inside (e ∷ full) es
  unfolding lookup
  Inside-cons e full [] n h = tt
  Inside-cons e full (x ∷ xs) (ne, n) (held, h) =
      (if_neg (dec e.0 x.0) (λ same. ne (sym same)) _ _ ∙ held, Inside-cons e full xs n h)

  Inside-self : (es : List (K × ℕ)) → DistinctKeys es → Inside es es
  unfolding lookup
  Inside-self [] d = tt
  Inside-self (e ∷ es) (n, d) =
      (if_pos (dec e.0 e.0) refl _ _, Inside-cons e es es n (Inside-self es d))

  oldest-IsHeld :
      (full : List (K × ℕ)) (best : Option (K × ℕ)) (es : List (K × ℕ))
      → IsHeld best full
      → Inside full es
      → IsHeld (oldest dec heap best es) full
  unfolding oldest
  oldest-IsHeld full best [] b h = b
  oldest-IsHeld full best (e ∷ es) b (held, h) =
      let t = (get_or heap e.1 empty_entry).expires_at in
      let beats : Bool = elim best [ none ↦ true | some b ↦ ltb t b.1 ] in
      elim (Bool-cases (is_completed heap e.1 && beats)) [
        | inl taken ↦
            rw (taken, oldest)
              (oldest-IsHeld full (some (e.0, t)) es (e.1, held, (and_left _ _ taken)) h)
        | inr left ↦ rw (left, oldest) (oldest-IsHeld full best es b h)
      ]

  drop_oldest-Trims :
      (fuel most : ℕ) (es : List (K × ℕ))
      → DistinctKeys es
      → Trims es (drop_oldest dec fuel most heap es)
  unfolding drop_oldest
  drop_oldest-Trims zero most es d = Trims-refl es d
  drop_oldest-Trims (suc fuel) most es d = elim (Bool-cases (leb (length es) most)) [
    | inl few ↦ rw (few, drop_oldest) (Trims-refl es d)
    | inr many ↦
        let held = oldest-IsHeld es none es tt (Inside-self es d) in
        elim (Option-cases (oldest dec heap none es)) [
          | inl none_left ↦ rw (many, none_left, drop_oldest) (Trims-refl es d)
          | inr (b, best) ↦
              let (i, found, done) = subst (λ o. IsHeld o es) best held in
              let gone = erase-Trims b.0 i es d found done in
              rw (many, best, drop_oldest)
                (Trims-trans es (erase dec b.0 es) _ gone
                  (drop_oldest-Trims fuel most (erase dec b.0 es) gone.distinct))
        ]
  ]

  pub evict-Trims :
      (now most : ℕ) (es : List (K × ℕ)) → DistinctKeys es → Trims es (evict dec now most heap es)
  unfolding evict is_stale
  evict-Trims now most es d = elim (Bool-cases (most == 0 || leb (length es) most)) [
    | inl few ↦ rw few (Trims-refl es d)
    | inr many ↦
        let rest = erase_if (is_stale heap now) es in
        let fresh = erase_if-Trims (is_stale heap now) es d (λ id stale. and_left _ _ stale) in
        rw many
          (Trims-trans es rest _ fresh (drop_oldest-Trims (length rest) most rest fresh.distinct))
  ]
