-- ===== src/Shortlink/Saved.antt =====
-- What `Generate` of shortlink/shortlink.go leaves in a `MemoryStore`.
use kit4go.Shortlink.{
  Config, SaveError, Generated, random_code, generate_loop, generate, load, save, resolve,
}
use kit4go.Common.Assoc.{lookup, put, lookup-put_self, lookup-put_ne}
use kit4go.Common.{
  ℕ, zero, suc, ◌+◌, ◌*◌, ◌≤◌, ◌<◌, ◌≡◌, refl, sym, ap, ◌∙◌, ◌≢◌, ◌⊎◌, inl, inr, false, Option,
  none, some, List, ◌∷◌, arith, ◌==◌, Option-cases, length, get_or, subst,
}

module _ (dec : Discrete (List ℕ)) (draw : ℕ → Option ℕ) where
  -- The codes of so many attempts, from the `k`-th draw on, are all taken.
  pub AllTaken : Config → ℕ → ℕ → List (List ℕ × List ℕ) → Type 0
  AllTaken c zero k m = Unit
  AllTaken c (suc attempts) k m =
      ((code : List ℕ) × (old : List ℕ) × (random_code draw c.alphabet k c.code_len ≡ some code)
        × (resolve dec code m ≡ some old))
      × AllTaken c attempts (k + c.code_len) m

  -- What a call may leave and return: a code that was free, now with the URL, and all other codes as they were; or
  -- the store as it was.
  pub IsOutcome :
      Config → List ℕ → ℕ → ℕ → List (List ℕ × List ℕ) → List (List ℕ × List ℕ) × Generated → Type 0
  IsOutcome c url attempts k m r =
      ((code : List ℕ) × (r.1 ≡ Generated.generated code)
        × (resolve dec code m ≡ none)
        × (resolve dec code r.0 ≡ some url)
        × ((other : List ℕ) → other ≢ code → resolve dec other r.0 ≡ resolve dec other m))
      ⊎ ((r.0 ≡ m)
          × (((r.1 ≡ Generated.rand_failed)
                × ((i : ℕ) × (k ≤ i) × (i < k + attempts * c.code_len) × (draw i ≡ none)))
              ⊎ ((r.1 ≡ Generated.exhausted) × AllTaken c attempts k m)))

  some_code : (code : List ℕ) → some code ≢ none
  some_code code e = ground arith

  drawn_code :
      (alphabet : List ℕ) (k len idx : ℕ) (code : List ℕ)
      → draw k ≡ some idx
      → random_code draw alphabet (suc k) len ≡ some code
      → random_code draw alphabet k (suc len) ≡ some (get_or alphabet idx 0 ∷ code)
  unfolding random_code
  drawn_code alphabet k len idx code drawn later =
      rw (drawn, random_code) (rw (later, random_code) refl)

  -- A code that is not drawn had a draw that failed.
  random_code-failed :
      (alphabet : List ℕ) (k len : ℕ)
      → random_code draw alphabet k len ≡ none
      → (i : ℕ) × (k ≤ i) × (i < k + len) × (draw i ≡ none)
  unfolding random_code
  random_code-failed alphabet k zero h = absurd (ground arith)
  random_code-failed alphabet k (suc len) h = elim (Option-cases (draw k)) [
    | inl failed ↦ (k, omega arith, omega arith, failed)
    | inr (idx, drawn) ↦ elim (Option-cases (random_code draw alphabet (suc k) len)) [
      | inl none_later ↦
          let (i, after, before, failed) = random_code-failed alphabet (suc k) len none_later in
          (i, omega arith, omega arith, failed)
      | inr (code, later) ↦
          absurd (some_code _ (sym (drawn_code alphabet k len idx code drawn later) ∙ h))
    ]
  ]

  save_free :
      (code url : List ℕ) (m : List (List ℕ × List ℕ))
      → lookup dec code m ≡ none
      → save dec code url m ≡ (put dec code url m, none)
  unfolding save
  save_free code url m free = rw (free, save) refl

  save_taken :
      (code url old : List ℕ) (m : List (List ℕ × List ℕ))
      → lookup dec code m ≡ some old
      → save dec code url m ≡ (m, some SaveError.collision)
  unfolding save
  save_taken code url old m taken = rw (taken, save) refl

  -- what follows a save
  after_save :
      Config
      → List ℕ
      → List ℕ
      → ℕ
      → ℕ
      → List (List ℕ × List ℕ) × Option SaveError
      → List (List ℕ × List ℕ) × Generated
  after_save c url code attempts k p = elim p.1 [
    | none ↦ (p.0, Generated.generated code)
    | some SaveError.collision ↦ generate_loop (save dec) draw c url attempts (k + c.code_len) p.0
    | some SaveError.store_failure ↦ (p.0, Generated.failed)
  ]

  generate_free :
      (c : Config) (url code : List ℕ) (attempts k : ℕ) (m m' : List (List ℕ × List ℕ))
      → random_code draw c.alphabet k c.code_len ≡ some code
      → save dec code url m ≡ (m', none)
      → generate_loop (save dec) draw c url (suc attempts) k m ≡ (m', Generated.generated code)
  unfolding generate_loop after_save
  generate_free c url code attempts k m m' drawn saved =
      rw (drawn, generate_loop) (ap (after_save c url code attempts k) saved)

  generate_again :
      (c : Config) (url code : List ℕ) (attempts k : ℕ) (m : List (List ℕ × List ℕ))
      → random_code draw c.alphabet k c.code_len ≡ some code
      → save dec code url m ≡ (m, some SaveError.collision)
      → generate_loop (save dec) draw c url (suc attempts) k m
        ≡ generate_loop (save dec) draw c url attempts (k + c.code_len) m
  unfolding generate_loop after_save
  generate_again c url code attempts k m drawn saved =
      rw (drawn, generate_loop) (ap (after_save c url code attempts k) saved)

  in_range : (attempts len i k : ℕ) → i < k + len → i < k + suc attempts * len
  in_range attempts len i k h = grind arith

  one_more : (attempts len i k : ℕ) → i < k + len + attempts * len → i < k + suc attempts * len
  one_more attempts len i k h = grind arith

  generate_loop-IsOutcome :
      (c : Config) (url : List ℕ) (attempts k : ℕ) (m : List (List ℕ × List ℕ))
      → IsOutcome c url attempts k m (generate_loop (save dec) draw c url attempts k m)
  unfolding IsOutcome AllTaken generate_loop resolve load
  generate_loop-IsOutcome c url zero k m = inr (refl, inr (refl, tt))
  generate_loop-IsOutcome c url (suc attempts) k m =
      elim (Option-cases (random_code draw c.alphabet k c.code_len)) [
        | inl none_drawn ↦
            let (i, after, before, failed) =
              random_code-failed c.alphabet k c.code_len none_drawn in
            rw (none_drawn, generate_loop)
              (inr (refl, inl (refl, (i, after, in_range attempts c.code_len i k before, failed))))
        | inr (code, drawn) ↦ elim (Option-cases (lookup dec code m)) [
          | inl free ↦
              subst (IsOutcome c url (suc attempts) k m)
                (sym (
                  generate_free c url code attempts k m (put dec code url m) drawn
                    (save_free code url m free)))
                (inl (
                  code,
                  refl,
                  free,
                  lookup-put_self dec code url m,
                  λ other ne. lookup-put_ne dec other code url m ne,
                ))
          | inr (old, taken) ↦
              subst (IsOutcome c url (suc attempts) k m)
                (sym
                  (generate_again c url code attempts k m drawn (save_taken code url old m taken)))
                (elim (generate_loop-IsOutcome c url attempts (k + c.code_len) m) [
                  | inl saved ↦ inl saved
                  | inr (same, inl (gave_up, (i, after, before, failed))) ↦ inr (
                    same,
                    inl (
                      gave_up,
                      (i, omega (arith, after), one_more attempts c.code_len i k before, failed),
                    ),
                  )
                  | inr (same, inr (full, all)) ↦
                      inr (same, inr (full, ((code, old, drawn, taken), all)))
                ])
        ]
      ]

  -- `Generate` of a URL that is not empty, on a `MemoryStore` and with any draws: it returns a code that was free and
  -- now resolves to the URL, while every other code resolves as before; or it leaves the store as it was, because
  -- one of the draws that these attempts may take failed, or because each of the codes of its retries and one more was taken, and then it reports that the
  -- code space is exhausted.
  pub generate_lem :
      (c : Config) (url : List ℕ) (k : ℕ) (m : List (List ℕ × List ℕ))
      → 0 < length url
      → IsOutcome c url (suc c.retries) k m (generate (save dec) draw c url k m)
  unfolding generate
  generate_lem c url k m some_url =
      let given : length url == 0 ≡ false = ground (arith, some_url) in
      subst (IsOutcome c url (suc c.retries) k m) (rw given refl)
        (generate_loop-IsOutcome c url (suc c.retries) k m)
