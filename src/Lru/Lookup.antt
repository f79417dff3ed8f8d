-- ===== src/Lru/Lookup.antt =====
-- What a caller of `lru.Cache` can read after a call, and what leaves the cache.
use mathlib.Core.Logic.{if_pos, if_neg}
use kit4go.Lru.{
  Entry, Cache, expired, expiry_of, over_full, drop_back, reported, evict, find, set_entry, get,
}
use kit4go.Lru.Entries.{find-remove_ne}
use kit4go.Common.Int.{ℤ, pos, negsuc, pos_part}
use kit4go.Common.{
  ℕ, zero, suc, ◌+◌, ◌≤◌, ◌<◌, ◌≡◌, refl, sym, ap, ◌∙◌, ◌≢◌, ◌⊎◌, inl, inr, true, false, Option,
  none, some, List, [], ◌∷◌, ◌++◌, arith, ltb, if◌then◌else◌, ltb→lt, Bool-cases, Option-cases,
  length,
}

module _ {K V : Type 0} (dec : Discrete K) where
  -- Dropping the back element hides at most that element.
  find-drop_back :
      (j : K) (e : Entry K V) (es : List (Entry K V))
      → find dec j es ≡ some e
      → (find dec j (drop_back es).0 ≡ some e) ⊎ ((drop_back es).1 ≡ e ∷ [])
  unfolding find drop_back
  find-drop_back j e [] h = cc
  find-drop_back j e (f ∷ []) h = ground arith
  find-drop_back j e (f ∷ g ∷ es) h = ground (arith, find-drop_back j e (g ∷ es))

  -- The front element stays, if there is one behind it.
  find-drop_back_front :
      (e : Entry K V) (es : List (Entry K V))
      → 1 < length (e ∷ es)
      → find dec e.key (drop_back (e ∷ es)).0 ≡ some e
  unfolding find drop_back
  find-drop_back_front e [] h = absurd (omega arith)
  find-drop_back_front e (f ∷ es) h = if_pos (dec e.key e.key) refl _ _

  back-cons :
      (e : Entry K V) (es : List (Entry K V))
      → 1 < length (e ∷ es)
      → (drop_back (e ∷ es)).1 ≡ (drop_back es).1
  unfolding drop_back
  back-cons e [] h = absurd (omega arith)
  back-cons e (f ∷ es) h = refl

  over_full-length : (m : ℤ) (es : List (Entry K V)) → over_full m es ≡ true → 1 < length es
  unfolding over_full
  over_full-length (pos zero) es h = cc
  over_full-length (negsuc n) es h = cc
  over_full-length (pos (suc n)) es h = ground arith

  -- A new entry is one too many exactly for a cache that has as many as its size allows.
  over_full-room :
      (m : ℤ) (e : Entry K V) (es : List (Entry K V))
      → over_full m (e ∷ es) ≡ true
      → (0 < pos_part m) × (pos_part m ≤ length es)
  unfolding over_full
  over_full-room (pos zero) e es h = absurd (ground arith)
  over_full-room (negsuc n) e es h = absurd (ground arith)
  over_full-room (pos (suc n)) e es h = ground arith

  drop_back-last :
      (es : List (Entry K V)) (e : Entry K V)
      → (drop_back es).1 ≡ e ∷ []
      → es ≡ (drop_back es).0 ++ (e ∷ [])
  unfolding drop_back
  drop_back-last [] e h = absurd (ground arith)
  drop_back-last (f ∷ []) e h = h
  drop_back-last (f ∷ g ∷ es) e h =
      ap (λ (xs : List (Entry K V)). f ∷ xs) (drop_back-last (g ∷ es) e h)

  module _ (k : K) (x : V) (ttl : ℤ) (now : ℕ) (c : Cache K V) where
    abbrev pub stored : Entry K V
    stored = record { key = k; value = x; expires_at = expiry_of ttl now }

    -- After `set` the key has the new entry, also in a cache that was full.
    find-set_entry : find dec k (set_entry dec k x ttl now c).0.entries ≡ some stored
    unfolding set_entry evict
    find-set_entry = elim (Option-cases (find dec k c.entries)) [
      | inl new ↦ elim (Bool-cases (over_full c.max_size (stored ∷ c.entries))) [
        | inl over ↦
            rw (new, set_entry, over)
              (find-drop_back_front stored c.entries (over_full-length c.max_size _ over))
        | inr room ↦ rw (new, set_entry, room) (if_pos (dec k k) refl _ _)
      ]
      | inr (e, old) ↦ rw (old, set_entry) (if_pos (dec k k) refl _ _)
    ]

    -- `Set` touches no other key's entry, with one exception: if the key was new, and the cache had a positive
    -- maximum size and at least as many entries, the last one, which is the least recently used, leaves, and
    -- that entry alone is reported, if there is a callback.
    pub set_entry-keeps :
        (j : K) (e : Entry K V)
        → j ≢ k
        → find dec j c.entries ≡ some e
        → let (c', out) = set_entry dec k x ttl now c in
          (find dec j c'.entries ≡ some e)
          ⊎ ((find dec k c.entries ≡ none)
              × (0 < pos_part c.max_size)
              × (pos_part c.max_size ≤ length c.entries)
              × ((front : List (Entry K V)) × (c.entries ≡ front ++ (e ∷ [])))
              × (out ≡ (if c.has_callback then e ∷ [] else [])))
    unfolding set_entry evict reported
    set_entry-keeps j e ne h = elim (Option-cases (find dec k c.entries)) [
      | inl new ↦ elim (Bool-cases (over_full c.max_size (stored ∷ c.entries))) [
        | inl over ↦
            rw (new, set_entry, over)
              (left_or_kept new over (find-drop_back j e (stored ∷ c.entries) passed))
        | inr room ↦ rw (new, set_entry, room) (inl passed)
      ]
      | inr (e', old) ↦
          rw (old, set_entry)
            (inl (if_neg (dec k j) (λ p. ne (sym p)) _ _ ∙ find-remove_ne dec j k c.entries ne ∙ h))
    ]
      where
        passed : find dec j (stored ∷ c.entries) ≡ some e
        passed = if_neg (dec k j) (λ p. ne (sym p)) _ _ ∙ h

        left_or_kept :
            find dec k c.entries ≡ none
            → over_full c.max_size (stored ∷ c.entries) ≡ true
            → (find dec j (drop_back (stored ∷ c.entries)).0 ≡ some e)
              ⊎ ((drop_back (stored ∷ c.entries)).1 ≡ e ∷ [])
            → (find dec j (drop_back (stored ∷ c.entries)).0 ≡ some e)
              ⊎ ((◌≡◌ {A = Option (Entry K V)} none none)
                  × (0 < pos_part c.max_size)
                  × (pos_part c.max_size ≤ length c.entries)
                  × ((front : List (Entry K V)) × (c.entries ≡ front ++ (e ∷ [])))
                  × (reported c (drop_back (stored ∷ c.entries)).1
                      ≡ (if c.has_callback then e ∷ [] else [])))
        left_or_kept new over (inl kept) = inl kept
        left_or_kept new over (inr left) =
            let (some_size, full) = over_full-room c.max_size stored c.entries over in
            let back =
              sym (back-cons stored c.entries (over_full-length c.max_size _ over)) ∙ left in
            inr (
              refl,
              some_size,
              full,
              ((drop_back c.entries).0, drop_back-last c.entries e back),
              ap (λ (es : List (Entry K V)). if c.has_callback then es else []) left,
            )

  -- The new entry is dead at a later reading exactly if its time to live was positive and has passed.
  expired-stored :
      (k : K) (x : V) (ttl : ℤ) (now later : ℕ) (c : Cache K V)
      → ((expired later (stored k x ttl now c) ≡ true)
          × (0 < pos_part ttl)
          × (now + pos_part ttl < later))
        ⊎ ((expired later (stored k x ttl now c) ≡ false)
            × ((pos_part ttl ≡ 0) ⊎ (later ≤ now + pos_part ttl)))
  unfolding expired expiry_of
  expired-stored k x (pos zero) now later c = inr (refl, inl refl)
  expired-stored k x (negsuc n) now later c = inr (refl, inl refl)
  expired-stored k x (pos (suc t)) now later c = elim (Bool-cases (ltb (now + suc t) later)) [
    | inl dead ↦ inl (dead, omega arith, ltb→lt _ _ dead)
    | inr live ↦ inr (live, inr (ground arith))
  ]

  get_found :
      (k : K) (x : V) (ttl : ℤ) (now later : ℕ) (c : Cache K V)
      → (get dec k later (set_entry dec k x ttl now c).0).0
        ≡ (if expired later (stored k x ttl now c) then none else some x)
  unfolding get
  get_found k x ttl now later c =
      rw (find-set_entry k x ttl now c, get)
        (elim (Bool-cases (expired later (stored k x ttl now c))) [
          | inl dead ↦ rw dead refl
          | inr live ↦ rw live refl
        ])

  -- A `Get` after a `Set` of its key, with nothing between, returns the value if the time to live is not
  -- positive or has not passed, and nothing exactly if it is positive and has passed.
  pub get-set_entry :
      (k : K) (x : V) (ttl : ℤ) (now later : ℕ) (c : Cache K V)
      → let answer = (get dec k later (set_entry dec k x ttl now c).0).0 in
        ((answer ≡ none) × (0 < pos_part ttl) × (now + pos_part ttl < later))
        ⊎ ((answer ≡ some x) × ((pos_part ttl ≡ 0) ⊎ (later ≤ now + pos_part ttl)))
  get-set_entry k x ttl now later c = elim (expired-stored k x ttl now later c) [
    | inl (dead, some_ttl, passed) ↦
        inl (get_found k x ttl now later c ∙ rw dead refl, some_ttl, passed)
    | inr (live, within) ↦ inr (get_found k x ttl now later c ∙ rw live refl, within)
  ]
