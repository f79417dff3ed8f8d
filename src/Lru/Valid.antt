-- ===== src/Lru/Valid.antt =====
-- The invariant of `lru.Cache`: no key twice, and never more entries than `maxSize` allows.
use kit4go.Lru.{
  Entry, Cache, expired, expiry_of, over_full, drop_back, evict, evict_loop, resize, delete_expired,
  purge, find, remove, set_entry, get, peek, delete,
}
use kit4go.Lru.Entries.{
  NotIn, Distinct, length-drop_back, Distinct-drop_back, Distinct-split, length-split, NotIn-find,
  key-find, NotIn-remove_self, Distinct-remove, length-remove,
}
use kit4go.Common.Int.{ℤ, pos, negsuc, pos_part}
use kit4go.Common.{
  ℕ, zero, suc, ◌≤◌, ◌≡◌, refl, sym, ◌⊎◌, inl, inr, false, some, List, [], ◌∷◌, arith, Bool-cases,
  Option-cases, length, subst,
}

pub record IsValid {K V : Type 0} (c : Cache K V) : Type 0 where
  pub distinct : Distinct c.entries
  pub within : (pos_part c.max_size ≡ 0) ⊎ (length c.entries ≤ pos_part c.max_size)

module _ {K V : Type 0} where
  -- what the test of `evict` decides
  in_size :
      (m : ℤ) (es : List (Entry K V))
      → over_full m es ≡ false
      → (pos_part m ≡ 0) ⊎ (length es ≤ pos_part m)
  unfolding over_full
  in_size (pos zero) es h = inl refl
  in_size (negsuc n) es h = inl refl
  in_size (pos (suc n)) es h = inr (ground arith)

  not_over :
      (m : ℤ) (es : List (Entry K V))
      → (pos_part m ≡ 0) ⊎ (length es ≤ pos_part m)
      → over_full m es ≡ false
  unfolding over_full
  not_over (pos zero) es h = refl
  not_over (negsuc n) es h = refl
  not_over (pos (suc n)) es (inl h) = absurd (omega arith)
  not_over (pos (suc n)) es (inr h) = ground arith

  room : {c : Cache K V} → IsValid c → over_full c.max_size c.entries ≡ false
  room {c} v = not_over c.max_size c.entries v.within

  over_full-anti :
      (m : ℤ) (es fs : List (Entry K V))
      → length fs ≤ length es
      → over_full m es ≡ false
      → over_full m fs ≡ false
  unfolding over_full
  over_full-anti (pos zero) es fs h e = refl
  over_full-anti (negsuc n) es fs h e = refl
  over_full-anti (pos (suc n)) es fs h e = ground arith

  none_over : (m : ℤ) (es : List (Entry K V)) → length es ≤ 0 → over_full m es ≡ false
  unfolding over_full
  none_over (pos zero) es h = refl
  none_over (negsuc n) es h = refl
  none_over (pos (suc n)) es h = ground arith

  -- one entry over the limit is one eviction away from it
  over_full-drop_back :
      (m : ℤ) (e : Entry K V) (es : List (Entry K V))
      → over_full m es ≡ false
      → over_full m (drop_back (e ∷ es)).0 ≡ false
  over_full-drop_back m e es h = over_full-anti m es _ (omega (arith, length-drop_back (e ∷ es))) h

  -- `n` rounds are enough for the loop of `Resize` to bring `n` entries into the limit.
  pub evict_loop-IsValid :
      (n : ℕ) (c : Cache K V)
      → length c.entries ≤ n
      → Distinct c.entries
      → IsValid (evict_loop n c).0
  unfolding evict_loop over_full
  evict_loop-IsValid zero c h d = record {
    distinct = d;
    within = in_size c.max_size c.entries (none_over c.max_size c.entries h);
  }
  evict_loop-IsValid (suc n) c h d = elim (Bool-cases (over_full c.max_size c.entries)) [
    | inl over ↦ rw over (
        evict_loop-IsValid n (evict c).0 (omega (arith, length-drop_back c.entries))
          (Distinct-drop_back c.entries d))
    | inr fine ↦ rw fine (record { distinct = d; within = in_size c.max_size c.entries fine })
  ]

  pub resize-IsValid : (n : ℤ) (c : Cache K V) → IsValid c → IsValid (resize n c).0
  unfolding resize
  resize-IsValid n c v = evict_loop-IsValid (length c.entries) _ (omega arith) v.distinct

  pub delete_expired-IsValid :
      (now : ℕ) (c : Cache K V) → IsValid c → IsValid (delete_expired now c).0
  unfolding delete_expired
  delete_expired-IsValid now c v = record {
    distinct = Distinct-split now c.entries v.distinct;
    within = in_size c.max_size _ (
        over_full-anti c.max_size c.entries _ (omega (arith, length-split now c.entries)) (room v));
  }

  pub purge-IsValid : (c : Cache K V) → IsValid c → IsValid (purge c).0
  unfolding purge
  purge-IsValid c v = record {
    distinct = tt;
    within = in_size c.max_size [] (over_full-anti c.max_size c.entries [] (omega arith) (room v));
  }

module _ {K V : Type 0} (dec : Discrete K) (k : K) {c : Cache K V} (v : IsValid c) where
  removed-IsValid :
      (e : Entry K V)
      → find dec k c.entries ≡ some e
      → IsValid (record c { entries = remove dec k c.entries })
  removed-IsValid e h = record {
    distinct = Distinct-remove dec k c.entries v.distinct;
    within = in_size c.max_size _ (
        over_full-anti c.max_size c.entries (remove dec k c.entries)
          (omega (arith, length-remove dec k c.entries e h)) (room v));
  }

  -- an entry of the key put at the front, in place of the one that was there
  moved-IsValid :
      (e f : Entry K V)
      → find dec k c.entries ≡ some e
      → f.key ≡ k
      → IsValid (record c { entries = f ∷ remove dec k c.entries })
  moved-IsValid e f h p = record {
    distinct = (
      subst (λ j. NotIn j (remove dec k c.entries)) (sym p)
          (NotIn-remove_self dec k c.entries v.distinct),
      Distinct-remove dec k c.entries v.distinct,
    );
    within = in_size c.max_size _ (
        over_full-anti c.max_size c.entries (f ∷ remove dec k c.entries)
          (omega (arith, length-remove dec k c.entries e h)) (room v));
  }

  pub set_entry-IsValid : (x : V) (ttl : ℤ) (now : ℕ) → IsValid (set_entry dec k x ttl now c).0
  unfolding set_entry
  set_entry-IsValid x ttl now = elim (Option-cases (find dec k c.entries)) [
    | inl new ↦
        rw (new, set_entry)
          (elim (Bool-cases (over_full c.max_size (f ∷ c.entries))) [
            | inl over ↦ rw over (record {
              distinct =
                  Distinct-drop_back (f ∷ c.entries) (NotIn-find dec k c.entries new, v.distinct);
              within = in_size c.max_size _ (over_full-drop_back c.max_size f c.entries (room v));
            })
            | inr fits ↦ rw fits (record {
              distinct = (NotIn-find dec k c.entries new, v.distinct);
              within = in_size c.max_size _ fits;
            })
          ])
    | inr (e, old) ↦ rw (old, set_entry) (moved-IsValid e f old refl)
  ]
    where
      f : Entry K V
      f = record { key = k; value = x; expires_at = expiry_of ttl now }

  pub get-IsValid : (now : ℕ) → IsValid (get dec k now c).1
  unfolding get
  get-IsValid now = elim (Option-cases (find dec k c.entries)) [
    | inl new ↦ rw (new, get) v
    | inr (e, old) ↦
        rw (old, get)
          (elim (Bool-cases (expired now e)) [
            | inl dead ↦ rw dead (removed-IsValid e old)
            | inr live ↦ rw live (moved-IsValid e e old (key-find dec k c.entries e old))
          ])
  ]

  pub peek-IsValid : (now : ℕ) → IsValid (peek dec k now c).1
  unfolding peek
  peek-IsValid now = elim (Option-cases (find dec k c.entries)) [
    | inl new ↦ rw (new, peek) v
    | inr (e, old) ↦
        rw (old, peek)
          (elim (Bool-cases (expired now e)) [
            | inl dead ↦ rw dead (removed-IsValid e old)
            | inr live ↦ rw live v
          ])
  ]

  pub delete-IsValid : IsValid (delete dec k c).1
  unfolding delete
  delete-IsValid = elim (Option-cases (find dec k c.entries)) [
    | inl new ↦ rw (new, delete) v
    | inr (e, old) ↦ rw (old, delete) (removed-IsValid e old)
  ]

evict_loop-max_size :
    {K V : Type 0} (n : ℕ) (c : Cache K V) → (evict_loop n c).0.max_size ≡ c.max_size
unfolding evict_loop evict
evict_loop-max_size zero c = refl
evict_loop-max_size (suc n) c = elim (Bool-cases (over_full c.max_size c.entries)) [
  | inl over ↦ rw over (evict_loop-max_size n (evict c).0)
  | inr fine ↦ rw fine refl
]

set_entry-max_size :
    {K V : Type 0} (dec : Discrete K) (k : K) (c : Cache K V) (x : V) (ttl : ℤ) (now : ℕ)
    → (set_entry dec k x ttl now c).0.max_size ≡ c.max_size
unfolding set_entry evict
set_entry-max_size dec k c x ttl now = elim (Option-cases (find dec k c.entries)) [
  | inl new ↦
      rw (new, set_entry)
        (elim (Bool-cases (
          over_full c.max_size
            (record { key = k; value = x; expires_at = expiry_of ttl now } ∷ c.entries))) [
              | inl over ↦ rw over refl
              | inr fits ↦ rw fits refl
            ])
  | inr (e, old) ↦ rw (old, set_entry) refl
]

-- Setting a key of a valid cache, and resizing it, leave a valid one: no key twice and, where the maximum size is
-- positive, no more entries than it. The maximum size is the one before for `Set`, and the new one for `Resize`.
pub updates-IsValid :
    {K V : Type 0} (dec : Discrete K) (k : K) (c : Cache K V)
    → IsValid c
    → (x : V) (ttl : ℤ) (now : ℕ) (n : ℤ)
    → IsValid (set_entry dec k x ttl now c).0
      × ((set_entry dec k x ttl now c).0.max_size ≡ c.max_size)
      × IsValid (resize n c).0
      × ((resize n c).0.max_size ≡ n)
unfolding resize
updates-IsValid dec k c v x ttl now n = (
  set_entry-IsValid dec k v x ttl now,
  set_entry-max_size dec k c x ttl now,
  resize-IsValid n c v,
  evict_loop-max_size (length c.entries) _,
)
