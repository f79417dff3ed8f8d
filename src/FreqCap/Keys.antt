-- ===== src/FreqCap/Keys.antt =====
-- The table of freqcap/freqcap.go: no key twice, no more keys than `maxKeys`, and no key with more
-- events than `maxEvents`.
use kit4go.FreqCap.{
  Counter, or_nil, trim_before, trim_in_place, is_idle, evict_idle, events, grant, allow, count,
}
use kit4go.Common.Assoc.{
  DistinctKeys, lookup, put, erase_if, length-put, length-erase, length-erase_if, DistinctKeys-put,
  DistinctKeys-erase, DistinctKeys-erase_if, DistinctKeys-map_values, length-map_values,
}
use kit4go.Common.{
  ℕ, suc, ◌≤◌, ◌<◌, ◌≡◌, refl, ap, ◌∙◌, inl, inr, false, ◌&&◌, some, List, [], ◌∷◌, ◌++◌, arith,
  ltb, leb, ◌==◌, Bool-cases, Option-cases, length,
}

pub record IsValid {K : Type 0} (c : Counter K) : Type 0 where
  pub distinct : DistinctKeys c.keys
  pub within : (0 < c.max_keys) → length c.keys ≤ c.max_keys

module _ {K : Type 0} (dec : Discrete K) where
  pub events-known :
      (k : K) (c : Counter K) {ts : List ℕ} → lookup dec k c.keys ≡ some ts → events dec k c ≡ ts
  unfolding events or_nil
  events-known k c known = ap or_nil known

  -- A key with an event in its window is in the table, so that writing it adds none.
  length-put_known :
      (k : K) (w now : ℕ) (ts : List ℕ) (c : Counter K)
      → 0 < length (trim_before w now (events dec k c))
      → length (put dec k ts c.keys) ≡ length c.keys
  unfolding events or_nil trim_before
  length-put_known k w now ts c h = elim (Option-cases (lookup dec k c.keys)) [
    | inl absent ↦ absurd (ground arith)
    | inr (us, known) ↦ length-put dec k ts c.keys ∙ (rw known refl)
  ]

  pub put_known-IsValid :
      (k : K) (w now : ℕ) (ts : List ℕ) {c : Counter K}
      → IsValid c
      → 0 < length (trim_before w now (events dec k c))
      → IsValid (record c { keys = put dec k ts c.keys })
  put_known-IsValid k w now ts {c} v h = record {
    distinct = DistinctKeys-put dec k ts c.keys v.distinct;
    within = λ limited. omega (arith, length-put_known k w now ts c h, v.within limited);
  }

  pub evict_idle-IsValid : (now : ℕ) {c : Counter K} → IsValid c → IsValid (evict_idle now c)
  unfolding evict_idle
  evict_idle-IsValid now {c} v = record {
    distinct =
        DistinctKeys-map_values (trim_in_place c.window now)
          (erase_if (is_idle c.window now) c.keys)
          (DistinctKeys-erase_if (is_idle c.window now) c.keys v.distinct);
    within = λ limited. omega (
      arith,
      length-map_values (trim_in_place c.window now) (erase_if (is_idle c.window now) c.keys),
      length-erase_if (is_idle c.window now) c.keys,
      v.within limited,
    );
  }

  length-put-le :
      (k : K) (ts : List ℕ) (es : List (K × List ℕ)) → length (put dec k ts es) ≤ suc (length es)
  length-put-le k ts es = ground (arith, length-put dec k ts es)

  pub grant-IsValid :
      (k : K) (now : ℕ) (ts : List ℕ) {c : Counter K}
      → IsValid c
      → (ltb 0 c.max_keys && leb c.max_keys (length c.keys)) ≡ false
      → IsValid (grant dec k now ts c)
  unfolding grant
  grant-IsValid k now ts {c} v room = record {
    distinct = DistinctKeys-put dec k (ts ++ (now ∷ [])) c.keys v.distinct;
    within = λ limited. ground (arith, length-put-le k (ts ++ (now ∷ [])) c.keys);
  }

  -- From a valid table, with a positive maximum of events, `Allow` leaves no key twice in the table and, where
  -- `maxKeys` is a limit, no more keys than it, whether it allows the event or not.
  pub allow-IsValid :
      (k : K) (now : ℕ) {c : Counter K}
      → 0 < c.max_events
      → IsValid c
      → IsValid (allow dec k now c).1
  unfolding allow
  allow-IsValid k now {c} some_event v =
      let trimmed = trim_before c.window now (events dec k c) in
      let c' = evict_idle now c in
      elim (Bool-cases (leb c.max_events (length trimmed))) [
        | inl full ↦ rw full (put_known-IsValid k c.window now trimmed v (ground arith))
        | inr more ↦ rw more (elim (Bool-cases (length trimmed == 0)) [
          | inr known ↦
              rw known (put_known-IsValid k c.window now (trimmed ++ (now ∷ [])) v (ground arith))
          | inl idle ↦
              rw idle (elim (Bool-cases (ltb 0 c.max_keys && leb c.max_keys (length c'.keys))) [
                | inl no_room ↦ rw no_room (evict_idle-IsValid now v)
                | inr room ↦ rw room (grant-IsValid k now trimmed (evict_idle-IsValid now v) room)
              ])
        ])
      ]

  pub count-IsValid : (k : K) (now : ℕ) {c : Counter K} → IsValid c → IsValid (count dec k now c).1
  unfolding count
  count-IsValid k now {c} v = elim (Option-cases (lookup dec k c.keys)) [
    | inl absent ↦ rw (absent, count) v
    | inr (ts, known) ↦
        rw (known, count)
          (elim (Bool-cases (length (trim_before c.window now ts) == 0)) [
            | inl idle ↦ rw idle (record {
              distinct = DistinctKeys-erase dec k c.keys v.distinct;
              within = λ limited. omega (arith, length-erase dec k c.keys, v.within limited);
            })
            | inr live ↦ rw live (
                put_known-IsValid k c.window now (trim_before c.window now ts) v
                  (rw (events-known k c known) (ground arith)))
          ])
  ]
