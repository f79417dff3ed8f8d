-- ===== src/FreqCap/Tracks.antt =====
-- The times at which events of a key were allowed, and what the table of freqcap/freqcap.go keeps of them.
use mathlib.Core.Logic.{ite, if_pos, if_neg}
use kit4go.FreqCap.{Counter, or_nil, trim_before, trim_in_place, is_idle, evict_idle, events, grant}
use kit4go.FreqCap.Window.{
  recent, recent-trim_before, recent-append, recent-cons, recent-is_idle, recent-trim_in_place,
  length-trim_in_place,
}
use kit4go.FreqCap.Keys.{IsValid}
use kit4go.Common.Assoc.{
  DistinctKeys, DistinctKeys-erase, length-erase, lookup, put, erase, erase_if, lookup-put_self,
  lookup-put_ne, lookup-erase_self, lookup-erase_ne, lookup-erase_if, lookup-map_values,
}
use kit4go.Common.{
  ℕ, ◌≤◌, ◌<◌, ◌≡◌, refl, sym, ap, ◌≢◌, inl, inr, Option, none, some, List, [], ◌∷◌, ◌++◌, arith,
  if◌then◌else◌, Bool-cases, length, length-append, subst,
}

-- the counter that `New` makes
abbrev pub empty_counter : {K : Type 0} → ℕ → ℕ → ℕ → Counter K
empty_counter window most max_keys = record {
  window = window;
  max_events = most;
  max_keys = max_keys;
  keys = [];
}

module _ {K : Type 0} (dec : Discrete K) where
  -- the times at which events of a key were allowed
  unfoldable pub logged : K → List (K × ℕ) → List ℕ
  logged k [] = []
  logged k (e ∷ log) = let rest = logged k log in ite (dec e.0 k) (e.1 ∷ rest) rest

  -- what the table holds of a key, against what was allowed
  pub record Tracks (window most now : ℕ) (log : List (K × ℕ)) (c : Counter K) : Type 0 where
    pub same_window : c.window ≡ window
    pub same_most : c.max_events ≡ most
    pub kept :
        (k : K) (later : ℕ)
        → now ≤ later
        → recent window later (logged k log) ≤ recent window later (events dec k c)
    pub few : (k : K) → length (events dec k c) ≤ most
    pub valid : IsValid c

  events-put_self :
      (k : K) (ts : List ℕ) (c : Counter K)
      → events dec k (record c { keys = put dec k ts c.keys }) ≡ ts
  unfolding events or_nil
  events-put_self k ts c = ap or_nil (lookup-put_self dec k ts c.keys)

  events-put_ne :
      (j k : K) (ts : List ℕ) (c : Counter K)
      → j ≢ k
      → events dec j (record c { keys = put dec k ts c.keys }) ≡ events dec j c
  unfolding events or_nil
  events-put_ne j k ts c ne = ap or_nil (lookup-put_ne dec j k ts c.keys ne)

  events-erase_self :
      (k : K) (c : Counter K) → events dec k (record c { keys = erase dec k c.keys }) ≡ []
  unfolding events or_nil
  events-erase_self k c = ap or_nil (lookup-erase_self dec k c.keys)

  events-erase_ne :
      (j k : K) (c : Counter K)
      → j ≢ k
      → events dec j (record c { keys = erase dec k c.keys }) ≡ events dec j c
  unfolding events or_nil
  events-erase_ne j k c ne = ap or_nil (lookup-erase_ne dec j k c.keys ne)

  -- Evicting the idle keys forgets no event that a later window can hold.
  events-evict_idle :
      (k : K) (now later : ℕ) (c : Counter K)
      → DistinctKeys c.keys
      → now ≤ later
      → (recent c.window later (events dec k c)
          ≤ recent c.window later (events dec k (evict_idle now c)))
        × (length (events dec k (evict_idle now c)) ≤ length (events dec k c))
  unfolding events or_nil evict_idle recent
  events-evict_idle k now later c d le =
      let p = is_idle c.window now in
      let f = trim_in_place c.window now in
      subst
        (λ o.
          (recent c.window later (or_nil (lookup dec k c.keys)) ≤ recent c.window later (or_nil o))
          × (length (or_nil o) ≤ length (or_nil (lookup dec k c.keys))))
        (sym (lookup-map_values dec f k (erase_if p c.keys)))
        (subst
          (λ o.
            let o' : Option (List ℕ) = elim o [ none ↦ none | some ts ↦ some (f ts) ] in
            (recent c.window later (or_nil (lookup dec k c.keys))
              ≤ recent c.window later (or_nil o'))
            × (length (or_nil o') ≤ length (or_nil (lookup dec k c.keys))))
          (sym (lookup-erase_if dec p k c.keys d)) (kept_part (lookup dec k c.keys)))
    where
      kept_part :
          (o : Option (List ℕ))
          → let o' : Option (List ℕ) = elim o [
            | none ↦ none
            | some ts ↦ if is_idle c.window now ts then none else some ts
          ] in
            let o'' : Option (List ℕ) = elim o' [
              | none ↦ none
              | some ts ↦ some (trim_in_place c.window now ts)
            ] in
            (recent c.window later (or_nil o) ≤ recent c.window later (or_nil o''))
            × (length (or_nil o'') ≤ length (or_nil o))
      kept_part none = (omega arith, omega arith)
      kept_part (some ts) = elim (Bool-cases (is_idle c.window now ts)) [
        | inl idle ↦
            rw idle (omega (arith, recent-is_idle c.window now later ts le idle), omega arith)
        | inr live ↦ rw live (
          recent-trim_in_place c.window now later ts le,
          omega (arith, length-trim_in_place c.window now ts),
        )
      ]

  pub advance-Tracks :
      (window most now now' : ℕ) (log : List (K × ℕ)) (c : Counter K)
      → now ≤ now'
      → Tracks window most now log c
      → Tracks window most now' log c
  advance-Tracks window most now now' log c le t = record {
    same_window = t.same_window;
    same_most = t.same_most;
    kept = λ k later le'. t.kept k later (omega arith);
    few = t.few;
    valid = t.valid;
  }

  pub evict-Tracks :
      (window most now : ℕ) (log : List (K × ℕ)) (c : Counter K)
      → IsValid (evict_idle now c)
      → Tracks window most now log c
      → Tracks window most now log (evict_idle now c)
  unfolding evict_idle
  evict-Tracks window most now log c valid t = record {
    same_window = t.same_window;
    same_most = t.same_most;
    kept = λ k later le. omega (
      arith,
      subst
          (λ w. recent w later (events dec k c) ≤ recent w later (events dec k (evict_idle now c)))
          t.same_window (events-evict_idle k now later c t.valid.distinct le).0,
      t.kept k later le,
    );
    few = λ k.
        omega (arith, (events-evict_idle k now now c t.valid.distinct (omega arith)).1, t.few k);
    valid = valid;
  }

  -- a write of a slice that holds what was allowed for the key
  pub put-Tracks :
      (window most now : ℕ) (log log' : List (K × ℕ)) (c : Counter K) (k : K) (ts : List ℕ)
      → IsValid (record c { keys = put dec k ts c.keys })
      → ((later : ℕ) → now ≤ later → recent window later (logged k log') ≤ recent window later ts)
      → length ts ≤ most
      → ((j : K) → j ≢ k → logged j log' ≡ logged j log)
      → Tracks window most now log c
      → Tracks window most now log' (record c { keys = put dec k ts c.keys })
  put-Tracks window most now log log' c k ts valid here short others t = record {
    same_window = t.same_window;
    same_most = t.same_most;
    kept = λ j later le. elim (dec j k) [
      | yes e ↦
          subst
            (λ j.
              recent window later (logged j log')
              ≤ recent window later (events dec j (record c { keys = put dec k ts c.keys })))
            (sym e)
            (omega (arith, ap (recent window later) (events-put_self k ts c), here later le))
      | no ne ↦ omega (
        arith,
        ap (recent window later) (events-put_ne j k ts c ne),
        t.kept j later le,
        ap (recent window later) (others j ne),
      )
    ];
    few = λ j. elim (dec j k) [
      | yes e ↦
          subst (λ j. length (events dec j (record c { keys = put dec k ts c.keys })) ≤ most)
            (sym e) (omega (arith, ap (λ l. length l) (events-put_self k ts c)))
      | no ne ↦ omega (arith, ap (λ l. length l) (events-put_ne j k ts c ne), t.few j)
    ];
    valid = valid;
  }

  -- a key that no later window holds an event of is dropped
  pub erase-Tracks :
      (window most now : ℕ) (log : List (K × ℕ)) (c : Counter K) (k : K)
      → ((later : ℕ) → now ≤ later → recent window later (logged k log) ≡ 0)
      → Tracks window most now log c
      → Tracks window most now log (record c { keys = erase dec k c.keys })
  unfolding recent
  erase-Tracks window most now log c k gone t = record {
    same_window = t.same_window;
    same_most = t.same_most;
    kept = λ j later le. elim (dec j k) [
      | yes e ↦
          subst
            (λ j.
              recent window later (logged j log)
              ≤ recent window later (events dec j (record c { keys = erase dec k c.keys })))
            (sym e) (omega (arith, gone later le))
      | no ne ↦
          omega (arith, ap (recent window later) (events-erase_ne j k c ne), t.kept j later le)
    ];
    few = λ j. elim (dec j k) [
      | yes e ↦
          subst (λ j. length (events dec j (record c { keys = erase dec k c.keys })) ≤ most) (sym e)
            (omega (arith, ap (λ l. length l) (events-erase_self k c)))
      | no ne ↦ omega (arith, ap (λ l. length l) (events-erase_ne j k c ne), t.few j)
    ];
    valid = record {
      distinct = DistinctKeys-erase dec k c.keys t.valid.distinct;
      within = λ limited. omega (arith, length-erase dec k c.keys, t.valid.within limited);
    };
  }

  logged_self :
      (k : K) (now : ℕ) (log : List (K × ℕ)) → logged k ((k, now) ∷ log) ≡ now ∷ logged k log
  unfolding logged
  logged_self k now log = if_pos (dec k k) refl _ _

  logged-other :
      (j k : K) (now : ℕ) (log : List (K × ℕ)) → j ≢ k → logged j ((k, now) ∷ log) ≡ logged j log
  unfolding logged
  logged-other j k now log ne = if_neg (dec k j) (λ e. ne (sym e)) _ _

  pub trimmed_kept :
      (window most now later : ℕ) (log : List (K × ℕ)) (c : Counter K) (k : K)
      → now ≤ later
      → Tracks window most now log c
      → recent window later (logged k log)
        ≤ recent window later (trim_before c.window now (events dec k c))
  trimmed_kept window most now later log c k le t = omega (
    arith,
    subst
        (λ w.
          recent window later (trim_before w now (events dec k c))
          ≡ recent window later (events dec k c))
        (sym t.same_window) (recent-trim_before window now later (events dec k c) le),
    t.kept k later le,
  )

  -- one more event
  pub grant-Tracks :
      (window most now : ℕ) (log : List (K × ℕ)) (c : Counter K) (k : K) (ts : List ℕ)
      → IsValid (grant dec k now ts c)
      → ((later : ℕ) → now ≤ later → recent window later (logged k log) ≤ recent window later ts)
      → length ts < most
      → Tracks window most now log c
      → Tracks window most now ((k, now) ∷ log) (grant dec k now ts c)
  unfolding grant
  grant-Tracks window most now log c k ts valid here short t =
      put-Tracks window most now log ((k, now) ∷ log) c k (ts ++ (now ∷ [])) valid
        (λ later le. omega (
          arith,
          recent-append window later ts (now ∷ []),
          here later le,
          recent-cons window later now (logged k log),
          ap (λ l. recent window later l) (logged_self k now log),
        ))
        (omega (arith, length-append ts (now ∷ []))) (λ j ne. logged-other j k now log ne) t

  pub empty-Tracks :
      (window most max_keys now : ℕ)
      → Tracks window most now [] (empty_counter window most max_keys)
  unfolding events or_nil logged lookup
  empty-Tracks window most max_keys now = record {
    same_window = refl;
    same_most = refl;
    kept = λ k later le. omega arith;
    few = λ k. omega arith;
    valid = record { distinct = tt; within = λ limited. omega arith };
  }
