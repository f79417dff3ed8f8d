-- ===== src/Lru/Tests.antt =====
-- A full cache of two entries.
use kit4go.Lru.{Entry, Cache, resize, find, set_entry, get}
use kit4go.Lru.Valid.{updates-IsValid, IsValid}
use kit4go.Lru.Lookup.{get-set_entry, set_entry-keeps}
use kit4go.Common.Int.{pos}
use kit4go.Common.{
  ℕ, ◌+◌, ◌≤◌, ◌<◌, ◌≡◌, refl, ◌⊎◌, inr, true, none, some, List, [], ◌∷◌, ◌++◌, arith, ℕ_discrete,
  length,
}

abbrev entry : ℕ → ℕ → Entry ℕ ℕ
entry k x = record { key = k; value = x; expires_at = none }

abbrev full : Cache ℕ ℕ
full = record {
  entries = entry 1 10 ∷ entry 2 20 ∷ [];
  max_size = pos 2;
  ttl = pos 0;
  has_callback = true;
}

full-IsValid : IsValid full
full-IsValid = record { distinct = ground arith; within = inr (omega arith) }

updates-IsValid_example :
    IsValid (set_entry ℕ_discrete 3 30 (pos 5) 100 full).0
    × ((set_entry ℕ_discrete 3 30 (pos 5) 100 full).0.max_size ≡ pos 2)
    × IsValid (resize (pos 1) full).0
    × ((resize (pos 1) full).0.max_size ≡ pos 1)
updates-IsValid_example = updates-IsValid ℕ_discrete 3 full full-IsValid 30 (pos 5) 100 (pos 1)

set_entry-keeps_example :
    let (c', out) = set_entry ℕ_discrete 3 30 (pos 5) 100 full in
    (find ℕ_discrete 1 c'.entries ≡ some (entry 1 10))
    ⊎ ((find ℕ_discrete 3 full.entries ≡ none)
        × (0 < 2)
        × (2 ≤ length full.entries)
        × ((front : List (Entry ℕ ℕ)) × (full.entries ≡ front ++ (entry 1 10 ∷ [])))
        × (out ≡ entry 1 10 ∷ []))
unfolding find ℕ_discrete
set_entry-keeps_example =
    set_entry-keeps ℕ_discrete 3 30 (pos 5) 100 full 1 (entry 1 10) (ground arith) refl

get-set_entry_example :
    let answer = (get ℕ_discrete 3 106 (set_entry ℕ_discrete 3 30 (pos 5) 100 full).0).0 in
    ((answer ≡ none) × (0 < 5) × (100 + 5 < 106))
    ⊎ ((answer ≡ some 30) × ((◌≡◌ {A = ℕ} 5 0) ⊎ (106 ≤ 100 + 5)))
get-set_entry_example = get-set_entry ℕ_discrete 3 30 (pos 5) 100 106 full
