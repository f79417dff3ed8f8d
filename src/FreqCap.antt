-- ===== src/FreqCap.antt =====
-- `freqcap.Counter` of freqcap/freqcap.go. The map of keys is an association list; a clock reading is a
-- number of nanoseconds, and `t.Before(now.Add(-window))` is `t + window < now`. `New` panics unless the
-- window and the maximum are positive, and makes a negative `maxKeys` 0, which is no limit.
use kit4go.Common.Assoc.{lookup, put, erase, erase_if, map_values}
use kit4go.Common.Int.{ℤ, pos, negsuc, pos_part}
use kit4go.Common.{
  ℕ, ◌+◌, Bool, true, false, ◌&&◌, ◌||◌, Option, none, some, List, [], ◌∷◌, ◌++◌, ltb, leb, ◌==◌,
  if◌then◌else◌, length, drop,
}
pub mod Window
pub mod Keys
pub mod Tracks
pub mod Cap
mod Tests

pub record Counter (K : Type 0) : Type 0 where
  pub window : ℕ
  pub max_events : ℕ
  pub max_keys : ℕ
  pub keys : List (K × List ℕ)

-- `none` is the panic for a window or a maximum that is not positive
unfoldable pub new : {K : Type 0} → ℤ → ℤ → ℤ → Option (Counter K)
new window max_events max_keys =
    if pos_part max_events == 0 || pos_part window == 0
    then none
    else some (record {
      window = pos_part window;
      max_events = pos_part max_events;
      max_keys = pos_part max_keys;
      keys = [];
    })

-- `trimBefore`, with the cutoff as a window and a clock
unfoldable pub trim_before : ℕ → ℕ → List ℕ → List ℕ
trim_before window now [] = []
trim_before window now (t ∷ ts) =
    let rest = trim_before window now ts in if ltb (t + window) now then rest else t ∷ ts

-- a key that has no event left in its window
unfoldable pub is_idle : ℕ → ℕ → List ℕ → Bool
unfolding trim_before
is_idle window now ts = length (trim_before window now ts) == 0

-- What `trimBefore` leaves in the array of a slice that keeps its length: the kept events are copied to
-- the front, and behind them the last ones stay.
unfoldable pub trim_in_place : ℕ → ℕ → List ℕ → List ℕ
unfolding trim_before
trim_in_place window now ts = let kept = trim_before window now ts in kept ++ drop (length kept) ts

-- The slices of the keys that stay are trimmed in place and not stored again.
unfoldable pub evict_idle : {K : Type 0} → ℕ → Counter K → Counter K
unfolding is_idle trim_in_place
evict_idle now c = record c {
  keys = map_values (trim_in_place c.window now) (erase_if (is_idle c.window now) c.keys);
}

unfoldable pub len : {K : Type 0} → Counter K → ℕ
len c = length c.keys

-- the slice that a map read gives, nil if the key is absent
unfoldable pub or_nil : Option (List ℕ) → List ℕ
or_nil none = []
or_nil (some ts) = ts

module _ {K : Type 0} (dec : Discrete K) where
  unfoldable pub events : K → Counter K → List ℕ
  unfolding or_nil
  events k c = or_nil (lookup dec k c.keys)

  -- the last part of `Allow`, once the key has room
  unfoldable pub grant : K → ℕ → List ℕ → Counter K → Counter K
  grant k now trimmed c = record c { keys = put dec k (trimmed ++ (now ∷ [])) c.keys }

  unfoldable pub allow : K → ℕ → Counter K → Bool × Counter K
  unfolding events trim_before evict_idle grant
  allow k now c =
      let trimmed = trim_before c.window now (events k c) in
      if leb c.max_events (length trimmed)
      then (false, record c { keys = put dec k trimmed c.keys })
      else if length trimmed == 0
      then (let c' = evict_idle now c in
          if ltb 0 c.max_keys && leb c.max_keys (length c'.keys)
          then (false, c')
          else (true, grant k now trimmed c'))
      else (true, grant k now trimmed c)

  unfoldable pub count : K → ℕ → Counter K → ℕ × Counter K
  unfolding trim_before
  count k now c = elim (lookup dec k c.keys) [
    | none ↦ (0, c)
    | some ts ↦
        let trimmed = trim_before c.window now ts in
        if length trimmed == 0
        then (0, record c { keys = erase dec k c.keys })
        else (length trimmed, record c { keys = put dec k trimmed c.keys })
  ]

  unfoldable pub reset : K → Counter K → Counter K
  reset k c = record c { keys = erase dec k c.keys }
