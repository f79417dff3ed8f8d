-- ===== src/Lru.antt =====
-- `lru.Cache[K, V]` of lru/lru.go. `entries` is the linked list `ll`, most recently used first; the map
-- `items` finds an element of `ll` by its key, and the code changes the two together, so a lookup is a
-- search of the list. A method returns the new cache and what it hands to `onEvicted`, empty where no
-- callback is set. Go ranges over a map in any order: `delete_expired` and `purge` report in list order.
-- Times are nanoseconds since the epoch; `none` is the zero time, which never expires.
use mathlib.Core.Logic.{ite}
use kit4go.Common.Int.{ℤ, pos, negsuc}
use kit4go.Common.{
  ℕ, zero, suc, ◌+◌, Bool, true, false, Option, none, some, List, [], ◌∷◌, ◌++◌, map, ltb,
  if◌then◌else◌, length,
}
mod Tests
pub mod Entries
pub mod Valid
pub mod Lookup

pub record Entry (K V : Type 0) : Type 0 where
  pub key : K
  pub value : V
  pub expires_at : Option ℕ

pub record Cache (K V : Type 0) : Type 0 where
  pub entries : List (Entry K V)
  pub max_size : ℤ
  pub ttl : ℤ
  pub has_callback : Bool

-- the expiry that `set` gives an entry
unfoldable pub expiry_of : ℤ → ℕ → Option ℕ
expiry_of (pos zero) now = none
expiry_of (pos (suc t)) now = some (now + suc t)
expiry_of (negsuc t) now = none

module _ {K V : Type 0} where
  -- `entry.expired(now)`
  unfoldable pub expired : ℕ → Entry K V → Bool
  expired now e = elim e.expires_at [ none ↦ false | some t ↦ ltb t now ]

  -- `ll.Len() > maxSize` with `maxSize > 0`
  unfoldable pub over_full : ℤ → List (Entry K V) → Bool
  over_full (pos zero) es = false
  over_full (negsuc n) es = false
  over_full (pos (suc n)) es = ltb (suc n) (length es)

  -- the list without its back element, and that element
  unfoldable pub drop_back : List (Entry K V) → List (Entry K V) × List (Entry K V)
  drop_back [] = ([], [])
  drop_back (e ∷ []) = ([], e ∷ [])
  drop_back (e ∷ f ∷ es) = let (rest, back) = drop_back (f ∷ es) in (e ∷ rest, back)

  -- what `removeElement` appends to `*evicted`
  unfoldable pub reported : Cache K V → List (Entry K V) → List (Entry K V)
  reported c es = if c.has_callback then es else []

  -- `evict`
  unfoldable pub evict : Cache K V → Cache K V × List (Entry K V)
  unfolding drop_back reported
  evict c = let (rest, back) = drop_back c.entries in (record c { entries = rest }, reported c back)

  -- the loop of `Resize`, with a round for each entry; also the number of evictions
  unfoldable pub evict_loop : ℕ → Cache K V → Cache K V × List (Entry K V) × ℕ
  unfolding evict over_full
  evict_loop zero c = (c, [], 0)
  evict_loop (suc n) c =
      let (c', out) = evict c in
      let (c'', outs, count) = evict_loop n c' in
      if over_full c.max_size c.entries then (c'', out ++ outs, suc count) else (c, [], 0)

  unfoldable pub resize : ℤ → Cache K V → Cache K V × List (Entry K V) × ℕ
  unfolding evict_loop
  resize n c = evict_loop (length c.entries) (record c { max_size = n })

  -- the entries that `DeleteExpired` keeps, and those that it removes
  unfoldable pub split_expired : ℕ → List (Entry K V) → List (Entry K V) × List (Entry K V)
  unfolding expired
  split_expired now [] = ([], [])
  split_expired now (e ∷ es) =
      let (live, dead) = split_expired now es in
      if expired now e then (live, e ∷ dead) else (e ∷ live, dead)

  unfoldable pub delete_expired : ℕ → Cache K V → Cache K V × List (Entry K V) × ℕ
  unfolding split_expired reported
  delete_expired now c =
      let (live, dead) = split_expired now c.entries in
      (record c { entries = live }, reported c dead, length dead)

  unfoldable pub purge : Cache K V → Cache K V × List (Entry K V)
  unfolding reported
  purge c = (record c { entries = [] }, reported c c.entries)

  unfoldable pub len : Cache K V → ℕ
  len c = length c.entries

  unfoldable pub keys : Cache K V → List K
  keys c = map (λ e. e.key) c.entries

module _ {K V : Type 0} (dec : Discrete K) where
  -- the element that the map holds for a key
  unfoldable pub find : K → List (Entry K V) → Option (Entry K V)
  find k [] = none
  find k (e ∷ es) = ite (dec e.key k) (some e) (find k es)

  -- `removeElement` of that element
  unfoldable pub remove : K → List (Entry K V) → List (Entry K V)
  remove k [] = []
  remove k (e ∷ es) = ite (dec e.key k) es (e ∷ remove k es)

  -- `set(key, value, ttl)` at a clock reading
  unfoldable pub set_entry : K → V → ℤ → ℕ → Cache K V → Cache K V × List (Entry K V)
  unfolding find remove evict over_full expiry_of
  set_entry k v ttl now c =
      let new : Entry K V = record { key = k; value = v; expires_at = expiry_of ttl now } in
      elim (find k c.entries) [
        | some e ↦ (record c { entries = new ∷ remove k c.entries }, [])
        | none ↦
            let c' = record c { entries = new ∷ c.entries } in
            if over_full c.max_size (new ∷ c.entries) then evict c' else (c', [])
      ]

  unfoldable pub get : K → ℕ → Cache K V → Option V × Cache K V × List (Entry K V)
  unfolding find remove expired reported
  get k now c = elim (find k c.entries) [
    | none ↦ (none, c, [])
    | some e ↦
        if expired now e
        then (none, record c { entries = remove k c.entries }, reported c (e ∷ []))
        else (some e.value, record c { entries = e ∷ remove k c.entries }, [])
  ]

  unfoldable pub peek : K → ℕ → Cache K V → Option V × Cache K V × List (Entry K V)
  unfolding find remove expired reported
  peek k now c = elim (find k c.entries) [
    | none ↦ (none, c, [])
    | some e ↦
        if expired now e
        then (none, record c { entries = remove k c.entries }, reported c (e ∷ []))
        else (some e.value, c, [])
  ]

  unfoldable pub delete : K → Cache K V → Bool × Cache K V × List (Entry K V)
  unfolding find remove reported
  delete k c = elim (find k c.entries) [
    | none ↦ (false, c, [])
    | some e ↦ (true, record c { entries = remove k c.entries }, reported c (e ∷ []))
  ]

  -- `Set`, with the cache's own time to live; `SetWithTTL` is `set_entry`
  unfoldable pub set_default : K → V → ℕ → Cache K V → Cache K V × List (Entry K V)
  set_default k v now c = set_entry k v c.ttl now c

  unfoldable pub contains : K → ℕ → Cache K V → Bool × Cache K V × List (Entry K V)
  contains k now c =
      let (v, c', out) = peek k now c in (elim v [ some x ↦ true | none ↦ false ], c', out)
